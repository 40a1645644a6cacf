-- ===== src/App/Logging/Laws.antt =====
-- What may be logged: api/utils/logger.py and its set-up in main.py.
use mathlib.Core.List.{append_assoc}
use balotly_backend.Base.{
  ℕ, none, some, true, false, ◌≡◌, refl, ap, ◌∙◌, String, List, [], ◌∷◌, ◌++◌, contains, leb, arith,
  string_eq,
}
use balotly_backend.App.Logging.{
  Name, Loggers, info, warning, basic_config, own_level, or_else, level_below, is_enabled, noisy,
  silence_noisy_loggers, set_up_logging,
}

-- No logger below the ancestor has a level of its own.
abbrev pub IsBare : List (Name × ℕ) → Name → Type 0
IsBare levels ancestor =
    (part : String) (rest : Name) → own_level (ancestor ++ part ∷ rest) levels ≡ none

level_below_bare :
    (levels : List (Name × ℕ)) (ancestor rest : Name) (inherited : ℕ)
    → IsBare levels ancestor
    → level_below levels ancestor rest inherited ≡ inherited
level_below_bare levels ancestor [] inherited h = refl
level_below_bare levels ancestor (part ∷ rest) inherited h = ground (
  arith,
  h part [],
  level_below_bare levels (ancestor ++ part ∷ []) rest inherited (λ q more.
      ap (λ n. own_level n levels) (append_assoc ancestor (part ∷ []) (q ∷ more))
      ∙ h part (q ∷ more)),
)

-- The order in which main.py sets up logging makes no difference: `basicConfig` sets the level of the
-- root alone.
silence-basic_config :
    (level : ℕ) (w : Loggers)
    → silence_noisy_loggers (basic_config level w) ≡ basic_config level (silence_noisy_loggers w)
unfolding silence_noisy_loggers
silence-basic_config level w = ground arith

module _ (w : Loggers) (n : String) where
  own_level-noisy :
      contains noisy n ≡ true → own_level (n ∷ []) (set_up_logging w).levels ≡ some warning
  unfolding set_up_logging
  own_level-noisy h = ground (arith, h)

  set_up-IsBare : IsBare w.levels (n ∷ []) → IsBare (set_up_logging w).levels (n ∷ [])
  unfolding set_up_logging
  set_up-IsBare bare part rest = ground (arith, bare part rest)

  -- After the set-up, a logger of one of the noisy libraries, or one below it, logs nothing at INFO,
  -- unless a logger below the library's has a level of its own.
  pub is_enabled-set_up_logging :
      (rest : Name)
      → contains noisy n ≡ true
      → IsBare w.levels (n ∷ [])
      → is_enabled (set_up_logging w) (n ∷ rest) info ≡ false
  unfolding is_enabled
  is_enabled-set_up_logging rest h bare =
      ap (λ level. leb level info)
        (ap
            (λ o.
              level_below (set_up_logging w).levels (n ∷ []) rest
                (or_else o (set_up_logging w).root_level))
            (own_level-noisy h)
          ∙ level_below_bare (set_up_logging w).levels (n ∷ []) rest warning (set_up-IsBare bare))
