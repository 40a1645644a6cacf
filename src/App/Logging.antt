-- ===== src/App/Logging.antt =====
-- Logging (api/utils/logger.py, and its set-up in main.py), over the tree of loggers of Python's
-- `logging`. A logger's name is the list of its parts between the dots.
pub mod Redact
pub mod Laws
mod Tests
use balotly_backend.Base.{
  ℕ, Option, none, some, Bool, true, false, ◌&&◌, String, List, [], ◌∷◌, ◌++◌, ◌==◌, leb, string_eq,
  if◌then◌else◌,
}

abbrev pub Name : Type 0
Name = List String

abbrev pub same_name : Name → Name → Bool
same_name [] [] = true
same_name (a ∷ m) (b ∷ n) = (a == b) && same_name m n
same_name m n = false

-- The levels that were set, the latest first, the root's level, and whether the root has a handler.
pub record Loggers : Type 0 where
  pub levels : List (Name × ℕ)
  pub root_level : ℕ
  pub root_handled : Bool

abbrev pub info : ℕ
info = 20

abbrev pub warning : ℕ
warning = 30

-- `logging.getLogger(name).setLevel(level)`
abbrev pub set_level : Name → ℕ → Loggers → Loggers
set_level name level w = record w { levels = (name, level) ∷ w.levels }

-- `logging.basicConfig(level=level)`: the root's level, unless it has a handler already.
abbrev pub basic_config : ℕ → Loggers → Loggers
basic_config level w = record w {
  root_level = if w.root_handled then w.root_level else level;
  root_handled = true;
}

abbrev pub own_level : Name → List (Name × ℕ) → Option ℕ
own_level name [] = none
own_level name ((n, level) ∷ ls) = if same_name n name then some level else own_level name ls

abbrev pub or_else : Option ℕ → ℕ → ℕ
or_else none inherited = inherited
or_else (some level) inherited = level

-- From an ancestor down to the logger: each passes its level on to those that have none.
abbrev pub level_below : List (Name × ℕ) → (ancestor rest : Name) → (inherited : ℕ) → ℕ
level_below levels ancestor [] inherited = inherited
level_below levels ancestor (part ∷ rest) inherited =
    level_below levels (ancestor ++ part ∷ []) rest
      (or_else (own_level (ancestor ++ part ∷ []) levels) inherited)

-- `logger.getEffectiveLevel()`
unfoldable pub effective_level : Loggers → Name → ℕ
effective_level w name = level_below w.levels [] name w.root_level

-- `logger.isEnabledFor(level)`
unfoldable pub is_enabled : Loggers → Name → ℕ → Bool
unfolding effective_level
is_enabled w name level = leb (effective_level w name) level

abbrev pub noisy : List String
noisy = "httpx" ∷ "httpcore" ∷ "aio_pika" ∷ "aiormq" ∷ []

abbrev quieten : List String → Loggers → Loggers
quieten [] w = w
quieten (n ∷ ns) w = quieten ns (set_level (n ∷ []) warning w)

-- `silence_noisy_loggers`
unfoldable pub silence_noisy_loggers : Loggers → Loggers
silence_noisy_loggers w = quieten noisy w

-- What main.py sets up, after its import of the logger "balotly".
unfoldable pub set_up_logging : Loggers → Loggers
unfolding silence_noisy_loggers
set_up_logging w = silence_noisy_loggers (basic_config info (set_level ("balotly" ∷ []) info w))
