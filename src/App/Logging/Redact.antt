-- ===== src/App/Logging/Redact.antt =====
-- `redact` (api/utils/logger.py). A text is the list of its characters.
use mathlib.Core.List.{append_cancel_right, append_assoc}
use balotly_backend.Base.{
  eqb, true, ℕ, zero, suc, ◌+◌, ◌-◌, ◌*◌, ◌/◌, ◌%◌, ◌≤◌, ◌<◌, ◌≡◌, ◌≢◌, Option, none, some, ◌↔◌,
  refl, ap, ◌∙◌, [], ◌∷◌, ◌++◌, ltb, length, take, take_all, sym, arith, if◌then◌else◌,
}
use balotly_backend.Base.Text.{Text, codes, lacks, lacks-append}

-- `str(n)`, with more fuel than digits.
unfoldable digits : (fuel n : ℕ) → Text
digits zero n = []
digits (suc fuel) n =
    let rest = digits fuel (n / 10) in
    if ltb n 10 then (b'0' + n) ∷ [] else rest ++ (b'0' + n % 10) ∷ []

unfoldable pub decimal : ℕ → Text
unfolding digits
decimal n = digits (suc n) n

-- `f"{value[:keep]}…(len={len(value)})"`, for a keep that is not negative.
unfoldable pub redact : Option Text → (keep : ℕ) → Text
unfolding decimal
redact none keep = codes "<none>"
redact (some []) keep = codes "<none>"
redact (some (c ∷ t)) keep =
    take keep (c ∷ t) ++ 8230 ∷ (codes "(len=" ++ decimal (length (c ∷ t)) ++ codes ")")

-- The number that digits stand for.
abbrev number_from : ℕ → Text → ℕ
number_from n [] = n
number_from n (c ∷ t) = number_from (n * 10 + (c - b'0')) t

number_from-append : (n : ℕ) (s t : Text) → number_from n (s ++ t) ≡ number_from (number_from n s) t
number_from-append n [] t = refl
number_from-append n (c ∷ s) t = number_from-append (n * 10 + (c - b'0')) s t

number_from-digits : (fuel n : ℕ) → n < fuel → number_from 0 (digits fuel n) ≡ n
unfolding digits
number_from-digits zero n h = absurd (omega arith)
number_from-digits (suc fuel) n h = ground (
  arith,
  number_from-digits fuel (n / 10),
  number_from-append 0 (digits fuel (n / 10)) ((b'0' + n % 10) ∷ []),
)

number_from-decimal : (n : ℕ) → number_from 0 (decimal n) ≡ n
unfolding decimal
number_from-decimal n = number_from-digits (suc n) n (omega arith)

-- What follows the characters that are shown.
abbrev trailer : ℕ → Text
trailer n = 8230 ∷ (codes "(len=" ++ decimal n ++ codes ")")

redact-take :
    (keep : ℕ) (v : Text) → v ≢ [] → redact (some v) keep ≡ take keep v ++ trailer (length v)
unfolding redact
redact-take keep [] h = absurd (h refl)
redact-take keep (c ∷ t) h = refl

-- What follows the last c of a text.
abbrev after_last : ℕ → Text → Text
after_last c [] = []
after_last c (d ∷ t) =
    let rest = after_last c t in if eqb d c then if lacks c t then t else rest else rest

after_last-append : (c : ℕ) (t u : Text) → lacks c u ≡ true → after_last c (t ++ c ∷ u) ≡ u
after_last-append c [] u h = ground (arith, h)
after_last-append c (d ∷ t) u h =
    ground (arith, after_last-append c t u h, lacks-append c t (c ∷ u))

-- The digits of a number are followed by a bracket, and have no equals sign among them.
digits-lacks : (fuel n : ℕ) → lacks b'=' (digits fuel n) ≡ true
unfolding digits
digits-lacks zero n = refl
digits-lacks (suc fuel) n = ground (
  arith,
  digits-lacks fuel (n / 10),
  lacks-append b'=' (digits fuel (n / 10)) ((b'0' + n % 10) ∷ []),
)

decimal-lacks : (n : ℕ) → lacks b'=' (decimal n ++ codes ")") ≡ true
unfolding decimal
decimal-lacks n = ground (arith, digits-lacks (suc n) n, lacks-append b'=' (decimal n) (codes ")"))

-- The number at the end of what is logged.
after_last-trailer : (t : Text) (n : ℕ) → after_last b'=' (t ++ trailer n) ≡ decimal n ++ codes ")"
after_last-trailer t n =
    ap (after_last b'=')
      (sym (append_assoc t (8230 ∷ codes "(len") (b'=' ∷ (decimal n ++ codes ")"))))
    ∙ after_last-append b'=' (t ++ 8230 ∷ codes "(len") (decimal n ++ codes ")") (decimal-lacks n)

decimal-injective : (m n : ℕ) → decimal m ≡ decimal n → m ≡ n
decimal-injective m n e = sym (number_from-decimal m) ∙ ap (number_from 0) e ∙ number_from-decimal n

trailers : (t u : Text) (m n : ℕ) → t ++ trailer m ≡ u ++ trailer n → m ≡ n
trailers t u m n e = decimal-injective m n (
    append_cancel_right (decimal m) (decimal n) (codes ")")
      (sym (after_last-trailer t m) ∙ ap (after_last b'=') e ∙ after_last-trailer u n))

-- Of two secrets that are not empty, the log shows the same exactly if they have the same length and
-- the same first `keep` characters: it tells those, and nothing else.
pub redact_iff :
    (keep : ℕ) (v w : Text)
    → v ≢ []
    → w ≢ []
    → (redact (some v) keep ≡ redact (some w) keep)
      ↔ (length v ≡ length w) × (take keep v ≡ take keep w)
redact_iff keep v w hv hw =
    let shown_v = redact-take keep v hv in
    let shown_w = redact-take keep w hw in
    (
      λ same.
          let e = sym shown_v ∙ same ∙ shown_w in
          let long = trailers (take keep v) (take keep w) (length v) (length w) e in
          (
            long,
            append_cancel_right (take keep v) (take keep w) (trailer (length v))
                (e ∙ ap (λ n. take keep w ++ trailer n) (sym long)),
          ),
      λ (long, same).
          shown_v
          ∙ ap (λ t. t ++ trailer (length v)) same
          ∙ ap (λ n. take keep w ++ trailer n) long
          ∙ sym shown_w,
    )

-- A secret of at most `keep` characters is shown whole.
redact_short :
    (keep : ℕ) (v : Text)
    → v ≢ []
    → length v ≤ keep
    → redact (some v) keep ≡ v ++ trailer (length v)
redact_short keep v h short =
    redact-take keep v h ∙ ap (λ t. t ++ trailer (length v)) (take_all keep v short)
