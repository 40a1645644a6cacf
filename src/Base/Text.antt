-- ===== src/Base/Text.antt =====
-- Text that a program walks: the bytes of its UTF-8 encoding.
use Prim.Native.Char.{code}
use Prim.Native.String.{String}
use Prim.Native.Nat.{ℕ, ◌<◌}
use mathlib.Core.Path.{◌≡◌, refl, ap, ◌∙◌}
use mathlib.Core.Logic.{◌↔◌}
use mathlib.Core.Bool.{Bool, true, false, ◌&&◌, not}
use mathlib.Core.List.{List, [], ◌∷◌, ◌++◌}
use mathlib.Core.Option.{Option, none, some}
use native.Mathlib.Omega.{arith}
use balotly_backend.Base.Lists.{All}
use balotly_backend.Base.Tests.{eqb, if◌then◌else◌}

abbrev pub Text : Type 0
Text = List ℕ

-- Every number is a byte.
abbrev pub IsBytes : Text → Type 0
IsBytes = All (λ b. b < 256)

-- An ASCII literal.
abbrev pub codes : String → Text
codes String.[] = []
codes (String.◌∷◌ c s) = code c ∷ codes s

abbrev pub same_text : Text → Text → Bool
same_text [] [] = true
same_text (a ∷ s) (b ∷ t) = eqb a b && same_text s t
same_text s t = false

pub same_text_iff : (s t : Text) → (same_text s t ≡ true) ↔ (s ≡ t)
same_text_iff [] [] = (λ h. refl, λ e. refl)
same_text_iff [] (b ∷ t) = (λ h. cc, λ e. cc)
same_text_iff (a ∷ s) [] = (λ h. cc, λ e. cc)
same_text_iff (a ∷ s) (b ∷ t) = ground (arith, same_text_iff s t)

-- The text has no such byte.
abbrev pub lacks : ℕ → Text → Bool
lacks c [] = true
lacks c (b ∷ t) = not (eqb b c) && lacks c t

pub lacks-append : (c : ℕ) (s t : Text) → lacks c (s ++ t) ≡ (lacks c s && lacks c t)
lacks-append c [] t = refl
lacks-append c (b ∷ s) t = ground (arith, lacks-append c s t)

-- `text.split(sep)`
abbrev push : ℕ → List Text → List Text
push c [] = (c ∷ []) ∷ []
push c (t ∷ ts) = (c ∷ t) ∷ ts

unfoldable pub split_on : ℕ → Text → List Text
split_on sep [] = [] ∷ []
split_on sep (c ∷ t) = let rest = split_on sep t in if eqb c sep then [] ∷ rest else push c rest

-- `sep.join(parts)`
unfoldable pub join : ℕ → List Text → Text
join sep [] = []
join sep (t ∷ []) = t
join sep (t ∷ u ∷ ts) = t ++ sep ∷ join sep (u ∷ ts)

abbrev pub all_lack : ℕ → List Text → Bool
all_lack c [] = true
all_lack c (t ∷ ts) = lacks c t && all_lack c ts

all_lack-push :
    (sep c : ℕ) (ts : List Text)
    → eqb c sep ≡ false
    → all_lack sep ts ≡ true
    → all_lack sep (push c ts) ≡ true
all_lack-push sep c [] h k = ground arith
all_lack-push sep c (t ∷ ts) h k = ground arith

-- The parts have no separator.
pub all_lack-split_on : (sep : ℕ) (t : Text) → all_lack sep (split_on sep t) ≡ true
unfolding split_on
all_lack-split_on sep [] = refl
all_lack-split_on sep (c ∷ t) =
    ground (arith, all_lack-split_on sep t, all_lack-push sep c (split_on sep t))

split_on-lacks : (sep : ℕ) (t : Text) → lacks sep t ≡ true → split_on sep t ≡ t ∷ []
unfolding split_on
split_on-lacks sep [] h = refl
split_on-lacks sep (c ∷ t) h = ground (arith, split_on-lacks sep t)

split_on-append :
    (sep : ℕ) (t u : Text) → lacks sep t ≡ true → split_on sep (t ++ sep ∷ u) ≡ t ∷ split_on sep u
unfolding split_on
split_on-append sep [] u h = ground arith
split_on-append sep (c ∷ t) u h = ground (arith, split_on-append sep t u)

-- Splitting takes a join of one or more parts apart again.
pub split_on-join :
    (sep : ℕ) (t : Text) (ts : List Text)
    → all_lack sep (t ∷ ts) ≡ true
    → split_on sep (join sep (t ∷ ts)) ≡ t ∷ ts
unfolding join
split_on-join sep t [] h = split_on-lacks sep t (ground arith)
split_on-join sep t (u ∷ ts) h =
    split_on-append sep t (join sep (u ∷ ts)) (ground arith)
    ∙ ap (◌∷◌ t) (split_on-join sep u ts (ground arith))

-- `text.split(sep, 1)`, as the text before the separator and what follows it, if there is one.
unfoldable pub split_first : ℕ → Text → Text × Option Text
split_first sep [] = ([], none)
split_first sep (c ∷ t) =
    let rest = split_first sep t in if eqb c sep then ([], some t) else (c ∷ rest.0, rest.1)

pub split_first-append :
    (sep : ℕ) (t u : Text) → lacks sep t ≡ true → split_first sep (t ++ sep ∷ u) ≡ (t, some u)
unfolding split_first
split_first-append sep [] u h = ground arith
split_first-append sep (c ∷ t) u h = ground (arith, split_first-append sep t u)

pub split_first-lacks : (sep : ℕ) (t : Text) → lacks sep t ≡ true → split_first sep t ≡ (t, none)
unfolding split_first
split_first-lacks sep [] h = refl
split_first-lacks sep (c ∷ t) h = ground (arith, split_first-lacks sep t)
