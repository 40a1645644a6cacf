-- ===== src/App/Origins.antt =====
-- The list of CORS origins that main.py makes of a setting. A text is the list of its characters;
-- which of them `str.strip` takes for spaces is a parameter.
pub mod Laws
mod Tests
use balotly_backend.Base.{ℕ, Bool, List, [], ◌∷◌, if◌then◌else◌, true, false}
use balotly_backend.Base.Text.{Text, split_on}

module _ (is_space : ℕ → Bool) where
  unfoldable pub lstrip : Text → Text
  lstrip [] = []
  lstrip (c ∷ t) = let rest = lstrip t in if is_space c then rest else c ∷ t

  -- A character before what is left of a text; a space goes where nothing is left.
  abbrev pub before_rest : ℕ → Text → Text
  before_rest c [] = if is_space c then [] else c ∷ []
  before_rest c (d ∷ rest) = c ∷ d ∷ rest

  -- Without the spaces at the end.
  unfoldable pub rstrip : Text → Text
  rstrip [] = []
  rstrip (c ∷ t) = before_rest c (rstrip t)

  -- `o.strip()`
  unfoldable pub strip : Text → Text
  unfolding lstrip rstrip
  strip t = rstrip (lstrip t)

  abbrev pub push_nonempty : Text → List Text → List Text
  push_nonempty [] ts = ts
  push_nonempty (c ∷ t) ts = (c ∷ t) ∷ ts

  -- `[o.strip() for o in parts if o.strip()]`
  unfoldable pub nonempty_parts : List Text → List Text
  unfolding strip
  nonempty_parts [] = []
  nonempty_parts (o ∷ os) = push_nonempty (strip o) (nonempty_parts os)

  -- `origins`
  unfoldable pub origins : Text → List Text
  unfolding nonempty_parts
  origins setting = nonempty_parts (split_on b',' setting)
