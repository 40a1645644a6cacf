-- ===== src/App/Origins/Laws.antt =====
-- The CORS origins of main.py against their setting.
use balotly_backend.Base.{
  ℕ, if◌then◌else◌, map, ◌++◌, ◌||◌, Bool-cases, inl, inr, Bool, true, false, not, ◌&&◌, ◌≡◌, refl,
  ap, ◌∙◌, List, [], ◌∷◌, arith,
}
use balotly_backend.Base.Text.{
  Text, split_on, join, split_on-join, all_lack-split_on, lacks, lacks-append, all_lack,
}
use balotly_backend.App.Origins.{
  push_nonempty, before_rest, lstrip, rstrip, strip, nonempty_parts, origins,
}

module _ (is_space : ℕ → Bool) where
  -- No space at either end, and not empty.
  abbrev starts : Text → Bool
  starts [] = false
  starts (c ∷ t) = not (is_space c)

  abbrev ends : Text → Bool
  ends [] = false
  ends (c ∷ []) = not (is_space c)
  ends (c ∷ d ∷ t) = ends (d ∷ t)

  -- An origin as it should stand in the list.
  abbrev pub is_clean : Text → Bool
  is_clean t = starts t && ends t && lacks b',' t

  rstrip-ends : (t : Text) → ends t ≡ true → rstrip is_space t ≡ t
  unfolding rstrip
  rstrip-ends [] h = refl
  rstrip-ends (c ∷ []) h = ground arith
  rstrip-ends (c ∷ d ∷ t) h = ground (arith, rstrip-ends (d ∷ t) h)

  lstrip-starts : (t : Text) → starts t ≡ true → lstrip is_space t ≡ t
  unfolding lstrip
  lstrip-starts [] h = refl
  lstrip-starts (c ∷ t) h = ground arith

  abbrev pub all_clean : List Text → Bool
  all_clean [] = true
  all_clean (t ∷ ts) = is_clean t && all_clean ts

  abbrev pub all_space : Text → Bool
  all_space [] = true
  all_space (c ∷ t) = is_space c && all_space t

  -- A part of the setting as it may be written: an origin, or nothing, between spaces.
  pub record Part : Type 0 where
    pub before : Text
    pub origin : Text
    pub after : Text

  abbrev pub is_part : Part → Bool
  is_part p = all_space p.before && all_space p.after && (all_space p.origin || is_clean p.origin)

  abbrev pub all_parts : List Part → Bool
  all_parts [] = true
  all_parts (p ∷ ps) = is_part p && all_parts ps

  abbrev pub written : Part → Text
  written p = p.before ++ (p.origin ++ p.after)

  -- The origins that the parts give, in their order.
  abbrev pub given : List Part → List Text
  given [] = []
  given (p ∷ ps) = let rest = given ps in if all_space p.origin then rest else p.origin ∷ rest

  lstrip-append : (b t : Text) → all_space b ≡ true → lstrip is_space (b ++ t) ≡ lstrip is_space t
  unfolding lstrip
  lstrip-append [] t h = refl
  lstrip-append (c ∷ b) t h = ground (arith, lstrip-append b t)

  rstrip-all_space : (b : Text) → all_space b ≡ true → rstrip is_space b ≡ []
  unfolding rstrip
  rstrip-all_space [] h = refl
  rstrip-all_space (c ∷ b) h = ground (arith, rstrip-all_space b)

  rstrip-append : (t b : Text) → all_space b ≡ true → rstrip is_space (t ++ b) ≡ rstrip is_space t
  unfolding rstrip
  rstrip-append [] b h = rstrip-all_space b h
  rstrip-append (c ∷ t) b h = ap (before_rest is_space c) (rstrip-append t b h)

  starts-append : (t u : Text) → starts t ≡ true → starts (t ++ u) ≡ true
  starts-append [] u h = cc
  starts-append (c ∷ t) u h = h

  all_space-append :
      (t u : Text) → all_space t ≡ true → all_space u ≡ true → all_space (t ++ u) ≡ true
  all_space-append [] u h k = k
  all_space-append (c ∷ t) u h k = ground (arith, all_space-append t u)

  clean_visible : (t : Text) → is_clean t ≡ true → all_space t ≡ false
  clean_visible [] h = ground arith
  clean_visible (c ∷ t) h = ground arith

  strip-all_space : (t : Text) → all_space t ≡ true → strip is_space t ≡ []
  unfolding strip lstrip rstrip
  strip-all_space [] h = refl
  strip-all_space (c ∷ t) h = ground (arith, strip-all_space t)

  strip-written :
      (b t a : Text)
      → all_space b ≡ true
      → all_space a ≡ true
      → is_clean t ≡ true
      → strip is_space (b ++ (t ++ a)) ≡ t
  unfolding strip
  strip-written b t a hb ha ht = ground (
    arith,
    lstrip-append b (t ++ a) hb,
    lstrip-starts (t ++ a),
    starts-append t a,
    rstrip-append t a ha,
    rstrip-ends t,
  )

  push_shown :
      (t : Text) (ts : List Text) → all_space t ≡ false → push_nonempty is_space t ts ≡ t ∷ ts
  push_shown [] ts h = cc
  push_shown (c ∷ t) ts h = refl

  nonempty_given :
      (ps : List Part) → all_parts ps ≡ true → nonempty_parts is_space (map written ps) ≡ given ps
  unfolding nonempty_parts
  nonempty_given [] h = refl
  nonempty_given (p ∷ ps) h = elim (Bool-cases (all_space p.origin)) [
    | inl empty ↦ ground (
      arith,
      empty,
      nonempty_given ps,
      strip-all_space (p.before ++ (p.origin ++ p.after)),
      all_space-append p.before (p.origin ++ p.after),
      all_space-append p.origin p.after,
    )
    | inr shown ↦
        ap (λ t. push_nonempty is_space t (nonempty_parts is_space (map written ps)))
          (strip-written p.before p.origin p.after (ground arith) (ground arith) (ground arith))
        ∙ push_shown p.origin (nonempty_parts is_space (map written ps)) shown
        ∙ ap (◌∷◌ p.origin) (nonempty_given ps (ground arith))
        ∙ ground (arith, shown)
  ]

  lacks-all_space : (t : Text) → is_space b',' ≡ false → all_space t ≡ true → lacks b',' t ≡ true
  lacks-all_space [] n h = refl
  lacks-all_space (c ∷ t) n h = ground (arith, n, lacks-all_space t n)

  lacks-written :
      (p : Part) → is_space b',' ≡ false → is_part p ≡ true → lacks b',' (written p) ≡ true
  lacks-written p n h = ground (
    arith,
    lacks-append b',' p.before (p.origin ++ p.after),
    lacks-append b',' p.origin p.after,
    lacks-all_space p.before n,
    lacks-all_space p.origin n,
    lacks-all_space p.after n,
  )

  all_lack-written :
      (ps : List Part)
      → is_space b',' ≡ false
      → all_parts ps ≡ true
      → all_lack b',' (map written ps) ≡ true
  all_lack-written [] n h = refl
  all_lack-written (p ∷ ps) n h = ground (arith, lacks-written p n, all_lack-written ps n)

  -- Where a comma is no space, and the setting consists of parts joined by commas, each an origin
  -- without spaces around it and without commas, or nothing, with any spaces before and after it, the
  -- list has exactly the origins of the parts, in their order and without those spaces.
  pub origins-join :
      (p : Part) (ps : List Part)
      → is_space b',' ≡ false
      → all_parts (p ∷ ps) ≡ true
      → origins is_space (join b',' (map written (p ∷ ps))) ≡ given (p ∷ ps)
  unfolding origins
  origins-join p ps n h =
      ap (nonempty_parts is_space)
        (split_on-join b',' (written p) (map written ps) (all_lack-written (p ∷ ps) n h))
      ∙ nonempty_given (p ∷ ps) h

  -- What stripping leaves is empty or clean.
  lstrip-first : (c : ℕ) (t u : Text) → lstrip is_space t ≡ c ∷ u → is_space c ≡ false
  unfolding lstrip
  lstrip-first c [] u e = cc
  lstrip-first c (d ∷ t) u e = ground (arith, lstrip-first c t u)

  before_rest-starts :
      (c : ℕ) (u : Text) → is_space c ≡ false → starts (before_rest is_space c u) ≡ true
  before_rest-starts c [] h = ground arith
  before_rest-starts c (d ∷ u) h = ground arith

  -- Nothing is left, or the last character is no space.
  ends_or_empty : Text → Bool
  ends_or_empty [] = true
  ends_or_empty (c ∷ t) = ends (c ∷ t)

  before_rest-ends :
      (c : ℕ) (u : Text) → ends_or_empty u ≡ true → ends_or_empty (before_rest is_space c u) ≡ true
  unfolding ends_or_empty
  before_rest-ends c [] h = ground arith
  before_rest-ends c (d ∷ u) h = h

  rstrip-ends_or_empty : (t : Text) → ends_or_empty (rstrip is_space t) ≡ true
  unfolding rstrip ends_or_empty
  rstrip-ends_or_empty [] = refl
  rstrip-ends_or_empty (c ∷ t) = before_rest-ends c (rstrip is_space t) (rstrip-ends_or_empty t)

  lacks-lstrip : (c : ℕ) (t : Text) → lacks c t ≡ true → lacks c (lstrip is_space t) ≡ true
  unfolding lstrip
  lacks-lstrip c [] h = refl
  lacks-lstrip c (d ∷ t) h = ground (arith, lacks-lstrip c t)

  lacks-before_rest :
      (c d : ℕ) (u : Text) → lacks c (d ∷ u) ≡ true → lacks c (before_rest is_space d u) ≡ true
  lacks-before_rest c d [] h = ground arith
  lacks-before_rest c d (e ∷ u) h = h

  lacks-rstrip : (c : ℕ) (t : Text) → lacks c t ≡ true → lacks c (rstrip is_space t) ≡ true
  unfolding rstrip
  lacks-rstrip c [] h = refl
  lacks-rstrip c (d ∷ t) h =
      lacks-before_rest c d (rstrip is_space t) (ground (arith, lacks-rstrip c t))

  -- A stripped text without commas is clean, unless nothing is left.
  stripped : Text → Bool
  stripped [] = true
  stripped (c ∷ t) = is_clean (c ∷ t)

  stripped_by :
      (t : Text)
      → starts t ≡ true
      → ends_or_empty t ≡ true
      → lacks b',' t ≡ true
      → stripped t ≡ true
  unfolding stripped ends_or_empty
  stripped_by [] a b c = refl
  stripped_by (d ∷ t) a b c = ground (arith, a, b, c)

  stripped-rstrip :
      (t u : Text)
      → lstrip is_space t ≡ u
      → lacks b',' u ≡ true
      → stripped (rstrip is_space u) ≡ true
  unfolding rstrip stripped
  stripped-rstrip t [] e h = refl
  stripped-rstrip t (c ∷ u) e h =
      stripped_by (rstrip is_space (c ∷ u))
        (before_rest-starts c (rstrip is_space u) (lstrip-first c t u e))
        (rstrip-ends_or_empty (c ∷ u)) (lacks-rstrip b',' (c ∷ u) h)

  stripped-strip : (t : Text) → lacks b',' t ≡ true → stripped (strip is_space t) ≡ true
  unfolding strip
  stripped-strip t h = stripped-rstrip t (lstrip is_space t) refl (lacks-lstrip b',' t h)

  all_clean-nonempty_parts :
      (ts : List Text) → all_lack b',' ts ≡ true → all_clean (nonempty_parts is_space ts) ≡ true
  unfolding nonempty_parts stripped
  all_clean-nonempty_parts [] h = refl
  all_clean-nonempty_parts (t ∷ ts) h =
      ground (arith, stripped-strip t, all_clean-nonempty_parts ts)

  -- Every origin of any setting is clean: it is not empty, has no space at either end and no comma.
  pub all_clean-origins : (setting : Text) → all_clean (origins is_space setting) ≡ true
  unfolding origins
  all_clean-origins setting =
      all_clean-nonempty_parts (split_on b',' setting) (all_lack-split_on b',' setting)
