-- ===== src/Str/Strip.antt =====
-- `strip`: the result has no space at its ends, and a text that has none is left as it is.
use linuxtools.Base.{ℕ, ◌≡◌, refl, ◌∙◌, ap, Bool, true, not, [], ◌∷◌, ◌++◌, arith}
use linuxtools.Str.{Text, is_space, lstrip, keep, rstrip, strip}

-- The first and the last character are no spaces.
abbrev pub solid_front : Text → Bool
solid_front [] = true
solid_front (c ∷ cs) = not (is_space c)

abbrev pub solid_back : Text → Bool
solid_back [] = true
solid_back (c ∷ []) = not (is_space c)
solid_back (c ∷ d ∷ cs) = solid_back (d ∷ cs)

pub record IsStripped (s : Text) : Type 0 where
  pub front : solid_front s ≡ true
  pub back : solid_back s ≡ true

rstrip_solid : (s : Text) → solid_back s ≡ true → rstrip s ≡ s
unfolding rstrip keep
rstrip_solid [] h = refl
rstrip_solid (c ∷ []) h = ground arith
rstrip_solid (c ∷ d ∷ cs) h = ground (arith, rstrip_solid (d ∷ cs) h)

lstrip_solid : (s : Text) → solid_front s ≡ true → lstrip s ≡ s
unfolding lstrip
lstrip_solid [] h = refl
lstrip_solid (c ∷ cs) h = ground arith

pub strip_stripped : (s : Text) → IsStripped s → strip s ≡ s
unfolding strip
strip_stripped s h = ap rstrip (lstrip_solid s h.front) ∙ rstrip_solid s h.back

solid_front-lstrip : (s : Text) → solid_front (lstrip s) ≡ true
unfolding lstrip
solid_front-lstrip [] = refl
solid_front-lstrip (c ∷ cs) = ground (arith, solid_front-lstrip cs)

solid_back-keep : (c : ℕ) (s : Text) → solid_back s ≡ true → solid_back (keep c s) ≡ true
unfolding keep
solid_back-keep c [] h = ground arith
solid_back-keep c (d ∷ ds) h = h

solid_back-rstrip : (s : Text) → solid_back (rstrip s) ≡ true
unfolding rstrip
solid_back-rstrip [] = refl
solid_back-rstrip (c ∷ cs) = solid_back-keep c (rstrip cs) (solid_back-rstrip cs)

solid_front-keep : (c : ℕ) (s : Text) → not (is_space c) ≡ true → solid_front (keep c s) ≡ true
unfolding keep
solid_front-keep c [] h = ground arith
solid_front-keep c (d ∷ ds) h = h

solid_front-rstrip : (s : Text) → solid_front s ≡ true → solid_front (rstrip s) ≡ true
unfolding rstrip
solid_front-rstrip [] h = refl
solid_front-rstrip (c ∷ cs) h = solid_front-keep c (rstrip cs) h

pub strip-IsStripped : (s : Text) → IsStripped (strip s)
unfolding strip
strip-IsStripped s = record {
  front = solid_front-rstrip (lstrip s) (solid_front-lstrip s);
  back = solid_back-rstrip (lstrip s);
}

-- Spaces in front go.
pub strip_blank : (c : ℕ) (s : Text) → is_space c ≡ true → strip (c ∷ s) ≡ strip s
unfolding strip lstrip
strip_blank c s h = rw h

rstrip_blank : (s : Text) (c : ℕ) → is_space c ≡ true → rstrip (s ++ (c ∷ [])) ≡ rstrip s
unfolding rstrip
rstrip_blank [] c h = unfold keep in rw h
rstrip_blank (x ∷ xs) c h = ap (keep x) (rstrip_blank xs c h)

-- A space behind goes.
pub strip_trailing :
    (s : Text) (c : ℕ) → is_space c ≡ true → IsStripped s → strip (s ++ (c ∷ [])) ≡ s
unfolding strip
strip_trailing [] c h solid = strip_blank c [] h
strip_trailing (x ∷ xs) c h solid =
    ap rstrip (lstrip_solid (x ∷ xs ++ (c ∷ [])) solid.front)
    ∙ rstrip_blank (x ∷ xs) c h
    ∙ rstrip_solid (x ∷ xs) solid.back
