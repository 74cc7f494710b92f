-- ===== src/Str/Replace.antt =====
-- `s.replace(p, t)` for a text `p` that is not empty, and `p in s`.
use linuxtools.Base.{
  ℕ, zero, suc, ◌+◌, ◌-◌, ◌≡◌, ◌≢◌, ◌≤◌, ◌<◌, ◌↔◌, refl, ap, Bool, true, false, ◌||◌, [], ◌∷◌, ◌++◌,
  arith, if◌then◌else◌, length, length-append, Bool-cases, inl, inr,
}
use linuxtools.Str.{Text, starts_with}

-- From the left; `skip` characters belong to a match that was replaced.
unfoldable pub replace_from : Text → Text → ℕ → Text → Text
replace_from p t skip [] = []
replace_from p t (suc skip) (c ∷ cs) = replace_from p t skip cs
replace_from p t zero (c ∷ cs) =
    let hit = replace_from p t (length p - 1) cs in
    let miss = replace_from p t zero cs in if starts_with (c ∷ cs) p then t ++ hit else c ∷ miss

unfoldable pub replace_text : Text → Text → Text → Text
replace_text p t s = replace_from p t zero s

unfoldable pub occurs : Text → Text → Bool
occurs p [] = starts_with [] p
occurs p (c ∷ cs) = starts_with (c ∷ cs) p || occurs p cs

replace_from-none : (p t s : Text) → occurs p s ≡ false → replace_from p t zero s ≡ s
unfolding replace_from occurs
replace_from-none p t [] h = refl
replace_from-none p t (c ∷ cs) h = ground (arith, replace_from-none p t cs)

starts_with-nil : (p : Text) → length p ≢ 0 → starts_with [] p ≡ false
unfolding starts_with
starts_with-nil [] n = elim (n refl) [ ]
starts_with-nil (c ∷ p) n = refl

module _ (p t : Text) (longer : length p < length t) where
  length-replace_from : (skip : ℕ) (s : Text) → length s ≤ length (replace_from p t skip s) + skip
  unfolding replace_from
  length-replace_from skip [] = omega arith
  length-replace_from (suc skip) (c ∷ cs) = omega (arith, length-replace_from skip cs)
  length-replace_from zero (c ∷ cs) = ground (
    arith,
    longer,
    length-replace_from (length p - 1) cs,
    length-replace_from zero cs,
    length-append t (replace_from p t (length p - 1) cs),
  )

  length-replace_from-occurs :
      (s : Text) → length p ≢ 0 → occurs p s ≡ true → length s < length (replace_from p t zero s)
  unfolding replace_from occurs starts_with
  length-replace_from-occurs [] n h = cc (h, starts_with-nil p n)
  length-replace_from-occurs (c ∷ cs) n h = ground (
    arith,
    longer,
    length-replace_from (length p - 1) cs,
    length-replace_from-occurs cs n,
    length-append t (replace_from p t (length p - 1) cs),
  )

-- A replacement by a longer text changes the text exactly if it has an occurrence.
pub replace_text-occurs :
    (p t s : Text)
    → length p ≢ 0
    → length p < length t
    → (replace_text p t s ≡ s) ↔ (occurs p s ≡ false)
unfolding replace_text
replace_text-occurs p t s n longer = (
  λ e. elim (Bool-cases (occurs p s)) [
    | inr h ↦ h
    | inl h ↦ absurd (omega (arith, ap length e, length-replace_from-occurs p t longer s n h))
  ],
  λ h. replace_from-none p t s h,
)
