-- ===== src/Str/Laws.antt =====
-- The test of equality on texts decides equality.
use linuxtools.Base.{◌≡◌, ◌↔◌, refl, true, [], ◌∷◌, arith}
use linuxtools.Str.{Text, eqb}

pub eqb_iff : (s t : Text) → (eqb s t ≡ true) ↔ (s ≡ t)
unfolding eqb
eqb_iff [] [] = ground arith
eqb_iff [] (y ∷ ys) = ground arith
eqb_iff (x ∷ xs) [] = ground arith
eqb_iff (x ∷ xs) (y ∷ ys) = ground (arith, eqb_iff xs ys)

pub eqb_refl : (s : Text) → eqb s s ≡ true
eqb_refl s = (eqb_iff s s).1 refl
