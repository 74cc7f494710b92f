-- ===== src/Report/Table/Modify.antt =====
-- The two growing lists of `tabulate`: an extension and a write are one change at an index.
use linuxtools.Base.{
  ℕ, zero, suc, ◌-◌, ◌≡◌, refl, ◌∙◌, ap, max, List, [], ◌∷◌, ◌++◌, Option, none, some, arith,
  length, get_or, set, replicate, append-nil,
}
use linuxtools.Str.{Text}
use linuxtools.Report.Table.{extend, put_cell, widen}

module _ {ℓ} {A : Type ℓ} where
  -- `f` at the index `n`, with `d` for what is missing up to it.
  unfoldable pub modify : ℕ → (A → A) → A → List A → List A
  modify zero f d [] = f d ∷ []
  modify zero f d (x ∷ xs) = f x ∷ xs
  modify (suc n) f d [] = d ∷ modify n f d []
  modify (suc n) f d (x ∷ xs) = x ∷ modify n f d xs

  extend_zero : (d : A) (xs : List A) → extend 0 d xs ≡ xs
  extend_zero d xs =
      let e : 0 - length xs ≡ 0 = omega arith in ap (λ k. xs ++ replicate k d) e ∙ append-nil xs

  extend_nil : (n : ℕ) (d : A) → extend (suc n) d [] ≡ d ∷ extend n d []
  extend_nil n d = let e : suc n - 0 ≡ suc (n - 0) = omega arith in ap (λ k. replicate k d) e

  extend_cons : (n : ℕ) (d x : A) (xs : List A) → extend (suc n) d (x ∷ xs) ≡ x ∷ extend n d xs
  extend_cons n d x xs =
      let e : suc n - suc (length xs) ≡ n - length xs = omega arith in
      ap (λ k. x ∷ (xs ++ replicate k d)) e

  pub get_or-extend : (n i : ℕ) (d : A) (xs : List A) → get_or (extend n d xs) i d ≡ get_or xs i d
  get_or-extend zero i d xs = ap (λ ys. get_or ys i d) (extend_zero d xs)
  get_or-extend (suc n) zero d [] = ap (λ ys. get_or ys 0 d) (extend_nil n d)
  get_or-extend (suc n) (suc i) d [] =
      ap (λ ys. get_or ys (suc i) d) (extend_nil n d) ∙ get_or-extend n i d []
  get_or-extend (suc n) zero d (x ∷ xs) = refl
  get_or-extend (suc n) (suc i) d (x ∷ xs) =
      ap (λ ys. get_or ys (suc i) d) (extend_cons n d x xs) ∙ get_or-extend n i d xs

  pub set-extend :
      (n : ℕ) (f : A → A) (d : A) (xs : List A)
      → set (extend (suc n) d xs) n (f (get_or xs n d)) ≡ modify n f d xs
  unfolding modify
  set-extend zero f d [] = refl
  set-extend zero f d (x ∷ xs) =
      ap (λ ys. set ys 0 (f x)) (extend_cons 0 d x xs) ∙ ap (◌∷◌ (f x)) (extend_zero d xs)
  set-extend (suc n) f d [] =
      ap (λ ys. set ys (suc n) (f d)) (extend_nil (suc n) d) ∙ ap (◌∷◌ d) (set-extend n f d [])
  set-extend (suc n) f d (x ∷ xs) =
      ap (λ ys. set ys (suc n) (f (get_or xs n d))) (extend_cons (suc n) d x xs)
      ∙ ap (◌∷◌ x) (set-extend n f d xs)

  pub modify-middle :
      (xs : List A) (f : A → A) (d y : A) (ys : List A)
      → modify (length xs) f d (xs ++ (y ∷ ys)) ≡ xs ++ (f y ∷ ys)
  unfolding modify
  modify-middle [] f d y ys = refl
  modify-middle (x ∷ xs) f d y ys = ap (◌∷◌ x) (modify-middle xs f d y ys)

  pub modify-end : (xs : List A) (f : A → A) (d : A) → modify (length xs) f d xs ≡ xs ++ (f d ∷ [])
  unfolding modify
  modify-end [] f d = refl
  modify-end (x ∷ xs) f d = ap (◌∷◌ x) (modify-end xs f d)

pub put_cell-modify :
    (x y : ℕ) (t : Text) (cells : List (List (Option Text)))
    → put_cell x y t cells ≡ modify y (modify x (λ _. some t) none) [] cells
unfolding put_cell
put_cell-modify x y t cells =
    ap (λ row. set (extend (suc y) [] cells) y (set (extend (suc x) none row) x (some t)))
      (get_or-extend (suc y) y [] cells)
    ∙ ap (set (extend (suc y) [] cells) y) (set-extend x (λ _. some t) none (get_or cells y []))
    ∙ set-extend y (modify x (λ _. some t) none) [] cells

pub widen-modify : (x n : ℕ) (ws : List ℕ) → widen x n ws ≡ modify x (λ w. max w n) 0 ws
unfolding widen
widen-modify x n ws =
    ap (λ w. set (extend (suc x) 0 ws) x (max w n)) (get_or-extend (suc x) x 0 ws)
    ∙ set-extend x (λ w. max w n) 0 ws
