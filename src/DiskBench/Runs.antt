-- ===== src/DiskBench/Runs.antt =====
-- disk_bench/disk_bench.c: runs that return, and runs that are not cut by the lack of fuel.
use linuxtools.Base.{ℕ, ◌≡◌, refl, Bool, true, false, if◌then◌else◌}
use linuxtools.DiskBench.{Run, done, exited, trapped, stuck, ◌>>=◌}

module _ {ℓ κ} {A : Type ℓ} {B : Type κ} where
  -- What the first step gave, where the two returned.
  pub bound :
      {b : B} (r : Run A) (f : A → Run B)
      → (r >>= f) ≡ done b
      → (a : A) × ((r ≡ done a) × (f a ≡ done b))
  bound (done a) f h = (a, (refl, h))
  bound (exited n) f h = cc
  bound trapped f h = cc
  bound stuck f h = cc

pub exited_not_done {ℓ} : {A : Type ℓ} {a : A} {n : ℕ} → ¬ (exited n ≡ done a)
exited_not_done e = cc

pub trapped_not_done {ℓ} : {A : Type ℓ} {a : A} → ¬ (trapped ≡ done a)
trapped_not_done e = cc

-- A guard that was passed.
pub passed {ℓ} :
    {A : Type ℓ} {a : A} (guard : Bool) (out rest : Run A)
    → ¬ (out ≡ done a)
    → (if guard then out else rest) ≡ done a
    → rest ≡ done a
passed true out rest n h = absurd (n h)
passed false out rest n h = h

pub done_injective {ℓ} : {A : Type ℓ} {a b : A} → done a ≡ done b → a ≡ b
done_injective e = cc

-- A run that is not cut by the lack of fuel.
abbrev pub Finishes {ℓ} : {A : Type ℓ} → Run A → Type ℓ
Finishes r = ¬ (r ≡ stuck)

pub done-Finishes {ℓ} : {A : Type ℓ} (a : A) → Finishes (done a)
done-Finishes a e = cc

pub exited-Finishes {ℓ} : {A : Type ℓ} (n : ℕ) → Finishes {A = A} (exited n)
exited-Finishes n e = cc

pub trapped-Finishes {ℓ} : {A : Type ℓ} → Finishes {A = A} trapped
trapped-Finishes e = cc

module _ {ℓ κ} {A : Type ℓ} {B : Type κ} where
  pub bind-Finishes :
      (r : Run A) (f : A → Run B)
      → Finishes r
      → ((a : A) → r ≡ done a → Finishes (f a))
      → Finishes (r >>= f)
  bind-Finishes (done a) f h k = k a refl
  bind-Finishes (exited n) f h k = exited-Finishes n
  bind-Finishes trapped f h k = trapped-Finishes
  bind-Finishes stuck f h k = absurd (h refl)

pub if-Finishes {ℓ} :
    {A : Type ℓ} (guard : Bool) (out rest : Run A)
    → Finishes out
    → Finishes rest
    → Finishes (if guard then out else rest)
if-Finishes true out rest h k = h
if-Finishes false out rest h k = k
