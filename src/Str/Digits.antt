-- ===== src/Str/Digits.antt =====
-- `int` reads back what `str` prints.
use linuxtools.Base.{
  ℕ, zero, suc, ◌+◌, ◌*◌, ◌/◌, ◌%◌, ◌≡◌, ◌≢◌, ◌<◌, refl, Bool, true, false, [], ◌∷◌, Option, none,
  some, ltb, arith, ok, ◌∙◌, ap, Bool-cases, inl, inr,
}
use linuxtools.Str.{Text, strip, is_space}
use linuxtools.Str.Number.{
  digits_onto, decimal, is_digit, all_digits, ℤ, pos, read_digits, signed, int,
}
use linuxtools.Str.Strip.{IsStripped, strip_stripped, solid_front, solid_back}

-- A round on a digit.
read_digits-digit :
    (after : Bool) (acc d : ℕ) (rest : Text)
    → d < 10
    → read_digits after acc ((b'0' + d) ∷ rest) ≡ read_digits true (acc * 10 + d) rest
unfolding read_digits
read_digits-digit after acc d rest h = ground arith

read_digits-digits_onto :
    (fuel n : ℕ) (rest : Text)
    → n < fuel
    → read_digits false 0 (digits_onto fuel n rest) ≡ read_digits true n rest
unfolding digits_onto
read_digits-digits_onto zero n rest h = elim h [ ]
read_digits-digits_onto (suc fuel) n rest h = elim (Bool-cases (ltb n 10)) [
  | inl small ↦ rw small (
      read_digits-digit false 0 n rest (ground arith)
      ∙ let e : 0 * 10 + n ≡ n = omega arith in ap (λ k. read_digits true k rest) e)
  | inr large ↦ rw large (
      read_digits-digits_onto fuel (n / 10) _ (ground arith)
      ∙ read_digits-digit true (n / 10) (n % 10) rest (omega arith)
      ∙ (let e : n / 10 * 10 + n % 10 ≡ n = omega arith in ap (λ k. read_digits true k rest) e))
]

all_digits-digits_onto :
    (fuel n : ℕ) (rest : Text)
    → all_digits rest ≡ true
    → all_digits (digits_onto fuel n rest) ≡ true
unfolding digits_onto all_digits
all_digits-digits_onto zero n rest h = h
all_digits-digits_onto (suc fuel) n rest h =
    ground (arith, all_digits-digits_onto fuel (n / 10) ((b'0' + n % 10) ∷ rest))

digits_onto-ne-nil : (fuel n : ℕ) (c : ℕ) (rest : Text) → digits_onto fuel n (c ∷ rest) ≢ []
unfolding digits_onto
digits_onto-ne-nil zero n c rest = cc
digits_onto-ne-nil (suc fuel) n c rest =
    ground (arith, digits_onto-ne-nil fuel (n / 10) (b'0' + n % 10) (c ∷ rest))

pub all_digits-decimal : (n : ℕ) → all_digits (decimal n) ≡ true
unfolding decimal
all_digits-decimal n = all_digits-digits_onto (suc n) n [] (unfold all_digits in refl)

pub decimal-ne-nil : (n : ℕ) → decimal n ≢ []
unfolding decimal digits_onto
decimal-ne-nil n = ground (arith, digits_onto-ne-nil n (n / 10) (b'0' + n % 10) [])

is_space-digit : (c : ℕ) → is_digit c ≡ true → is_space c ≡ false
unfolding is_space
is_space-digit c h = ground arith

solid_back-all_digits : (s : Text) → all_digits s ≡ true → solid_back s ≡ true
unfolding all_digits
solid_back-all_digits [] h = refl
solid_back-all_digits (c ∷ []) h = ground (arith, is_space-digit c)
solid_back-all_digits (c ∷ d ∷ cs) h = solid_back-all_digits (d ∷ cs) (ground arith)

solid_front-all_digits : (s : Text) → all_digits s ≡ true → solid_front s ≡ true
unfolding all_digits
solid_front-all_digits [] h = refl
solid_front-all_digits (c ∷ cs) h = ground (arith, is_space-digit c)

pub all_digits-IsStripped : (s : Text) → all_digits s ≡ true → IsStripped s
all_digits-IsStripped s h = record {
  front = solid_front-all_digits s h;
  back = solid_back-all_digits s h;
}

abbrev as_int : Option ℕ → Option ℤ
as_int none = none
as_int (some n) = some (pos n)

signed-all_digits :
    (s : Text) → all_digits s ≡ true → s ≢ [] → signed s ≡ as_int (read_digits false 0 s)
unfolding signed all_digits
signed-all_digits [] h ne = absurd (ne refl)
signed-all_digits (c ∷ cs) h ne = ground arith

pub read_digits-decimal : (n : ℕ) → read_digits false 0 (decimal n) ≡ some n
unfolding decimal read_digits
read_digits-decimal n = read_digits-digits_onto (suc n) n [] (omega arith)

signed-decimal : (n : ℕ) → signed (decimal n) ≡ some (pos n)
signed-decimal n =
    signed-all_digits (decimal n) (all_digits-decimal n) (decimal-ne-nil n)
    ∙ ap as_int (read_digits-decimal n)

-- What `int` reads, up to spaces around it, is what `str` prints.
pub int-decimal : (s : Text) (n : ℕ) → strip s ≡ decimal n → int s ≡ ok (pos n)
unfolding int
int-decimal s n e = rw (e, signed-decimal n, int)

pub strip-decimal : (n : ℕ) → strip (decimal n) ≡ decimal n
strip-decimal n = strip_stripped (decimal n) (all_digits-IsStripped _ (all_digits-decimal n))
