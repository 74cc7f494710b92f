-- ===== src/Str/Number.antt =====
-- `str(n)`, `f"{n:,}"`, `int(s)` and `isdigit`, over the ASCII digits.
use linuxtools.Base.{
  zero, suc, length, replicate, ℕ, zero, suc, ◌+◌, ◌-◌, ◌*◌, ◌/◌, ◌%◌, Bool, true, false, ◌&&◌, [],
  ◌∷◌, ◌++◌, Option, none, some, leb, ltb, ◌==◌, if◌then◌else◌, Result, ok, raise, value_error,
}
use linuxtools.Str.{Text, strip}

-- The digits of `n` in front of `acc`. Each round divides by ten, so `n` rounds and one are enough.
unfoldable pub digits_onto : ℕ → ℕ → Text → Text
digits_onto zero n acc = acc
digits_onto (suc fuel) n acc =
    let rest = digits_onto fuel (n / 10) ((b'0' + n % 10) ∷ acc) in
    if ltb n 10 then (b'0' + n) ∷ acc else rest

-- `str(n)` for a number that is not negative
unfoldable pub decimal : ℕ → Text
decimal n = digits_onto (suc n) n []

-- `f"{n:,}"`: a comma before each group of three digits.
unfoldable pub grouped_onto : ℕ → ℕ → Text → Text
grouped_onto zero n acc = acc
grouped_onto (suc fuel) n acc =
    let rest =
      grouped_onto fuel (n / 1000)
        (b',' ∷ (b'0' + n % 1000 / 100) ∷ (b'0' + n % 100 / 10) ∷ (b'0' + n % 10) ∷ acc) in
    if ltb n 1000 then decimal n ++ acc else rest

unfoldable pub grouped : ℕ → Text
unfolding grouped_onto decimal
grouped n = grouped_onto (suc n) n []

abbrev pub hex_digit : ℕ → ℕ
hex_digit d = if ltb d 10 then b'0' + d else b'a' + d - 10

-- The hexadecimal digits of `n` in front of `acc`, as `digits_onto`.
unfoldable pub hex_onto : ℕ → ℕ → Text → Text
hex_onto zero n acc = acc
hex_onto (suc fuel) n acc =
    let rest = hex_onto fuel (n / 16) (hex_digit (n % 16) ∷ acc) in
    if ltb n 16 then hex_digit n ∷ acc else rest

-- `f"{n:0wx}"`
unfoldable pub hex : ℕ → ℕ → Text
hex w n = let s = hex_onto (suc n) n [] in replicate (w - length s) b'0' ++ s

abbrev pub is_digit : ℕ → Bool
is_digit c = leb b'0' c && leb c b'9'

unfoldable pub all_digits : Text → Bool
all_digits [] = true
all_digits (c ∷ cs) = is_digit c && all_digits cs

-- `s.isdigit()`
unfoldable pub isdigit : Text → Bool
unfolding all_digits
isdigit [] = false
isdigit (c ∷ cs) = all_digits (c ∷ cs)

-- A signed number, as `int` returns it; `negsuc n` is -(n + 1).
pub data ℤ : Type 0 where
  pos : ℕ → ℤ
  negsuc : ℕ → ℤ

unfoldable pub negated : ℕ → ℤ
negated zero = pos zero
negated (suc n) = negsuc n

-- The digits of a literal, one `_` allowed between two of them. The flag: a digit came last.
unfoldable pub read_digits : Bool → ℕ → Text → Option ℕ
read_digits after acc [] = if after then some acc else none
read_digits after acc (c ∷ cs) =
    let digit = read_digits true (acc * 10 + (c - b'0')) cs in
    let gap = read_digits false acc cs in
    if is_digit c then digit else if after && c == b'_' then gap else none

unfoldable pub signed : Text → Option ℤ
unfolding read_digits
signed [] = none
signed (c ∷ cs) =
    if c == b'-'
    then elim (read_digits false 0 cs) [ none ↦ none | some n ↦ some (negated n) ]
    else elim (read_digits false 0 (if c == b'+' then cs else c ∷ cs)) [
      | none ↦ none
      | some n ↦ some (pos n)
    ]

-- `int(s)`
unfoldable pub int : Text → Result ℤ
int s = elim (signed (strip s)) [ none ↦ raise value_error | some n ↦ ok n ]
