-- ===== src/Report/Dump/Cells.antt =====
-- The plain values and the pairs that VMM_Hygine_Report.py writes into JSON, read back.
use linuxtools.Base.{
  ℕ, ◌+◌, ◌-◌, ◌*◌, ◌≡◌, ◌≢◌, refl, ap, ◌∙◌, Bool, true, false, [], ◌∷◌, ◌++◌, Option, none, some,
  arith, append_assoc,
}
use linuxtools.Str.{Text, codes, starts_with}
use linuxtools.Str.Number.{decimal, is_digit, all_digits, read_digits}
use linuxtools.Str.Digits.{all_digits-decimal, decimal-ne-nil, read_digits-decimal}
use linuxtools.Regex.{all_of, span}
use linuxtools.Regex.Laws.{span-append}
use linuxtools.Report.Table.{Cell, null, str, num}
use linuxtools.Report.System.{digits_value}
use linuxtools.Report.Dump.{quoted, dump_cell, pair}
use linuxtools.Report.Dump.Read.{
  Reader, skip, read_string, counted, read_cell, with_key, after_key, read_pair,
}
use linuxtools.Report.Dump.Units.{is_scalar, read_string-quoted}
use linuxtools.Report.Dump.Lists.{stops, opens, Reads, skip-opens}

-- A value whose text, if it is one, has Unicode scalar values alone.
abbrev pub cell_scalar : Cell → Bool
cell_scalar null = true
cell_scalar (str s) = all_of is_scalar s
cell_scalar (num n) = true

read_digits-digits_value :
    (n : ℕ) (s : Text) → all_digits s ≡ true → read_digits true n s ≡ some (digits_value n s)
unfolding read_digits digits_value all_digits
read_digits-digits_value n [] h = refl
read_digits-digits_value n (c ∷ cs) h =
    ground (arith, read_digits-digits_value (n * 10 + (c - b'0')) cs)

read_digits-start :
    (s : Text) → all_digits s ≡ true → s ≢ [] → read_digits false 0 s ≡ some (digits_value 0 s)
unfolding read_digits digits_value all_digits
read_digits-start [] h ne = absurd (ne refl)
read_digits-start (c ∷ cs) h ne = ground (arith, read_digits-digits_value (0 * 10 + (c - b'0')) cs)

digits_value-decimal : (n : ℕ) → digits_value 0 (decimal n) ≡ n
digits_value-decimal n =
    cc (
      read_digits-start (decimal n) (all_digits-decimal n) (decimal-ne-nil n),
      read_digits-decimal n,
    )

all_of-all_digits : (s : Text) → all_digits s ≡ true → all_of is_digit s ≡ true
unfolding all_of all_digits
all_of-all_digits [] h = refl
all_of-all_digits (c ∷ cs) h = ground (arith, all_of-all_digits cs)

-- Digits end at what ends an item.
span-stops :
    (s rest : Text)
    → all_of is_digit s ≡ true
    → stops rest ≡ true
    → span is_digit (s ++ rest) ≡ (s, rest)
span-stops s [] h k = cc
span-stops s (c ∷ cs) h k = span-append is_digit s c cs h (ground arith)

-- The form of a number: no other value begins like it.
digits-first :
    (s rest : Text)
    → all_digits s ≡ true
    → s ≢ []
    → (opens s ≡ true) × (read_cell (s ++ rest) ≡ counted (span is_digit (s ++ rest)))
unfolding all_digits read_cell starts_with
digits-first [] rest h ne = absurd (ne refl)
digits-first (c ∷ cs) rest h ne = (ground arith, ground arith)

counted-some : (s rest : Text) → s ≢ [] → counted (s, rest) ≡ some (num (digits_value 0 s), rest)
counted-some [] rest ne = absurd (ne refl)
counted-some (c ∷ cs) rest ne = refl

read_cell-num :
    (n : ℕ) (rest : Text) → stops rest ≡ true → read_cell (decimal n ++ rest) ≡ some (num n, rest)
read_cell-num n rest h =
    (digits-first (decimal n) rest (all_digits-decimal n) (decimal-ne-nil n)).1
    ∙ ap counted
        (span-stops (decimal n) rest (all_of-all_digits (decimal n) (all_digits-decimal n)) h)
    ∙ counted-some (decimal n) rest (decimal-ne-nil n)
    ∙ ap (λ m. some (num m, rest)) (digits_value-decimal n)

abbrev as_str : Option (Text × Text) → Option (Cell × Text)
as_str none = none
as_str (some (t, rest)) = some (str t, rest)

read_cell-quoted :
    (s rest : Text) → read_cell (quoted s ++ rest) ≡ as_str (read_string (quoted s ++ rest))
unfolding read_cell quoted starts_with
read_cell-quoted s rest = refl

-- A plain value is read off its print.
pub dump_cell-Reads : (c : Cell) → cell_scalar c ≡ true → Reads read_cell (dump_cell c) c
unfolding dump_cell read_cell starts_with quoted
dump_cell-Reads null h = record { begins = refl; reads = λ rest stop. refl }
dump_cell-Reads (str s) h = record {
  begins = refl;
  reads = λ rest stop. read_cell-quoted s rest ∙ ap as_str (read_string-quoted s rest h);
}
dump_cell-Reads (num n) h = record {
  begins = (digits-first (decimal n) [] (all_digits-decimal n) (decimal-ne-nil n)).0;
  reads = read_cell-num n;
}

module _ {ℓ} {A : Type ℓ} (item : Reader A) where
  after_key-value :
      (key printed rest : Text) (a : A)
      → Reads item printed a
      → stops rest ≡ true
      → after_key item (some (key, codes ": " ++ (printed ++ rest))) ≡ some ((key, a), rest)
  unfolding skip starts_with
  after_key-value key printed rest a r stop =
      ap (λ t. with_key key (item t)) (skip-opens printed rest r.begins)
      ∙ ap (with_key key) (r.reads rest stop)

  -- A pair is read off its print, if its value is.
  pub pair-Reads :
      (key printed : Text) (a : A)
      → all_of is_scalar key ≡ true
      → Reads item printed a
      → Reads (read_pair item) (pair key printed) (key, a)
  unfolding read_pair
  pair-Reads key printed a h r = record {
    begins = unfold quoted in refl;
    reads = λ rest stop.
        ap (λ t. after_key item (read_string t))
          (append_assoc (quoted key) (codes ": " ++ printed) rest)
        ∙ ap (after_key item) (read_string-quoted key (codes ": " ++ (printed ++ rest)) h)
        ∙ after_key-value key printed rest a r stop;
  }
