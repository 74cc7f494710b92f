-- ===== src/Report/Dump/Units.antt =====
-- The strings that VMM_Hygine_Report.py writes into JSON, read back: `\u` with its digits, and the
-- UTF-16 units of a character.
use linuxtools.Base.{
  ℕ, zero, suc, ◌+◌, ◌-◌, ◌*◌, ◌/◌, ◌%◌, ◌≡◌, ◌≤◌, ◌<◌, refl, ap, ◌∙◌, Bool, true, false, ◌&&◌, not,
  List, [], ◌∷◌, ◌++◌, Option, none, some, arith, if◌then◌else◌, leb, ltb, append_assoc, Bool-cases,
  inl, inr,
}
use linuxtools.Str.{Text, codes}
use linuxtools.Str.Number.{hex_digit, hex}
use linuxtools.Regex.{all_of}
use linuxtools.Report.Dump.{escape, escape_all, quoted}
use linuxtools.Report.Dump.Read.{
  behind, between, digits, read_units, is_high, join_units, read_string,
}
use linuxtools.Report.Dump.Hex.{hex-four}

read_units-more :
    (k n d : ℕ) (cs : Text)
    → d < 16
    → read_units (digits (suc k) n) (hex_digit d ∷ cs) ≡ read_units (digits k (n * 16 + d)) cs
unfolding read_units
read_units-more k n d cs h = ground arith

read_units-last :
    (n d : ℕ) (cs : Text)
    → d < 16
    → read_units (digits zero n) (hex_digit d ∷ cs) ≡ behind (n * 16 + d) (read_units between cs)
unfolding read_units
read_units-last n d cs h = ground arith

-- Four digits are read as their number.
read_units-four :
    (n : ℕ) (rest : Text)
    → n < 65536
    → read_units (digits 3 0) (hex 4 n ++ rest) ≡ behind n (read_units between rest)
read_units-four n rest h =
    ap (λ s. read_units (digits 3 0) (s ++ rest)) (hex-four n h)
    ∙ read_units-more 2 0 (n / 4096) _ (omega (arith, h))
    ∙ read_units-more 1 (0 * 16 + n / 4096) (n / 256 % 16) _ (omega arith)
    ∙ read_units-more 0 ((0 * 16 + n / 4096) * 16 + n / 256 % 16) (n / 16 % 16) _ (omega arith)
    ∙ read_units-last (((0 * 16 + n / 4096) * 16 + n / 256 % 16) * 16 + n / 16 % 16) (n % 16) rest
        (omega arith)
    ∙ (let e : (((0 * 16 + n / 4096) * 16 + n / 256 % 16) * 16 + n / 16 % 16) * 16 + n % 16 ≡ n =
          omega arith in
        ap (λ v. behind v (read_units between rest)) e)

-- The UTF-16 units of a character.
unfoldable pub units : ℕ → List ℕ
units c =
    if ltb c 0x10000
    then c ∷ []
    else (0xd800 + (c - 0x10000) / 1024) ∷ (0xdc00 + (c - 0x10000) % 1024) ∷ []

unfoldable pub units_all : Text → List ℕ
units_all [] = []
units_all (c ∷ cs) = units c ++ units_all cs

-- Units in front of those that are read.
abbrev pub ahead : List ℕ → Option (List ℕ × Text) → Option (List ℕ × Text)
ahead us none = none
ahead us (some (vs, rest)) = some (us ++ vs, rest)

read_units-u :
    (n : ℕ) (rest : Text)
    → n < 65536
    → read_units between (codes "\\u" ++ (hex 4 n ++ rest)) ≡ behind n (read_units between rest)
unfolding read_units
read_units-u n rest h = read_units-four n rest h

read_units-surrogates :
    (m n : ℕ) (rest : Text)
    → m < 65536
    → n < 65536
    → read_units between ((codes "\\u" ++ (hex 4 m ++ (codes "\\u" ++ hex 4 n))) ++ rest)
      ≡ behind m (behind n (read_units between rest))
read_units-surrogates m n rest h k =
    ap (λ s. read_units between (codes "\\u" ++ s))
      (append_assoc (hex 4 m) (codes "\\u" ++ hex 4 n) rest)
    ∙ read_units-u m _ h
    ∙ ap (behind m) (read_units-u n rest k)

ahead-two : (m n : ℕ) (r : Option (List ℕ × Text)) → behind m (behind n r) ≡ ahead (m ∷ n ∷ []) r
ahead-two m n none = refl
ahead-two m n (some (us, rest)) = refl

ahead-one : (n : ℕ) (r : Option (List ℕ × Text)) → behind n r ≡ ahead (n ∷ []) r
ahead-one n none = refl
ahead-one n (some (us, rest)) = refl

read_units-escape :
    (c : ℕ) (rest : Text)
    → c < 0x110000
    → read_units between (escape c ++ rest) ≡ ahead (units c) (read_units between rest)
unfolding read_units escape units
read_units-escape c rest h = ground (
  arith,
  read_units-four c rest,
  read_units-surrogates (55296 + (c - 65536) / 1024) (56320 + (c - 65536) % 1024) rest,
  ahead-one c (read_units between rest),
  ahead-two (55296 + (c - 65536) / 1024) (56320 + (c - 65536) % 1024) (read_units between rest),
)

-- A Unicode scalar value: no surrogate, and below 0x110000.
abbrev pub is_scalar : ℕ → Bool
is_scalar c = ltb c 0x110000 && not (leb 0xd800 c && leb c 0xdfff)

read_units-escape_all :
    (s rest : Text)
    → all_of is_scalar s ≡ true
    → read_units between (escape_all s ++ (b'"' ∷ rest)) ≡ some (units_all s, rest)
unfolding read_units escape_all units_all all_of
read_units-escape_all [] rest h = refl
read_units-escape_all (c ∷ cs) rest h =
    ap (read_units between) (append_assoc (escape c) (escape_all cs) (b'"' ∷ rest))
    ∙ read_units-escape c (escape_all cs ++ (b'"' ∷ rest)) (ground (arith, h))
    ∙ ap (ahead (units c)) (read_units-escape_all cs rest (ground (arith, h)))

join_units-one : (c : ℕ) (us : List ℕ) → is_high c ≡ false → join_units (c ∷ us) ≡ c ∷ join_units us
unfolding join_units
join_units-one c [] h = refl
join_units-one c (v ∷ us) h = ground (arith, h)

join_units-two :
    (c : ℕ) (us : List ℕ)
    → 0x10000 ≤ c
    → c < 0x110000
    → join_units ((0xd800 + (c - 0x10000) / 1024) ∷ (0xdc00 + (c - 0x10000) % 1024) ∷ us)
      ≡ c ∷ join_units us
unfolding join_units
join_units-two c us l h = ground arith

join_units-units :
    (c : ℕ) (us : List ℕ) → is_scalar c ≡ true → join_units (units c ++ us) ≡ c ∷ join_units us
unfolding units
join_units-units c us h = elim (Bool-cases (ltb c 0x10000)) [
  | inl small ↦ rw small (join_units-one c us (ground arith))
  | inr large ↦ rw large (join_units-two c us (ground arith) (ground arith))
]

join_units-units_all : (s : Text) → all_of is_scalar s ≡ true → join_units (units_all s) ≡ s
unfolding join_units units_all all_of
join_units-units_all [] h = refl
join_units-units_all (c ∷ cs) h =
    join_units-units c (units_all cs) (ground arith)
    ∙ ap (◌∷◌ c) (join_units-units_all cs (ground arith))

abbrev joined : Option (List ℕ × Text) → Option (Text × Text)
joined none = none
joined (some (us, rest)) = some (join_units us, rest)

-- A written text is read back, with what follows it.
pub read_string-quoted :
    (s rest : Text) → all_of is_scalar s ≡ true → read_string (quoted s ++ rest) ≡ some (s, rest)
unfolding read_string quoted
read_string-quoted s rest h =
    ap (λ t. joined (read_units between t)) (append_assoc (escape_all s) (codes "\"") rest)
    ∙ ap joined (read_units-escape_all s rest h)
    ∙ ap (λ t. some (t, rest)) (join_units-units_all s h)
