-- ===== src/Report/Dump/Strings.antt =====
-- The strings of the JSON that VMM_Hygine_Report.py writes.
use linuxtools.Base.{
  ℕ, zero, suc, ◌+◌, ◌-◌, ◌/◌, ◌%◌, ◌≡◌, ◌<◌, refl, ap, ◌∙◌, Bool, true, false, ◌&&◌, ◌||◌, [], ◌∷◌,
  ◌++◌, Option, none, some, arith, if◌then◌else◌, leb, ◌==◌, length, replicate, append_assoc,
}
use linuxtools.Str.{Text, codes}
use linuxtools.Str.Number.{hex_digit, hex_onto, hex}
use linuxtools.Regex.{all_of}
use linuxtools.Report.Dump.{escape, escape_all, quoted}

abbrev pub is_hex_digit : ℕ → Bool
is_hex_digit c = (leb b'0' c && leb c b'9') || (leb b'a' c && leb c b'f')

hex_digit-below : (d : ℕ) → d < 16 → is_hex_digit (hex_digit d) ≡ true
hex_digit-below d h = ground arith

hex_onto-hex_digits :
    (fuel n : ℕ) (acc : Text)
    → all_of is_hex_digit acc ≡ true
    → all_of is_hex_digit (hex_onto fuel n acc) ≡ true
unfolding hex_onto all_of
hex_onto-hex_digits zero n acc h = h
hex_onto-hex_digits (suc fuel) n acc h = ground (
  arith,
  hex_onto-hex_digits fuel (n / 16) (hex_digit (n % 16) ∷ acc),
  hex_digit-below n,
  hex_digit-below (n % 16),
)

zeros :
    (n : ℕ) (s : Text)
    → all_of is_hex_digit s ≡ true
    → all_of is_hex_digit (replicate n b'0' ++ s) ≡ true
unfolding all_of
zeros zero s h = h
zeros (suc n) s h = zeros n s h

hex-hex_digits : (w n : ℕ) → all_of is_hex_digit (hex w n) ≡ true
unfolding hex all_of
hex-hex_digits w n =
    zeros (w - length (hex_onto (suc n) n [])) (hex_onto (suc n) n [])
      (hex_onto-hex_digits (suc n) n [] refl)

-- Where a reader sees the end of a string that is open: at the first quote that no backslash escapes.
-- The flag: the character in front is such a backslash. The result is what follows the quote.
unfoldable pub string_end : Bool → Text → Option Text
string_end escaped [] = none
string_end true (c ∷ cs) = string_end false cs
string_end false (c ∷ cs) =
    let inside = string_end false cs in
    let behind = string_end true cs in
    if c == b'"' then some cs else if c == b'\\' then behind else inside

string_end-hex :
    (a rest : Text)
    → all_of is_hex_digit a ≡ true
    → string_end false (a ++ rest) ≡ string_end false rest
unfolding string_end all_of
string_end-hex [] rest h = refl
string_end-hex (c ∷ cs) rest h = ground (arith, string_end-hex cs rest)

string_end-surrogates :
    (m n : ℕ) (rest : Text)
    → string_end false ((hex 4 m ++ (codes "\\u" ++ hex 4 n)) ++ rest) ≡ string_end false rest
unfolding string_end
string_end-surrogates m n rest =
    ap (string_end false) (append_assoc (hex 4 m) (codes "\\u" ++ hex 4 n) rest)
    ∙ string_end-hex (hex 4 m) _ (hex-hex_digits 4 m)
    ∙ string_end-hex (hex 4 n) rest (hex-hex_digits 4 n)

string_end-escape :
    (c : ℕ) (rest : Text) → string_end false (escape c ++ rest) ≡ string_end false rest
unfolding string_end escape
string_end-escape c rest = ground (
  arith,
  string_end-hex (hex 4 c) rest (hex-hex_digits 4 c),
  string_end-surrogates (55296 + (c - 65536) / 1024) (56320 + (c - 65536) % 1024) rest,
)

string_end-escape_all :
    (s rest : Text) → string_end false (escape_all s ++ (b'"' ∷ rest)) ≡ some rest
unfolding string_end escape_all
string_end-escape_all [] rest = refl
string_end-escape_all (c ∷ cs) rest =
    ap (string_end false) (append_assoc (escape c) (escape_all cs) (b'"' ∷ rest))
    ∙ string_end-escape c (escape_all cs ++ (b'"' ∷ rest))
    ∙ string_end-escape_all cs rest

-- What a reader takes for the end of a written string, behind its opening quote, is the closing quote
-- that was written, whatever characters the text has and whatever follows.
pub string_end-quoted :
    (s rest : Text)
    → (body : Text) × (quoted s ++ rest ≡ b'"' ∷ body) × (string_end false body ≡ some rest)
unfolding quoted
string_end-quoted s rest = (
  (escape_all s ++ codes "\"") ++ rest,
  refl,
  ap (string_end false) (append_assoc (escape_all s) (codes "\"") rest)
      ∙ string_end-escape_all s rest,
)
