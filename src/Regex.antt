-- ===== src/Regex.antt =====
-- The regular expressions of network.py: a sequence of literals and repeated classes. A class never
-- meets what follows it in these expressions, so that the longest match of each part is the match.
pub mod Laws
pub mod Backtrack
use linuxtools.Base.{
  ℕ, suc, Bool, true, false, ◌&&◌, ◌||◌, not, List, [], ◌∷◌, ◌++◌, Option, none, some,
  if◌then◌else◌, leb, ◌==◌, length, take, drop,
}
use linuxtools.Str.{Text, codes, starts_with, is_space}
use linuxtools.Str.Number.{is_digit}

-- A part of an expression: a literal, `class+`, and `class{n}`.
pub data Piece : Type 0 where
  literal : Text → Piece
  some_of : (ℕ → Bool) → Piece
  times : ℕ → (ℕ → Bool) → Piece

-- The longest prefix in a class, and the rest.
unfoldable pub span : (ℕ → Bool) → Text → Text × Text
span p [] = ([], [])
span p (c ∷ cs) = let rest = span p cs in if p c then (c ∷ rest.0, rest.1) else ([], c ∷ cs)

unfoldable pub all_of : (ℕ → Bool) → Text → Bool
all_of p [] = true
all_of p (c ∷ cs) = p c && all_of p cs

-- A repetition has at least one character.
abbrev pub at_least_one : Text × Text → Option (Text × Text)
at_least_one ([], rest) = none
at_least_one (c ∷ cs, rest) = some (c ∷ cs, rest)

-- What one part matches at the front, and the rest.
unfoldable pub consume : Piece → Text → Option (Text × Text)
consume (literal t) s = if starts_with s t then some (t, drop (length t) s) else none
consume (some_of p) s = at_least_one (span p s)
consume (times n p) s =
    if leb n (length s) && all_of p (take n s) then some (take n s, drop n s) else none

abbrev pub behind : Text → Option (List Text) → Option (List Text)
behind t none = none
behind t (some ts) = some (t ∷ ts)

-- `re.match`: what each part matched.
unfoldable pub match_at : List Piece → Text → Option (List Text)
match_at [] s = some []
match_at (p ∷ ps) s = elim (consume p s) [
  | none ↦ none
  | some (t, rest) ↦ behind t (match_at ps rest)
]

-- `re.search`: the first place where the expression matches.
unfoldable pub search : List Piece → Text → Option (List Text)
search ps [] = match_at ps []
search ps (c ∷ cs) =
    let rest = search ps cs in elim (match_at ps (c ∷ cs)) [ some ts ↦ some ts | none ↦ rest ]

-- `\S`
abbrev pub not_space : ℕ → Bool
not_space c = not (is_space c)

-- `\w` on ASCII characters
abbrev pub is_word : ℕ → Bool
is_word c = is_digit c || (leb b'a' c && leb c b'z') || (leb b'A' c && leb c b'Z') || c == b'_'

-- `[A-Za-z]`
abbrev pub is_letter : ℕ → Bool
is_letter c = (leb b'a' c && leb c b'z') || (leb b'A' c && leb c b'Z')

-- `[0-9.]`
abbrev pub is_dotted : ℕ → Bool
is_dotted c = is_digit c || c == b'.'

-- `[0-9a-f:]`
abbrev pub is_hex_colon : ℕ → Bool
is_hex_colon c = is_digit c || (leb b'a' c && leb c b'f') || c == b':'

-- `[^:@]`
abbrev pub is_name : ℕ → Bool
is_name c = not (c == b':' || c == b'@')
