-- ===== src/Report/Dump/Read.antt =====
-- A reader of JSON for the shapes that the report of VMM_Hygine_Report.py has, as the counterpart of
-- `json.dump`: it is what a program does that loads the report.
use linuxtools.Base.{
  ℕ, zero, suc, ◌+◌, ◌-◌, ◌*◌, Bool, ◌&&◌, ◌||◌, List, [], ◌∷◌, Option, none, some, if◌then◌else◌,
  leb, ◌==◌, length, drop,
}
use linuxtools.Str.{Text, codes, starts_with}
use linuxtools.Str.Number.{is_digit}
use linuxtools.Dict.{Dict}
use linuxtools.Regex.{span}
use linuxtools.Report.Table.{Cell, null, str, num}
use linuxtools.Report.System.{digits_value}
use linuxtools.Report.Printer.{Entry, plain, object, table, Section}

-- A reader takes a value off the front of a text, and leaves the rest.
abbrev pub Reader {ℓ} : Type ℓ → Type ℓ
Reader A = Text → Option (A × Text)

abbrev pub behind {ℓ} : {A : Type ℓ} → A → Option (List A × Text) → Option (List A × Text)
behind a none = none
behind a (some (as', rest)) = some (a ∷ as', rest)

-- Inside a string: between characters, behind a backslash, and with `k` + 1 digits of `\u` to come.
pub data Mode : Type 0 where
  between : Mode
  escaped : Mode
  digits : ℕ → ℕ → Mode

abbrev pub hex_value : ℕ → Option ℕ
hex_value c =
    if is_digit c
    then some (c - b'0')
    else if leb b'a' c && leb c b'f'
    then some (c - b'a' + 10)
    else none

abbrev pub simple_escape : ℕ → Option ℕ
simple_escape c =
    if c == b'"'
    then some b'"'
    else if c == b'\\'
    then some b'\\'
    else if c == b'n'
    then some 10
    else if c == b'r'
    then some 13
    else if c == b't'
    then some 9
    else if c == b'b'
    then some 8
    else if c == b'f'
    then some 12
    else none

-- The UTF-16 units of a string, up to its closing quote. A control character must be escaped.
unfoldable pub read_units : Mode → Reader (List ℕ)
read_units m [] = none
read_units between (c ∷ cs) =
    let inside = behind c (read_units between cs) in
    let after_backslash = read_units escaped cs in
    if c == b'"'
    then some ([], cs)
    else if c == b'\\'
    then after_backslash
    else if leb 32 c
    then inside
    else none
read_units escaped (c ∷ cs) =
    let number = read_units (digits 3 0) cs in
    let rest = read_units between cs in
    if c == b'u' then number else elim (simple_escape c) [ none ↦ none | some d ↦ behind d rest ]
read_units (digits zero n) (c ∷ cs) =
    let rest = read_units between cs in
    elim (hex_value c) [ none ↦ none | some d ↦ behind (n * 16 + d) rest ]
read_units (digits (suc k) n) (c ∷ cs) = elim (hex_value c) [
  | none ↦ none
  | some d ↦ read_units (digits k (n * 16 + d)) cs
]

abbrev pub is_high : ℕ → Bool
is_high u = leb 0xd800 u && leb u 0xdbff

abbrev pub is_low : ℕ → Bool
is_low u = leb 0xdc00 u && leb u 0xdfff

-- A high and a low surrogate are one character.
unfoldable pub join_units : List ℕ → Text
join_units [] = []
join_units (u ∷ []) = u ∷ []
join_units (u ∷ v ∷ us) =
    let two = join_units us in
    let one = join_units (v ∷ us) in
    if is_high u && is_low v then (0x10000 + (u - 0xd800) * 1024 + (v - 0xdc00)) ∷ two else u ∷ one

-- A string, from its opening quote.
unfoldable pub read_string : Reader Text
read_string [] = none
read_string (c ∷ cs) =
    if c == b'"'
    then elim (read_units between cs) [ none ↦ none | some (us, rest) ↦ some (join_units us, rest) ]
    else none

abbrev pub counted : Text × Text → Option (Cell × Text)
counted ([], rest) = none
counted (d ∷ ds, rest) = some (num (digits_value 0 (d ∷ ds)), rest)

unfoldable pub read_cell : Reader Cell
read_cell s =
    if starts_with s (codes "null")
    then some (null, drop 4 s)
    else if starts_with s (codes "\"")
    then elim (read_string s) [ none ↦ none | some (t, rest) ↦ some (str t, rest) ]
    else counted (span is_digit s)

-- Spaces and line breaks between the tokens.
unfoldable pub skip : Text → Text
skip [] = []
skip (c ∷ cs) = let rest = skip cs in if c == b' ' || c == 10 then rest else c ∷ cs

-- Behind an item: a comma and more, or the closing bracket.
abbrev pub after_item {ℓ} : {A : Type ℓ} → ℕ → A → Text → Reader (List A) → Option (List A × Text)
after_item close a [] more = none
after_item close a (c ∷ cs) more =
    if c == b',' then behind a (more cs) else if c == close then some (a ∷ [], cs) else none

abbrev pub next_item {ℓ} :
    {A : Type ℓ} → ℕ → Option (A × Text) → Reader (List A) → Option (List A × Text)
next_item close none more = none
next_item close (some (a, rest)) more = after_item close a (skip rest) more

-- Items up to the closing bracket: at least one, on fuel for their number.
unfoldable pub read_more {ℓ} : {A : Type ℓ} → Reader A → ℕ → ℕ → Reader (List A)
read_more item close zero s = none
read_more item close (suc fuel) s = next_item close (item (skip s)) (read_more item close fuel)

-- What follows an opening bracket. Each item has a character, so the length of the text is enough.
unfoldable pub read_items {ℓ} : {A : Type ℓ} → Reader A → ℕ → Reader (List A)
read_items item close cs =
    if starts_with (skip cs) (close ∷ [])
    then some ([], drop 1 (skip cs))
    else read_more item close (length cs) cs

-- A list from its opening bracket.
unfoldable pub read_list {ℓ} : {A : Type ℓ} → ℕ → ℕ → Reader A → Reader (List A)
read_list opening close item [] = none
read_list opening close item (c ∷ cs) = if c == opening then read_items item close cs else none

abbrev pub with_key {ℓ} : {A : Type ℓ} → Text → Option (A × Text) → Option ((Text × A) × Text)
with_key key none = none
with_key key (some (a, rest)) = some ((key, a), rest)

-- Behind a key: a colon and the value.
abbrev pub after_key {ℓ} :
    {A : Type ℓ} → Reader A → Option (Text × Text) → Option ((Text × A) × Text)
after_key item none = none
after_key item (some (key, rest)) =
    if starts_with (skip rest) (codes ":")
    then with_key key (item (skip (drop 1 (skip rest))))
    else none

unfoldable pub read_pair {ℓ} : {A : Type ℓ} → Reader A → Reader (Text × A)
read_pair item s = after_key item (read_string s)

unfoldable pub read_dict {ℓ} : {A : Type ℓ} → Reader A → Reader (Dict A)
read_dict item = read_list b'{' b'}' (read_pair item)

abbrev pub as_entry {ℓ} : {A : Type ℓ} → (A → Entry) → Option (A × Text) → Option (Entry × Text)
as_entry f none = none
as_entry f (some (a, rest)) = some (f a, rest)

unfoldable pub read_entry : Reader Entry
read_entry s =
    if starts_with s (codes "[")
    then as_entry table (read_list b'[' b']' (read_dict read_cell) s)
    else if starts_with s (codes "{")
    then as_entry object (read_dict read_cell s)
    else as_entry plain (read_cell s)

-- The whole report.
unfoldable pub read_report : Reader (Dict Section)
read_report = read_dict (read_dict read_entry)
