-- ===== src/Str.antt =====
-- Python's `str` as the list of its code points, with the methods that the scripts call.
pub mod Laws
pub mod Number
pub mod Strip
pub mod Digits
pub mod Lines
pub mod Join
pub mod Replace
use Prim.Native.Char.{code}
use Prim.Native.String.{String}
use mathlib.Core.List.{reverse}
use linuxtools.Base.{
  ℕ, zero, suc, ◌-◌, ◌+◌, Bool, true, false, ◌&&◌, ◌||◌, List, [], ◌∷◌, ◌++◌, Option, none, some,
  leb, ◌==◌, if◌then◌else◌, length, replicate,
}

abbrev pub Text : Type 0
Text = List ℕ

-- A literal of the source.
abbrev pub codes : String → Text
codes String.[] = []
codes (String.◌∷◌ c s) = code c ∷ codes s

-- `==` on `str`
unfoldable pub eqb : Text → Text → Bool
eqb [] [] = true
eqb [] (y ∷ ys) = false
eqb (x ∷ xs) [] = false
eqb (x ∷ xs) (y ∷ ys) = x == y && eqb xs ys

-- `str.isspace`, which `strip` and `split` go by.
unfoldable pub is_space : ℕ → Bool
is_space c =
    (leb 9 c && leb c 13)
    || (leb 28 c && leb c 32)
    || c == 0x85
    || c == 0xA0
    || c == 0x1680
    || (leb 0x2000 c && leb c 0x200A)
    || c == 0x2028
    || c == 0x2029
    || c == 0x202F
    || c == 0x205F
    || c == 0x3000

unfoldable pub lstrip : Text → Text
lstrip [] = []
lstrip (c ∷ cs) = if is_space c then lstrip cs else c ∷ cs

-- `c` in front of a text whose end is stripped.
unfoldable pub keep : ℕ → Text → Text
keep c [] = if is_space c then [] else c ∷ []
keep c (d ∷ ds) = c ∷ d ∷ ds

unfoldable pub rstrip : Text → Text
unfolding keep
rstrip [] = []
rstrip (c ∷ cs) = keep c (rstrip cs)

unfoldable pub strip : Text → Text
unfolding lstrip rstrip is_space
strip s = rstrip (lstrip s)

unfoldable pub starts_with : Text → Text → Bool
starts_with s [] = true
starts_with [] (p ∷ ps) = false
starts_with (c ∷ s) (p ∷ ps) = c == p && starts_with s ps

unfoldable pub ends_with : Text → Text → Bool
unfolding starts_with
ends_with s p = starts_with (reverse s) (reverse p)

-- A character in front of the first piece of a split.
abbrev pub prepend : ℕ → List Text → List Text
prepend c [] = (c ∷ []) ∷ []
prepend c (w ∷ ws) = (c ∷ w) ∷ ws

-- `s.split(c)` at one character
unfoldable pub split : ℕ → Text → List Text
split c [] = [] ∷ []
split c (x ∷ xs) = let rest = split c xs in if x == c then [] ∷ rest else prepend x rest

-- `s.split(c, 1)`, when it has two parts.
unfoldable pub split_once : ℕ → Text → Option (Text × Text)
split_once c [] = none
split_once c (x ∷ xs) =
    let rest = split_once c xs in
    if x == c then some ([], xs) else elim rest [ none ↦ none | some (a, b) ↦ some (x ∷ a, b) ]

pieces : Text → List Text
pieces [] = [] ∷ []
pieces (c ∷ cs) = let rest = pieces cs in if is_space c then [] ∷ rest else prepend c rest

nonempty : List Text → List Text
nonempty [] = []
nonempty ([] ∷ ws) = nonempty ws
nonempty ((c ∷ w) ∷ ws) = (c ∷ w) ∷ nonempty ws

-- `s.split()`
unfoldable pub split_space : Text → List Text
unfolding pieces nonempty is_space
split_space s = nonempty (pieces s)

-- The line boundaries of `str.splitlines`.
unfoldable pub is_break : ℕ → Bool
is_break c =
    (leb 10 c && leb c 13) || (leb 28 c && leb c 30) || c == 0x85 || c == 0x2028 || c == 0x2029

-- `\r\n` is one boundary.
unfoldable pub crlf : Text → Text
crlf [] = []
crlf (c ∷ []) = c ∷ []
crlf (c ∷ d ∷ cs) = let rest = crlf (d ∷ cs) in if c == 13 && d == 10 then rest else c ∷ rest

unfoldable pub break_lines : Text → List Text
unfolding is_break
break_lines [] = []
break_lines (c ∷ cs) = let rest = break_lines cs in if is_break c then [] ∷ rest else prepend c rest

unfoldable pub splitlines : Text → List Text
unfolding break_lines crlf is_break
splitlines s = break_lines (crlf s)

-- `sep.join(words)`
unfoldable pub join : Text → List Text → Text
join sep [] = []
join sep (w ∷ []) = w
join sep (w ∷ v ∷ ws) = w ++ (sep ++ join sep (v ∷ ws))

-- `s.replace(c, t)` for one character `c`
unfoldable pub replace : ℕ → Text → Text → Text
replace c t [] = []
replace c t (x ∷ xs) = (if x == c then t else x ∷ []) ++ replace c t xs

-- `str.lower` on ASCII letters, all that the titles of the report have.
unfoldable pub lower : Text → Text
lower [] = []
lower (c ∷ cs) = (if leb b'A' c && leb c b'Z' then c + 32 else c) ∷ lower cs

-- `f"{s:ns}"` pads on the right, `f"{k:nd}"` on the left.
unfoldable pub ljust : ℕ → Text → Text
ljust n s = s ++ replicate (n - length s) b' '

unfoldable pub rjust : ℕ → Text → Text
rjust n s = replicate (n - length s) b' ' ++ s
