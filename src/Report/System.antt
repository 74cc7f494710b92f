-- ===== src/Report/System.antt =====
-- `_get_memory_info` and `_get_distribution_info` of VMM_Hygine_Report.py.
use linuxtools.Base.{
  ℕ, ◌+◌, ◌-◌, ◌*◌, List, [], ◌∷◌, ◌++◌, Option, none, some, if◌then◌else◌, Result, ok, ◌>>=◌, ◌==◌,
  drop,
}
use linuxtools.Str.{Text, codes, starts_with, split, split_once, strip, lstrip}
use linuxtools.Str.Number.{is_digit}
use linuxtools.Dict.{Dict, insert}
use linuxtools.Report.Machine.{Machine, read_file, run_command, truthy}

-- `\d+` at the front: the digits and what follows them.
unfoldable pub span_digits : Text → Text × Text
span_digits [] = ([], [])
span_digits (c ∷ cs) =
    let rest = span_digits cs in if is_digit c then (c ∷ rest.0, rest.1) else ([], c ∷ cs)

-- `int` on digits alone
unfoldable pub digits_value : ℕ → Text → ℕ
digits_value n [] = n
digits_value n (c ∷ cs) = digits_value (n * 10 + (c - b'0')) cs

-- `\s*kB` behind the digits.
unfoldable pub amount : Text → Text → Option ℕ
amount [] rest = none
amount (d ∷ ds) rest =
    if starts_with (lstrip rest) (codes "kB") then some (digits_value 0 (d ∷ ds)) else none

-- The key has at least one character.
abbrev keyed : Text → Option ℕ → Option (Text × ℕ)
keyed [] n = none
keyed (c ∷ cs) none = none
keyed (c ∷ cs) (some n) = some (c ∷ cs, n)

-- `re.match(r'^([^:]+):\s*(\d+)\s*kB', line)`
unfoldable pub match_meminfo : Text → Option (Text × ℕ)
match_meminfo line = elim (split_once b':' line) [
  | none ↦ none
  | some (key, rest) ↦
      keyed key (amount (span_digits (lstrip rest)).0 (span_digits (lstrip rest)).1)
]

abbrev add_entry : Option (Text × ℕ) → Dict ℕ → Dict ℕ
add_entry none d = d
add_entry (some (key, n)) d = insert key n d

-- The loop over the lines.
unfoldable pub read_meminfo : List Text → Dict ℕ → Dict ℕ
read_meminfo [] d = d
read_meminfo (line ∷ lines) d = read_meminfo lines (add_entry (match_meminfo line) d)

unfoldable pub get_memory_info : Machine → Option (Dict ℕ)
get_memory_info machine = elim (truthy (read_file machine (codes "/proc/meminfo"))) [
  | none ↦ none
  | some content ↦ some (read_meminfo (split b'\n' content) [])
]

-- `.*` stops at a newline; so does `split('\n')[0]`.
unfoldable pub first_line : Text → Text
first_line [] = []
first_line (c ∷ cs) = let rest = first_line cs in if c == b'\n' then [] else c ∷ rest

-- `re.search(r'^Description:\s*(.*)', out)`
unfoldable pub match_description : Text → Option Text
match_description out =
    if starts_with out (codes "Description:")
    then some (first_line (lstrip (drop 12 out)))
    else none

-- The first release file, if there is one that is not empty.
unfoldable pub release_line : Machine → List Text → Option Text
release_line machine [] = none
release_line machine (path ∷ paths) = elim (truthy (read_file machine path)) [
  | none ↦ none
  | some content ↦ some (first_line content)
]

unfoldable pub debian_line : Machine → Option Text
debian_line machine = elim (truthy (read_file machine (codes "/etc/debian_version"))) [
  | none ↦ none
  | some content ↦ some (codes "Debian " ++ strip content)
]

abbrev pub or_else {ℓ} : {A : Type ℓ} → Option A → Option A → Option A
or_else none b = b
or_else (some a) b = some a

abbrev described : Option Text → Option Text
described none = none
described (some out) = match_description out

unfoldable pub get_distribution_info : Machine → Result (Option Text)
get_distribution_info machine = do
  lsb_output ← run_command machine (codes "lsb_release -d 2>/dev/null")
  ok (
      or_else (described (truthy (some lsb_output))) (
        or_else (release_line machine (machine.glob (codes "/etc/*-release")))
          (debian_line machine)))
