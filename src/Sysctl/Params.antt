-- ===== src/Sysctl/Params.antt =====
-- `get_sysctl_params` of sysctl.py against what `sysctl -a` printed.
use linuxtools.Base.{
  ◌≡◌, refl, ◌∙◌, ap, true, List, [], ◌∷◌, ◌++◌, Option, none, some, if◌then◌else◌, arith, All, ok,
  Option-cases, inl, inr,
}
use linuxtools.Str.{
  Text, codes, eqb, strip, split_once, splitlines, break_lines, crlf, is_space, is_break,
}
use linuxtools.Str.Strip.{IsStripped, strip_stripped, strip_blank, strip_trailing}
use linuxtools.Str.Lines.{
  unlines, NoBreak, splitlines-unlines, lacks, split_once-append, lacks-append, no_break-append,
}
use linuxtools.Dict.Fresh.{insert_all, insert_all-nil}
use linuxtools.Dict.{Dict, lookup, insert, lookup-insert, lookup-nil, NodupKeys, insert-NodupKeys}
use linuxtools.Sysctl.{
  Host, finished, checked, run_command, truthy, read_param, read_params, params_of,
  get_sysctl_params,
}

-- A parameter that a line can carry: a key with no `=`, and both parts stripped and without line
-- boundaries.
pub record IsParam (p : Text × Text) : Type 0 where
  pub key_lacks : lacks b'=' p.0 ≡ true
  pub key_stripped : IsStripped p.0
  pub value_stripped : IsStripped p.1
  pub key_line : NoBreak p.0
  pub value_line : NoBreak p.1

-- `key = value`, as `sysctl -a` prints it.
pub line_of : Text × Text → Text
line_of (k, v) = (k ++ codes " ") ++ (b'=' ∷ b' ' ∷ v)

unfoldable pub lines_of : Dict Text → List Text
lines_of [] = []
lines_of (p ∷ d) = line_of p ∷ lines_of d

split_once-line_of :
    (k v : Text)
    → lacks b'=' k ≡ true
    → split_once b'=' (line_of (k, v)) ≡ some (k ++ codes " ", b' ' ∷ v)
unfolding line_of
split_once-line_of k v h =
    split_once-append b'=' (k ++ codes " ") (b' ' ∷ v)
      (ground (arith, lacks-append b'=' k (codes " ")))

read_param-line_of :
    (k v : Text) (d : Dict Text) → IsParam (k, v) → read_param (line_of (k, v)) d ≡ insert k v d
unfolding read_param is_space
read_param-line_of k v d h = rw (
  split_once-line_of k v h.key_lacks,
  read_param,
  strip_trailing k b' ' refl h.key_stripped,
  strip_blank b' ' v refl,
  strip_stripped v h.value_stripped,
)

line_of-NoBreak : (k v : Text) → IsParam (k, v) → NoBreak (line_of (k, v))
unfolding line_of is_break
line_of-NoBreak k v h = ground (
  arith,
  no_break-append (k ++ codes " ") (b'=' ∷ b' ' ∷ v),
  no_break-append k (codes " "),
  h.key_line,
  h.value_line,
)

lines_of-NoBreak : (d : Dict Text) → All IsParam d → All NoBreak (lines_of d)
unfolding lines_of
lines_of-NoBreak [] h = tt
lines_of-NoBreak ((k, v) ∷ d) (h, hs) = (line_of-NoBreak k v h, lines_of-NoBreak d hs)

read_params-lines_of :
    (e d : Dict Text) → All IsParam e → read_params (lines_of e) d ≡ insert_all d e
unfolding read_params lines_of insert_all
read_params-lines_of [] d h = refl
read_params-lines_of ((k, v) ∷ e) d (h, hs) =
    ap (read_params (lines_of e)) (read_param-line_of k v d h)
    ∙ read_params-lines_of e (insert k v d) hs

params_of-unlines :
    (d : Dict Text) → All IsParam d → NodupKeys d → params_of (some (unlines (lines_of d))) ≡ d
params_of-unlines d h u =
    ap (λ ls. read_params ls []) (splitlines-unlines (lines_of d) (lines_of-NoBreak d h))
    ∙ read_params-lines_of d [] h
    ∙ insert_all-nil d u

params_of-truthy : (s : Text) → params_of (truthy (some s)) ≡ params_of (some s)
unfolding splitlines break_lines crlf read_params
params_of-truthy [] = refl
params_of-truthy (c ∷ s) = refl

-- Where `sysctl -a` ends well and prints each parameter as `key = value`, the result is the
-- parameters, in their order: the keys are different and have no `=`, and keys and values are
-- stripped and lie on one line.
pub get_sysctl_params-unlines :
    (host : Host) (d : Dict Text)
    → host.run (codes "sysctl -a") ≡ finished 0 (unlines (lines_of d))
    → All IsParam d
    → NodupKeys d
    → get_sysctl_params host ≡ ok d
unfolding get_sysctl_params run_command checked
get_sysctl_params-unlines host d ran h u =
    rw (ran, get_sysctl_params)
      (ap ok (params_of-truthy (unlines (lines_of d)) ∙ params_of-unlines d h u))

-- The value that a line gives to the key `k`.
abbrev pub value_in : Text → Text → Option Text
value_in k line = elim (split_once b'=' line) [
  | none ↦ none
  | some (key, value) ↦ if eqb (strip key) k then some (strip value) else none
]

-- The value of the last line that gives one, or else `d`.
unfoldable pub last_value : Text → Option Text → List Text → Option Text
last_value k d [] = d
last_value k d (line ∷ lines) =
    last_value k (elim (value_in k line) [ none ↦ d | some v ↦ some v ]) lines

lookup-read_param :
    (k : Text) (line : Text) (d : Dict Text)
    → lookup k (read_param line d)
      ≡ (elim (value_in k line) [ none ↦ lookup k d | some v ↦ some v ])
unfolding read_param
lookup-read_param k line d = elim (Option-cases (split_once b'=' line)) [
  | inl e ↦ rw (e, read_param)
  | inr ((key, value), e) ↦ rw (e, read_param, lookup-insert) (ground arith)
]

lookup-read_params :
    (k : Text) (lines : List Text) (d : Dict Text)
    → lookup k (read_params lines d) ≡ last_value k (lookup k d) lines
unfolding read_params last_value
lookup-read_params k [] d = refl
lookup-read_params k (line ∷ lines) d =
    lookup-read_params k lines (read_param line d)
    ∙ ap (λ o. last_value k o lines) (lookup-read_param k line d)

read_params-NodupKeys :
    (lines : List Text) (d : Dict Text) → NodupKeys d → NodupKeys (read_params lines d)
unfolding read_params read_param
read_params-NodupKeys [] d u = u
read_params-NodupKeys (line ∷ lines) d u = elim (Option-cases (split_once b'=' line)) [
  | inl e ↦ rw (e, read_param) (read_params-NodupKeys lines d u)
  | inr ((key, value), e) ↦
      rw (e, read_param)
        (read_params-NodupKeys lines _ (insert-NodupKeys (strip key) (strip value) d u))
]

-- Whatever `sysctl -a` printed, if it ended well: the result lists no key twice, and holds for each
-- key the stripped value of the last line whose part before the first `=` is that key, stripped, and
-- nothing for a key of no line.
pub lookup-get_sysctl_params :
    (host : Host) (output : Text) (k : Text)
    → host.run (codes "sysctl -a") ≡ finished 0 output
    → (d : Dict Text) × (get_sysctl_params host ≡ ok d)
      × NodupKeys d
      × (lookup k d ≡ last_value k none (splitlines output))
unfolding get_sysctl_params run_command checked
lookup-get_sysctl_params host output k ran = (
  params_of (some output),
  rw (ran, get_sysctl_params) (ap ok (params_of-truthy output)),
  read_params-NodupKeys (splitlines output) [] tt,
  lookup-read_params k (splitlines output) []
      ∙ ap (λ o. last_value k o (splitlines output)) (lookup-nil k),
)
