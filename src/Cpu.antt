-- ===== src/Cpu.antt =====
-- cpudetect.py: `get_cpu_info` reads the output of `lscpu`.
pub mod Laws
use linuxtools.Base.{
  ℕ, List, [], ◌∷◌, Option, none, some, if◌then◌else◌, get_elem?, Result, ok, raise, ◌>>=◌,
  Exception, index_error, called_process_error, file_not_found,
}
use linuxtools.Str.{Text, codes, splitlines, starts_with, split, strip}
use linuxtools.Str.Number.{ℤ, int}

-- The two variables of the loop; None is `none`.
pub record Found : Type 0 where
  pub sockets : Option ℤ
  pub cores_per_socket : Option ℤ

abbrev pub not_found : Found
not_found = record { sockets = none; cores_per_socket = none }

abbrev pub socket_label : Text
socket_label = codes "Socket(s):"

abbrev pub core_label : Text
core_label = codes "Core(s) per socket:"

-- `xs[i]`
unfoldable pub item : List Text → ℕ → Result Text
item xs i = elim (get_elem? xs i) [ none ↦ raise index_error | some x ↦ ok x ]

-- `int(line.split(':')[1].strip())`
unfoldable pub field : Text → Result ℤ
field line = do s ← item (split b':' line) 1; int (strip s)

unfoldable pub read_line : Text → Found → Result Found
read_line line f =
    if starts_with line socket_label
    then (do n ← field line; ok (record f { sockets = some n }))
    else if starts_with line core_label
    then (do n ← field line; ok (record f { cores_per_socket = some n }))
    else ok f

-- The loop over the lines.
unfoldable pub read_lines : List Text → Found → Result Found
read_lines [] f = ok f
read_lines (line ∷ lines) f = do g ← read_line line f; read_lines lines g

-- The dict that is returned.
pub record CpuInfo : Type 0 where
  pub sockets : ℤ
  pub cores_per_socket : ℤ

-- The kinds of line that are printed where None is returned.
pub data Message : Type 0 where
  missing lscpu_failed not_available unexpected : Message

pub data Answer : Type 0 where
  info : CpuInfo → Answer
  nothing : Message → Answer

unfoldable pub check_found : Found → Answer
check_found f = elim f.sockets [
  | none ↦ nothing missing
  | some s ↦ elim f.cores_per_socket [
    | none ↦ nothing missing
    | some c ↦ info (record { sockets = s; cores_per_socket = c })
  ]
]

-- The `except` clauses.
unfoldable pub handle : Exception → Answer
handle called_process_error = nothing lscpu_failed
handle file_not_found = nothing not_available
handle _ = nothing unexpected

abbrev pub caught : Result Answer → Answer
caught (ok a) = a
caught (raise e) = handle e

-- `output` is what `subprocess.check_output(['lscpu'], …)` returns or raises.
unfoldable pub get_cpu_info : Result Text → Answer
get_cpu_info output =
    caught (do text ← output; f ← read_lines (splitlines text) not_found; ok (check_found f))
