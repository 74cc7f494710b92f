-- ===== src/Report/Machine.antt =====
-- What the report reads of the machine that it runs on, and `read_file`, `list_dir` and
-- `run_command` of VMM_Hygine_Report.py over it.
use linuxtools.Base.{
  ℕ, Bool, List, [], ◌∷◌, Option, none, some, if◌then◌else◌, Result, ok, raise, Exception,
  called_process_error, timeout_expired, file_not_found, os_error,
}
use linuxtools.Str.{Text, codes, starts_with, split}
use linuxtools.Utf8.{decode_ignore}

-- Files, directories and links, as the calls of the `os` module return or raise, and the commands:
-- their status and output, or what `subprocess.run` raises.
pub record Machine : Type 0 where
  pub read : Text → Option (List ℕ)
  pub exists : Text → Bool
  pub writable : Text → Bool
  pub listdir : Text → Result (List Text)
  pub readlink : Text → Result Text
  pub glob : Text → List Text
  pub shell : Text → Result Text
  pub modinfo : Text → Result (ℕ × Text)
  pub hostname : Text
  pub sysname : Text
  pub release : Text
  pub version : Text
  pub arch : Text
  pub is_root : Bool
  pub date : Text

-- `read_file` from the start; None where the file cannot be read.
unfoldable pub read_file : Machine → Text → Option Text
read_file machine path = elim (machine.read path) [
  | none ↦ none
  | some bytes ↦ some (decode_ignore bytes)
]

-- `if text:` holds for a text that is not empty.
abbrev pub truthy : Option Text → Option Text
truthy none = none
truthy (some []) = none
truthy (some (c ∷ cs)) = some (c ∷ cs)

unfoldable pub visible : List Text → List Text
visible [] = []
visible (e ∷ es) = if starts_with e (codes ".") then visible es else e ∷ visible es

abbrev not_os : Exception → Result (Option (List Text))
not_os os_error = ok none
not_os file_not_found = ok none
not_os e = raise e

-- `list_dir`: the entries that do not begin with a dot.
unfoldable pub list_dir : Machine → Text → Result (Option (List Text))
list_dir machine path = elim (machine.listdir path) [
  | ok entries ↦ ok (some (visible entries))
  | raise e ↦ not_os e
]

abbrev caught_command : Exception → Result Text
caught_command timeout_expired = ok []
caught_command called_process_error = ok []
caught_command e = raise e

-- `run_command`: a timeout or another SubprocessError gives the empty text.
unfoldable pub run_command : Machine → Text → Result Text
run_command machine command = elim (machine.shell command) [
  | ok out ↦ ok out
  | raise e ↦ caught_command e
]

-- The part of a path behind its last slash.
abbrev last_of : Text → List Text → Text
last_of d [] = d
last_of d (w ∷ ws) = last_of w ws

unfoldable pub basename : Text → Text
basename path = last_of [] (split b'/' path)
