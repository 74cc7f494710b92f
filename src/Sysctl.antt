-- ===== src/Sysctl.antt =====
-- sysctl.py: the commands that it runs, what it reads from their outputs, and what it saves.
pub mod Params
pub mod Query
pub mod Collect
pub mod Outcome
use linuxtools.Base.{
  ℕ, zero, suc, Bool, true, false, List, [], ◌∷◌, ◌++◌, Option, none, some, if◌then◌else◌,
  get_elem?, Result, ok, raise, ◌>>=◌, Exception, index_error, called_process_error,
  timeout_expired, ◌==◌,
}
use linuxtools.Str.{Text, codes, splitlines, starts_with, split_once, split_space, strip}
use linuxtools.Dict.{Dict, insert}
pub use linuxtools.Command.{Ran, finished, raised}

-- What the script asks of the machine that it runs on.
pub record Host : Type 0 where
  pub run : Text → Ran
  pub exists : Text → Bool
  pub hostname : Result Text
  pub fqdn : Result Text
  pub now : Text

-- `except subprocess.SubprocessError`
unfoldable pub log_error : Exception → Result (Option Text)
log_error called_process_error = ok none
log_error timeout_expired = ok none
log_error e = raise e

-- `check=True` raises on a status other than 0.
unfoldable pub checked : Ran → Result (Option Text)
checked (finished zero out) = ok (some out)
checked (finished (suc _) out) = log_error called_process_error
checked (raised e) = log_error e

unfoldable pub run_command : Host → Text → Result (Option Text)
run_command host command = checked (host.run command)

-- `if output:` holds for a text that is not empty.
abbrev pub truthy : Option Text → Option Text
truthy none = none
truthy (some []) = none
truthy (some (c ∷ cs)) = some (c ∷ cs)

-- One line of `sysctl -a`: `line.split("=", 1)` has two parts, or the line is skipped.
unfoldable pub read_param : Text → Dict Text → Dict Text
read_param line params = elim (split_once b'=' line) [
  | none ↦ params
  | some (key, value) ↦ insert (strip key) (strip value) params
]

unfoldable pub read_params : List Text → Dict Text → Dict Text
read_params [] params = params
read_params (line ∷ lines) params = read_params lines (read_param line params)

abbrev pub params_of : Option Text → Dict Text
params_of none = []
params_of (some output) = read_params (splitlines output) []

unfoldable pub get_sysctl_params : Host → Result (Dict Text)
get_sysctl_params host = do
  output ← run_command host (codes "sysctl -a")
  ok (params_of (truthy output))
