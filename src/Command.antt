-- ===== src/Command.antt =====
-- What `subprocess.run` does with a command line, in the scripts that run one.
use linuxtools.Base.{ℕ, Exception}
use linuxtools.Str.{Text}

-- It ends with a status and an output, or raises.
pub data Ran : Type 0 where
  finished : ℕ → Text → Ran
  raised : Exception → Ran
