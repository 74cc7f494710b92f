-- ===== src/NetBench/Options.antt =====
-- `main` of net_bench/net_bench.c, on the options that `getopt` finds.
use linuxtools.Base.{ℕ, Bool, true, false, List, [], ◌∷◌, Option, none, some, if◌then◌else◌}
use linuxtools.Str.{Text}
use linuxtools.NetBench.{Doubles, Event, Round, start, run_server}
use linuxtools.NetBench.Sender.{Run, run_client}

-- The global configuration.
pub record Config : Type 0 where
  pub is_server : Bool
  pub server_ip : Option Text
  pub max_bandwidth_mbps : ℕ
  pub duration_per_step : ℕ

abbrev pub defaults : Config
defaults = record {
  is_server = false;
  server_ip = none;
  max_bandwidth_mbps = 100;
  duration_per_step = 5;
}

-- An option; numbers are what `atoi` makes of them.
pub data Flag : Type 0 where
  server_flag unknown_flag : Flag
  client_flag : Text → Flag
  bandwidth_flag step_flag : ℕ → Flag

abbrev pub set_flag : Flag → Config → Config
set_flag server_flag c = record c { is_server = true }
set_flag (client_flag ip) c = record c { server_ip = some ip }
set_flag (bandwidth_flag n) c = record c { max_bandwidth_mbps = n }
set_flag (step_flag n) c = record c { duration_per_step = n }
set_flag unknown_flag c = c

unfoldable pub set_flags : List Flag → Config → Config
set_flags [] c = c
set_flags (f ∷ fs) c = set_flags fs (set_flag f c)

-- What `main` does: it receives, it sends to an address, or it exits.
pub data Outcome (Num : Type 0) : Type 0 where
  served : Round Num → Outcome Num
  sent : Text → Run → Outcome Num
  exited : ℕ → Outcome Num

abbrev pub as_client : {Num : Type 0} → (ℕ → ℕ) → ℕ → Config → Outcome Num
as_client clock fuel c = elim c.server_ip [
  | none ↦ exited 1
  | some ip ↦ sent ip (run_client clock fuel c.duration_per_step c.max_bandwidth_mbps)
]

unfoldable pub main :
    {Num : Type 0} → Doubles Num → (ℕ → ℕ) → ℕ → ℕ → ℕ → List Event → List Flag → Outcome Num
main doubles clock fuel time now es flags =
    let c = set_flags flags defaults in
    if c.is_server
    then served (run_server doubles es (start doubles time now))
    else as_client clock fuel c
