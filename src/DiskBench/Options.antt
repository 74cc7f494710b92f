-- ===== src/DiskBench/Options.antt =====
-- `main` of disk_bench/disk_bench.c, on the options that `getopt` finds. What it prints before the test
-- is left out.
use linuxtools.Base.{
  ℕ, ◌*◌, ◌%◌, Bool, true, false, List, [], ◌∷◌, Option, none, some, if◌then◌else◌,
}
use linuxtools.Str.{Text, codes, eqb}
use linuxtools.DiskBench.{
  word, Mode, seq_read, seq_write, rand_read, rand_write, mixed, Stats, Run, done, exited, ◌>>=◌,
  Libc,
}
use linuxtools.DiskBench.Loops.{Os, test_seq_read, test_seq_write, test_rand_read, test_rand_write}
use linuxtools.DiskBench.Results.{Measured, Line, print_stats}

-- `config_t`
pub record Config : Type 0 where
  pub filename : Option Text
  pub mode : Mode
  pub file_size : ℕ
  pub block_size : ℕ
  pub duration_sec : ℕ
  pub use_direct_io : Bool
  pub use_sync : Bool
  pub output_csv : Option Text

abbrev pub defaults : Config
defaults = record {
  filename = none;
  mode = seq_read;
  file_size = 1073741824;
  block_size = 4096;
  duration_sec = 30;
  use_direct_io = false;
  use_sync = false;
  output_csv = none;
}

-- An option with its argument; numbers are what `atol` and `atoi` make of them, as words.
pub data Flag : Type 0 where
  file_flag mode_flag output_flag : Text → Flag
  size_flag block_flag duration_flag : ℕ → Flag
  direct_flag sync_flag help_flag unknown_flag : Flag

unfoldable pub mode_of : Text → Option Mode
mode_of arg =
    if eqb arg (codes "seq-read")
    then some seq_read
    else if eqb arg (codes "seq-write")
    then some seq_write
    else if eqb arg (codes "rand-read")
    then some rand_read
    else if eqb arg (codes "rand-write")
    then some rand_write
    else none

unfoldable pub set_flag : Flag → Config → Run Config
set_flag (file_flag arg) c = done (record c { filename = some arg })
set_flag (mode_flag arg) c = elim (mode_of arg) [
  | none ↦ exited 1
  | some mode ↦ done (record c { mode = mode })
]
set_flag (size_flag n) c = done (record c { file_size = n * 1024 * 1024 % word })
set_flag (block_flag n) c = done (record c { block_size = n })
set_flag (duration_flag n) c = done (record c { duration_sec = n })
set_flag direct_flag c = done (record c { use_direct_io = true })
set_flag sync_flag c = done (record c { use_sync = true })
set_flag (output_flag arg) c = done (record c { output_csv = some arg })
set_flag help_flag c = exited 0
set_flag unknown_flag c = exited 1

unfoldable pub set_flags : List Flag → Config → Run Config
set_flags [] c = done c
set_flags (f ∷ fs) c = do next ← set_flag f c; set_flags fs next

module _ {Num : Type 0} (libc : Libc Num) (os : Os) where
  -- MAX_LATENCIES
  abbrev pub no_stats : Stats Num
  no_stats = record {
    latencies = [];
    count = 0;
    capacity = 1000000;
    total_bytes = 0;
    total_ops = 0;
    duration_sec = libc.of_word 0;
  }

  -- The switch over the modes.
  unfoldable pub run_test : ℕ → Config → Mode → Run (Stats Num)
  run_test fuel c seq_read = test_seq_read libc os fuel c.duration_sec no_stats
  run_test fuel c seq_write = test_seq_write libc os fuel c.duration_sec no_stats
  run_test fuel c rand_read = test_rand_read libc os fuel c.block_size c.duration_sec no_stats
  run_test fuel c rand_write =
      test_rand_write libc os fuel c.file_size c.block_size c.duration_sec no_stats
  run_test fuel c mixed = exited 1

  -- `allocates`: whether `malloc` gives the array; `csv`: the lines of a file that opens.
  unfoldable pub main :
      ℕ
      → Bool
      → ℕ
      → (Text → Option (List (Line Num)))
      → List Flag
      → Run (Measured Num × Option (List (Line Num)))
  main fuel allocates time csv flags = do
    c ← set_flags flags defaults
    elim c.filename [
      | none ↦ exited 1
      | some name ↦
          if allocates
          then (do
            stats ← run_test fuel c c.mode
            print_stats libc c.mode c.block_size time
                (elim c.output_csv [ none ↦ none | some path ↦ csv path ]) stats)
          else exited 1
    ]
