-- ===== src/DiskBench/Results.antt =====
-- `print_stats` of disk_bench/disk_bench.c: the numbers that it prints, and the lines that it appends
-- to the CSV file. The words around the numbers and their rounding by `%.2f` are left out.
use linuxtools.Base.{
  ℕ, ◌+◌, ◌-◌, ◌/◌, ◌%◌, List, [], ◌∷◌, ◌++◌, Option, none, some, if◌then◌else◌, ◌==◌, get_or,
}
use linuxtools.Str.{Text, codes}
use linuxtools.DiskBench.{
  word, Mode, seq_read, seq_write, rand_read, rand_write, mixed, Stats, Run, done, trapped, ◌>>=◌,
  Libc, get_percentile,
}

-- The latencies in nanoseconds.
pub record Latencies : Type 0 where
  pub lat_min : ℕ
  pub lat_avg : ℕ
  pub lat_p50 : ℕ
  pub lat_p95 : ℕ
  pub lat_p99 : ℕ
  pub lat_p999 : ℕ
  pub lat_max : ℕ

abbrev pub mode_str : Mode → Text
mode_str seq_read = codes "seq-read"
mode_str seq_write = codes "seq-write"
mode_str rand_read = codes "rand-read"
mode_str rand_write = codes "rand-write"
mode_str mixed = codes "mixed"

-- The loop that adds them up.
unfoldable pub lat_sum : ℕ → List ℕ → ℕ
lat_sum acc [] = acc
lat_sum acc (l ∷ ls) = lat_sum ((acc + l) % word) ls

-- The numbers of a row.
pub record Measured (Num : Type 0) : Type 0 where
  pub mode : Text
  pub block_size : ℕ
  pub duration_sec : Num
  pub total_ops : ℕ
  pub total_mb : Num
  pub throughput_mbps : Num
  pub iops : Num
  pub lat_min_us : Num
  pub lat_avg_us : Num
  pub lat_p50_us : Num
  pub lat_p95_us : Num
  pub lat_p99_us : Num
  pub lat_p999_us : Num
  pub lat_max_us : Num

-- A line of the CSV file: the names of the columns, or the time and the numbers.
pub data Line (Num : Type 0) : Type 0 where
  column_names : Line Num
  row : ℕ → Measured Num → Line Num

module _ {Num : Type 0} (libc : Libc Num) where
  -- What is picked from the sorted array of `count` latencies.
  abbrev pub picked : List ℕ → ℕ → Latencies
  picked sorted count = record {
    lat_min = get_or sorted 0 0;
    lat_avg = lat_sum 0 sorted / count;
    lat_p50 = get_percentile libc sorted count 500;
    lat_p95 = get_percentile libc sorted count 950;
    lat_p99 = get_percentile libc sorted count 990;
    lat_p999 = get_percentile libc sorted count 999;
    lat_max = get_or sorted (count - 1) 0;
  }

  -- Without a measurement, the average divides by zero.
  unfoldable pub latencies_of : Stats Num → Run Latencies
  latencies_of stats =
      if stats.count == 0 then trapped else done (picked (libc.qsort stats.latencies) stats.count)

  -- `lat / 1000.0`
  abbrev pub microseconds : ℕ → Num
  microseconds lat = libc.quotient (libc.of_word lat) (libc.of_word 1000)

  -- `total_bytes / (1024.0 * 1024.0)`
  abbrev pub megabytes : ℕ → Num
  megabytes n = libc.quotient (libc.of_word n) (libc.of_word 1048576)

  unfoldable pub measured : Mode → ℕ → Stats Num → Latencies → Measured Num
  measured mode block_size stats l = record {
    mode = mode_str mode;
    block_size = block_size;
    duration_sec = stats.duration_sec;
    total_ops = stats.total_ops;
    total_mb = megabytes stats.total_bytes;
    throughput_mbps = libc.quotient (megabytes stats.total_bytes) stats.duration_sec;
    iops = libc.quotient (libc.of_word stats.total_ops) stats.duration_sec;
    lat_min_us = microseconds l.lat_min;
    lat_avg_us = microseconds l.lat_avg;
    lat_p50_us = microseconds l.lat_p50;
    lat_p95_us = microseconds l.lat_p95;
    lat_p99_us = microseconds l.lat_p99;
    lat_p999_us = microseconds l.lat_p999;
    lat_max_us = microseconds l.lat_max;
  }

  -- The file with the row behind its lines: an empty file gets the names of the columns first.
  unfoldable pub append_row : ℕ → Measured Num → List (Line Num) → List (Line Num)
  append_row time m [] = column_names ∷ row time m ∷ []
  append_row time m (l ∷ ls) = (l ∷ ls) ++ (row time m ∷ [])

  -- The numbers, and the CSV file, where one was asked for and opens.
  unfoldable pub print_stats :
      Mode
      → ℕ
      → ℕ
      → Option (List (Line Num))
      → Stats Num
      → Run (Measured Num × Option (List (Line Num)))
  print_stats mode block_size time csv stats = do
    l ← latencies_of stats
    done (
      measured mode block_size stats l,
      elim csv [
        | none ↦ none
        | some ls ↦ some (append_row time (measured mode block_size stats l) ls)
      ],
    )
