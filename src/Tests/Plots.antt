-- ===== src/Tests/Plots.antt =====
-- The charts of disk_bench/visualize.py on a small table.
use linuxtools.Base.{ℕ, ◌≡◌, refl, List, [], ◌∷◌, some, map, ok}
use linuxtools.Str.{Text, codes, eqb}
use linuxtools.Str.Number.{decimal}
use linuxtools.DiskPlot.{Row, Libraries, heights}
use linuxtools.DiskPlot.Firsts.{distinct_from, where_mode, firsts_from, mode_of, IsPandas}
use linuxtools.DiskPlot.Laws.{shown, figure_of, curves_of, charts-firsts}
use linuxtools.DiskPlot.Create.{results_figure, create_latency_histogram}

-- The numbers are natural numbers, and are printed without decimals.
abbrev lib : Libraries ℕ
lib = record {
  read_csv = λ path. ok [];
  to_datetime = λ ts. ok tt;
  unique = distinct_from [];
  select = where_mode;
  savefig = λ path. ok tt;
  fixed = λ n x. decimal x;
}

lib-IsPandas : IsPandas lib
lib-IsPandas = record { unique_lem = λ xs. refl; select_lem = λ mode df. refl }

abbrev row_of : Text → ℕ → Row ℕ
row_of mode n = record {
  mode = mode;
  timestamp = 0;
  throughput_mbps = n;
  iops = n;
  lat_min_us = 1;
  lat_avg_us = 2;
  lat_p50_us = 2;
  lat_p95_us = 3;
  lat_p99_us = 4;
  lat_p999_us = 5;
  lat_max_us = 6;
}

-- As `run_benchmark.sh` writes it, with two rows for sequential reads.
abbrev df : List (Row ℕ)
df =
    row_of (codes "seq-read") 900
    ∷ row_of (codes "seq-write") 500
    ∷ row_of (codes "seq-read") 300
    ∷ []

abbrev column : Row ℕ → ℕ
column row = row.throughput_mbps

abbrev firsts : List (Row ℕ)
firsts = row_of (codes "seq-read") 900 ∷ row_of (codes "seq-write") 500 ∷ []

charts-firsts_example :
    (shown (results_figure lib df) ≡ figure_of lib firsts)
    × (shown (create_latency_histogram lib df (codes "a.csv")).events ≡ curves_of 0 firsts)
unfolding firsts_from eqb
charts-firsts_example = charts-firsts lib lib-IsPandas df (codes "a.csv")

-- The second row of a mode is not drawn.
bars_drawn : heights lib column (lib.unique (map mode_of df)) df ≡ some 900 ∷ some 500 ∷ []
unfolding heights distinct_from where_mode eqb
bars_drawn = refl
