-- ===== src/DiskPlot.antt =====
-- disk_bench/visualize.py: the calls of matplotlib that draw the results of disk_bench, and what is
-- printed, as a list of events. `Num` is the type of the numbers of the table.
pub mod Create
pub mod Firsts
pub mod Laws
use linuxtools.Base.{ℕ, ◌+◌, ◌*◌, ◌%◌, List, [], ◌∷◌, ◌++◌, Option, none, some, map, get_or, Result}
use linuxtools.Str.{Text, codes}
use linuxtools.Str.Replace.{replace_text}

-- A row of the table, with the columns that the script reads. `timestamp` is only converted.
pub record Row (Num : Type 0) : Type 0 where
  pub mode : Text
  pub timestamp : Num
  pub throughput_mbps : Num
  pub iops : Num
  pub lat_min_us : Num
  pub lat_avg_us : Num
  pub lat_p50_us : Num
  pub lat_p95_us : Num
  pub lat_p99_us : Num
  pub lat_p999_us : Num
  pub lat_max_us : Num

-- The libraries: `pd.read_csv`, `pd.to_datetime`, `Series.unique`, the rows `df[df['mode'] == mode]`,
-- `plt.savefig`, and Python's own `f"{x:.nf}"`.
pub record Libraries (Num : Type 0) : Type 0 where
  pub read_csv : Text → Result (List (Row Num))
  pub to_datetime : List Num → Result (Unit {0})
  pub unique : List Text → List Text
  pub select : Text → List (Row Num) → List (Row Num)
  pub savefig : Text → Result (Unit {0})
  pub fixed : ℕ → Num → Text

-- Which of the four subplots, by row and column, or the single one of the second figure.
pub data Axes : Type 0 where
  at : ℕ → ℕ → Axes
  single : Axes

-- The height of a bar; `none` is the 0 where a mode has no row. Positions on the x axis are in tenths.
pub data Event (Num : Type 0) : Type 0 where
  figure : Text → Event Num
  bars : Axes → List Text → List (Option Num) → Text → Event Num
  group : Axes → List ℕ → List (Option Num) → Text → Event Num
  caption : Axes → Text → Text → Event Num
  grid : Axes → Event Num
  legend : Axes → Event Num
  xticks : Axes → List ℕ → List Text → Event Num
  table : Axes → List (List Text) → List Text → Event Num
  header_style : ℕ → Event Num
  curve : Axes → List Text → List Num → Text → Text → Event Num
  saved : Text → Event Num
  printed : Text → Event Num

module _ {Num : Type 0} (lib : Libraries Num) where
  -- The value of the first row, or the 0.
  abbrev pub first_of : (Row Num → Num) → List (Row Num) → Option Num
  first_of column [] = none
  first_of column (row ∷ rows) = some (column row)

  -- The list of the first values, one for each mode.
  unfoldable pub heights : (Row Num → Num) → List Text → List (Row Num) → List (Option Num)
  heights column [] df = []
  heights column (mode ∷ modes) df = first_of column (lib.select mode df) ∷ heights column modes df

  -- `set_xlabel`, `set_ylabel` and `set_title`
  abbrev pub captions : Axes → Text → Text → Text → List (Event Num)
  captions ax x y title =
      caption ax (codes "xlabel") x
      ∷ caption ax (codes "ylabel") y
      ∷ caption ax (codes "title") title
      ∷ []

  unfoldable pub throughput_chart : List Text → List (Row Num) → List (Event Num)
  throughput_chart modes df =
      bars (at 0 0) modes (heights (λ row. row.throughput_mbps) modes df) (codes "steelblue")
      ∷ (captions (at 0 0) (codes "Test Mode") (codes "Throughput (MB/s)")
            (codes "Throughput by Test Mode")
          ++ (grid (at 0 0) ∷ []))

  unfoldable pub iops_chart : List Text → List (Row Num) → List (Event Num)
  iops_chart modes df =
      bars (at 0 1) modes (heights (λ row. row.iops) modes df) (codes "coral")
      ∷ (captions (at 0 1) (codes "Test Mode") (codes "IOPS") (codes "IOPS by Test Mode")
          ++ (grid (at 0 1) ∷ []))

  -- `[xi + k * 0.1 for xi in x]` in tenths, from `xi` on.
  unfoldable pub positions : ℕ → ℕ → List Text → List ℕ
  positions k xi [] = []
  positions k xi (mode ∷ modes) = (10 * xi + k) ∷ positions k (xi + 1) modes

  -- The columns and the labels of the third chart.
  abbrev pub percentiles : List ((Row Num → Num) × Text)
  percentiles =
      (λ row. row.lat_p50_us, codes "p50")
      ∷ (λ row. row.lat_p95_us, codes "p95")
      ∷ (λ row. row.lat_p99_us, codes "p99")
      ∷ (λ row. row.lat_p999_us, codes "p99.9")
      ∷ []

  unfoldable pub latency_groups :
      ℕ → List ((Row Num → Num) × Text) → List Text → List (Row Num) → List (Event Num)
  latency_groups i [] modes df = []
  latency_groups i ((column, label) ∷ rest) modes df =
      group (at 1 0) (positions (2 * i) 0 modes) (heights column modes df) label
      ∷ latency_groups (i + 1) rest modes df

  unfoldable pub latency_chart : List Text → List (Row Num) → List (Event Num)
  latency_chart modes df =
      latency_groups 0 percentiles modes df
      ++ (captions (at 1 0) (codes "Test Mode") (codes "Latency (microseconds)")
            (codes "Latency Percentiles by Test Mode")
          ++ (xticks (at 1 0) (positions 3 0 modes) modes ∷ legend (at 1 0) ∷ grid (at 1 0) ∷ []))

  unfoldable pub summary_row : Text → Row Num → List Text
  summary_row mode row =
      mode
      ∷ lib.fixed 2 row.throughput_mbps
      ∷ lib.fixed 0 row.iops
      ∷ lib.fixed 2 row.lat_avg_us
      ∷ lib.fixed 2 row.lat_p99_us
      ∷ []

  -- `if not mode_df.empty:` with the first row.
  abbrev pub add_summary : Text → List (Row Num) → List (List Text) → List (List Text)
  add_summary mode [] rest = rest
  add_summary mode (row ∷ rows) rest = summary_row mode row ∷ rest

  unfoldable pub summary_data : List Text → List (Row Num) → List (List Text)
  summary_data [] df = []
  summary_data (mode ∷ modes) df = add_summary mode (lib.select mode df) (summary_data modes df)

  abbrev pub column_labels : List Text
  column_labels =
      codes "Mode"
      ∷ codes "Throughput\n(MB/s)"
      ∷ codes "IOPS"
      ∷ codes "Avg Latency\n(μs)"
      ∷ codes "p99 Latency\n(μs)"
      ∷ []

  unfoldable pub summary_table : List Text → List (Row Num) → List (Event Num)
  summary_table modes df =
      table (at 1 1) (summary_data modes df) column_labels
      ∷ header_style 0
      ∷ header_style 1
      ∷ header_style 2
      ∷ header_style 3
      ∷ header_style 4
      ∷ []

  -- The colors of the curves, which repeat from the fifth on.
  abbrev pub colors : List Text
  colors = codes "steelblue" ∷ codes "coral" ∷ codes "lightgreen" ∷ codes "gold" ∷ []

  abbrev pub marks : List Text
  marks = codes "0" ∷ codes "50" ∷ codes "95" ∷ codes "99" ∷ codes "99.9" ∷ codes "100" ∷ []

  abbrev pub latencies : Row Num → List Num
  latencies row =
      row.lat_min_us ∷ row.lat_p50_us ∷ row.lat_p95_us ∷ row.lat_p99_us ∷ row.lat_p999_us
      ∷ row.lat_max_us ∷ []

  abbrev pub add_curve : ℕ → Text → List (Row Num) → List (Event Num) → List (Event Num)
  add_curve i mode [] rest = rest
  add_curve i mode (row ∷ rows) rest =
      curve single marks (latencies row) mode (get_or colors (i % 4) []) ∷ rest

  unfoldable pub curves : ℕ → List Text → List (Row Num) → List (Event Num)
  curves i [] df = []
  curves i (mode ∷ modes) df = add_curve i mode (lib.select mode df) (curves (i + 1) modes df)

-- `csv_file.replace('.csv', …)`
unfoldable pub plot_path : Text → Text
plot_path csv_file = replace_text (codes ".csv") (codes "_plot.png") csv_file

unfoldable pub latency_path : Text → Text
latency_path csv_file = replace_text (codes ".csv") (codes "_latency.png") csv_file
