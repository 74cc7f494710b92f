-- ===== src/DiskPlot/Laws.antt =====
-- disk_bench/visualize.py: which rows the charts show, and where the images go.
use linuxtools.Base.{
  get_or, ◌%◌, ◌*◌, ℕ, zero, suc, ◌+◌, ◌≡◌, ◌↔◌, refl, ap, ◌∙◌, false, List, [], ◌∷◌, ◌++◌, some,
  map, arith, All, length, ok, raise, Result, Exception, ◌⊎◌, inl, inr, append-nil,
}
use linuxtools.Str.{Text, codes}
use linuxtools.Str.Replace.{occurs, replace_text-occurs}
use linuxtools.DiskPlot.{
  at, single, figure, bars, group, caption, grid, legend, xticks, table, header_style, curve, saved,
  printed, Row, Libraries, Event, heights, positions, summary_row, summary_data, curves, colors,
  throughput_chart, iops_chart, latency_chart, latency_groups, summary_table, plot_path,
  latency_path,
}
use linuxtools.DiskPlot.Create.{done, save, results_figure, create_latency_histogram}
use linuxtools.DiskPlot.Firsts.{
  firsts_from, mode_of, IsPandas, distinct-firsts, Leads, firsts-Leads,
}

module _ {Num : Type 0} where
  -- The events that show what the table holds.
  unfoldable pub shown : List (Event Num) → List (Event Num)
  shown [] = []
  shown (bars ax modes values color ∷ es) = bars ax modes values color ∷ shown es
  shown (group ax xs values label ∷ es) = group ax xs values label ∷ shown es
  shown (xticks ax xs labels ∷ es) = xticks ax xs labels ∷ shown es
  shown (table ax rows labels ∷ es) = table ax rows labels ∷ shown es
  shown (curve ax xs ys label color ∷ es) = curve ax xs ys label color ∷ shown es
  shown (figure _ ∷ es) = shown es
  shown (caption _ _ _ ∷ es) = shown es
  shown (grid _ ∷ es) = shown es
  shown (legend _ ∷ es) = shown es
  shown (header_style _ ∷ es) = shown es
  shown (saved _ ∷ es) = shown es
  shown (printed _ ∷ es) = shown es

-- `n` numbers, from `i` on.
unfoldable pub numbers : ℕ → ℕ → List ℕ
numbers i zero = []
numbers i (suc n) = i ∷ numbers (i + 1) n

-- The places of the bars `k` tenths behind 0, 1, 2, ...
abbrev pub places : ℕ → List Text → List ℕ
places k modes = map (λ i. 10 * i + k) (numbers 0 (length modes))

-- The color of the curve `i`.
unfoldable pub color_of : ℕ → Text
color_of zero = codes "steelblue"
color_of (suc zero) = codes "coral"
color_of (suc (suc zero)) = codes "lightgreen"
color_of (suc (suc (suc zero))) = codes "gold"
color_of (suc (suc (suc (suc i)))) = color_of i

module _ {Num : Type 0} (lib : Libraries Num) where
  -- The cells of a row in the table.
  abbrev pub cells_of : Row Num → List Text
  cells_of row =
      row.mode
      ∷ lib.fixed 2 row.throughput_mbps
      ∷ lib.fixed 0 row.iops
      ∷ lib.fixed 2 row.lat_avg_us
      ∷ lib.fixed 2 row.lat_p99_us
      ∷ []

  -- What the first figure shows of the rows.
  unfoldable pub figure_of : List (Row Num) → List (Event Num)
  figure_of rows =
      let modes = map mode_of rows in
      bars (at 0 0) modes (map (λ row. some row.throughput_mbps) rows) (codes "steelblue")
      ∷ bars (at 0 1) modes (map (λ row. some row.iops) rows) (codes "coral")
      ∷ group (at 1 0) (places 0 modes) (map (λ row. some row.lat_p50_us) rows) (codes "p50")
      ∷ group (at 1 0) (places 2 modes) (map (λ row. some row.lat_p95_us) rows) (codes "p95")
      ∷ group (at 1 0) (places 4 modes) (map (λ row. some row.lat_p99_us) rows) (codes "p99")
      ∷ group (at 1 0) (places 6 modes) (map (λ row. some row.lat_p999_us) rows) (codes "p99.9")
      ∷ xticks (at 1 0) (places 3 modes) modes
      ∷ table (at 1 1) (map cells_of rows) (
          codes "Mode"
          ∷ codes "Throughput\n(MB/s)"
          ∷ codes "IOPS"
          ∷ codes "Avg Latency\n(μs)"
          ∷ codes "p99 Latency\n(μs)"
          ∷ [])
      ∷ []

module _ {Num : Type 0} where
  -- The curve of a row, with its mode, in the color `i`.
  abbrev pub curve_of : ℕ → Row Num → Event Num
  curve_of i row =
      curve single
        (codes "0" ∷ codes "50" ∷ codes "95" ∷ codes "99" ∷ codes "99.9" ∷ codes "100" ∷ [])
        (row.lat_min_us ∷ row.lat_p50_us ∷ row.lat_p95_us ∷ row.lat_p99_us ∷ row.lat_p999_us
          ∷ row.lat_max_us ∷ [])
        row.mode (color_of i)

  -- The curves of the rows, from the color `i` on.
  unfoldable pub curves_of : ℕ → List (Row Num) → List (Event Num)
  curves_of i [] = []
  curves_of i (row ∷ rows) = curve_of i row ∷ curves_of (i + 1) rows

  shown-curves_of :
      (i : ℕ) (rows : List (Row Num)) (es : List (Event Num))
      → shown (curves_of i rows ++ es) ≡ curves_of i rows ++ shown es
  unfolding shown curves_of
  shown-curves_of i [] es = refl
  shown-curves_of i (row ∷ rows) es = ap (◌∷◌ (curve_of i row)) (shown-curves_of (i + 1) rows es)

module _ {Num : Type 0} (lib : Libraries Num) where
  positions-places :
      (k i : ℕ) (modes : List Text)
      → positions lib k i modes ≡ map (λ j. 10 * j + k) (numbers i (length modes))
  unfolding positions numbers
  positions-places k i [] = refl
  positions-places k i (mode ∷ modes) = ap (◌∷◌ (10 * i + k)) (positions-places k (i + 1) modes)

  color-color_of : (i : ℕ) → get_or (colors lib) (i % 4) [] ≡ color_of i
  unfolding color_of
  color-color_of zero = refl
  color-color_of (suc zero) = refl
  color-color_of (suc (suc zero)) = refl
  color-color_of (suc (suc (suc zero))) = refl
  color-color_of (suc (suc (suc (suc i)))) =
      let e : suc (suc (suc (suc i))) % 4 ≡ i % 4 = omega arith in
      ap (λ k. get_or (colors lib) k []) e ∙ color-color_of i

  -- The events of the first figure that show what the table holds.
  shown-figure :
      (modes : List Text) (df : List (Row Num))
      → shown (
          throughput_chart lib modes df
          ++ (iops_chart lib modes df
              ++ (latency_chart lib modes df ++ summary_table lib modes df)))
        ≡ bars
            (at 0 0)
            modes
            (heights lib (λ row. row.throughput_mbps) modes df)
            (codes "steelblue")
          ∷ bars (at 0 1) modes (heights lib (λ row. row.iops) modes df) (codes "coral")
          ∷ group
              (at 1 0)
              (positions lib 0 0 modes)
              (heights lib (λ row. row.lat_p50_us) modes df)
              (codes "p50")
          ∷ group
              (at 1 0)
              (positions lib 2 0 modes)
              (heights lib (λ row. row.lat_p95_us) modes df)
              (codes "p95")
          ∷ group
              (at 1 0)
              (positions lib 4 0 modes)
              (heights lib (λ row. row.lat_p99_us) modes df)
              (codes "p99")
          ∷ group
              (at 1 0)
              (positions lib 6 0 modes)
              (heights lib (λ row. row.lat_p999_us) modes df)
              (codes "p99.9")
          ∷ xticks (at 1 0) (positions lib 3 0 modes) modes
          ∷ table (at 1 1) (summary_data lib modes df) (
              codes "Mode"
              ∷ codes "Throughput\n(MB/s)"
              ∷ codes "IOPS"
              ∷ codes "Avg Latency\n(μs)"
              ∷ codes "p99 Latency\n(μs)"
              ∷ [])
          ∷ []
  unfolding shown throughput_chart iops_chart latency_chart latency_groups summary_table
  shown-figure modes df = refl

  saving_cases : (r : Result (Unit {0})) → (r ≡ ok tt) ⊎ ((e : Exception) × (r ≡ raise e))
  saving_cases (ok tt) = inl refl
  saving_cases (raise e) = inr (e, refl)

  shown-append : (xs ys : List (Event Num)) → shown (xs ++ ys) ≡ shown xs ++ shown ys
  unfolding shown
  shown-append [] ys = refl
  shown-append (bars ax modes values color ∷ es) ys =
      ap (◌∷◌ (bars ax modes values color)) (shown-append es ys)
  shown-append (group ax xs values label ∷ es) ys =
      ap (◌∷◌ (group ax xs values label)) (shown-append es ys)
  shown-append (xticks ax xs labels ∷ es) ys = ap (◌∷◌ (xticks ax xs labels)) (shown-append es ys)
  shown-append (table ax rows labels ∷ es) ys = ap (◌∷◌ (table ax rows labels)) (shown-append es ys)
  shown-append (curve ax xs zs label color ∷ es) ys =
      ap (◌∷◌ (curve ax xs zs label color)) (shown-append es ys)
  shown-append (figure t ∷ es) ys = shown-append es ys
  shown-append (caption ax k t ∷ es) ys = shown-append es ys
  shown-append (grid ax ∷ es) ys = shown-append es ys
  shown-append (legend ax ∷ es) ys = shown-append es ys
  shown-append (header_style i ∷ es) ys = shown-append es ys
  shown-append (saved t ∷ es) ys = shown-append es ys
  shown-append (printed t ∷ es) ys = shown-append es ys

  -- Whether the image can be saved or not, the same data are shown.
  shown-save :
      (events : List (Event Num)) (path message : Text)
      → shown (save lib events path message (done lib)).events ≡ shown events
  unfolding save shown
  shown-save events path message = elim (saving_cases (lib.savefig path)) [
    | inl saves ↦ rw (saves, save) (shown-append events _ ∙ append-nil (shown events))
    | inr (x, fails) ↦ rw (fails, save) refl
  ]

  shown-histogram :
      (df : List (Row Num)) (csv_file : Text) (rows : List (Row Num))
      → curves lib 0 (lib.unique (map mode_of df)) df ≡ curves_of 0 rows
      → shown (create_latency_histogram lib df csv_file).events ≡ curves_of 0 rows
  unfolding create_latency_histogram shown
  shown-histogram df csv_file rows e =
      shown-save _ (latency_path csv_file) (codes "Latency plot saved to: ")
      ∙ rw e (shown-curves_of 0 rows _ ∙ append-nil (curves_of 0 rows))

module _ {Num : Type 0} (lib : Libraries Num) (pandas : IsPandas lib) where
  selects :
      (df : List (Row Num)) (row : Row Num)
      → Leads df row
      → (rest : List (Row Num)) × (lib.select row.mode df ≡ row ∷ rest)
  selects df row (rest, e) = (rest, pandas.select_lem row.mode df ∙ e)

  heights-firsts :
      (column : Row Num → Num) (df fs : List (Row Num))
      → All (Leads df) fs
      → heights lib column (map mode_of fs) df ≡ map (λ row. some (column row)) fs
  unfolding heights
  heights-firsts column df [] h = refl
  heights-firsts column df (row ∷ fs) (l, h) =
      let (rest, e) = selects df row l in
      rw e (ap (◌∷◌ (some (column row))) (heights-firsts column df fs h))

  summary-firsts :
      (df fs : List (Row Num))
      → All (Leads df) fs
      → summary_data lib (map mode_of fs) df ≡ map (cells_of lib) fs
  unfolding summary_data summary_row
  summary-firsts df [] h = refl
  summary-firsts df (row ∷ fs) (l, h) =
      let (rest, e) = selects df row l in
      rw e (ap (◌∷◌ (cells_of lib row)) (summary-firsts df fs h))

  curves-firsts :
      (i : ℕ) (df fs : List (Row Num))
      → All (Leads df) fs
      → curves lib i (map mode_of fs) df ≡ curves_of i fs
  unfolding curves curves_of
  curves-firsts i df [] h = refl
  curves-firsts i df (row ∷ fs) (l, h) =
      let (rest, e) = selects df row l in
      rw (e, color-color_of lib i) (ap (◌∷◌ (curve_of i row)) (curves-firsts (i + 1) df fs h))

  figure-firsts :
      (df fs : List (Row Num))
      → lib.unique (map mode_of df) ≡ map mode_of fs
      → All (Leads df) fs
      → shown (results_figure lib df) ≡ figure_of lib fs
  unfolding results_figure shown figure_of
  figure-firsts df fs modes h = rw modes (
      shown-figure lib (map mode_of fs) df
      ∙ rw
          (
            positions-places lib 0 0 (map mode_of fs),
            positions-places lib 2 0 (map mode_of fs),
            positions-places lib 4 0 (map mode_of fs),
            positions-places lib 6 0 (map mode_of fs),
            positions-places lib 3 0 (map mode_of fs),
            heights-firsts (λ row. row.throughput_mbps) df fs h,
            heights-firsts (λ row. row.iops) df fs h,
            heights-firsts (λ row. row.lat_p50_us) df fs h,
            heights-firsts (λ row. row.lat_p95_us) df fs h,
            heights-firsts (λ row. row.lat_p99_us) df fs h,
            heights-firsts (λ row. row.lat_p999_us) df fs h,
            summary-firsts df fs h,
          )
          refl)

  -- Where `unique` and the Boolean mask do what pandas documents, every chart shows the first row
  -- of each mode, in the order in which the modes first appear, and no other row: the bars of the
  -- throughput and of the IOPS, the four groups of percentiles, the table and the curves are those
  -- of these rows, and no bar has the height 0 that stands for a mode without rows.
  pub charts-firsts :
      (df : List (Row Num)) (csv_file : Text)
      → let firsts = firsts_from [] df in
        (shown (results_figure lib df) ≡ figure_of lib firsts)
        × (shown (create_latency_histogram lib df csv_file).events ≡ curves_of 0 firsts)
  charts-firsts df csv_file =
      let fs = firsts_from [] df in
      let modes = pandas.unique_lem (map mode_of df) ∙ distinct-firsts [] df in
      let leads = firsts-Leads [] df in
      (
        figure-firsts df fs modes leads,
        shown-histogram lib df csv_file fs
            (ap (λ m. curves lib 0 m df) modes ∙ curves-firsts 0 df fs leads),
      )

-- The path of each of the two images is the path of the table itself exactly if `.csv` does not occur
-- in that.
pub plot_path-occurs :
    (csv_file : Text)
    → ((plot_path csv_file ≡ csv_file) ↔ (occurs (codes ".csv") csv_file ≡ false))
      × ((latency_path csv_file ≡ csv_file) ↔ (occurs (codes ".csv") csv_file ≡ false))
unfolding plot_path latency_path
plot_path-occurs csv_file = (
  replace_text-occurs (codes ".csv") (codes "_plot.png") csv_file (omega arith) (omega arith),
  replace_text-occurs (codes ".csv") (codes "_latency.png") csv_file (omega arith) (omega arith),
)
