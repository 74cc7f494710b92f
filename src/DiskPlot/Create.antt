-- ===== src/DiskPlot/Create.antt =====
-- disk_bench/visualize.py: `plot_results`, `create_latency_histogram` and `main`. The text of an
-- exception that is printed is left out.
use linuxtools.Base.{ℕ, List, [], ◌∷◌, ◌++◌, map, ok, raise, Exception}
use linuxtools.Str.{Text, codes}
use linuxtools.DiskPlot.{
  Row, Libraries, Event, single, figure, caption, grid, legend, saved, printed, captions,
  throughput_chart, iops_chart, latency_chart, summary_table, curves, plot_path, latency_path,
}

-- How a function of the script ends.
pub data End : Type 0 where
  returned : End
  exited : ℕ → End
  raised : Exception → End

-- The events up to the end.
pub record Drawn (Num : Type 0) : Type 0 where
  pub events : List (Event Num)
  pub end : End

module _ {Num : Type 0} (lib : Libraries Num) where
  -- The events, `plt.savefig` of a path, which may raise, and the message; then the rest.
  unfoldable pub save : List (Event Num) → Text → Text → Drawn Num → Drawn Num
  save events path message rest = elim (lib.savefig path) [
    | raise e ↦ record { events = events; end = raised e }
    | ok _ ↦ record {
      events = events ++ (saved path ∷ printed (message ++ path) ∷ rest.events);
      end = rest.end;
    }
  ]

  abbrev pub done : Drawn Num
  done = record { events = []; end = returned }

  unfoldable pub create_latency_histogram : List (Row Num) → Text → Drawn Num
  create_latency_histogram df csv_file =
      let modes = lib.unique (map (λ row. row.mode) df) in
      let events =
        figure []
        ∷ (curves lib 0 modes df
            ++ (captions lib single (codes "Percentile") (codes "Latency (microseconds)")
                  (codes "Latency Distribution by Percentile")
                ++ (legend single
                    ∷ grid single
                    ∷ caption single (codes "yscale") (codes "log")
                    ∷ []))) in
      save events (latency_path csv_file) (codes "Latency plot saved to: ") done

  -- The first figure.
  unfoldable pub results_figure : List (Row Num) → List (Event Num)
  results_figure df =
      let modes = lib.unique (map (λ row. row.mode) df) in
      figure (codes "Disk Benchmark Results")
      ∷ (throughput_chart lib modes df
          ++ (iops_chart lib modes df
              ++ (latency_chart lib modes df ++ summary_table lib modes df)))

  -- `plot_results` on the table that was read.
  unfoldable pub plot_table : List (Row Num) → Text → Drawn Num
  plot_table [] csv_file = record {
    events = printed (codes "No data in CSV file") ∷ [];
    end = exited 1;
  }
  plot_table (row ∷ rows) csv_file = elim (lib.to_datetime (map (λ r. r.timestamp) (row ∷ rows))) [
    | raise e ↦ record { events = []; end = raised e }
    | ok _ ↦
        save (results_figure (row ∷ rows)) (plot_path csv_file) (codes "Plot saved to: ")
          (create_latency_histogram (row ∷ rows) csv_file)
  ]

  unfoldable pub plot_results : Text → Drawn Num
  plot_results csv_file = elim (lib.read_csv csv_file) [
    | raise e ↦ record { events = printed (codes "Error reading CSV file") ∷ []; end = exited 1 }
    | ok df ↦ plot_table df csv_file
  ]

  -- `main` on the arguments behind the script's name.
  unfoldable pub main : Text → List Text → Drawn Num
  main name (csv_file ∷ []) = plot_results csv_file
  main name _ = record {
    events = printed (codes "Usage: " ++ (name ++ codes " <results.csv>")) ∷ [];
    end = exited 1;
  }
