-- ===== src/NetPlot.antt =====
-- net_bench/plot_results.py: three charts of a table that net_bench wrote. The text of an exception
-- that is printed is left out.
use linuxtools.Base.{
  ℕ, ◌≡◌, Bool, true, false, ◌&&◌, List, [], ◌∷◌, Option, none, some, Result, ok, raise, Exception,
  key_error, if◌then◌else◌, ◌>>=◌, arith,
}
use linuxtools.Str.{Text, codes}

-- The libraries: `pd.read_csv`, whose table gives a column or has none of that name, and `plt.savefig`.
pub record Libraries (Num : Type 0) : Type 0 where
  pub read_csv : Text → Result (Text → Option (List Num))
  pub savefig : Text → Result (Unit {0})

-- One of the three subplots: its number, the values on both axes, and its texts.
pub record Chart (Num : Type 0) : Type 0 where
  pub axes : ℕ
  pub xs : List Num
  pub ys : List Num
  pub name : Text
  pub color : Text
  pub texts : List (Text × Text)

-- What the run drew, saved and printed, and the exception that ended it, if one did.
pub record Plotted (Num : Type 0) : Type 0 where
  pub charts : List (Chart Num)
  pub saved : List Text
  pub printed : List Text
  pub raised : Option Exception

abbrev pub output_path : Text
output_path = codes "benchmark_results.png"

module _ {Num : Type 0} (lib : Libraries Num) where
  -- `data[name]`
  abbrev pub column : (Text → Option (List Num)) → Text → Result (List Num)
  column table name = elim (table name) [ none ↦ raise key_error | some values ↦ ok values ]

  -- `ax.plot(data['timestamp'], data[name], ...)` with the texts that are set behind it.
  unfoldable pub chart :
      (Text → Option (List Num)) → ℕ → Text → Text → Text → List (Text × Text) → Result (Chart Num)
  chart table axes name label color texts = do
    xs ← column table (codes "timestamp")
    ys ← column table name
    ok (record { axes = axes; xs = xs; ys = ys; name = label; color = color; texts = texts })

  unfoldable pub throughput : (Text → Option (List Num)) → Result (Chart Num)
  throughput table = chart table 1 (codes "mbps") (codes "Throughput (Mbps)") (codes "blue") (
      (codes "ylabel", codes "Throughput (Mbps)")
      ∷ (codes "title", codes "Network Benchmark Results")
      ∷ [])

  unfoldable pub latency : (Text → Option (List Num)) → Result (Chart Num)
  latency table =
      chart table 2 (codes "latency_avg_ns") (codes "Latency (ns)") (codes "orange")
        ((codes "ylabel", codes "Latency (ns)") ∷ [])

  unfoldable pub drops : (Text → Option (List Num)) → Result (Chart Num)
  drops table =
      chart table 3 (codes "drops") (codes "Drops") (codes "red")
        ((codes "ylabel", codes "Packet Drops") ∷ (codes "xlabel", codes "Time (s)") ∷ [])

  abbrev pub failed : List (Chart Num) → Exception → Plotted Num
  failed charts e = record { charts = charts; saved = []; printed = []; raised = some e }

  -- The call of `savefig` and the message.
  unfoldable pub save : List (Chart Num) → Plotted Num
  save charts = elim (lib.savefig output_path) [
    | raise e ↦ failed charts e
    | ok _ ↦ record {
      charts = charts;
      saved = output_path ∷ [];
      printed = codes "Graph saved to benchmark_results.png" ∷ [];
      raised = none;
    }
  ]

  -- The three charts, one after the other; a missing column ends the run.
  unfoldable pub draw : (Text → Option (List Num)) → Plotted Num
  draw table = elim (throughput table) [
    | raise e ↦ failed [] e
    | ok first ↦ elim (latency table) [
      | raise e ↦ failed (first ∷ []) e
      | ok second ↦ elim (drops table) [
        | raise e ↦ failed (first ∷ second ∷ []) e
        | ok third ↦ save (first ∷ second ∷ third ∷ [])
      ]
    ]
  ]

  -- An error of `read_csv` is printed, and the function returns.
  unfoldable pub plot_results : Text → Plotted Num
  plot_results csv_file = elim (lib.read_csv csv_file) [
    | raise e ↦ record {
      charts = [];
      saved = [];
      printed = codes "Error reading CSV" ∷ [];
      raised = none;
    }
    | ok table ↦ draw table
  ]

  -- The script, on the arguments behind its name.
  unfoldable pub main : List Text → Plotted Num
  main [] = record {
    charts = [];
    saved = [];
    printed = codes "Usage: python3 plot_results.py <csv_file>" ∷ [];
    raised = none;
  }
  main (csv_file ∷ _) = plot_results csv_file

  -- Whether the four columns are there.
  abbrev pub has : (Text → Option (List Num)) → Text → Bool
  has table name = elim (table name) [ none ↦ false | some _ ↦ true ]

  abbrev pub is_complete : (Text → Option (List Num)) → Bool
  is_complete table =
      has table (codes "timestamp")
      && has table (codes "mbps")
      && has table (codes "latency_avg_ns")
      && has table (codes "drops")

  abbrev pub paths : Result (Unit {0}) → List Text
  paths (ok _) = output_path ∷ []
  paths (raise _) = []

  -- On a table that could be read, the image is saved exactly if the four columns are there and
  -- `savefig` returns; the drawing of a table without one of them ends in a KeyError.
  pub draw-saved :
      (table : Text → Option (List Num))
      → ((draw table).saved ≡ (if is_complete table then paths (lib.savefig output_path) else []))
        × (is_complete table ≡ false → (draw table).raised ≡ some key_error)
  unfolding draw throughput latency drops chart save
  draw-saved table = ground arith
