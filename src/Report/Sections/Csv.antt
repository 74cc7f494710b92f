-- ===== src/Report/Sections/Csv.antt =====
-- The CSV of the minimal format of VMM_Hygine_Report.py is read back.
use mathlib.Core.Path.{ap₂}
use linuxtools.Base.{◌≡◌, refl, ap, ◌∙◌, List, [], ◌∷◌, ◌++◌, All, map, append_assoc}
use linuxtools.Str.{Text, codes, split, join}
use linuxtools.Str.Lines.{split-append, split-lacks}
use linuxtools.Str.Join.{Lacks, split-join, join-Lacks}
use linuxtools.Dict.{Dict}
use linuxtools.Report.Machine.{Machine}
use linuxtools.Report.Drvinfo.{Drvinfo, unknown, get_mac_address}
use linuxtools.Report.Printer.{State}
use linuxtools.Report.Sections.{or_empty, csv_row, csv_rows, headings, print_short_device_status}

headings_commas : All (Lacks b',') headings
headings_commas = (refl, (refl, (refl, (refl, (refl, (refl, (refl, (refl, (refl, tt)))))))))

headings_lines : All (Lacks b'\n') headings
headings_lines = (refl, (refl, (refl, (refl, (refl, (refl, (refl, (refl, (refl, tt)))))))))

last_lines : map (split b',') (split b'\n' (codes "\n")) ≡ ([] ∷ []) ∷ ([] ∷ []) ∷ []
unfolding split
last_lines = refl

-- The first line of the CSV.
abbrev pub title : Text
title = codes "CSV:AMD Solarflare inventory report"

module _ (machine : Machine) where
  -- The nine fields of an interface.
  abbrev pub row_fields : Text → Drvinfo → List Text
  row_fields name info =
      name
      ∷ unknown
      ∷ unknown
      ∷ unknown
      ∷ info.driver
      ∷ info.bus_info
      ∷ info.version
      ∷ info.fw_version
      ∷ or_empty (get_mac_address machine name)
      ∷ []

  unfoldable pub all_fields : Dict Drvinfo → List (List Text)
  all_fields [] = []
  all_fields ((name, info) ∷ infos) = row_fields name info ∷ all_fields infos

  -- No field has a comma or a newline.
  abbrev pub ArePlain : Dict Drvinfo → Type 0
  ArePlain [] = Unit
  ArePlain ((name, info) ∷ infos) =
      (All (Lacks b',') (row_fields name info) × All (Lacks b'\n') (row_fields name info))
      × ArePlain infos

  split-csv_rows :
      (infos : Dict Drvinfo) (rest : Text)
      → ArePlain infos
      → map (split b',') (split b'\n' (csv_rows machine infos ++ rest))
        ≡ all_fields infos ++ map (split b',') (split b'\n' rest)
  unfolding csv_rows csv_row all_fields
  split-csv_rows [] rest h = refl
  split-csv_rows ((name, info) ∷ infos) rest ((h, k), hs) =
      let fields = row_fields name info in
      ap (λ t. map (split b',') (split b'\n' t))
        (append_assoc (csv_row machine name info) (b'\n' ∷ csv_rows machine infos) rest)
      ∙ ap (map (split b',')) (
          split-append b'\n' (csv_row machine name info) (csv_rows machine infos ++ rest)
            (join-Lacks b'\n' (codes ",") fields refl k))
      ∙ ap₂ ◌∷◌ (split-join b',' name _ h) (split-csv_rows infos rest hs)

  -- What is written in the minimal format, split into lines and each line at its commas, is the title,
  -- the nine headings, the nine fields of each interface, in order, and an empty line; no field may
  -- have a comma or a newline.
  pub print_short_device_status-all_fields :
      (infos : Dict Drvinfo) (st : State)
      → ArePlain infos
      → (csv : Text) × ((print_short_device_status machine infos st).out ≡ st.out ++ csv)
        × (map (split b',') (split b'\n' csv)
            ≡ (title ∷ []) ∷ headings ∷ (all_fields infos ++ (([] ∷ []) ∷ ([] ∷ []) ∷ [])))
  unfolding print_short_device_status
  print_short_device_status-all_fields infos st h =
      let lines =
        join (codes ",") headings ++ (codes "\n" ++ (csv_rows machine infos ++ codes "\n")) in
      (
        codes "CSV:AMD Solarflare inventory report\n" ++ lines,
        refl,
        ap (map (split b',')) (split-append b'\n' title lines refl)
            ∙ ap₂ ◌∷◌ (split-lacks b',' title refl) (
                ap (map (split b',')) (
                  split-append b'\n' (join (codes ",") headings) _
                    (join-Lacks b'\n' (codes ",") headings refl headings_lines))
                ∙ ap₂ ◌∷◌ (split-join b',' (codes "name") _ headings_commas) (
                    split-csv_rows infos (codes "\n") h
                    ∙ ap (λ t. all_fields infos ++ t) last_lines)),
      )
