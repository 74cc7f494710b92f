-- ===== src/Report/Dump/RoundTrip.antt =====
-- The JSON that VMM_Hygine_Report.py writes, read back as the data of the report.
use linuxtools.Base.{
  ℕ, ◌+◌, ◌≡◌, ◌≢◌, refl, ap, sym, ◌∙◌, Bool, true, ◌&&◌, List, [], ◌∷◌, ◌++◌, some, arith,
  append-nil, map,
}
use linuxtools.Str.{Text, codes, starts_with}
use linuxtools.Str.Number.{decimal, all_digits}
use linuxtools.Str.Digits.{all_digits-decimal, decimal-ne-nil}
use linuxtools.Regex.{all_of}
use linuxtools.Dict.{Dict}
use linuxtools.Report.Table.{Cell, null, str, num}
use linuxtools.Report.Printer.{Entry, plain, object, table, Section}
use linuxtools.Report.Dump.{
  bracket, dump_cell, cell_items, dump_dict, dump_entry, entry_items, dump_section, section_items,
  dump, quoted,
}
use linuxtools.Report.Dump.Read.{
  Reader, read_cell, read_pair, read_list, read_dict, as_entry, read_entry, read_report,
}
use linuxtools.Report.Dump.Units.{is_scalar}
use linuxtools.Report.Dump.Lists.{Reads, AllReads, finished, another, opens, read_list-bracket}
use linuxtools.Report.Dump.Cells.{cell_scalar, dump_cell-Reads, pair-Reads}

-- Whether every text in the data, keys included, has Unicode scalar values alone.
abbrev pub dict_scalar {ℓ} : {A : Type ℓ} → (A → Bool) → Dict A → Bool
dict_scalar p [] = true
dict_scalar p ((key, a) ∷ d) = all_of is_scalar key && p a && dict_scalar p d

abbrev pub rows_scalar : List (Dict Cell) → Bool
rows_scalar [] = true
rows_scalar (d ∷ ds) = dict_scalar cell_scalar d && rows_scalar ds

abbrev pub entry_scalar : Entry → Bool
entry_scalar (plain c) = cell_scalar c
entry_scalar (object d) = dict_scalar cell_scalar d
entry_scalar (table ds) = rows_scalar ds

abbrev pub data_scalar : Dict Section → Bool
data_scalar d = dict_scalar (dict_scalar entry_scalar) d

bracket-opens :
    (n : ℕ) (ps : List Text)
    → (opens (bracket (codes "{") (codes "}") n ps) ≡ true)
      × (opens (bracket (codes "[") (codes "]") n ps) ≡ true)
unfolding bracket
bracket-opens n [] = (refl, refl)
bracket-opens n (p ∷ ps) = (refl, refl)

module _ {ℓ} {A : Type ℓ} (item : Reader A) where
  -- A dict is read off its print, if its pairs are.
  dict-Reads :
      (n : ℕ) (ps : List Text) (d : Dict A)
      → AllReads (read_pair item) ps d
      → Reads (read_dict item) (bracket (codes "{") (codes "}") n ps) d
  unfolding read_dict
  dict-Reads n ps d h = record {
    begins = (bracket-opens n ps).0;
    reads = λ rest stop. read_list-bracket (read_pair item) b'}' refl b'{' n ps d rest h;
  }

both : (a b c : Bool) → (a && b && c) ≡ true → (a ≡ true) × (b ≡ true) × (c ≡ true)
both a b c h = ground arith

cell_items-AllReads :
    (d : Dict Cell)
    → dict_scalar cell_scalar d ≡ true
    → AllReads (read_pair read_cell) (cell_items d) d
unfolding cell_items
cell_items-AllReads [] h = finished
cell_items-AllReads ((key, c) ∷ d) h =
    let (k, v, rest) = both (all_of is_scalar key) (cell_scalar c) (dict_scalar cell_scalar d) h in
    another (pair-Reads read_cell key (dump_cell c) c k (dump_cell-Reads c v))
      (cell_items-AllReads d rest)

dump_dict-Reads :
    (n : ℕ) (d : Dict Cell)
    → dict_scalar cell_scalar d ≡ true
    → Reads (read_dict read_cell) (dump_dict n d) d
unfolding dump_dict
dump_dict-Reads n d h = dict-Reads read_cell n (cell_items d) d (cell_items-AllReads d h)

rows-AllReads :
    (n : ℕ) (ds : List (Dict Cell))
    → rows_scalar ds ≡ true
    → AllReads (read_dict read_cell) (map (dump_dict n) ds) ds
rows-AllReads n [] h = finished
rows-AllReads n (d ∷ ds) h =
    another (dump_dict-Reads n d (ground (arith, h))) (rows-AllReads n ds (ground (arith, h)))

-- Which reader the first character chooses.
read_entry-list :
    (n : ℕ) (ps : List Text) (rest : Text)
    → let s = bracket (codes "[") (codes "]") n ps ++ rest in
      read_entry s ≡ as_entry table (read_list b'[' b']' (read_dict read_cell) s)
unfolding read_entry bracket starts_with
read_entry-list n [] rest = refl
read_entry-list n (p ∷ ps) rest = refl

read_entry-dict :
    (n : ℕ) (ps : List Text) (rest : Text)
    → let s = bracket (codes "{") (codes "}") n ps ++ rest in
      read_entry s ≡ as_entry object (read_dict read_cell s)
unfolding read_entry bracket starts_with
read_entry-dict n [] rest = refl
read_entry-dict n (p ∷ ps) rest = refl

read_entry-dump_dict :
    (n : ℕ) (d : Dict Cell) (rest : Text)
    → read_entry (dump_dict n d ++ rest)
      ≡ as_entry object (read_dict read_cell (dump_dict n d ++ rest))
unfolding dump_dict
read_entry-dump_dict n d rest = read_entry-dict n (cell_items d) rest

read_entry-digits :
    (s rest : Text)
    → all_digits s ≡ true
    → s ≢ []
    → read_entry (s ++ rest) ≡ as_entry plain (read_cell (s ++ rest))
unfolding read_entry starts_with all_digits
read_entry-digits [] rest h ne = absurd (ne refl)
read_entry-digits (c ∷ cs) rest h ne = ground arith

read_entry-cell :
    (c : Cell) (rest : Text)
    → read_entry (dump_cell c ++ rest) ≡ as_entry plain (read_cell (dump_cell c ++ rest))
unfolding read_entry starts_with dump_cell quoted
read_entry-cell null rest = refl
read_entry-cell (str s) rest = refl
read_entry-cell (num n) rest =
    read_entry-digits (decimal n) rest (all_digits-decimal n) (decimal-ne-nil n)

dump_entry-Reads : (n : ℕ) (e : Entry) → entry_scalar e ≡ true → Reads read_entry (dump_entry n e) e
unfolding dump_entry
dump_entry-Reads n (plain c) h =
    let r = dump_cell-Reads c h in
    record {
      begins = r.begins;
      reads = λ rest stop. read_entry-cell c rest ∙ ap (as_entry plain) (r.reads rest stop);
    }
dump_entry-Reads n (object d) h =
    let r = dump_dict-Reads n d h in
    record {
      begins = r.begins;
      reads = λ rest stop. read_entry-dump_dict n d rest ∙ ap (as_entry object) (r.reads rest stop);
    }
dump_entry-Reads n (table ds) h =
    let items = map (dump_dict (n + 2)) ds in
    record {
      begins = (bracket-opens n items).1;
      reads = λ rest stop.
          read_entry-list n items rest
          ∙ ap (as_entry table) (
              read_list-bracket (read_dict read_cell) b']' refl b'[' n items ds rest
                (rows-AllReads (n + 2) ds h));
    }

entry_items-AllReads :
    (n : ℕ) (s : Section)
    → dict_scalar entry_scalar s ≡ true
    → AllReads (read_pair read_entry) (entry_items n s) s
unfolding entry_items
entry_items-AllReads n [] h = finished
entry_items-AllReads n ((key, e) ∷ s) h =
    let (k, v, rest) =
      both (all_of is_scalar key) (entry_scalar e) (dict_scalar entry_scalar s) h in
    another (pair-Reads read_entry key (dump_entry n e) e k (dump_entry-Reads n e v))
      (entry_items-AllReads n s rest)

dump_section-Reads :
    (n : ℕ) (s : Section)
    → dict_scalar entry_scalar s ≡ true
    → Reads (read_dict read_entry) (dump_section n s) s
unfolding dump_section
dump_section-Reads n s h =
    dict-Reads read_entry n (entry_items (n + 2) s) s (entry_items-AllReads (n + 2) s h)

section_items-AllReads :
    (d : Dict Section)
    → data_scalar d ≡ true
    → AllReads (read_pair (read_dict read_entry)) (section_items d) d
unfolding section_items
section_items-AllReads [] h = finished
section_items-AllReads ((key, s) ∷ d) h =
    let (k, v, rest) = both (all_of is_scalar key) (dict_scalar entry_scalar s) (data_scalar d) h in
    another
      (pair-Reads (read_dict read_entry) key (dump_section 2 s) s k (dump_section-Reads 2 s v))
      (section_items-AllReads d rest)

-- A reader of JSON gets the data of the report back from what is written, to the last character, if
-- every text in the data has Unicode scalar values alone.
pub read_report-dump :
    (d : Dict Section) → data_scalar d ≡ true → read_report (dump d) ≡ some (d, [])
unfolding read_report read_dict dump
read_report-dump d h =
    ap (read_list b'{' b'}' (read_pair (read_dict read_entry))) (sym (append-nil _))
    ∙ read_list-bracket (read_pair (read_dict read_entry)) b'}' refl b'{' 0 (section_items d) d []
        (section_items-AllReads d h)
