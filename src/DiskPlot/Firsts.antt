-- ===== src/DiskPlot/Firsts.antt =====
-- disk_bench/visualize.py: the first row of each mode.
use linuxtools.Base.{
  All-zip, All-map, ◌≡◌, refl, Bool, true, false, ◌||◌, List, [], ◌∷◌, map, arith, if◌then◌else◌,
  Bool-cases, inl, inr, All,
}
use linuxtools.Str.{Text, eqb}
use linuxtools.Str.Laws.{eqb_iff, eqb_refl}
use linuxtools.DiskPlot.{Row, Libraries}

-- Whether a text is in the list.
abbrev pub elem : Text → List Text → Bool
elem k [] = false
elem k (x ∷ xs) = eqb x k || elem k xs

-- The texts that are not in `seen`, each where it first stands.
unfoldable pub distinct_from : List Text → List Text → List Text
distinct_from seen [] = []
distinct_from seen (x ∷ xs) =
    let old = distinct_from seen xs in
    let new = distinct_from (x ∷ seen) xs in if elem x seen then old else x ∷ new

module _ {Num : Type 0} where
  unfoldable pub where_mode : Text → List (Row Num) → List (Row Num)
  where_mode mode [] = []
  where_mode mode (row ∷ rows) =
      let rest = where_mode mode rows in if eqb row.mode mode then row ∷ rest else rest

  -- The rows whose mode is not in `seen` and in no row before.
  unfoldable pub firsts_from : List Text → List (Row Num) → List (Row Num)
  firsts_from seen [] = []
  firsts_from seen (row ∷ rows) =
      let old = firsts_from seen rows in
      let new = firsts_from (row.mode ∷ seen) rows in if elem row.mode seen then old else row ∷ new

  abbrev pub mode_of : Row Num → Text
  mode_of row = row.mode

-- What pandas documents of the two calls: `unique` lists each value once, in the order of appearance,
-- and a Boolean mask keeps the rows where it holds, in their order.
pub record IsPandas {Num : Type 0} (lib : Libraries Num) : Type 0 where
  pub unique_lem : (xs : List Text) → lib.unique xs ≡ distinct_from [] xs
  pub select_lem : (mode : Text) (df : List (Row Num)) → lib.select mode df ≡ where_mode mode df

keep : (a b : Bool) → (a || b) ≡ false → b ≡ false
keep a b h = ground arith

-- A mode that is not in `seen` is not one that is.
apart :
    (seen : List Text) (k j : Text)
    → elem k seen ≡ true
    → elem j seen ≡ false
    → elem j (k ∷ seen) ≡ false
apart seen k j old new = elim (Bool-cases (eqb k j)) [
  | inr e ↦ rw e new
  | inl e ↦ cc ((eqb_iff k j).0 e)
]

module _ {Num : Type 0} where
  pub distinct-firsts :
      (seen : List Text) (df : List (Row Num))
      → distinct_from seen (map mode_of df) ≡ map mode_of (firsts_from seen df)
  unfolding distinct_from firsts_from
  distinct-firsts seen [] = refl
  distinct-firsts seen (row ∷ rows) =
      ground (arith, distinct-firsts seen rows, distinct-firsts (row.mode ∷ seen) rows)

  -- The first row of a mode.
  abbrev pub Leads : List (Row Num) → Row Num → Type 0
  Leads df row = (rest : List (Row Num)) × (where_mode row.mode df ≡ row ∷ rest)

  Leads-cons :
      (seen : List Text) (row : Row Num) (rows : List (Row Num)) (first : Row Num)
      → elem first.mode (row.mode ∷ seen) ≡ false
      → Leads rows first
      → Leads (row ∷ rows) first
  unfolding where_mode
  Leads-cons seen row rows first new (rest, e) = (rest, ground (arith, e))

  firsts-new :
      (seen : List Text) (df : List (Row Num))
      → All (λ row. elem row.mode seen ≡ false) (firsts_from seen df)
  unfolding firsts_from
  firsts-new seen [] = tt
  firsts-new seen (row ∷ rows) = elim (Bool-cases (elem row.mode seen)) [
    | inl e ↦ rw e (firsts-new seen rows)
    | inr e ↦ rw e (
      e,
      All-map (λ first new. keep (eqb row.mode first.mode) (elem first.mode seen) new)
          (firsts_from (row.mode ∷ seen) rows) (firsts-new (row.mode ∷ seen) rows),
    )
  ]

  pub firsts-Leads : (seen : List Text) (df : List (Row Num)) → All (Leads df) (firsts_from seen df)
  unfolding firsts_from where_mode
  firsts-Leads seen [] = tt
  firsts-Leads seen (row ∷ rows) = elim (Bool-cases (elem row.mode seen)) [
    | inl e ↦ rw e (
        All-zip
          (λ first new leads.
            Leads-cons seen row rows first (apart seen row.mode first.mode e new) leads)
          (firsts_from seen rows) (firsts-new seen rows) (firsts-Leads seen rows))
    | inr e ↦ rw e (
      (where_mode row.mode rows, rw (eqb_refl row.mode) refl),
      All-zip (λ first new leads. Leads-cons seen row rows first new leads)
          (firsts_from (row.mode ∷ seen) rows) (firsts-new (row.mode ∷ seen) rows)
          (firsts-Leads (row.mode ∷ seen) rows),
    )
  ]
