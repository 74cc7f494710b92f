-- ===== src/CoreLatency/Options.antt =====
-- `main` of c2c_latency/c2c_latency.c: its flags, and the latencies that it prints.
use linuxtools.Base.{
  ℕ, zero, suc, List, [], ◌∷◌, ◌++◌, Bool, true, false, Option, none, some, if◌then◌else◌, ◌==◌,
  map,
}

-- An option that getopt reports; behind `c`, the numbers that sscanf writes.
pub data Flag : Type 0 where
  flag_m : Flag
  flag_c : List ℕ → Flag
  flag_h : Flag
  unknown : Flag

-- `mode_matrix`, `cpu1` and `cpu2`, where `none` is -1.
pub record Config : Type 0 where
  pub mode_matrix : Bool
  pub cpu1 : Option ℕ
  pub cpu2 : Option ℕ

-- What is printed: the usage, the titles, a row of the matrix, or the latency of one pair.
pub data Line (Num : Type 0) : Type 0 where
  help : Line Num
  measuring_all : ℕ → Line Num
  header : List ℕ → Line Num
  row : ℕ → List (Option Num) → Line Num
  measuring : ℕ → ℕ → Line Num
  latency : Num → Line Num

-- The exit status, and what is printed.
pub record Outcome (Num : Type 0) : Type 0 where
  pub status : ℕ
  pub lines : List (Line Num)

abbrev pub defaults : Config
defaults = record { mode_matrix = false; cpu1 = none; cpu2 = none }

-- What sscanf leaves in `cpu1` and `cpu2`.
unfoldable pub scan_cpus : List ℕ → Config → Config
scan_cpus [] c = c
scan_cpus (i ∷ []) c = record c { cpu1 = some i }
scan_cpus (i ∷ j ∷ _) c = record c { cpu1 = some i; cpu2 = some j }

-- `0, ..., n - 1`
unfoldable pub cores : ℕ → List ℕ
cores zero = []
cores (suc n) = cores n ++ (n ∷ [])

module _ {Num : Type 0} (measure : ℕ → ℕ → Num) where
  -- A cell: a dash on the diagonal.
  unfoldable pub cell : ℕ → ℕ → Option Num
  cell i j = if i == j then none else some (measure i j)

  unfoldable pub matrix : ℕ → List (Line Num)
  matrix n =
      measuring_all n ∷ header (cores n) ∷ map (λ i. row i (map (cell i) (cores n))) (cores n)

  -- Behind the options.
  unfoldable pub print_latency : ℕ → Bool → Option ℕ → Option ℕ → Outcome Num
  print_latency n true _ _ = record { status = 0; lines = matrix n }
  print_latency n false (some i) (some j) = record {
    status = 0;
    lines = measuring i j ∷ latency (measure i j) ∷ [];
  }
  print_latency n false _ _ = record { status = 1; lines = help ∷ [] }

  -- `main`, on `n` cores; `measure` is what `run_benchmark` returns for two cores.
  unfoldable pub main : ℕ → List Flag → Config → Outcome Num
  main n [] c = print_latency n c.mode_matrix c.cpu1 c.cpu2
  main n (flag_m ∷ flags) c = main n flags (record c { mode_matrix = true })
  main n (flag_c numbers ∷ flags) c = main n flags (scan_cpus numbers c)
  main n (flag_h ∷ flags) c = record { status = 0; lines = help ∷ [] }
  main n (unknown ∷ flags) c = record { status = 1; lines = help ∷ [] }
