-- ===== src/Tests/Bench.antt =====
-- Runs of disk_bench/disk_bench.c, with a sort, a clock and a file that are small.
use linuxtools.Base.{
  ℕ, suc, ◌*◌, ◌/◌, ◌≡◌, ◌≢◌, ◌≤◌, refl, ap, ◌∙◌, true, List, [], ◌∷◌, arith, if◌then◌else◌, leb,
  ◌==◌, length, All, All-map, Bool-cases, inl, inr,
}
use linuxtools.DiskBench.{Stats, done, Libc, add_latency, compare_ulong, greater, seq_read}
use linuxtools.DiskBench.Runs.{Finishes}
use linuxtools.DiskBench.Loops.{Os, bytes, record_transfer, read_file, read_again, test_seq_read}
use linuxtools.DiskBench.Results.{Latencies, latencies_of}
use linuxtools.DiskBench.Options.{Config, defaults, run_test}
use linuxtools.DiskBench.Percentiles.{
  IsSorted, number, IsStandard, IsSummary, latencies_of-IsSummary,
}
use linuxtools.DiskBench.Tally.{operations, IsTallied, offsets, run_test-IsTallied}
use linuxtools.DiskBench.Finish.{Passes, run_test-Finishes}

abbrev insert : ℕ → List ℕ → List ℕ
insert x [] = x ∷ []
insert x (y ∷ ys) = let rest = insert x ys in if leb x y then x ∷ y ∷ ys else y ∷ rest

abbrev sort : List ℕ → List ℕ
sort [] = []
sort (x ∷ xs) = insert x (sort xs)

abbrev NotAbove : ℕ → ℕ → Type 0
NotAbove x y = compare_ulong x y ≢ greater

NotAbove-le : (x y : ℕ) → x ≤ y → NotAbove x y
unfolding compare_ulong
NotAbove-le x y h = ground (arith, h)

NotAbove-trans : (x y z : ℕ) → x ≤ y → NotAbove y z → NotAbove x z
unfolding compare_ulong
NotAbove-trans x y z h k = ground (arith, h, k)

All-insert :
    (x y : ℕ) (ys : List ℕ) → NotAbove y x → All (NotAbove y) ys → All (NotAbove y) (insert x ys)
All-insert x y [] h hs = (h, tt)
All-insert x y (z ∷ zs) h (k, ks) = elim (Bool-cases (leb x z)) [
  | inl e ↦ rw e (h, (k, ks))
  | inr e ↦ rw e (k, All-insert x y zs h ks)
]

insert-IsSorted : (x : ℕ) (ys : List ℕ) → IsSorted ys → IsSorted (insert x ys)
insert-IsSorted x [] h = (tt, tt)
insert-IsSorted x (y ∷ ys) (h, hs) = elim (Bool-cases (leb x y)) [
  | inl e ↦
      let below : x ≤ y = ground (arith, e) in
      rw e ((NotAbove-le x y below, All-map (λ z k. NotAbove-trans x y z below k) ys h), (h, hs))
  | inr e ↦
      rw e (All-insert x y ys (NotAbove-le y x (ground (arith, e))) h, insert-IsSorted x ys hs)
]

sort-IsSorted : (xs : List ℕ) → IsSorted (sort xs)
sort-IsSorted [] = tt
sort-IsSorted (x ∷ xs) = insert-IsSorted x (sort xs) (sort-IsSorted xs)

number-insert : (z x : ℕ) (ys : List ℕ) → number z (insert x ys) ≡ number z (x ∷ ys)
unfolding number
number-insert z x [] = refl
number-insert z x (y ∷ ys) = ground (arith, number-insert z x ys)

number-sort : (z : ℕ) (xs : List ℕ) → number z (sort xs) ≡ number z xs
unfolding number
number-sort z [] = refl
number-sort z (x ∷ xs) = number-insert z x (sort xs) ∙ ground (arith, number-sort z xs)

length-insert : (x : ℕ) (ys : List ℕ) → length (insert x ys) ≡ suc (length ys)
length-insert x [] = refl
length-insert x (y ∷ ys) = ground (arith, length-insert x ys)

length-sort : (xs : List ℕ) → length (sort xs) ≡ length xs
length-sort [] = refl
length-sort (x ∷ xs) = length-insert x (sort xs) ∙ ap suc (length-sort xs)

abbrev libc : Libc ℕ
libc = record {
  realloc = λ size. true;
  qsort = sort;
  scaled = λ p count. p * count / 1000;
  of_word = λ n. n;
  quotient = λ a b. a / b;
}

libc-IsStandard : IsStandard libc
libc-IsStandard = record {
  sorted = sort-IsSorted;
  same = number-sort;
  size = length-sort;
  monotone = λ p q count h. grind (arith, h);
}

-- A reading of the clock takes a second, and the third read finds the end of the file.
abbrev os : Os
os = record {
  clock = λ k. k * 1000000000;
  transfer = λ i offset. if i == 2 then bytes 0 else bytes 4096;
  rand = λ i. i;
  opens = true;
  aligned = true;
  truncates = true;
  st_size = 8192;
}

abbrev config : Config
config = record defaults { duration_sec = 12 }

-- Two blocks, the end of the file, and one block more.
abbrev after : Stats ℕ
after = record {
  latencies = 1000000000 ∷ 1000000000 ∷ 1000000000 ∷ [];
  count = 3;
  capacity = 1000000;
  total_bytes = 12288;
  total_ops = 3;
  duration_sec = 15;
}

ran : run_test libc os 20 config seq_read ≡ done after
unfolding run_test test_seq_read read_again read_file record_transfer add_latency
ran = refl

run_test-IsTallied_example :
    (k : ℕ) × IsTallied os (operations seq_read) (offsets libc os config seq_read) k after
run_test-IsTallied_example = run_test-IsTallied libc os 20 config seq_read ran

os-Passes : Passes libc os 12000000000 12
os-Passes k h = omega (arith, h)

run_test-Finishes_example : Finishes (run_test libc os 20 config seq_read)
run_test-Finishes_example = run_test-Finishes libc os 20 12 config seq_read os-Passes (omega arith)

abbrev some_stats : Stats ℕ
some_stats = record after { latencies = 700 ∷ 100 ∷ 400 ∷ [] }

latencies_of-IsSummary_example :
    (l : Latencies) × (latencies_of libc some_stats ≡ done l) × IsSummary some_stats.latencies l
latencies_of-IsSummary_example =
    latencies_of-IsSummary libc some_stats libc-IsStandard refl (omega arith)
