-- ===== src/DiskBench/Percentiles.antt =====
-- disk_bench/disk_bench.c: the latencies that `print_stats` picks from the sorted array.
use linuxtools.Base.{
  ℕ, zero, suc, ◌+◌, ◌-◌, ◌≡◌, ◌≢◌, ◌≤◌, ◌<◌, refl, ap, sym, ◌∙◌, List, [], ◌∷◌, arith,
  if◌then◌else◌, leb, ◌==◌, ==_iff, length, get_or, All, Bool-cases, inl, inr,
}
use linuxtools.DiskBench.{Stats, done, Libc, greater, compare_ulong, get_percentile}
use linuxtools.DiskBench.Results.{Latencies, picked, latencies_of}

-- No later item is less, by `compare_ulong`.
abbrev pub IsSorted : List ℕ → Type 0
IsSorted [] = Unit
IsSorted (x ∷ xs) = All (λ y. compare_ulong x y ≢ greater) xs × IsSorted xs

-- How often a value stands in a list.
unfoldable pub number : ℕ → List ℕ → ℕ
number x [] = 0
number x (y ∷ ys) = (if x == y then 1 else 0) + number x ys

-- What the C library promises of `qsort`, and IEEE 754 of a quotient and a product that are rounded and
-- cut to a `size_t`: a greater percentile has no lesser index.
pub record IsStandard {Num : Type 0} (libc : Libc Num) : Type 0 where
  pub sorted : (xs : List ℕ) → IsSorted (libc.qsort xs)
  pub same : (x : ℕ) (xs : List ℕ) → number x (libc.qsort xs) ≡ number x xs
  pub size : (xs : List ℕ) → length (libc.qsort xs) ≡ length xs
  pub monotone : (p q count : ℕ) → p ≤ q → libc.scaled p count ≤ libc.scaled q count

not_greater : (a b : ℕ) → compare_ulong a b ≢ greater → a ≤ b
unfolding compare_ulong
not_greater a b h = ground arith

All-get :
    (x : ℕ) (xs : List ℕ) (j : ℕ)
    → All (λ y. compare_ulong x y ≢ greater) xs
    → j < length xs
    → x ≤ get_or xs j 0
All-get x [] j h l = absurd (omega (arith, l))
All-get x (y ∷ ys) zero (h, hs) l = not_greater x y h
All-get x (y ∷ ys) (suc j) (h, hs) l = All-get x ys j hs (omega (arith, l))

IsSorted-get :
    (xs : List ℕ) (i j : ℕ) → IsSorted xs → i ≤ j → j < length xs → get_or xs i 0 ≤ get_or xs j 0
IsSorted-get [] i j h o l = absurd (omega (arith, l))
IsSorted-get (x ∷ xs) zero zero h o l = omega arith
IsSorted-get (x ∷ xs) zero (suc j) (h, hs) o l = All-get x xs j h (omega (arith, l))
IsSorted-get (x ∷ xs) (suc i) zero h o l = absurd (omega (arith, o))
IsSorted-get (x ∷ xs) (suc i) (suc j) (h, hs) o l =
    IsSorted-get xs i j hs (omega (arith, o)) (omega (arith, l))

number-get : (xs : List ℕ) (i : ℕ) → i < length xs → number (get_or xs i 0) xs ≢ 0
unfolding number
number-get [] i l = absurd (omega (arith, l))
number-get (x ∷ xs) zero l = ground arith
number-get (x ∷ xs) (suc i) l = ground (arith, number-get xs i (omega (arith, l)))

find_index :
    (x : ℕ) (xs : List ℕ) → number x xs ≢ 0 → (i : ℕ) × (i < length xs) × (get_or xs i 0 ≡ x)
unfolding number
find_index x [] h = absurd (h refl)
find_index x (y ∷ ys) h = elim (Bool-cases (x == y)) [
  | inl e ↦ (zero, omega arith, sym ((==_iff x y).0 e))
  | inr e ↦
      let (i, l, found) = find_index x ys (ground (arith, h, e)) in (suc i, omega (arith, l), found)
]

-- The index that a percentile gets.
abbrev chosen : ℕ → ℕ → ℕ
chosen count index = if leb count index then count - 1 else index

chosen-below : (count index : ℕ) → count ≢ 0 → chosen count index < count
chosen-below count index h = ground arith

chosen-monotone : (count i j : ℕ) → i ≤ j → chosen count i ≤ chosen count j
chosen-monotone count i j h = ground (arith, h)

module _ {Num : Type 0} (libc : Libc Num) where
  get_percentile-chosen :
      (sorted : List ℕ) (count p : ℕ)
      → count ≢ 0
      → get_percentile libc sorted count p ≡ get_or sorted (chosen count (libc.scaled p count)) 0
  unfolding get_percentile
  get_percentile-chosen sorted count p h = ground (arith, h)

-- In order, and from the list: each value was measured, and none that was measured is outside.
pub record IsSummary (measured : List ℕ) (l : Latencies) : Type 0 where
  pub min_p50 : l.lat_min ≤ l.lat_p50
  pub p50_p95 : l.lat_p50 ≤ l.lat_p95
  pub p95_p99 : l.lat_p95 ≤ l.lat_p99
  pub p99_p999 : l.lat_p99 ≤ l.lat_p999
  pub p999_max : l.lat_p999 ≤ l.lat_max
  pub min_measured : number l.lat_min measured ≢ 0
  pub p50_measured : number l.lat_p50 measured ≢ 0
  pub p95_measured : number l.lat_p95 measured ≢ 0
  pub p99_measured : number l.lat_p99 measured ≢ 0
  pub p999_measured : number l.lat_p999 measured ≢ 0
  pub max_measured : number l.lat_max measured ≢ 0
  pub within : (x : ℕ) → number x measured ≢ 0 → (l.lat_min ≤ x) × (x ≤ l.lat_max)

module _ {Num : Type 0} (libc : Libc Num) (standard : IsStandard libc) (measured : List ℕ) where
  abbrev at : ℕ → ℕ
  at i = get_or (libc.qsort measured) i 0

  at-ordered : (i j : ℕ) → i ≤ j → j < length measured → at i ≤ at j
  at-ordered i j h l =
      IsSorted-get (libc.qsort measured) i j (standard.sorted measured) h
        (omega (arith, l, standard.size measured))

  at-measured : (i : ℕ) → i < length measured → number (at i) measured ≢ 0
  at-measured i l e =
      number-get (libc.qsort measured) i (omega (arith, l, standard.size measured))
        (standard.same (at i) measured ∙ e)

  at-within : (x : ℕ) → number x measured ≢ 0 → (at 0 ≤ x) × (x ≤ at (length measured - 1))
  at-within x h =
      let (i, l, e) =
        find_index x (libc.qsort measured) (λ z. h (sym (standard.same x measured) ∙ z)) in
      let below : i < length measured = omega (arith, l, standard.size measured) in
      (
        omega (arith, e, at-ordered 0 i (omega arith) below),
        omega (
          arith,
          e,
          at-ordered i (length measured - 1) (omega (arith, below)) (omega (arith, below)),
        ),
      )

  abbrev index_of : ℕ → ℕ
  index_of p = chosen (length measured) (libc.scaled p (length measured))

  percentiles-ordered : (p q : ℕ) → length measured ≢ 0 → p ≤ q → at (index_of p) ≤ at (index_of q)
  percentiles-ordered p q h o =
      at-ordered (index_of p) (index_of q)
        (chosen-monotone (length measured) _ _ (standard.monotone p q (length measured) o))
        (chosen-below (length measured) _ h)

  percentile-at :
      (p : ℕ)
      → length measured ≢ 0
      → get_percentile libc (libc.qsort measured) (length measured) p ≡ at (index_of p)
  percentile-at p h = get_percentile-chosen libc (libc.qsort measured) (length measured) p h

  percentile-ordered :
      (p q : ℕ)
      → length measured ≢ 0
      → p ≤ q
      → get_percentile libc (libc.qsort measured) (length measured) p
        ≤ get_percentile libc (libc.qsort measured) (length measured) q
  percentile-ordered p q h o =
      omega (arith, percentile-at p h, percentile-at q h, percentiles-ordered p q h o)

  percentile-measured :
      (p : ℕ)
      → length measured ≢ 0
      → number (get_percentile libc (libc.qsort measured) (length measured) p) measured ≢ 0
  percentile-measured p h = rw (percentile-at p h) (
      at-measured (index_of p) (chosen-below (length measured) (libc.scaled p (length measured)) h))

  picked-IsSummary :
      length measured ≢ 0 → IsSummary measured (picked libc (libc.qsort measured) (length measured))
  picked-IsSummary h =
      let count = length measured in
      record {
        min_p50 = omega (
          arith,
          percentile-at 500 h,
          at-ordered 0 (index_of 500) (omega arith) (chosen-below count (libc.scaled 500 count) h),
        );
        p50_p95 = percentile-ordered 500 950 h (omega arith);
        p95_p99 = percentile-ordered 950 990 h (omega arith);
        p99_p999 = percentile-ordered 990 999 h (omega arith);
        p999_max = omega (
          arith,
          percentile-at 999 h,
          at-ordered (index_of 999) (count - 1)
              (omega (arith, chosen-below count (libc.scaled 999 count) h)) (omega (arith, h)),
        );
        min_measured = at-measured 0 (omega (arith, h));
        p50_measured = percentile-measured 500 h;
        p95_measured = percentile-measured 950 h;
        p99_measured = percentile-measured 990 h;
        p999_measured = percentile-measured 999 h;
        max_measured = at-measured (count - 1) (omega (arith, h));
        within = at-within;
      }

latencies_of-picked :
    {Num : Type 0} (libc : Libc Num) (stats : Stats Num)
    → stats.count ≢ 0
    → latencies_of libc stats ≡ done (picked libc (libc.qsort stats.latencies) stats.count)
unfolding latencies_of
latencies_of-picked libc stats h = ground (arith, h)

-- If at least one latency was measured and the count is the length of the array, the latencies that are
-- printed and written are in order, from the minimum over the four percentiles to the maximum; each is
-- one that was measured, and none that was measured is below the minimum or above the maximum.
pub latencies_of-IsSummary :
    {Num : Type 0} (libc : Libc Num) (stats : Stats Num)
    → IsStandard libc
    → stats.count ≡ length stats.latencies
    → stats.count ≢ 0
    → (l : Latencies) × (latencies_of libc stats ≡ done l) × IsSummary stats.latencies l
latencies_of-IsSummary libc stats standard e h = (
  picked libc (libc.qsort stats.latencies) (length stats.latencies),
  latencies_of-picked libc stats h ∙ ap (λ n. done (picked libc (libc.qsort stats.latencies) n)) e,
  picked-IsSummary libc standard stats.latencies (λ z. h (e ∙ z)),
)
