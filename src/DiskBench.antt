-- ===== src/DiskBench.antt =====
-- disk_bench/disk_bench.c: the measurements and the numbers that are made of them. `size_t` and
-- `unsigned long` are words of 64 bits.
pub mod Runs
pub mod Loops
pub mod Options
pub mod Results
pub mod Percentiles
pub mod Tally
pub mod Finish
use linuxtools.Base.{
  ℕ, zero, suc, ◌+◌, ◌-◌, ◌*◌, ◌/◌, ◌%◌, ◌^◌, Bool, true, false, List, [], ◌∷◌, ◌++◌, if◌then◌else◌,
  leb, ltb, ◌==◌, get_or,
}

abbrev pub word : ℕ
word = 2 ^ 64

-- `test_mode_t`
pub data Mode : Type 0 where
  seq_read seq_write rand_read rand_write mixed : Mode

-- `stats_t`: `latencies` is the array up to `count`. `Num` is `double`.
pub record Stats (Num : Type 0) : Type 0 where
  pub latencies : List ℕ
  pub count : ℕ
  pub capacity : ℕ
  pub total_bytes : ℕ
  pub total_ops : ℕ
  pub duration_sec : Num

-- How a part of the program ends: it returns, `exit` ends the program, or a division by zero does. On
-- fuel, `stuck` is the lack of it.
pub data Run {ℓ} (A : Type ℓ) : Type ℓ where
  done : A → Run A
  exited : ℕ → Run A
  trapped : Run A
  stuck : Run A

infixl 5 ◌>>=◌
abbrev pub ◌>>=◌ {ℓ κ} : {A : Type ℓ} {B : Type κ} → Run A → (A → Run B) → Run B
done a >>= next = next a
exited n >>= next = exited n
trapped >>= next = trapped
stuck >>= next = stuck

-- The C library and the arithmetic of `double`: whether `realloc` of a size succeeds, `qsort` by
-- `compare_ulong`, `(size_t)((p / 100.0) * count)` for a percentile `p` in tenths, a word as a
-- `double`, and the quotient.
pub record Libc (Num : Type 0) : Type 0 where
  pub realloc : ℕ → Bool
  pub qsort : List ℕ → List ℕ
  pub scaled : ℕ → ℕ → ℕ
  pub of_word : ℕ → Num
  pub quotient : Num → Num → Num

-- What `compare_ulong` returns: -1, 0 or 1.
pub data Order : Type 0 where
  less equal greater : Order

unfoldable pub compare_ulong : ℕ → ℕ → Order
compare_ulong a b = if ltb a b then less else if ltb b a then greater else equal

module _ {Num : Type 0} (libc : Libc Num) where
  -- The array with twice the room, or the exit.
  unfoldable pub grow : Stats Num → Run (Stats Num)
  grow s =
      let room = s.capacity * 2 % word in
      if libc.realloc (room * 8 % word) then done (record s { capacity = room }) else exited 1

  abbrev pub push : ℕ → Stats Num → Stats Num
  push latency s = record s {
    latencies = s.latencies ++ (latency ∷ []);
    count = (s.count + 1) % word;
  }

  unfoldable pub add_latency : ℕ → Stats Num → Run (Stats Num)
  add_latency latency s = do
    roomy ← (if leb s.capacity s.count then grow s else done s)
    done (push latency roomy)

  -- A percentile in tenths, from a sorted array.
  unfoldable pub get_percentile : List ℕ → ℕ → ℕ → ℕ
  get_percentile sorted count percentile =
      if count == 0
      then 0
      else let index = libc.scaled percentile count in
        get_or sorted (if leb count index then count - 1 else index) 0
