-- ===== src/DiskBench/Loops.antt =====
-- disk_bench/disk_bench.c: the four tests. The clock and the calls of the operating system answer by
-- the number of the call.
use linuxtools.Base.{
  ℕ, zero, suc, ◌+◌, ◌-◌, ◌*◌, ◌/◌, ◌%◌, Bool, not, ◌||◌, if◌then◌else◌, leb, ◌==◌,
}
use linuxtools.DiskBench.{word, Stats, Run, done, exited, trapped, stuck, ◌>>=◌, Libc, add_latency}

-- What `read`, `write`, `pread` or `pwrite` returns: a number of bytes, or -1.
pub data Answer : Type 0 where
  bytes : ℕ → Answer
  failed : Answer

-- The answers of the system: `get_time_ns`, the transfers, with the offset that they are asked for,
-- `rand`, and whether `open`, `posix_memalign` and `ftruncate` succeed; `st_size`.
pub record Os : Type 0 where
  pub clock : ℕ → ℕ
  pub transfer : ℕ → ℕ → Answer
  pub rand : ℕ → ℕ
  pub opens : Bool
  pub aligned : Bool
  pub truncates : Bool
  pub st_size : ℕ

-- The calls of the clock and of the transfers so far, and the statistics.
pub record State (Num : Type 0) : Type 0 where
  pub ticks : ℕ
  pub transfers : ℕ
  pub stats : Stats Num

-- `a - b` on unsigned words
abbrev pub minus : ℕ → ℕ → ℕ
minus a b = (a + (word - b % word)) % word

module _ {Num : Type 0} (libc : Libc Num) (os : Os) where
  -- A transfer of `n` bytes that took the time between two readings of the clock.
  unfoldable pub record_transfer : ℕ → State Num → Run (State Num)
  record_transfer n s = do
    added ← add_latency libc (minus (os.clock (s.ticks + 1)) (os.clock s.ticks)) s.stats
    done (record {
      ticks = s.ticks + 2;
      transfers = s.transfers + 1;
      stats = record added {
        total_bytes = (added.total_bytes + n) % word;
        total_ops = (added.total_ops + 1) % word;
      };
    })

  -- The call and its two readings of the clock, where nothing is recorded.
  abbrev pub missed : State Num → State Num
  missed s = record s { ticks = s.ticks + 2; transfers = s.transfers + 1 }

  abbrev pub tick : State Num → State Num
  tick s = record s { ticks = s.ticks + 1 }

  -- `get_time_ns() >= end_time`
  abbrev pub is_late : ℕ → State Num → Bool
  is_late end_time s = leb end_time (os.clock s.ticks)

  -- `if (get_time_ns() >= end_time) break;`, and else what follows; the test of a `while` likewise.
  abbrev pub unless_late : ℕ → State Num → (State Num → Run (State Num)) → Run (State Num)
  unless_late end_time s more = if is_late end_time s then done (tick s) else more (tick s)

  -- The inner loop of `test_seq_read`, to the end of the file or of the time.
  abbrev pub on_read : Answer → ℕ → State Num → (State Num → Run (State Num)) → Run (State Num)
  on_read failed end_time s more = done (missed s)
  on_read (bytes n) end_time s more =
      if n == 0
      then done (missed s)
      else (record_transfer n s >>= (λ measured. unless_late end_time measured more))

  unfoldable pub read_file : ℕ → ℕ → State Num → Run (State Num)
  read_file zero end_time s = stuck
  read_file (suc fuel) end_time s =
      on_read (os.transfer s.transfers 0) end_time s (read_file fuel end_time)

  -- The outer loop.
  unfoldable pub read_again : ℕ → ℕ → State Num → Run (State Num)
  read_again zero end_time s = stuck
  read_again (suc fuel) end_time s =
      unless_late end_time s
        (λ started. read_file fuel end_time started >>= read_again fuel end_time)

  -- The loop of the three other tests; `offset` gives the place of a transfer by its number.
  abbrev pub on_transfer : Answer → State Num → (State Num → Run (State Num)) → Run (State Num)
  on_transfer failed s more = done (missed s)
  on_transfer (bytes n) s more = record_transfer n s >>= more

  unfoldable pub transfer_again : (ℕ → ℕ) → ℕ → ℕ → State Num → Run (State Num)
  transfer_again offset zero end_time s = stuck
  transfer_again offset (suc fuel) end_time s = unless_late end_time s (λ started.
      on_transfer (os.transfer started.transfers (offset started.transfers)) started
        (transfer_again offset fuel end_time))

  -- `start_time + (duration_sec * 1000000000UL)`, with the `int` as a word.
  abbrev pub end_of : ℕ → ℕ → ℕ
  end_of start_time duration = (start_time + duration * 1000000000) % word

  -- `stats->duration_sec = (get_time_ns() - start_time) / 1000000000.0`
  abbrev pub timed : ℕ → State Num → Stats Num
  timed start_time s = record s.stats {
    duration_sec =
        libc.quotient (libc.of_word (minus (os.clock s.ticks) start_time))
          (libc.of_word 1000000000);
  }

  abbrev pub begin : Stats Num → State Num
  begin stats = record { ticks = 1; transfers = 0; stats = stats }

  unfoldable pub test_seq_read : ℕ → ℕ → Stats Num → Run (Stats Num)
  test_seq_read fuel duration stats = if not os.opens || not os.aligned then exited 1 else (do
    s ← read_again fuel (end_of (os.clock 0) duration) (begin stats)
    done (timed (os.clock 0) s))

  unfoldable pub test_seq_write : ℕ → ℕ → Stats Num → Run (Stats Num)
  test_seq_write fuel duration stats = if not os.opens || not os.aligned then exited 1 else (do
    s ← transfer_again (λ i. 0) fuel (end_of (os.clock 0) duration) (begin stats)
    done (timed (os.clock 0) s))

  -- `(rand() % num_blocks) * block_size`
  abbrev pub place : ℕ → ℕ → ℕ → ℕ
  place num_blocks block_size i = os.rand i % num_blocks * block_size % word

  -- The loop at random places: without a block, its first `rand() % num_blocks` divides by zero.
  unfoldable pub random_loop : ℕ → ℕ → ℕ → ℕ → State Num → Run (State Num)
  random_loop num_blocks block_size fuel end_time s =
      if num_blocks == 0
      then (if is_late end_time s then done (tick s) else trapped)
      else transfer_again (place num_blocks block_size) fuel end_time s

  unfoldable pub test_rand_read : ℕ → ℕ → ℕ → Stats Num → Run (Stats Num)
  test_rand_read fuel block_size duration stats =
      if not os.opens
      then exited 1
      else if block_size == 0
      then trapped
      else if not os.aligned
      then exited 1
      else (do
        s ←
            random_loop (os.st_size / block_size) block_size fuel (end_of (os.clock 0) duration)
              (begin stats)
        done (timed (os.clock 0) s))

  unfoldable pub test_rand_write : ℕ → ℕ → ℕ → ℕ → Stats Num → Run (Stats Num)
  test_rand_write fuel file_size block_size duration stats =
      if not os.opens || not os.truncates
      then exited 1
      else if block_size == 0
      then trapped
      else if not os.aligned
      then exited 1
      else (do
        s ←
            random_loop (file_size / block_size) block_size fuel (end_of (os.clock 0) duration)
              (begin stats)
        done (timed (os.clock 0) s))
