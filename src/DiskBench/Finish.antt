-- ===== src/DiskBench/Finish.antt =====
-- disk_bench/disk_bench.c: the tests end when the time is over.
use linuxtools.Base.{
  ℕ, zero, suc, ◌+◌, ◌/◌, ◌*◌, ◌%◌, ◌≡◌, ◌≤◌, ◌<◌, ap, sym, false, not, ◌||◌, arith, if◌then◌else◌,
  leb, ◌==◌, Bool-cases, inl, inr,
}
use linuxtools.DiskBench.{
  Mode, seq_read, seq_write, rand_read, rand_write, mixed, word, Stats, Run, done, trapped, ◌>>=◌,
  Libc, grow, add_latency,
}
use linuxtools.DiskBench.Runs.{
  bound, done_injective, Finishes, done-Finishes, exited-Finishes, trapped-Finishes, bind-Finishes,
  if-Finishes,
}
use linuxtools.DiskBench.Loops.{
  Answer, bytes, failed, Os, State, record_transfer, missed, tick, is_late, unless_late, on_read,
  read_file, read_again, on_transfer, transfer_again, timed, place, random_loop, end_of,
  test_seq_read, test_seq_write, test_rand_read, test_rand_write,
}
use linuxtools.DiskBench.Options.{Config, run_test}

module _ {Num : Type 0} (libc : Libc Num) (os : Os) where
  add_latency-Finishes : (latency : ℕ) (s : Stats Num) → Finishes (add_latency libc latency s)
  unfolding add_latency grow
  add_latency-Finishes latency s =
      bind-Finishes (if leb s.capacity s.count then grow libc s else done s) _
        (if-Finishes (leb s.capacity s.count) (grow libc s) (done s)
          (if-Finishes (libc.realloc (s.capacity * 2 % word * 8 % word)) _ _ (done-Finishes _)
            (exited-Finishes 1))
          (done-Finishes s))
        (λ a e. done-Finishes _)

  record_transfer-Finishes : (n : ℕ) (s : State Num) → Finishes (record_transfer libc os n s)
  unfolding record_transfer
  record_transfer-Finishes n s =
      bind-Finishes (add_latency libc _ s.stats) _ (add_latency-Finishes _ s.stats)
        (λ a e. done-Finishes _)

  record_transfer-ticks :
      (n : ℕ) (s : State Num) {t : State Num}
      → record_transfer libc os n s ≡ done t
      → t.ticks ≡ s.ticks + 2
  unfolding record_transfer
  record_transfer-ticks n s e =
      let (added, (e', e'')) = bound (add_latency libc _ s.stats) _ e in
      ap (λ t. t.ticks) (sym (done_injective e''))

  -- From the reading `last` on, the clock is past the end.
  abbrev pub Passes : ℕ → ℕ → Type 0
  Passes end_time last = (k : ℕ) → last ≤ k → end_time ≤ os.clock k

  before_last :
      (end_time last : ℕ) (s : State Num)
      → Passes end_time last
      → is_late libc os end_time s ≡ false
      → s.ticks < last
  before_last end_time last s h early = elim (Bool-cases (leb last s.ticks)) [
    | inl over ↦ absurd (ground (arith, h s.ticks (ground (arith, over)), early))
    | inr before ↦ ground (arith, before)
  ]

  unless_late-Finishes :
      (end_time last : ℕ) (s : State Num) (more : State Num → Run (State Num))
      → Passes end_time last
      → (s.ticks < last → Finishes (more (tick libc os s)))
      → Finishes (unless_late libc os end_time s more)
  unless_late-Finishes end_time last s more h k = elim (Bool-cases (is_late libc os end_time s)) [
    | inl late ↦ rw late (done-Finishes (tick libc os s))
    | inr early ↦ rw early (k (before_last end_time last s h early))
  ]

  on_transfer-Finishes :
      (answer : Answer) (s : State Num) (more : State Num → Run (State Num))
      → ((t : State Num) → t.ticks ≡ s.ticks + 2 → Finishes (more t))
      → Finishes (on_transfer libc os answer s more)
  on_transfer-Finishes failed s more k = done-Finishes (missed libc os s)
  on_transfer-Finishes (bytes n) s more k =
      bind-Finishes (record_transfer libc os n s) more (record_transfer-Finishes n s)
        (λ t e. k t (record_transfer-ticks n s e))

  abbrev transfer_step : (ℕ → ℕ) → (State Num → Run (State Num)) → State Num → Run (State Num)
  transfer_step offset more started =
      on_transfer libc os (os.transfer started.transfers (offset started.transfers)) started more

  transfer_again-Finishes :
      (offset : ℕ → ℕ) (fuel end_time last : ℕ) (s : State Num)
      → Passes end_time last
      → last < fuel + s.ticks + 1
      → Finishes (transfer_again libc os offset (suc fuel) end_time s)
  unfolding transfer_again
  transfer_again-Finishes offset zero end_time last s h enough =
      unless_late-Finishes end_time last s
        (transfer_step offset (transfer_again libc os offset zero end_time)) h
        (λ early. absurd (omega (arith, early, enough)))
  transfer_again-Finishes offset (suc fuel) end_time last s h enough =
      let more = transfer_again libc os offset (suc fuel) end_time in
      unless_late-Finishes end_time last s (transfer_step offset more) h (λ early.
        on_transfer-Finishes (os.transfer s.transfers (offset s.transfers)) (tick libc os s) more
          (λ t e. transfer_again-Finishes offset fuel end_time last t h (omega (arith, enough, e))))

  on_read-Finishes :
      (answer : Answer) (end_time last : ℕ) (s : State Num) (more : State Num → Run (State Num))
      → Passes end_time last
      → ((t : State Num) → t.ticks ≡ s.ticks + 3 → s.ticks + 2 < last → Finishes (more t))
      → Finishes (on_read libc os answer end_time s more)
  on_read-Finishes failed end_time last s more h k = done-Finishes (missed libc os s)
  on_read-Finishes (bytes n) end_time last s more h k =
      if-Finishes (n == 0) (done (missed libc os s)) _ (done-Finishes (missed libc os s)) (
        bind-Finishes (record_transfer libc os n s) _ (record_transfer-Finishes n s) (λ t e.
          let at_end = record_transfer-ticks n s e in
          unless_late-Finishes end_time last t more h
            (λ early. k (tick libc os t) (omega (arith, at_end)) (omega (arith, at_end, early)))))

  read_file-Finishes :
      (fuel end_time last : ℕ) (s : State Num)
      → Passes end_time last
      → last < fuel + s.ticks + 3
      → Finishes (read_file libc os (suc fuel) end_time s)
  unfolding read_file
  read_file-Finishes zero end_time last s h enough =
      on_read-Finishes (os.transfer s.transfers 0) end_time last s (read_file libc os zero end_time)
        h (λ t e early. absurd (omega (arith, enough, early)))
  read_file-Finishes (suc fuel) end_time last s h enough =
      on_read-Finishes (os.transfer s.transfers 0) end_time last s
        (read_file libc os (suc fuel) end_time) h
        (λ t e early. read_file-Finishes fuel end_time last t h (omega (arith, enough, e)))

  -- The clock is read on and on.
  abbrev Advances : (State Num → Run (State Num)) → Type 0
  Advances f = (s t : State Num) → f s ≡ done t → s.ticks ≤ t.ticks

  unless_late-ticks :
      (end_time : ℕ) (s t : State Num) (more : State Num → Run (State Num))
      → Advances more
      → unless_late libc os end_time s more ≡ done t
      → s.ticks ≤ t.ticks
  unless_late-ticks end_time s t more k e = elim (Bool-cases (is_late libc os end_time s)) [
    | inl late ↦ omega (arith, ap (λ u. u.ticks) (done_injective (rw late at e)))
    | inr early ↦ omega (arith, k (tick libc os s) t (rw early at e))
  ]

  on_read-ticks :
      (answer : Answer) (end_time : ℕ) (s t : State Num) (more : State Num → Run (State Num))
      → Advances more
      → on_read libc os answer end_time s more ≡ done t
      → s.ticks ≤ t.ticks
  on_read-ticks failed end_time s t more k e = omega (arith, ap (λ u. u.ticks) (done_injective e))
  on_read-ticks (bytes n) end_time s t more k e = elim (Bool-cases (n == 0)) [
    | inl nothing ↦ omega (arith, ap (λ u. u.ticks) (done_injective (rw nothing at e)))
    | inr some_bytes ↦
        let (measured, (e', e'')) =
          bound (record_transfer libc os n s) (λ m. unless_late libc os end_time m more)
            (rw some_bytes at e) in
        omega
          (arith, record_transfer-ticks n s e', unless_late-ticks end_time measured t more k e'')
  ]

  read_file-ticks : (fuel end_time : ℕ) → Advances (read_file libc os fuel end_time)
  unfolding read_file
  read_file-ticks zero end_time s t e = cc
  read_file-ticks (suc fuel) end_time s t e =
      on_read-ticks (os.transfer s.transfers 0) end_time s t (read_file libc os fuel end_time)
        (read_file-ticks fuel end_time) e

  read_again-Finishes :
      (fuel end_time last : ℕ) (s : State Num)
      → Passes end_time last
      → last < fuel + s.ticks + 1
      → Finishes (read_again libc os (suc fuel) end_time s)
  unfolding read_again
  read_again-Finishes zero end_time last s h enough =
      unless_late-Finishes end_time last s
        (λ started. read_file libc os zero end_time started >>= read_again libc os zero end_time) h
        (λ early. absurd (omega (arith, early, enough)))
  read_again-Finishes (suc fuel) end_time last s h enough =
      unless_late-Finishes end_time last s
        (λ started.
          read_file libc os (suc fuel) end_time started >>= read_again libc os (suc fuel) end_time)
        h
        (λ early.
          bind-Finishes (read_file libc os (suc fuel) end_time (tick libc os s)) _
            (read_file-Finishes fuel end_time last (tick libc os s) h (omega (arith, enough)))
            (λ left e.
              read_again-Finishes fuel end_time last left h (
                omega
                  (arith, enough, read_file-ticks (suc fuel) end_time (tick libc os s) left e))))

  random_loop-Finishes :
      (num_blocks block_size fuel end_time last : ℕ) (s : State Num)
      → Passes end_time last
      → last < fuel + s.ticks + 1
      → Finishes (random_loop libc os num_blocks block_size (suc fuel) end_time s)
  unfolding random_loop
  random_loop-Finishes num_blocks block_size fuel end_time last s h enough =
      if-Finishes (num_blocks == 0) _ _
        (if-Finishes (is_late libc os end_time s) (done (tick libc os s)) trapped
          (done-Finishes (tick libc os s)) trapped-Finishes)
        (transfer_again-Finishes (place libc os num_blocks block_size) fuel end_time last s h
          enough)

  timed-Finishes :
      (r : Run (State Num))
      → Finishes r
      → Finishes (r >>= (λ s. done (timed libc os (os.clock 0) s)))
  timed-Finishes r h = bind-Finishes r _ h (λ s e. done-Finishes (timed libc os (os.clock 0) s))

  -- If every reading of the clock from the number `last` on is past the end of the test, then with fuel
  -- above `last` the test ends, in every mode and whatever the transfers return: it returns, or `exit`
  -- or a division by zero ends the program.
  pub run_test-Finishes :
      (fuel last : ℕ) (c : Config) (m : Mode)
      → Passes (end_of libc os (os.clock 0) c.duration_sec) last
      → last < fuel
      → Finishes (run_test libc os fuel c m)
  unfolding run_test test_seq_read test_seq_write test_rand_read test_rand_write
  run_test-Finishes zero last c m h enough = absurd (omega (arith, enough))
  run_test-Finishes (suc fuel) last c seq_read h enough =
      if-Finishes (not os.opens || not os.aligned) _ _ (exited-Finishes 1)
        (timed-Finishes _ (read_again-Finishes fuel _ last _ h (omega (arith, enough))))
  run_test-Finishes (suc fuel) last c seq_write h enough =
      if-Finishes (not os.opens || not os.aligned) _ _ (exited-Finishes 1) (
        timed-Finishes _ (transfer_again-Finishes (λ i. 0) fuel _ last _ h (omega (arith, enough))))
  run_test-Finishes (suc fuel) last c rand_read h enough =
      if-Finishes (not os.opens) _ _ (exited-Finishes 1) (
        if-Finishes (c.block_size == 0) _ _ trapped-Finishes (
          if-Finishes (not os.aligned) _ _ (exited-Finishes 1) (
            timed-Finishes _ (
              random_loop-Finishes (os.st_size / c.block_size) c.block_size fuel _ last _ h
                (omega (arith, enough))))))
  run_test-Finishes (suc fuel) last c rand_write h enough =
      if-Finishes (not os.opens || not os.truncates) _ _ (exited-Finishes 1) (
        if-Finishes (c.block_size == 0) _ _ trapped-Finishes (
          if-Finishes (not os.aligned) _ _ (exited-Finishes 1) (
            timed-Finishes _ (
              random_loop-Finishes (c.file_size / c.block_size) c.block_size fuel _ last _ h
                (omega (arith, enough))))))
  run_test-Finishes (suc fuel) last c mixed h enough = exited-Finishes 1
