-- ===== src/DiskBench/Tally.antt =====
-- disk_bench/disk_bench.c: what the statistics hold after a test.
use linuxtools.Base.{
  ℕ, zero, suc, ◌+◌, ◌/◌, ◌%◌, ◌≡◌, refl, ap, [], ◌∷◌, ◌++◌, arith, if◌then◌else◌, leb, ◌==◌,
  length, length-append, Bool-cases, inl, inr,
}
use mathlib.Core.Path.{subst}
use linuxtools.DiskBench.{
  word, Mode, seq_read, seq_write, rand_read, rand_write, mixed, Stats, Run, done, exited, trapped,
  ◌>>=◌, Libc, grow, push, add_latency,
}
use linuxtools.DiskBench.Loops.{
  Answer, bytes, failed, Os, State, record_transfer, missed, tick, is_late, read_file, read_again,
  unless_late, on_read, on_transfer, transfer_again, timed, begin, place, random_loop, end_of,
  test_seq_read, test_seq_write, test_rand_read, test_rand_write,
}
use linuxtools.DiskBench.Options.{Config, no_stats, run_test}
use linuxtools.DiskBench.Runs.{bound, exited_not_done, trapped_not_done, passed, done_injective}

-- The bytes of an answer.
abbrev pub size_of : Answer → ℕ
size_of (bytes n) = n
size_of failed = 0

-- The bytes of the first `k` transfers.
unfoldable pub received : Os → (ℕ → ℕ) → ℕ → ℕ
received os offset zero = 0
received os offset (suc k) = received os offset k + size_of (os.transfer k (offset k))

-- Whether a transfer is an operation: in the sequential read an empty one is the end of the file.
abbrev pub operations : Mode → Answer → ℕ
operations seq_read (bytes n) = if n == 0 then 0 else 1
operations _ (bytes n) = 1
operations _ failed = 0

-- The operations among the first `k` transfers.
unfoldable pub completed : Os → (Answer → ℕ) → (ℕ → ℕ) → ℕ → ℕ
completed os counts offset zero = 0
completed os counts offset (suc k) =
    completed os counts offset k + counts (os.transfer k (offset k))

completed-next :
    (os : Os) (counts : Answer → ℕ) (offset : ℕ → ℕ) (k : ℕ)
    → completed os counts offset (k + 1)
      ≡ completed os counts offset k + counts (os.transfer k (offset k))
unfolding completed
completed-next os counts offset k = let e : k + 1 ≡ suc k = omega arith in rw e refl

received-next :
    (os : Os) (offset : ℕ → ℕ) (k : ℕ)
    → received os offset (k + 1) ≡ received os offset k + size_of (os.transfer k (offset k))
unfolding received
received-next os offset k = let e : k + 1 ≡ suc k = omega arith in rw e refl

-- What a measurement changes in the statistics.
record IsPushed {Num : Type 0} (latency : ℕ) (s t : Stats Num) : Type 0 where
  latencies : t.latencies ≡ s.latencies ++ (latency ∷ [])
  count : t.count ≡ (s.count + 1) % word
  bytes_same : t.total_bytes ≡ s.total_bytes
  ops_same : t.total_ops ≡ s.total_ops

-- The counters agree with the array and with the transfers so far.
pub record IsTallied {Num : Type 0} (os : Os) (counts : Answer → ℕ) (offset : ℕ → ℕ) (transfers : ℕ)
    (s : Stats Num) : Type 0 where
  pub measured : length s.latencies ≡ completed os counts offset transfers
  pub counted : s.count ≡ length s.latencies % word
  pub ops : s.total_ops ≡ s.count
  pub moved : s.total_bytes ≡ received os offset transfers % word

module _ {Num : Type 0} (libc : Libc Num) where
  grow-IsPushed :
      (latency : ℕ) (s : Stats Num) {t : Stats Num}
      → grow libc s ≡ done t
      → IsPushed latency s (push libc latency t)
  unfolding grow
  grow-IsPushed latency s h = record {
    latencies = ground arith;
    count = ground arith;
    bytes_same = ground arith;
    ops_same = ground arith;
  }

  roomy-IsPushed :
      (latency : ℕ) (s : Stats Num) {t : Stats Num}
      → (if leb s.capacity s.count then grow libc s else done s) ≡ done t
      → IsPushed latency s (push libc latency t)
  roomy-IsPushed latency s h = elim (Bool-cases (leb s.capacity s.count)) [
    | inl full ↦ grow-IsPushed latency s (rw full at h)
    | inr room ↦
        subst (λ t. IsPushed latency s (push libc latency t)) (done_injective (rw room at h))
          (record { latencies = refl; count = refl; bytes_same = refl; ops_same = refl })
  ]

  add_latency-IsPushed :
      (latency : ℕ) (s : Stats Num) {t : Stats Num}
      → add_latency libc latency s ≡ done t
      → IsPushed latency s t
  unfolding add_latency
  add_latency-IsPushed latency s h =
      let (roomy, (e, e')) = bound (if leb s.capacity s.count then grow libc s else done s) _ h in
      subst (IsPushed latency s) (done_injective e') (roomy-IsPushed latency s e)

module _ {Num : Type 0} (libc : Libc Num) (os : Os) (counts : Answer → ℕ) (offset : ℕ → ℕ) where
  abbrev pub Tallied : State Num → Type 0
  Tallied s = IsTallied os counts offset s.transfers s.stats

  record_transfer-Tallied :
      (n : ℕ) (s : State Num) {t : State Num}
      → os.transfer s.transfers (offset s.transfers) ≡ bytes n
      → counts (bytes n) ≡ 1
      → Tallied s
      → record_transfer libc os n s ≡ done t
      → Tallied t
  unfolding record_transfer received
  record_transfer-Tallied n s h one i e =
      let (added, (e', e'')) = bound (add_latency libc _ s.stats) _ e in
      let p = add_latency-IsPushed libc _ s.stats e' in
      subst Tallied (done_injective e'') (record {
        measured = omega (
          arith,
          i.measured,
          ap length p.latencies,
          length-append s.stats.latencies (_ ∷ []),
          ap counts h,
          one,
          completed-next os counts offset s.transfers,
        );
        counted = omega (
          arith,
          p.count,
          i.counted,
          ap length p.latencies,
          length-append s.stats.latencies (_ ∷ []),
        );
        ops = omega (arith, p.count, p.ops_same, i.ops);
        moved =
            omega (arith, p.bytes_same, i.moved, ap size_of h, received-next os offset s.transfers);
      })

  missed-Tallied :
      (s : State Num)
      → size_of (os.transfer s.transfers (offset s.transfers)) ≡ 0
      → counts (os.transfer s.transfers (offset s.transfers)) ≡ 0
      → Tallied s
      → Tallied (missed libc os s)
  unfolding received
  missed-Tallied s h none_done i = record {
    measured = omega (arith, none_done, i.measured, completed-next os counts offset s.transfers);
    counted = i.counted;
    ops = i.ops;
    moved = omega (arith, h, i.moved, received-next os offset s.transfers);
  }

  -- What leads from tallied states to tallied states.
  abbrev pub Keeps : (State Num → Run (State Num)) → Type 0
  Keeps f = (s t : State Num) → Tallied s → f s ≡ done t → Tallied t

  unless_late-Tallied :
      (end_time : ℕ) (s : State Num) (more : State Num → Run (State Num)) {t : State Num}
      → Keeps more
      → Tallied s
      → unless_late libc os end_time s more ≡ done t
      → Tallied t
  unless_late-Tallied end_time s more k i e = elim (Bool-cases (is_late libc os end_time s)) [
    | inl late ↦
        subst Tallied (done_injective (rw late at e))
          (record { measured = i.measured; counted = i.counted; ops = i.ops; moved = i.moved })
    | inr early ↦
        k (tick libc os s) _
          (record { measured = i.measured; counted = i.counted; ops = i.ops; moved = i.moved })
          (rw early at e)
  ]

module _ {Num : Type 0} (libc : Libc Num) (os : Os) (offset : ℕ → ℕ) where
  -- An operation of the tests other than the sequential read.
  abbrev pub all_done : Answer → ℕ
  all_done = operations seq_write

  on_transfer-Tallied :
      (answer : Answer) (s : State Num) (more : State Num → Run (State Num)) {t : State Num}
      → os.transfer s.transfers (offset s.transfers) ≡ answer
      → Keeps libc os all_done offset more
      → Tallied libc os all_done offset s
      → on_transfer libc os answer s more ≡ done t
      → Tallied libc os all_done offset t
  on_transfer-Tallied failed s more h k i e =
      subst (Tallied libc os all_done offset) (done_injective e)
        (missed-Tallied libc os all_done offset s (ap size_of h) (ap all_done h) i)
  on_transfer-Tallied (bytes n) s more h k i e =
      let (measured, (e', e'')) = bound (record_transfer libc os n s) more e in
      k measured _ (record_transfer-Tallied libc os all_done offset n s h refl i e') e''

  pub transfer_again-Tallied :
      (fuel end_time : ℕ)
      → Keeps libc os all_done offset (transfer_again libc os offset fuel end_time)
  unfolding transfer_again
  transfer_again-Tallied zero end_time s t i e = cc
  transfer_again-Tallied (suc fuel) end_time s t i e =
      unless_late-Tallied libc os all_done offset end_time s _
        (λ started u j e'.
          on_transfer-Tallied _ started _ refl (transfer_again-Tallied fuel end_time) j e')
        i e

module _ {Num : Type 0} (libc : Libc Num) (os : Os) where
  random_loop-Tallied :
      (num_blocks block_size fuel end_time : ℕ)
      → Keeps libc os
          (operations seq_write)
          (place libc os num_blocks block_size)
          (random_loop libc os num_blocks block_size fuel end_time)
  unfolding random_loop
  random_loop-Tallied num_blocks block_size fuel end_time s t i e =
      elim (Bool-cases (num_blocks == 0)) [
        | inr some_block ↦
            transfer_again-Tallied libc os (place libc os num_blocks block_size) fuel end_time s t i
              (rw some_block at e)
        | inl no_block ↦
            unless_late-Tallied libc os (operations seq_write) (place libc os num_blocks block_size)
              end_time s (λ _. trapped) (λ u v j e'. cc) i (rw no_block at e)
      ]

  abbrev start_of_file : ℕ → ℕ
  start_of_file i = 0

  on_read-Tallied :
      (answer : Answer) (end_time : ℕ) (s t : State Num) (more : State Num → Run (State Num))
      → os.transfer s.transfers 0 ≡ answer
      → Keeps libc os (operations seq_read) start_of_file more
      → Tallied libc os (operations seq_read) start_of_file s
      → on_read libc os answer end_time s more ≡ done t
      → Tallied libc os (operations seq_read) start_of_file t
  on_read-Tallied failed end_time s t more h k i e =
      subst (Tallied libc os (operations seq_read) start_of_file) (done_injective e) (
        missed-Tallied libc os (operations seq_read) start_of_file s (ap size_of h)
          (ap (operations seq_read) h) i)
  on_read-Tallied (bytes n) end_time s t more h k i e = elim (Bool-cases (n == 0)) [
    | inl nothing ↦
        subst (Tallied libc os (operations seq_read) start_of_file)
          (done_injective (rw nothing at e))
          (missed-Tallied libc os (operations seq_read) start_of_file s
            (ground (arith, ap size_of h, nothing))
            (ground (arith, ap (operations seq_read) h, nothing)) i)
    | inr some_bytes ↦
        let (measured, (e', e'')) = bound (record_transfer libc os n s) _ (rw some_bytes at e) in
        unless_late-Tallied libc os (operations seq_read) start_of_file end_time measured more k
          (record_transfer-Tallied libc os (operations seq_read) start_of_file n s h
            (ground (arith, some_bytes)) i e')
          e''
  ]

  read_file-Tallied :
      (fuel end_time : ℕ)
      → Keeps libc os (operations seq_read) start_of_file (read_file libc os fuel end_time)
  unfolding read_file
  read_file-Tallied zero end_time s t i e = cc
  read_file-Tallied (suc fuel) end_time s t i e =
      on_read-Tallied _ end_time s t _ refl (read_file-Tallied fuel end_time) i e

  read_again-Tallied :
      (fuel end_time : ℕ)
      → Keeps libc os (operations seq_read) start_of_file (read_again libc os fuel end_time)
  unfolding read_again
  read_again-Tallied zero end_time s t i e = cc
  read_again-Tallied (suc fuel) end_time s t i e =
      unless_late-Tallied libc os (operations seq_read) start_of_file end_time s
        (λ started. read_file libc os fuel end_time started >>= read_again libc os fuel end_time)
        (λ started u j e'.
          let (left, (e1, e2)) =
            bound (read_file libc os fuel end_time started) (read_again libc os fuel end_time) e' in
          read_again-Tallied fuel end_time left u
            (read_file-Tallied fuel end_time started left j e1) e2)
        i e

  -- Where the transfers of a test are asked for.
  abbrev pub offsets : Config → Mode → ℕ → ℕ
  offsets c rand_read i = place libc os (os.st_size / c.block_size) c.block_size i
  offsets c rand_write i = place libc os (c.file_size / c.block_size) c.block_size i
  offsets c _ i = 0

  begin-Tallied :
      (counts : Answer → ℕ) (offset : ℕ → ℕ)
      → Tallied libc os counts offset (begin libc os (no_stats libc os))
  unfolding received completed
  begin-Tallied counts offset = record { measured = refl; counted = refl; ops = refl; moved = refl }

  -- A test whose loop keeps the tally.
  loop-IsTallied :
      (counts : Answer → ℕ) (offset : ℕ → ℕ) (loop : State Num → Run (State Num))
      {stats : Stats Num}
      → Keeps libc os counts offset loop
      → (loop (begin libc os (no_stats libc os)) >>= (λ s. done (timed libc os (os.clock 0) s)))
        ≡ done stats
      → (k : ℕ) × IsTallied os counts offset k stats
  loop-IsTallied counts offset loop k e =
      let (s, (e', e'')) = bound (loop (begin libc os (no_stats libc os))) _ e in
      let i = k (begin libc os (no_stats libc os)) s (begin-Tallied counts offset) e' in
      (
        s.transfers,
        subst (IsTallied os counts offset s.transfers) (done_injective e'')
            (record { measured = i.measured; counted = i.counted; ops = i.ops; moved = i.moved }),
      )

  -- After any test that returns, there is a number of transfers such that the array has one latency
  -- for each of them that is an operation, which is one that did not fail and, in the sequential
  -- read, that was not empty; both counts are the number of these latencies, up to the wrap of a
  -- word, and the byte count is the sum of what these transfers returned, up to the same.
  pub run_test-IsTallied :
      (fuel : ℕ) (c : Config) (m : Mode) {stats : Stats Num}
      → run_test libc os fuel c m ≡ done stats
      → (k : ℕ) × IsTallied os (operations m) (offsets c m) k stats
  unfolding run_test test_seq_read test_seq_write test_rand_read test_rand_write
  run_test-IsTallied fuel c seq_read e =
      loop-IsTallied _ _ _ (read_again-Tallied fuel (end_of libc os (os.clock 0) c.duration_sec))
        (passed _ (exited 1) _ exited_not_done e)
  run_test-IsTallied fuel c seq_write e =
      loop-IsTallied _ _ _
        (transfer_again-Tallied libc os (λ i. 0) fuel (end_of libc os (os.clock 0) c.duration_sec))
        (passed _ (exited 1) _ exited_not_done e)
  run_test-IsTallied fuel c rand_read e =
      loop-IsTallied _ _ _
        (random_loop-Tallied (os.st_size / c.block_size) c.block_size fuel
          (end_of libc os (os.clock 0) c.duration_sec))
        (passed _ (exited 1) _ exited_not_done
          (passed _ trapped _ trapped_not_done (passed _ (exited 1) _ exited_not_done e)))
  run_test-IsTallied fuel c rand_write e =
      loop-IsTallied _ _ _
        (random_loop-Tallied (c.file_size / c.block_size) c.block_size fuel
          (end_of libc os (os.clock 0) c.duration_sec))
        (passed _ (exited 1) _ exited_not_done
          (passed _ trapped _ trapped_not_done (passed _ (exited 1) _ exited_not_done e)))
  run_test-IsTallied fuel c mixed e = cc
