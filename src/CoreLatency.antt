-- ===== src/CoreLatency.antt =====
-- c2c_latency/c2c_latency.c: the two threads of a measurement, one access of the shared `turn` or
-- one reading of the counter at a time. The rounds, ITERATIONS, are an argument.
use linuxtools.Base.{
  ℕ, zero, suc, ◌+◌, ◌-◌, ◌*◌, ◌%◌, Option, none, some, List, [], ◌∷◌, Bool, if◌then◌else◌, ltb,
  ◌==◌,
}
pub mod Fair
pub mod Options

-- `uint64_t`
abbrev pub word : ℕ
word = 18446744073709551616

-- The place of `thread_leader`: in front of `turn = 0`, in front of the first `rdtsc`, in front of
-- `turn = 1` of the round `i`, in the busy wait behind it, in front of the last `rdtsc`, or behind
-- it. The places carry `start`, once it is read.
pub data Leader : Type 0 where
  syncing : Leader
  asleep : Leader
  signalling : ℕ → ℕ → Leader
  watching : ℕ → ℕ → Leader
  timing : ℕ → Leader
  finished : Leader

-- The place of `thread_follower`: in the busy wait of the round `i`, in front of its `turn = 0`, or
-- at its end.
pub data Follower : Type 0 where
  waiting : ℕ → Follower
  clearing : ℕ → Follower
  returned : Follower

-- `shared_data_t`, the places of both threads and `total_cycles` of the leader.
pub record State : Type 0 where
  pub turn : ℕ
  pub leader : Leader
  pub follower : Follower
  pub total_cycles : ℕ

-- The test of the leader's loop of `n` rounds.
unfoldable pub next_signal : ℕ → ℕ → ℕ → Leader
next_signal n start i = if ltb i n then signalling start i else timing start

-- The test of the follower's loop of `n` rounds.
unfoldable pub next_wait : ℕ → ℕ → Follower
next_wait n i = if ltb i n then waiting i else returned

-- One step of the leader, when the counter reads `tsc`.
unfoldable pub leader_step : ℕ → ℕ → Leader → State → State
leader_step n tsc syncing s = record s { turn = 0; leader = asleep }
leader_step n tsc asleep s = record s { leader = next_signal n tsc 0 }
leader_step n tsc (signalling start i) s = record s { turn = 1; leader = watching start i }
leader_step n tsc (watching start i) s =
    if s.turn == 1 then s else record s { leader = next_signal n start (suc i) }
leader_step n tsc (timing start) s = record s {
  leader = finished;
  total_cycles = (tsc + (word - start)) % word;
}
leader_step n tsc finished s = s

-- One step of the follower.
unfoldable pub follower_step : ℕ → Follower → State → State
follower_step n (waiting i) s = if s.turn == 0 then s else record s { follower = clearing i }
follower_step n (clearing i) s = record s { turn = 0; follower = next_wait n (suc i) }
follower_step n returned s = s

-- A step of one thread, the leader's with what the counter reads.
pub data Slice : Type 0 where
  lead : ℕ → Slice
  follow : Slice

abbrev pub step : ℕ → Slice → State → State
step n (lead tsc) s = leader_step n tsc s.leader s
step n follow s = follower_step n s.follower s

-- The steps of both threads, in the order in which the memory sees them.
unfoldable pub run_threads : ℕ → List Slice → State → State
run_threads n [] s = s
run_threads n (x ∷ xs) s = run_threads n xs (step n x s)

-- After `memset` and the creation of both threads.
unfoldable pub first : ℕ → State
first n = record { turn = 0; leader = syncing; follower = next_wait n 0; total_cycles = 0 }

-- Both `pthread_join` return, once both threads are at their ends; then the latency of one way.
unfoldable pub one_way : {Num : Type 0} → (ℕ → ℕ → Num) → ℕ → Leader → Follower → ℕ → Option Num
one_way quotient n finished returned total = some (quotient total (2 * n))
one_way quotient n _ _ total = none

-- `run_benchmark` with `n` rounds, where `aligned_alloc` succeeds or not. The quotient is that of
-- `double`, and `failed` is -1.
unfoldable pub run_benchmark :
    {Num : Type 0} → (ℕ → ℕ → Num) → Num → ℕ → Bool → List Slice → Option Num
run_benchmark quotient failed n allocated steps =
    let s = run_threads n steps (first n) in
    if allocated then one_way quotient n s.leader s.follower s.total_cycles else some failed
