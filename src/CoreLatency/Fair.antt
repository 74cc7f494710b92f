-- ===== src/CoreLatency/Fair.antt =====
-- c2c_latency/c2c_latency.c: the threads take turns and end, however they are scheduled.
use linuxtools.Base.{
  ◌⊎◌, inl, inr, ℕ, zero, suc, ◌+◌, ◌*◌, ◌≤◌, ◌≡◌, refl, Bool, true, false, List, [], ◌∷◌, ◌++◌,
  All, arith, ltb, length, some,
}
use linuxtools.CoreLatency.{
  Leader, syncing, asleep, signalling, watching, timing, finished, waiting, clearing, returned,
  State, next_signal, next_wait, leader_step, follower_step, Slice, lead, follow, step, run_threads,
  first, one_way, run_benchmark,
}

-- Both threads are at their ends.
pub record HasEnded (s : State) : Type 0 where
  pub leads : s.leader ≡ finished
  pub follows : s.follower ≡ returned

-- The states with `n` rounds, by the thread that moves next: `k` moves are left, and `d` rounds
-- behind the round `i`.
pub data Phase (n : ℕ) : ℕ → State → Type 0 where
  at_sync :
      (k c : ℕ)
      → k ≡ 4 * n + 3
      → Phase n k
          (record { turn = 0; leader = syncing; follower = next_wait n 0; total_cycles = c })
  at_sleep :
      (k c : ℕ)
      → k ≡ 4 * n + 2
      → Phase n k (record { turn = 0; leader = asleep; follower = next_wait n 0; total_cycles = c })
  at_signal :
      (k c t i d : ℕ)
      → k ≡ 4 * d + 5
      → i + suc d ≡ n
      → Phase n k
          (record { turn = 0; leader = signalling t i; follower = waiting i; total_cycles = c })
  at_wait :
      (k c t i d : ℕ)
      → k ≡ 4 * d + 4
      → i + suc d ≡ n
      → Phase n k
          (record { turn = 1; leader = watching t i; follower = waiting i; total_cycles = c })
  at_clear :
      (k c t i d : ℕ)
      → k ≡ 4 * d + 3
      → i + suc d ≡ n
      → Phase n k
          (record { turn = 1; leader = watching t i; follower = clearing i; total_cycles = c })
  at_watch :
      (k c t i d : ℕ)
      → k ≡ 4 * d + 2
      → i + suc d ≡ n
      → Phase n k (record {
        turn = 0;
        leader = watching t i;
        follower = next_wait n (suc i);
        total_cycles = c;
      })
  at_timing :
      (k c t : ℕ)
      → k ≡ 1
      → Phase n k (record { turn = 0; leader = timing t; follower = returned; total_cycles = c })
  at_end :
      (k c : ℕ)
      → k ≡ 0
      → Phase n k (record { turn = 0; leader = finished; follower = returned; total_cycles = c })

-- Both loops are in front of the same round.
next-Phase :
    (n k c t i d : ℕ)
    → k ≡ 4 * d + 1
    → i + d ≡ n
    → Phase n k (record {
      turn = 0;
      leader = next_signal n t i;
      follower = next_wait n i;
      total_cycles = c;
    })
unfolding next_signal next_wait
next-Phase n k c t i zero e f =
    let over : ltb i n ≡ false = ground arith in rw over (at_timing k c t (omega arith))
next-Phase n k c t i (suc d) e f =
    let on : ltb i n ≡ true = ground arith in rw on (at_signal k c t i d (omega arith) f)

-- A follower in front of a round leaves the state alone while `turn` is 0.
idle :
    (n i c : ℕ) (l : Leader)
    → follower_step n
        (next_wait n i)
        (record { turn = 0; leader = l; follower = next_wait n i; total_cycles = c })
      ≡ record { turn = 0; leader = l; follower = next_wait n i; total_cycles = c }
unfolding follower_step next_wait
idle n i c l = ground arith

-- One thread can move, and one only: the leader, or the follower.
pub moves :
    {n k : ℕ} {s : State}
    → Phase n (suc k) s
    → (((tsc : ℕ) → Phase n k (step n (lead tsc) s)) × (step n follow s ≡ s))
      ⊎ (Phase n k (step n follow s) × ((tsc : ℕ) → step n (lead tsc) s ≡ s))
unfolding leader_step follower_step
moves {n} {k} (at_sync _ c e) = inl (λ tsc. at_sleep k c (omega arith), idle n 0 c syncing)
moves {n} {k} (at_sleep _ c e) =
    inl (λ tsc. next-Phase n k c tsc 0 n (omega arith) (omega arith), idle n 0 c asleep)
moves {n} {k} (at_signal _ c t i d e f) = inl (λ tsc. at_wait k c t i d (omega arith) f, refl)
moves {n} {k} (at_wait _ c t i d e f) = inr (at_clear k c t i d (omega arith) f, λ tsc. refl)
moves {n} {k} (at_clear _ c t i d e f) = inr (at_watch k c t i d (omega arith) f, λ tsc. refl)
moves {n} {k} (at_watch _ c t i d e f) = inl (
  λ tsc. next-Phase n k c t (suc i) d (omega arith) (omega arith),
  idle n (suc i) c (watching t i),
)
moves {n} {k} (at_timing _ c t e) = inl (λ tsc. at_end k _ (omega arith), refl)
moves {n} {k} (at_end _ c e) = grind arith

ended : {n : ℕ} {s : State} → Phase n 0 s → HasEnded s
ended (at_sync _ c e) = grind arith
ended (at_sleep _ c e) = grind arith
ended (at_signal _ c t i d e f) = grind arith
ended (at_wait _ c t i d e f) = grind arith
ended (at_clear _ c t i d e f) = grind arith
ended (at_watch _ c t i d e f) = grind arith
ended (at_timing _ c t e) = grind arith
ended (at_end _ c e) = record { leads = refl; follows = refl }

-- At their ends, the threads leave the state alone.
step-ended : (n : ℕ) (x : Slice) {s : State} → HasEnded s → step n x s ≡ s
unfolding leader_step follower_step
step-ended n (lead tsc) {s} h = rw h.leads refl
step-ended n follow {s} h = rw h.follows refl

-- At most `k` moves are left.
record Within (n k : ℕ) (s : State) : Type 0 where
  left : ℕ
  small : left ≤ k
  phase : Phase n left s

same-Within : {n k : ℕ} {s t : State} → t ≡ s → Within n k s → Within n k t
same-Within e w = rw e w

step-Within : {n : ℕ} (k : ℕ) (x : Slice) {s : State} → Phase n k s → Within n k (step n x s)
step-Within {n} zero x p =
    same-Within (step-ended n x (ended p)) (record { left = 0; small = omega arith; phase = p })
step-Within (suc k) (lead tsc) p = elim (moves p) [
  | inl (go, stay) ↦ record { left = k; small = omega arith; phase = go tsc }
  | inr (go, stay) ↦
      same-Within (stay tsc) (record { left = suc k; small = omega arith; phase = p })
]
step-Within (suc k) follow p = elim (moves p) [
  | inl (go, stay) ↦ same-Within stay (record { left = suc k; small = omega arith; phase = p })
  | inr (go, stay) ↦ record { left = k; small = omega arith; phase = go }
]

weaker : {n j k : ℕ} {s : State} → j ≤ k → Within n j s → Within n k s
weaker le w = record { left = w.left; small = omega arith; phase = w.phase }

run-Within :
    {n : ℕ} (k : ℕ) (xs : List Slice) {s : State} → Phase n k s → Within n k (run_threads n xs s)
unfolding run_threads
run-Within k [] p = record { left = k; small = omega arith; phase = p }
run-Within k (x ∷ xs) p = let w = step-Within k x p in weaker w.small (run-Within w.left xs w.phase)

-- Whether the leader, or the follower, has a step.
unfoldable pub leads_in : List Slice → Bool
leads_in [] = false
leads_in (lead tsc ∷ xs) = true
leads_in (follow ∷ xs) = leads_in xs

unfoldable pub follows_in : List Slice → Bool
follows_in [] = false
follows_in (lead tsc ∷ xs) = follows_in xs
follows_in (follow ∷ xs) = true

-- Both threads have a step.
pub record IsFair (xs : List Slice) : Type 0 where
  pub by_leader : leads_in xs ≡ true
  pub by_follower : follows_in xs ≡ true

led :
    {n : ℕ} (k : ℕ) (xs : List Slice) {s : State}
    → ((tsc : ℕ) → Phase n k (step n (lead tsc) s))
    → step n follow s ≡ s
    → leads_in xs ≡ true
    → Within n k (run_threads n xs s)
unfolding leads_in run_threads
led k [] go stay e = cc
led k (lead tsc ∷ xs) go stay e = run-Within k xs (go tsc)
led k (follow ∷ xs) go stay e = rw stay (led k xs go stay e)

followed :
    {n : ℕ} (k : ℕ) (xs : List Slice) {s : State}
    → Phase n k (step n follow s)
    → ((tsc : ℕ) → step n (lead tsc) s ≡ s)
    → follows_in xs ≡ true
    → Within n k (run_threads n xs s)
unfolding follows_in run_threads
followed k [] go stay e = cc
followed k (lead tsc ∷ xs) go stay e = rw (stay tsc) (followed k xs go stay e)
followed k (follow ∷ xs) go stay e = run-Within k xs go

-- Once both threads were scheduled, a move was made.
fair-Within :
    {n : ℕ} (k : ℕ) (xs : List Slice) {s : State}
    → IsFair xs
    → Phase n (suc k) s
    → Within n k (run_threads n xs s)
fair-Within k xs fair p = elim (moves p) [
  | inl (go, stay) ↦ led k xs go stay fair.by_leader
  | inr (go, stay) ↦ followed k xs go stay fair.by_follower
]

run-append :
    (n : ℕ) (xs ys : List Slice) (s : State)
    → run_threads n (xs ++ ys) s ≡ run_threads n ys (run_threads n xs s)
unfolding run_threads
run-append n [] ys s = refl
run-append n (x ∷ xs) ys s = run-append n xs ys (step n x s)

unfoldable pub joined : List (List Slice) → List Slice
joined [] = []
joined (xs ∷ xss) = xs ++ joined xss

fair-ended :
    {n : ℕ} (k : ℕ) (xss : List (List Slice)) {s : State}
    → All IsFair xss
    → k ≤ length xss
    → Phase n k s
    → HasEnded (run_threads n (joined xss) s)
unfolding joined run_threads
fair-ended zero xss fair le p =
    let w = run-Within zero (joined xss) p in
    let none_left : w.left ≡ 0 = omega arith in ended (rw none_left at w.phase)
fair-ended (suc k) [] fair le p = grind arith
fair-ended {n} (suc k) (xs ∷ xss) {s} fair le p =
    let w = fair-Within k xs fair.0 p in
    rw (run-append n xs (joined xss) s) (fair-ended w.left xss fair.1 (omega arith) w.phase)

-- Where the steps of the threads fall into at least `4 * n + 3` such stretches, both threads end.
run_threads-HasEnded :
    (n : ℕ) (xss : List (List Slice))
    → All IsFair xss
    → 4 * n + 3 ≤ length xss
    → HasEnded (run_threads n (joined xss) (first n))
unfolding first
run_threads-HasEnded n xss fair le = fair-ended (4 * n + 3) xss fair le (at_sync _ 0 refl)

-- With `n` rounds and memory for `turn`, where the steps of the two threads, in any order, fall into
-- at least `4 * n + 3` stretches in each of which both have a step, the measurement ends, with the
-- leader's cycles over twice the rounds.
pub run_benchmark-fair :
    {Num : Type 0} (quotient : ℕ → ℕ → Num) (failed : Num) (n : ℕ) (xss : List (List Slice))
    → All IsFair xss
    → 4 * n + 3 ≤ length xss
    → run_benchmark quotient failed n true (joined xss)
      ≡ some (quotient (run_threads n (joined xss) (first n)).total_cycles (2 * n))
unfolding run_benchmark one_way
run_benchmark-fair quotient failed n xss fair le =
    let h = run_threads-HasEnded n xss fair le in rw (h.leads, h.follows) refl
