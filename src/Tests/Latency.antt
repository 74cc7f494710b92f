-- ===== src/Tests/Latency.antt =====
-- A measurement of c2c_latency/c2c_latency.c with one round, and what it prints for two cores.
use linuxtools.Base.{ℕ, ◌+◌, ◌*◌, ◌/◌, ◌≡◌, refl, List, [], ◌∷◌, none, some, true, map, All, arith}
use linuxtools.CoreLatency.{
  State, finished, returned, Slice, lead, follow, leader_step, follower_step, next_signal,
  next_wait, run_threads, first, run_benchmark, one_way,
}
use linuxtools.CoreLatency.Options.{
  measuring_all, header, row, help, Outcome, flag_m, flag_c, defaults, scan_cpus, cores, cell,
  matrix, print_latency, main,
}
use linuxtools.CoreLatency.Fair.{leads_in, follows_in, IsFair, joined, run_benchmark-fair}

-- The follower runs in front of the leader, and the counter stands at `tsc`.
abbrev slices : ℕ → List Slice
slices tsc = follow ∷ lead tsc ∷ follow ∷ []

abbrev stretches : List (List Slice)
stretches = map slices (7 ∷ 9 ∷ 30 ∷ 50 ∷ 81 ∷ 90 ∷ 95 ∷ [])

slices-IsFair : (tsc : ℕ) → IsFair (slices tsc)
unfolding leads_in follows_in
slices-IsFair tsc = record { by_leader = refl; by_follower = refl }

slices-All : (ts : List ℕ) → All IsFair (map slices ts)
slices-All [] = tt
slices-All (t ∷ ts) = (slices-IsFair t, slices-All ts)

abbrev ended : State
ended = record { turn = 0; leader = finished; follower = returned; total_cycles = 72 }

measured : run_threads 1 (joined stretches) (first 1) ≡ ended
unfolding run_threads joined leader_step follower_step next_signal next_wait first
measured = refl

run_benchmark-fair_example :
    run_benchmark (λ a b. a / b) 0 1 true (joined stretches)
    ≡ some ((run_threads 1 (joined stretches) (first 1)).total_cycles / (2 * 1))
run_benchmark-fair_example =
    run_benchmark-fair (λ a b. a / b) 0 1 stretches
      (slices-All (7 ∷ 9 ∷ 30 ∷ 50 ∷ 81 ∷ 90 ∷ 95 ∷ [])) (omega arith)

-- The threads wait for each other as long as one of them does not run.
waits : run_benchmark (λ a b. a / b) 0 1 true (lead 7 ∷ lead 9 ∷ lead 30 ∷ lead 50 ∷ []) ≡ none
unfolding run_benchmark one_way run_threads leader_step next_signal next_wait first
waits = refl

abbrev two_cores : Outcome ℕ
two_cores = record {
  status = 0;
  lines =
      measuring_all 2
      ∷ header (0 ∷ 1 ∷ [])
      ∷ row 0 (none ∷ some 1 ∷ [])
      ∷ row 1 (some 10 ∷ none ∷ [])
      ∷ [];
}

prints_matrix : main (λ i j. 10 * i + j) 2 (flag_c (0 ∷ []) ∷ flag_m ∷ []) defaults ≡ two_cores
unfolding main scan_cpus print_latency matrix cores cell
prints_matrix = refl

-- One number behind `-c` is not enough.
prints_help :
    main (λ i j. 10 * i + j) 2 (flag_c (0 ∷ []) ∷ []) defaults
    ≡ record { status = 1; lines = help ∷ [] }
unfolding main scan_cpus print_latency
prints_help = refl
