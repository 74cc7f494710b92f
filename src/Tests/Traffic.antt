-- ===== src/Tests/Traffic.antt =====
-- The rounds of ebpf/test_traffic.py on small networks.
use linuxtools.Base.{
  ℕ, zero, suc, ◌+◌, ◌≡◌, refl, arith, Bool, true, false, List, [], ◌∷◌, ◌++◌, replicate,
}
use linuxtools.Str.{Text, codes}
use linuxtools.Traffic.{url_of, Answer, fetched, failed, interrupted, run, start}
use linuxtools.Traffic.Laws.{
  Reply, bytes, error, after, Recurs, asked_in_turn, blocked, run-ending, ended, crashed, ending,
  successes, turn,
}

-- Every address answers, except the first one in the first round.
abbrev flaky : ℕ → Text → Reply
flaky zero u = error (codes "timed out")
flaky (suc k) u = bytes 100

flaky-Recurs : Recurs flaky
flaky-Recurs i zero = (1, 100, refl)
flaky-Recurs i (suc k) = (0, 100, (let e : suc k + 0 ≡ suc k = omega arith in rw e refl))

asked_in_turn_example :
    (m : ℕ) × ((after flaky 0 m (start 7)).count ≡ 2)
    × ((after flaky 0 (m + 1) (start 7)).asked ≡ turn 2 ∷ (after flaky 0 m (start 7)).asked)
asked_in_turn_example = asked_in_turn flaky 7 2 flaky-Recurs

abbrev dead : ℕ → Text → Reply
dead k u = error (codes "no route")

blocked_example :
    ((after dead 0 4 (start 7)).count ≡ 0)
    × ((after dead 0 4 (start 7)).asked ≡ replicate 4 (url_of 0) ++ [])
unfolding start
blocked_example = blocked dead 0 4 (start 7) (λ i. (codes "no route", refl))

abbrev rounds : List (Answer × Bool)
rounds = (fetched 1256, false) ∷ (failed (codes "timed out"), true) ∷ (interrupted, false) ∷ []

run-ending_example : ended (run rounds (start 7)) ≡ (crashed, 1)
unfolding start ending successes
run-ending_example = run-ending rounds (start 7)
