-- ===== src/Traffic/Laws.antt =====
-- ebpf/test_traffic.py: when the rotation goes on, and how the loop ends.
use linuxtools.Base.{
  ◌⊎◌, inl, inr, ℕ, zero, suc, ◌+◌, ◌≡◌, refl, ap, ◌∙◌, Bool, true, false, List, [], ◌∷◌, ◌++◌,
  arith, replicate, get_or, ◌%◌,
}
use linuxtools.Str.{Text, codes}
use linuxtools.Str.Number.{decimal}
use linuxtools.Traffic.{
  urls, url_of, Answer, fetched, failed, interrupted, Loop, say, Round, again, stopped, raised, ask,
  round, start, run,
}

-- How the network answers: the round and the address give a number of bytes or an error.
pub data Reply : Type 0 where
  bytes : ℕ → Reply
  error : Text → Reply

abbrev pub answer_of : Reply → Answer
answer_of (bytes n) = fetched n
answer_of (error e) = failed e

-- The address of the round that follows is asked once, and the pause is not broken.
unfoldable pub next : Reply → Loop → Loop
next (bytes n) l = elim (round (fetched n) false l) [ again m ↦ m | stopped m ↦ m | raised m ↦ m ]
next (error e) l = elim (round (failed e) false l) [ again m ↦ m | stopped m ↦ m | raised m ↦ m ]

module _ (network : ℕ → Text → Reply) where
  -- The loop after `n` rounds, from round `k` on.
  unfoldable pub after : ℕ → ℕ → Loop → Loop
  after k zero l = l
  after k (suc n) l = after (suc k) n (next (network k (url_of l.count)) l)

  unfoldable pub answers : ℕ → ℕ → Loop → List (Answer × Bool)
  answers k zero l = []
  answers k (suc n) l =
      (answer_of (network k (url_of l.count)), false)
      ∷ answers (suc k) n (next (network k (url_of l.count)) l)

-- The addresses in turn.
unfoldable pub turn : ℕ → Text
turn zero = codes "http://example.com"
turn (suc zero) = codes "http://httpbin.org/get"
turn (suc (suc zero)) = codes "http://www.google.com"
turn (suc (suc (suc i))) = turn i

url_of-turn : (i : ℕ) → url_of i ≡ turn i
unfolding url_of turn
url_of-turn zero = refl
url_of-turn (suc zero) = refl
url_of-turn (suc (suc zero)) = refl
url_of-turn (suc (suc (suc i))) =
    let e : suc (suc (suc i)) % 3 ≡ i % 3 = omega arith in
    ap (λ k. get_or urls k []) e ∙ url_of-turn i

round-next : (r : Reply) (l : Loop) → round (answer_of r) false l ≡ again (next r l)
unfolding round next
round-next (bytes n) l = refl
round-next (error e) l = refl

replicate-cons :
    (n : ℕ) (u : Text) (us : List Text) → replicate n u ++ (u ∷ us) ≡ u ∷ (replicate n u ++ us)
replicate-cons zero u us = refl
replicate-cons (suc n) u us = ap (◌∷◌ u) (replicate-cons n u us)

reply_cases : (r : Reply) → ((b : ℕ) × (r ≡ bytes b)) ⊎ ((e : Text) × (r ≡ error e))
reply_cases (bytes b) = inl (b, refl)
reply_cases (error e) = inr (e, refl)

next-bytes : (b : ℕ) (l : Loop) → (next (bytes b) l).count ≡ suc l.count
unfolding next round ask
next-bytes b l = omega arith

next-error : (e : Text) (l : Loop) → (next (error e) l).count ≡ l.count
unfolding next round ask
next-error e l = refl

next-asked : (r : Reply) (l : Loop) → (next r l).asked ≡ url_of l.count ∷ l.asked
unfolding next round ask
next-asked (bytes b) l = refl
next-asked (error e) l = refl

module _ (network : ℕ → Text → Reply) where
  -- The rounds of `after` are those of the code's loop.
  pub run-after : (k n : ℕ) (l : Loop) → run (answers network k n l) l ≡ again (after network k n l)
  unfolding run after answers
  run-after k zero l = refl
  run-after k (suc n) l =
      rw (round-next (network k (url_of l.count)) l, run)
        (run-after (suc k) n (next (network k (url_of l.count)) l))

  after-add :
      (k m n : ℕ) (l : Loop)
      → after network k (m + n) l ≡ after network (k + m) n (after network k m l)
  unfolding after
  after-add k zero n l =
      let e : zero + n ≡ n = omega arith in let f : k + zero ≡ k = omega arith in rw (e, f) refl
  after-add k (suc m) n l =
      let e : suc m + n ≡ suc (m + n) = omega arith in
      let f : k + suc m ≡ suc k + m = omega arith in
      rw (e, f, after) (after-add (suc k) m n (next (network k (url_of l.count)) l))

  next-count :
      (k : ℕ) (l : Loop) {r : Reply}
      → network k (url_of l.count) ≡ r
      → (next (network k (url_of l.count)) l).count ≡ (next r l).count
  next-count k l e = ap (λ r. (next r l).count) e

  -- Once the address that is due answers, the counter has gone up.
  rises :
      (j k : ℕ) (l : Loop) {b : ℕ}
      → network (k + j) (url_of l.count) ≡ bytes b
      → (m : ℕ) × ((after network k m l).count ≡ suc l.count)
  unfolding after
  rises zero k l {b} h =
      let e : k + zero ≡ k = omega arith in (1, next-count k l (rw e at h) ∙ next-bytes b l)
  rises (suc j) k l {b} h = elim (reply_cases (network k (url_of l.count))) [
    | inl (n, e) ↦ (1, next-count k l e ∙ next-bytes n l)
    | inr (t, e) ↦
        let same = next-count k l e ∙ next-error t l in
        let shift : suc k + j ≡ k + suc j = omega arith in
        let (m, up) =
          rises j (suc k) (next (network k (url_of l.count)) l) {b = b} (rw (shift, same) h) in
        (suc m, up ∙ ap suc same)
  ]

  -- Every address answers again and again, at whatever time.
  abbrev pub Recurs : Type 0
  Recurs = (i k : ℕ) → (j : ℕ) × (b : ℕ) × (network (k + j) (url_of i) ≡ bytes b)

  reaches : (n k : ℕ) (l : Loop) → Recurs → (m : ℕ) × ((after network k m l).count ≡ l.count + n)
  unfolding after
  reaches zero k l h = (0, omega arith)
  reaches (suc n) k l h =
      let (j, b, e) = h l.count k in
      let (m, up) = rises j k l e in
      let (m', more) = reaches n (k + m) (after network k m l) h in
      (m + m', ap (λ s. s.count) (after-add k m m' l) ∙ more ∙ (omega (arith, up)))

  -- If every address answers again and again, and nothing is interrupted, the rotation goes on: for
  -- each number `i` there is a round, with the counter at `i`, that asks the address whose turn it
  -- is, which is example.com, httpbin.org/get and www.google.com, one after the other, and so on.
  pub asked_in_turn :
      (pid i : ℕ)
      → Recurs
      → (m : ℕ) × ((after network 0 m (start pid)).count ≡ i)
        × ((after network 0 (m + 1) (start pid)).asked
            ≡ turn i ∷ (after network 0 m (start pid)).asked)
  unfolding after start
  asked_in_turn pid i h =
      let (m, up) = reaches i 0 (start pid) h in
      let count : (after network 0 m (start pid)).count ≡ i = omega (arith, up) in
      (
        m,
        count,
        ap (λ s. s.asked) (after-add 0 m 1 (start pid))
            ∙ next-asked (network (0 + m) (url_of (after network 0 m (start pid)).count))
                (after network 0 m (start pid))
            ∙ ap (λ c. url_of c ∷ (after network 0 m (start pid)).asked) count
            ∙ ap (λ u. u ∷ (after network 0 m (start pid)).asked) (url_of-turn i),
      )

  -- If one address fails in every round, and nothing is interrupted, the rotation stops at it: the
  -- counter stays where it is, and every later request is to that address, though the others may
  -- answer.
  pub blocked :
      (k n : ℕ) (l : Loop)
      → ((i : ℕ) → (e : Text) × (network i (url_of l.count) ≡ error e))
      → ((after network k n l).count ≡ l.count)
        × ((after network k n l).asked ≡ replicate n (url_of l.count) ++ l.asked)
  unfolding after
  blocked k zero l h = (refl, refl)
  blocked k (suc n) l h =
      let (e, down) = h k in
      let m = next (network k (url_of l.count)) l in
      let same : m.count ≡ l.count = next-count k l down ∙ next-error e l in
      let (count, asked) = blocked (suc k) n m (λ i. rw same (h i)) in
      (
        count ∙ same,
        asked
            ∙ ap (λ c. replicate n (url_of c) ++ m.asked) same
            ∙ ap (λ t. replicate n (url_of l.count) ++ t)
                (next-asked (network k (url_of l.count)) l)
            ∙ replicate-cons n (url_of l.count) l.asked,
      )

-- The kinds of end: none yet, by the `break`, and by an exception.
pub data Ending : Type 0 where
  going broke crashed : Ending

-- How a list of rounds ends: with the first interruption, and by an exception only where it comes in
-- the pause behind an error.
unfoldable pub ending : List (Answer × Bool) → Ending
ending [] = going
ending ((interrupted, _) ∷ rest) = broke
ending ((fetched _, true) ∷ rest) = broke
ending ((failed _, true) ∷ rest) = crashed
ending ((_, false) ∷ rest) = ending rest

-- The requests that answered, up to the end.
unfoldable pub successes : List (Answer × Bool) → ℕ
successes [] = 0
successes ((interrupted, _) ∷ rest) = 0
successes ((fetched _, true) ∷ rest) = 1
successes ((fetched _, false) ∷ rest) = 1 + successes rest
successes ((failed _, true) ∷ rest) = 0
successes ((failed _, false) ∷ rest) = successes rest

abbrev pub ended : Round → Ending × ℕ
ended (again l) = (going, l.count)
ended (stopped l) = (broke, l.count)
ended (raised l) = (crashed, l.count)

-- Whatever happens in the rounds, the loop ends at the first KeyboardInterrupt: by the `break`, except
-- in the pause behind a failed request, where nothing catches it. The counter is the number of
-- requests that answered.
pub run-ending :
    (rounds : List (Answer × Bool)) (l : Loop)
    → ended (run rounds l) ≡ (ending rounds, l.count + successes rounds)
unfolding run ending successes round ask
run-ending [] l = ap (λ c. (going, c)) (omega arith)
run-ending ((interrupted, b) ∷ rest) l = ap (λ c. (broke, c)) (omega arith)
run-ending ((fetched n, true) ∷ rest) l = refl
run-ending ((fetched n, false) ∷ rest) l =
    run-ending rest (record (say (codes "OK (" ++ (decimal n ++ codes " bytes)\n")) (ask l)) {
      count = l.count + 1;
    })
    ∙ ap (λ c. (ending rest, c)) (omega arith)
run-ending ((failed e, true) ∷ rest) l = ap (λ c. (crashed, c)) (omega arith)
run-ending ((failed e, false) ∷ rest) l =
    run-ending rest (say (codes "Error: " ++ (e ++ codes "\n")) (ask l))
