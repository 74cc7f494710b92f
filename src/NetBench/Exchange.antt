-- ===== src/NetBench/Exchange.antt =====
-- net_bench/net_bench.c: what the receiver counts of the packets that the sender numbered.
use mathlib.Core.Path.{subst}
use linuxtools.Base.{
  ℕ, zero, suc, ◌+◌, ◌≡◌, ◌≤◌, ◌<◌, refl, ◌∙◌, List, [], ◌∷◌, ◌++◌, arith, leb, ltb, length,
  length-append, Bool-cases, inl, inr,
}
use linuxtools.NetBench.{word, Doubles, Packet, Server, Event, again, start, run_server}
use linuxtools.NetBench.Sender.{
  Sender, Run, done, overflowed, stuck, first_sender, send, send_due, read_clock, send_again,
  interval_of, at_rate, ramp, run_client,
}
use linuxtools.NetBench.Losses.{lost, arrivals, Ascending, last_seq, lost-missing}

Ascending-append :
    (m : ℕ) (ps : List Packet) (p : Packet)
    → Ascending m ps
    → last_seq m ps < p.seq_num
    → p.seq_num < word
    → Ascending m (ps ++ (p ∷ []))
Ascending-append m [] p a h w = (h, w, tt)
Ascending-append m (q ∷ qs) p (k, v, a) h w = (k, v, Ascending-append q.seq_num qs p a h w)

last_seq-append : (m : ℕ) (ps : List Packet) (p : Packet) → last_seq m (ps ++ (p ∷ [])) ≡ p.seq_num
last_seq-append m [] p = refl
last_seq-append m (q ∷ qs) p = last_seq-append q.seq_num qs p

-- The packets are numbered from 1, and `seq` is the next number.
pub record IsNumbered (s : Sender) : Type 0 where
  pub ascending : Ascending 0 s.sent
  pub last : last_seq 0 s.sent ≡ length s.sent
  pub next : s.seq ≡ length s.sent + 1

-- As long as the numbers do not wrap.
abbrev pub Numbered : Sender → Type 0
Numbered s = length s.sent + 1 < word → IsNumbered s

send-Numbered : (interval now : ℕ) (s : Sender) → Numbered s → Numbered (send interval now s)
unfolding send
send-Numbered interval now s i few =
    let p : Packet = record { size = 1400; seq_num = s.seq; timestamp_ns = now } in
    let more = length-append s.sent (p ∷ []) in
    let j = i (omega (arith, few, more)) in
    record {
      ascending =
          Ascending-append 0 s.sent p j.ascending (omega (arith, j.last, j.next))
            (omega (arith, j.next, few, more));
      last = last_seq-append 0 s.sent p ∙ omega (arith, j.next, more);
      next = omega (arith, j.next, few, more);
    }

send_due-Numbered :
    (interval now : ℕ) (s : Sender) → Numbered s → Numbered (send_due interval now s)
send_due-Numbered interval now s i = elim (Bool-cases (leb s.next_send now)) [
  | inl due ↦ rw due (send-Numbered interval now s i)
  | inr early ↦ rw early i
]

-- A state with the same packets and the same next number.
kept :
    (s : Sender) (ticks next_send : ℕ)
    → Numbered s
    → Numbered (record { ticks = ticks; seq = s.seq; next_send = next_send; sent = s.sent })
kept s ticks next_send i few =
    let j = i few in record { ascending = j.ascending; last = j.last; next = j.next }

done_injective : {s t : Sender} → done s ≡ done t → s ≡ t
done_injective e = cc

module _ (clock : ℕ → ℕ) where
  send_again-Numbered :
      (fuel interval end_time : ℕ) (s t : Sender)
      → Numbered s
      → send_again clock fuel interval end_time s ≡ done t
      → Numbered t
  unfolding send_again
  send_again-Numbered zero interval end_time s t i e = cc
  send_again-Numbered (suc fuel) interval end_time s t i e =
      elim (Bool-cases (ltb (clock s.ticks) end_time)) [
        | inl early ↦
            send_again-Numbered fuel interval end_time _ t
              (send_due-Numbered interval (clock (s.ticks + 1)) (read_clock 2 s)
                (kept s (s.ticks + 2) s.next_send i))
              (rw early at e)
        | inr late ↦
            subst Numbered (done_injective (rw late at e)) (kept s (s.ticks + 1) s.next_send i)
      ]

  ramped :
      (r : Run) (n rate fuel duration : ℕ) {t : Sender}
      → (elim r [
        | done u ↦ ramp clock fuel duration n rate u
        | overflowed u ↦ overflowed u
        | stuck ↦ stuck
      ])
        ≡ done t
      → (u : Sender) × ((r ≡ done u) × (ramp clock fuel duration n rate u ≡ done t))
  ramped (done u) n rate fuel duration e = (u, (refl, e))
  ramped (overflowed u) n rate fuel duration e = cc
  ramped stuck n rate fuel duration e = cc

  ramp-Numbered :
      (fuel duration n rate : ℕ) (s t : Sender)
      → Numbered s
      → ramp clock fuel duration n rate s ≡ done t
      → Numbered t
  unfolding ramp
  ramp-Numbered fuel duration zero rate s t i e = subst Numbered (done_injective e) i
  ramp-Numbered fuel duration (suc n) rate s t i e = elim (Bool-cases (leb 2048 rate)) [
    | inl large ↦ absurd (cc (rw large at e))
    | inr small ↦
        let (u, (e', e'')) =
          ramped (at_rate clock fuel duration rate s) n (rate + 1) fuel duration (rw small at e) in
        ramp-Numbered fuel duration n (rate + 1) u t
          (send_again-Numbered fuel (interval_of clock rate) _ _ u
            (kept s (s.ticks + 2) (clock (s.ticks + 1)) i) e')
          e''
  ]

  first_sender-Numbered : Numbered first_sender
  first_sender-Numbered few = record { ascending = tt; last = refl; next = refl }

  pub run_client-Numbered :
      (fuel duration max_bandwidth : ℕ) {t : Sender}
      → run_client clock fuel duration max_bandwidth ≡ done t
      → Numbered t
  unfolding run_client
  run_client-Numbered fuel duration max_bandwidth {t} e =
      ramp-Numbered fuel duration max_bandwidth 1 first_sender t first_sender-Numbered e

-- Packets of a list in its order, without some.
pub data Sub : List Packet → List Packet → Type 0 where
  nothing : (qs : List Packet) → Sub [] qs
  keep : (p : Packet) {ps qs : List Packet} → Sub ps qs → Sub (p ∷ ps) (p ∷ qs)
  skip : (q : Packet) {ps qs : List Packet} → Sub ps qs → Sub ps (q ∷ qs)

Sub-Ascending :
    {ps qs : List Packet} (m n : ℕ) → Sub ps qs → m ≤ n → Ascending n qs → Ascending m ps
Sub-Ascending m n (nothing qs) h a = tt
Sub-Ascending m n (keep p s) h (k, w, a) =
    (omega (arith, h, k), w, Sub-Ascending p.seq_num p.seq_num s (omega arith) a)
Sub-Ascending m n (skip q s) h (k, w, a) = Sub-Ascending m q.seq_num s (omega (arith, h, k)) a

-- If the sender ends, after fewer packets than a word has numbers, and of its packets some arrive, in
-- their order, and the receiver still runs: the losses in the rows that it printed, with those of the
-- row to come, are exactly the packets between the first and the last that arrived which did not
-- arrive. Those in front of the first and behind the last are in no row.
pub lost-run_client :
    {Num : Type 0} (doubles : Doubles Num) (clock : ℕ → ℕ) (fuel duration max_bandwidth : ℕ)
    (time now : ℕ) (es : List Event) (first : Packet) (rest : List Packet) {t : Sender}
    {u : Server Num}
    → run_client clock fuel duration max_bandwidth ≡ done t
    → length t.sent + 1 < word
    → Sub (arrivals es) t.sent
    → arrivals es ≡ first ∷ rest
    → run_server doubles es (start doubles time now) ≡ again u
    → lost u + length (arrivals es) + first.seq_num ≡ last_seq 0 (arrivals es) + 1
lost-run_client doubles clock fuel duration max_bandwidth time now es first rest sends few sub f e =
    lost-missing doubles time now es first rest
      (Sub-Ascending 0 0 sub (omega arith)
        (run_client-Numbered clock fuel duration max_bandwidth sends few).ascending)
      f e
