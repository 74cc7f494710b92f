-- ===== src/NetBench/Losses.antt =====
-- net_bench/net_bench.c: the losses that the receiver counts, against the numbers that it was sent.
use linuxtools.Base.{
  ℕ, ◌+◌, ◌/◌, ◌≡◌, ◌≤◌, ◌<◌, refl, ap, ◌∙◌, List, [], ◌∷◌, ◌++◌, arith, ltb, length, Bool-cases,
  inl, inr,
}
use linuxtools.NetBench.{
  word, minus, Doubles, Packet, Line, column_names, row, traffic_started_line, no_traffic_line,
  traffic_stopped_line, Server, mbps, avg_lat, Event, arrived, silent, Round, again, stopped, start,
  greet, passed_over, count_packet, report, report_due, receive, wait, run_server,
}

-- The losses in the rows that were printed.
unfoldable pub reported : {Num : Type 0} → List (Line Num) → ℕ
reported [] = 0
reported (row time mbps avg drops ∷ ls) = drops + reported ls
reported (_ ∷ ls) = reported ls

-- The losses so far: printed, or to be printed with the next row.
abbrev pub lost : {Num : Type 0} → Server Num → ℕ
lost s = reported s.out + s.total_drops

-- The packets that arrive.
unfoldable pub arrivals : List Event → List Packet
arrivals [] = []
arrivals (arrived time now p ∷ es) = p ∷ arrivals es
arrivals (silent time ∷ es) = arrivals es

-- Each number is greater than the one before, from above `m` on.
abbrev pub Ascending : ℕ → List Packet → Type 0
Ascending m [] = Unit
Ascending m (p ∷ ps) = (m < p.seq_num) × (p.seq_num < word) × Ascending p.seq_num ps

abbrev pub last_seq : ℕ → List Packet → ℕ
last_seq m [] = m
last_seq m (p ∷ ps) = last_seq p.seq_num ps

reported-append :
    {Num : Type 0} (ls ms : List (Line Num)) → reported (ls ++ ms) ≡ reported ls + reported ms
unfolding reported
reported-append [] ms = omega arith
reported-append (row time mbps avg drops ∷ ls) ms = omega (arith, reported-append ls ms)
reported-append (column_names ∷ ls) ms = reported-append ls ms
reported-append (traffic_started_line ∷ ls) ms = reported-append ls ms
reported-append (no_traffic_line ∷ ls) ms = reported-append ls ms
reported-append (traffic_stopped_line ∷ ls) ms = reported-append ls ms

module _ {Num : Type 0} (doubles : Doubles Num) where
  greet-lost :
      (s : Server Num)
      → (lost (greet doubles s) ≡ lost s)
        × ((greet doubles s).max_seq ≡ s.max_seq)
        × ((greet doubles s).total_drops ≡ s.total_drops)
  unfolding reported
  greet-lost s = (
    ground (arith, reported-append s.out (traffic_started_line ∷ [])),
    ground arith,
    ground arith,
  )

  -- A state with the losses and the greatest number of another.
  record Agrees (s t : Server Num) : Type 0 where
    same_lost : lost t ≡ lost s
    same_seq : t.max_seq ≡ s.max_seq
    fewer : t.total_drops ≤ s.total_drops

  report-Agrees : (now : ℕ) (s : Server Num) → Agrees s (report doubles now s)
  unfolding reported
  report-Agrees now s = record {
    same_lost = omega (
      arith,
      reported-append s.out
          (row (now / 1000000000) (mbps doubles s) (avg_lat doubles s) s.total_drops ∷ []),
    );
    same_seq = refl;
    fewer = omega arith;
  }

  report_due-Agrees : (now : ℕ) (s : Server Num) → Agrees s (report_due doubles now s)
  report_due-Agrees now s = elim (Bool-cases (ltb 1000000000 (minus now s.last_report_time))) [
    | inl due ↦ rw due (report-Agrees now s)
    | inr early ↦ rw early (record { same_lost = refl; same_seq = refl; fewer = omega arith })
  ]

  count_packet-lost :
      (time now : ℕ) (p : Packet) (s : Server Num)
      → s.max_seq < p.seq_num
      → p.seq_num < word
      → s.total_drops ≤ s.max_seq
      → (lost (count_packet doubles time now p s)
          ≡ lost s + passed_over doubles s.max_seq p.seq_num)
        × ((count_packet doubles time now p s).max_seq ≡ p.seq_num)
        × ((count_packet doubles time now p s).total_drops ≤ p.seq_num)
  count_packet-lost time now p s h w d =
      (ground (arith, h, w, d), ground (arith, h, w, d), ground (arith, h, w, d))

  -- What a packet with the next greater number adds: the numbers that it passes over.
  record Received (m : ℕ) (p : Packet) (s t : Server Num) : Type 0 where
    more_lost : lost t ≡ lost s + passed_over doubles m p.seq_num
    new_seq : t.max_seq ≡ p.seq_num
    within : t.total_drops ≤ p.seq_num

  receive-Received :
      (time now : ℕ) (p : Packet) (s : Server Num)
      → s.max_seq < p.seq_num
      → p.seq_num < word
      → s.total_drops ≤ s.max_seq
      → Received s.max_seq p s (receive doubles time now p s)
  unfolding receive
  receive-Received time now p s h w d =
      let (greet_lost, greet_seq, greet_drops) = greet-lost s in
      let g = greet doubles s in
      let (count_lost, count_seq, count_within) =
        count_packet-lost time now p g (omega (arith, greet_seq, h)) w
          (omega (arith, greet_seq, greet_drops, d)) in
      let r = report_due-Agrees now (count_packet doubles time now p g) in
      record {
        more_lost = omega (
          arith,
          r.same_lost,
          count_lost,
          greet_lost,
          ap (λ m. passed_over doubles m p.seq_num) greet_seq,
        );
        new_seq = r.same_seq ∙ count_seq;
        within = omega (arith, r.fewer, count_within);
      }

  passed_over-gap :
      (m seq : ℕ) → 0 < m → m < seq → seq < word → passed_over doubles m seq + m + 1 ≡ seq
  passed_over-gap m seq h k w = ground arith

  passed_over-first : (seq : ℕ) → passed_over doubles 0 seq ≡ 0
  passed_over-first seq = ground arith

  wait-again : (time : ℕ) (s : Server Num) {t : Server Num} → wait doubles time s ≡ again t → s ≡ t
  unfolding wait
  wait-again time s h = ground (arith, h)

  again_injective : {s t : Server Num} → again s ≡ again t → s ≡ t
  again_injective e = cc

  same_first : {p q : Packet} {ps qs : List Packet} → q ∷ qs ≡ p ∷ ps → q.seq_num ≡ p.seq_num
  same_first e = cc

  -- The round went on, where the loop still runs.
  continued :
      (r : Round Num) (es : List Event) {t : Server Num}
      → (elim r [ again u ↦ run_server doubles es u | stopped u ↦ stopped u ]) ≡ again t
      → (u : Server Num) × ((r ≡ again u) × (run_server doubles es u ≡ again t))
  continued (again u) es e = (u, (refl, e))
  continued (stopped u) es e = cc

  -- The losses and the packets fill the numbers from `m` to the last.
  run_server-lost :
      (es : List Event) (s : Server Num) {t : Server Num}
      → 0 < s.max_seq
      → s.total_drops ≤ s.max_seq
      → Ascending s.max_seq (arrivals es)
      → run_server doubles es s ≡ again t
      → lost t + length (arrivals es) + s.max_seq ≡ lost s + last_seq s.max_seq (arrivals es)
  unfolding run_server arrivals
  run_server-lost [] s h d a e = omega (arith, ap lost (again_injective e))
  run_server-lost (arrived time now p ∷ es) s h d (k, w, a) e =
      let r = receive-Received time now p s k w d in
      let u = receive doubles time now p s in
      omega (
        arith,
        run_server-lost es u (omega (arith, r.new_seq, k)) (omega (arith, r.new_seq, r.within))
            (rw r.new_seq a) e,
        r.more_lost,
        r.new_seq,
        ap (λ m. last_seq m (arrivals es)) r.new_seq,
        passed_over-gap s.max_seq p.seq_num h k w,
      )
  run_server-lost (silent time ∷ es) s h d a e =
      let (u, (e', e'')) = continued (wait doubles time s) es e in
      run_server-lost es s h d a (ap (run_server doubles es) (wait-again time s e') ∙ e'')

  -- The same from the start, where no number was seen.
  run_server-first :
      (es : List Event) (p : Packet) (ps : List Packet) (s : Server Num) {t : Server Num}
      → s.max_seq ≡ 0
      → s.total_drops ≡ 0
      → Ascending 0 (arrivals es)
      → arrivals es ≡ p ∷ ps
      → run_server doubles es s ≡ again t
      → lost t + length (arrivals es) + p.seq_num ≡ lost s + last_seq 0 (arrivals es) + 1
  unfolding run_server arrivals
  run_server-first [] p ps s h d a f e = cc
  run_server-first (silent time ∷ es) p ps s h d a f e =
      let (u, (e', e'')) = continued (wait doubles time s) es e in
      run_server-first es p ps s h d a f (ap (run_server doubles es) (wait-again time s e') ∙ e'')
  run_server-first (arrived time now q ∷ es) p ps s h d (k, w, a) f e =
      let r = receive-Received time now q s (omega (arith, h, k)) w (omega (arith, d)) in
      let u = receive doubles time now q s in
      omega (
        arith,
        run_server-lost es u (omega (arith, r.new_seq, k)) (omega (arith, r.new_seq, r.within))
            (rw r.new_seq a) e,
        r.more_lost,
        r.new_seq,
        ap (λ m. last_seq m (arrivals es)) r.new_seq,
        ap (λ m. passed_over doubles m q.seq_num) h,
        passed_over-first q.seq_num,
        same_first f,
      )

-- If the packets arrive with ever greater numbers, whatever the times and the silences between them, and
-- the receiver still runs: the losses in the rows that it printed, with those of the row to come, are
-- exactly the numbers between the first and the last that did not arrive.
pub lost-missing :
    {Num : Type 0} (doubles : Doubles Num) (time now : ℕ) (es : List Event) (first : Packet)
    (rest : List Packet) {t : Server Num}
    → Ascending 0 (arrivals es)
    → arrivals es ≡ first ∷ rest
    → run_server doubles es (start doubles time now) ≡ again t
    → lost t + length (arrivals es) + first.seq_num ≡ last_seq 0 (arrivals es) + 1
unfolding start reported
lost-missing doubles time now es first rest a f e =
    omega (arith, run_server-first doubles es first rest (start doubles time now) refl refl a f e)
