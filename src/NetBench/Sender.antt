-- ===== src/NetBench/Sender.antt =====
-- `run_client` of net_bench/net_bench.c: the packets that it sends, by the readings of the clock.
use linuxtools.Base.{ℕ, zero, suc, ◌+◌, ◌*◌, ◌/◌, ◌%◌, List, [], ◌∷◌, ◌++◌, if◌then◌else◌, leb, ltb}
use linuxtools.NetBench.{word, Packet}

-- The readings of the clock so far, the variables of the loops, and the packets that were sent.
pub record Sender : Type 0 where
  pub ticks : ℕ
  pub seq : ℕ
  pub next_send : ℕ
  pub sent : List Packet

-- The loops end, or `rate * 1024 * 1024` is out of the range of `int`. On fuel, `stuck` is the lack of it.
pub data Run : Type 0 where
  done : Sender → Run
  overflowed : Sender → Run
  stuck : Run

abbrev pub first_sender : Sender
first_sender = record { ticks = 0; seq = 1; next_send = 0; sent = [] }

-- `sendto`, with the next number.
unfoldable pub send : ℕ → ℕ → Sender → Sender
send interval now s = record {
  ticks = s.ticks;
  seq = (s.seq + 1) % word;
  next_send = (s.next_send + interval) % word;
  sent = s.sent ++ (record { size = 1400; seq_num = s.seq; timestamp_ns = now } ∷ []);
}

-- The body of the loop, behind its test: a packet, if it is due.
abbrev pub send_due : ℕ → ℕ → Sender → Sender
send_due interval now s = if leb s.next_send now then send interval now s else s

abbrev pub read_clock : ℕ → Sender → Sender
read_clock n s = record s { ticks = s.ticks + n }

module _ (clock : ℕ → ℕ) where
  -- The loop of one rate.
  unfoldable pub send_again : ℕ → ℕ → ℕ → Sender → Run
  send_again zero interval end_time s = stuck
  send_again (suc fuel) interval end_time s =
      let rest =
        send_again fuel interval end_time
          (send_due interval (clock (s.ticks + 1)) (read_clock 2 s)) in
      if ltb (clock s.ticks) end_time then rest else done (read_clock 1 s)

  -- `1000000000ULL / (bytes_per_sec / PACKET_SIZE)`
  abbrev pub interval_of : ℕ → ℕ
  interval_of rate = 1000000000 / (rate * 1048576 / 1400)

  -- One rate: `start_time`, `end_time` and `next_send`, then the loop.
  abbrev pub at_rate : ℕ → ℕ → ℕ → Sender → Run
  at_rate fuel duration rate s =
      send_again fuel (interval_of rate) ((clock s.ticks + duration * 1000000000) % word)
        (record (read_clock 2 s) { next_send = clock (s.ticks + 1) })

  -- `n` rates, from `rate` on.
  unfoldable pub ramp : ℕ → ℕ → ℕ → ℕ → Sender → Run
  ramp fuel duration zero rate s = done s
  ramp fuel duration (suc n) rate s =
      if leb 2048 rate then overflowed s else elim (at_rate fuel duration rate s) [
        | done t ↦ ramp fuel duration n (rate + 1) t
        | overflowed t ↦ overflowed t
        | stuck ↦ stuck
      ]

  unfoldable pub run_client : ℕ → ℕ → ℕ → Run
  run_client fuel duration max_bandwidth = ramp fuel duration max_bandwidth 1 first_sender
