-- ===== src/NetBench.antt =====
-- net_bench/net_bench.c: the receiver, on the packets that arrive, and the sender, on the readings of
-- the clock. `uint64_t` is a word of 64 bits.
pub mod Sender
pub mod Losses
pub mod Exchange
pub mod Options
use linuxtools.Base.{
  ℕ, ◌+◌, ◌-◌, ◌*◌, ◌/◌, ◌%◌, ◌^◌, Bool, true, false, ◌&&◌, not, List, [], ◌∷◌, ◌++◌, if◌then◌else◌,
  leb, ltb, ◌==◌,
}

abbrev pub word : ℕ
word = 2 ^ 64

-- `a - b` on words
abbrev pub minus : ℕ → ℕ → ℕ
minus a b = (a + (word - b % word)) % word

-- The `double` operations: 0, a word as a `double`, a sum and a quotient.
pub record Doubles (Num : Type 0) : Type 0 where
  pub nil : Num
  pub of_word : ℕ → Num
  pub sum : Num → Num → Num
  pub quotient : Num → Num → Num

-- What `recvfrom` leaves in the buffer: its result and the header.
pub record Packet : Type 0 where
  pub size : ℕ
  pub seq_num : ℕ
  pub timestamp_ns : ℕ

-- What is printed: the names of the columns, a row, and the three messages.
pub data Line (Num : Type 0) : Type 0 where
  column_names : Line Num
  row : ℕ → Num → Num → ℕ → Line Num
  traffic_started_line : Line Num
  no_traffic_line : Line Num
  traffic_stopped_line : Line Num

-- The variables of `run_server`.
pub record Server (Num : Type 0) : Type 0 where
  pub total_bytes : ℕ
  pub total_pkts : ℕ
  pub total_drops : ℕ
  pub max_seq : ℕ
  pub total_latency : Num
  pub last_report_time : ℕ
  pub traffic_started : Bool
  pub start_time : ℕ
  pub last_recv_time : ℕ
  pub out : List (Line Num)

-- A round of the loop: a packet at a time in seconds and one in nanoseconds, or none.
pub data Event : Type 0 where
  arrived : ℕ → ℕ → Packet → Event
  silent : ℕ → Event

pub data Round (Num : Type 0) : Type 0 where
  again : Server Num → Round Num
  stopped : Server Num → Round Num

module _ {Num : Type 0} (doubles : Doubles Num) where
  unfoldable pub start : ℕ → ℕ → Server Num
  start time now = record {
    total_bytes = 0;
    total_pkts = 0;
    total_drops = 0;
    max_seq = 0;
    total_latency = doubles.nil;
    last_report_time = now;
    traffic_started = false;
    start_time = time;
    last_recv_time = time;
    out = column_names ∷ [];
  }

  abbrev pub greet : Server Num → Server Num
  greet s =
      if s.traffic_started
      then s
      else record s { traffic_started = true; out = s.out ++ (traffic_started_line ∷ []) }

  -- `(now > sent_ts) ? (now - sent_ts) : 0`
  abbrev pub latency : ℕ → ℕ → ℕ
  latency now sent = if ltb sent now then minus now sent else 0

  -- The numbers that were passed over, where a packet came before.
  abbrev pub passed_over : ℕ → ℕ → ℕ
  passed_over max_seq seq =
      if ltb 0 max_seq && ltb ((max_seq + 1) % word) seq then minus (minus seq max_seq) 1 else 0

  -- The sums with the packet.
  abbrev pub count_packet : ℕ → ℕ → Packet → Server Num → Server Num
  count_packet time now p s = record s {
    last_recv_time = time;
    total_drops = (s.total_drops + passed_over s.max_seq p.seq_num) % word;
    max_seq = if ltb s.max_seq p.seq_num then p.seq_num else s.max_seq;
    total_bytes = (s.total_bytes + p.size) % word;
    total_pkts = (s.total_pkts + 1) % word;
    total_latency = doubles.sum s.total_latency (doubles.of_word (latency now p.timestamp_ns));
  }

  abbrev pub mbps : Server Num → Num
  mbps s = doubles.quotient (doubles.of_word (s.total_bytes * 8)) (doubles.of_word 1000000)

  abbrev pub avg_lat : Server Num → Num
  avg_lat s =
      if ltb 0 s.total_pkts
      then doubles.quotient s.total_latency (doubles.of_word s.total_pkts)
      else doubles.nil

  -- The row of the interval, and the sums from zero.
  abbrev pub report : ℕ → Server Num → Server Num
  report now s = record s {
    total_bytes = 0;
    total_pkts = 0;
    total_drops = 0;
    total_latency = doubles.nil;
    last_report_time = now;
    out = s.out ++ (row (now / 1000000000) (mbps s) (avg_lat s) s.total_drops ∷ []);
  }

  abbrev pub report_due : ℕ → Server Num → Server Num
  report_due now s = if ltb 1000000000 (minus now s.last_report_time) then report now s else s

  unfoldable pub receive : ℕ → ℕ → Packet → Server Num → Server Num
  receive time now p s = report_due now (count_packet time now p (greet s))

  -- `difftime(time, since) > limit`
  abbrev pub is_over : ℕ → ℕ → ℕ → Bool
  is_over limit since time = ltb (since + limit) time

  unfoldable pub wait : ℕ → Server Num → Round Num
  wait time s =
      if not s.traffic_started
      then (if is_over 1800 s.start_time time
          then stopped (record s { out = s.out ++ (no_traffic_line ∷ []) })
          else again s)
      else if is_over 30 s.last_recv_time time
      then stopped (record s { out = s.out ++ (traffic_stopped_line ∷ []) })
      else again s

  abbrev pub round : Event → Server Num → Round Num
  round (arrived time now p) s = again (receive time now p s)
  round (silent time) s = wait time s

  -- The loop of `run_server`: nothing sets `running` to 0.
  unfoldable pub run_server : List Event → Server Num → Round Num
  run_server [] s = again s
  run_server (e ∷ es) s = elim (round e s) [ again t ↦ run_server es t | stopped t ↦ stopped t ]
