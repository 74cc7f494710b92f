-- ===== src/Tests/Packets.antt =====
-- A run of the sender of net_bench/net_bench.c, and of the receiver on two of its packets.
use linuxtools.Base.{ℕ, ◌+◌, ◌*◌, ◌/◌, ◌≡◌, refl, List, [], ◌∷◌, length, arith}
use linuxtools.NetBench.{
  Doubles, Packet, Server, Event, arrived, silent, again, start, receive, wait, run_server,
}
use linuxtools.NetBench.Sender.{Sender, done, send, send_again, ramp, run_client}
use linuxtools.NetBench.Losses.{lost, reported, arrivals, last_seq}
use linuxtools.NetBench.Exchange.{Sub, nothing, keep, skip, lost-run_client}

abbrev doubles : Doubles ℕ
doubles = record { nil = 0; of_word = λ n. n; sum = λ a b. a + b; quotient = λ a b. a / b }

-- A reading of the clock takes a tenth of a second.
abbrev clock : ℕ → ℕ
clock k = k * 100000000

abbrev packet : ℕ → ℕ → Packet
packet seq now = record { size = 1400; seq_num = seq; timestamp_ns = now }

abbrev sender : Sender
sender = record {
  ticks = 11;
  seq = 5;
  next_send = 105347592;
  sent = packet 1 300000000 ∷ packet 2 500000000 ∷ packet 3 700000000 ∷ packet 4 900000000 ∷ [];
}

sends : run_client clock 10 1 1 ≡ done sender
unfolding run_client ramp send_again send
sends = refl

-- The second and the fourth packet arrive, with a silence between them.
abbrev events : List Event
events =
    arrived 1 600000000 (packet 2 500000000)
    ∷ silent 9
    ∷ arrived 10 9000000000 (packet 4 900000000)
    ∷ []

abbrev received : Server ℕ
received =
    receive doubles 10 9000000000 (packet 4 900000000)
      (receive doubles 1 600000000 (packet 2 500000000) (start doubles 0 0))

runs : run_server doubles events (start doubles 0 0) ≡ again received
unfolding run_server wait receive start
runs = refl

some_arrive : Sub (arrivals events) sender.sent
unfolding arrivals
some_arrive =
    skip (packet 1 300000000) (
      keep (packet 2 500000000)
        (skip (packet 3 700000000) (keep (packet 4 900000000) (nothing []))))

two_arrive : arrivals events ≡ packet 2 500000000 ∷ packet 4 900000000 ∷ []
unfolding arrivals
two_arrive = refl

lost-run_client_example :
    lost received + length (arrivals events) + 2 ≡ last_seq 0 (arrivals events) + 1
lost-run_client_example =
    lost-run_client doubles clock 10 1 1 0 0 events (packet 2 500000000) (packet 4 900000000 ∷ [])
      sends (omega arith) some_arrive two_arrive runs

one_lost : lost received ≡ 1
unfolding reported receive start
one_lost = refl
