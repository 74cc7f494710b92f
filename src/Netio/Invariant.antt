-- ===== src/Netio/Invariant.antt =====
-- What holds in every state of the monitor of ebpf/netio_monitor.py.
use linuxtools.Base.{
  ℕ, ◌∙◌, ◌+◌, ◌<◌, ◌≤◌, Bool, List, [], ◌∷◌, Option, ◌≡◌, arith, All, All-append, Bool-cases,
  length-append, inl, inr, ◌*◌, length,
}
use linuxtools.Str.{Text}
use linuxtools.Netio.Probe.{Data, Context}
use linuxtools.Netio.Stats.{Stats, update_connections}
use linuxtools.Netio.Event.{count_event, event_line}
use linuxtools.Netio.Monitor.{
  contains, Syscall, sendto, return_probe, Bcc, Monitor, running, start, leave, poll, Step,
  returned, polled, lost, Reach, here, next,
}

-- A record that a probe submits for the process `target`: it is of that process, its byte count is
-- not negative as an `int`, and its addresses are unset.
pub record IsGenuine (target : ℕ) (d : Data) : Type 0 where
  pub of_target : d.pid ≡ target
  pub in_range : d.bytes < 2147483648
  pub no_source : d.saddr ≡ 0
  pub no_destination : d.daddr ≡ 0

return_probe-IsGenuine :
    (c : Syscall) (target : ℕ) (ctx : Context)
    → All (IsGenuine target) (return_probe c target ctx).submitted
unfolding return_probe
return_probe-IsGenuine sendto target ctx = ground arith
return_probe-IsGenuine _ target ctx = ground arith

-- The records that wait are genuine, no connection is listed, one line is printed for each record
-- counted, and no total exceeds what that many system calls can have moved.
pub record Inv (m : Monitor) : Type 0 where
  pub genuine : All (IsGenuine m.target) m.queue
  pub no_connections : m.stats.connections ≡ []
  pub lines : length m.out ≡ m.stats.send_count + m.stats.recv_count
  pub sent_bound : m.stats.total_sent ≤ 2147483647 * m.stats.send_count
  pub recv_bound : m.stats.total_recv ≤ 2147483647 * m.stats.recv_count

leave-Inv : (c : Syscall) (ctx : Context) (m : Monitor) → Inv m → Inv (leave c ctx m)
unfolding leave
leave-Inv c ctx m i = elim (Bool-cases (contains m.probes.returns c)) [
  | inl attached ↦ rw attached (record {
    genuine =
        All-append (IsGenuine m.target) m.queue _ i.genuine (return_probe-IsGenuine c m.target ctx);
    no_connections = i.no_connections;
    lines = i.lines;
    sent_bound = i.sent_bound;
    recv_bound = i.recv_bound;
  })
  | inr absent ↦ rw absent i
]

-- The callback on a record without addresses leaves the connections alone.
count_event-IsGenuine :
    (target : ℕ) (d : Data) (s : Stats)
    → IsGenuine target d
    → (count_event d s).connections ≡ s.connections
unfolding count_event update_connections
count_event-IsGenuine target d s g = ground arith

poll-Inv :
    (m : Monitor) (clock : Text) (d : Data) (q : List Data)
    → m.queue ≡ d ∷ q
    → Inv m
    → Inv (poll clock d q m)
unfolding poll count_event
poll-Inv m clock d q e i =
    let waits : All (IsGenuine m.target) (d ∷ q) = rw e at i.genuine in
    record {
      genuine = waits.1;
      no_connections = count_event-IsGenuine m.target d m.stats waits.0 ∙ i.no_connections;
      lines = ground (arith, length-append m.out (event_line clock d ∷ []));
      sent_bound = ground arith;
      recv_bound = ground arith;
    }

Step-Inv : {m n : Monitor} → Step m n → Inv m → Inv n
Step-Inv (returned m c ctx) i = leave-Inv c ctx m i
Step-Inv (polled m clock d q e) i = poll-Inv m clock d q e i
Step-Inv (lost m d q e) i =
    let waits : All (IsGenuine m.target) (d ∷ q) = rw e at i.genuine in
    record {
      genuine = waits.1;
      no_connections = i.no_connections;
      lines = i.lines;
      sent_bound = i.sent_bound;
      recv_bound = i.recv_bound;
    }

Reach-Inv : {m n : Monitor} → Inv m → Reach m n → Inv n
Reach-Inv i here = i
Reach-Inv i (next r st) = Step-Inv st (Reach-Inv i r)

start-Inv :
    (bcc : Bcc) (verbose : Bool) (pid euid : ℕ) (comm : Option Text) {m : Monitor}
    → start bcc verbose pid euid comm ≡ running m
    → Inv m
unfolding start
start-Inv bcc verbose pid euid comm e = ground arith

-- In every state that the started monitor can reach, whatever system calls return, in whatever order
-- records are read, and however many are lost: each record that waits is of the monitored process,
-- with a byte count below 2 ^ 31 and no addresses; the table of connections is empty; as many lines
-- are printed as operations are counted; and each total is at most 2 ^ 31 - 1 for each operation.
pub start-Reach-Inv :
    (bcc : Bcc) (verbose : Bool) (pid euid : ℕ) (comm : Option Text) {m n : Monitor}
    → start bcc verbose pid euid comm ≡ running m
    → Reach m n
    → Inv n
start-Reach-Inv bcc verbose pid euid comm e r = Reach-Inv (start-Inv bcc verbose pid euid comm e) r
