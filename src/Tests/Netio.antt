-- ===== src/Tests/Netio.antt =====
-- Runs of the two monitors of ebpf/.
use linuxtools.Base.{ℕ, ◌+◌, ◌*◌, ◌≡◌, refl, true, false, List, [], ◌∷◌, none, some}
use linuxtools.Str.{codes, join}
use linuxtools.Str.Number.{decimal, digits_onto, grouped, grouped_onto}
use linuxtools.Netio.Probe.{Context, filled}
use linuxtools.Netio.Stats.{AddrInfo, fresh}
use linuxtools.Netio.Summary.{kilobytes, hundredths}
use linuxtools.Netio.Event.{inet_ntoa}
use linuxtools.Netio.Monitor.{
  sendto, recvfrom, write, read, Bcc, Monitor, running, start, leave, here, next, returned, poll,
  lost, polled, Reach, return_probe, syscalls, attach_all, monitor_of,
}
use linuxtools.Netio.Invariant.{Inv, start-Reach-Inv}
use linuxtools.Netio.Totals.{Call, leave_all, drain, Healthy, stats-drain, bytes_of, number_of}
use linuxtools.Netio.Flows.{Update, update_all, IsBalanced, update_all-IsBalanced}
use linuxtools.Netio.Ledger.{Account, total, held, moved, calls_of, lost_of, total-moved}
use linuxtools.NetioSimple
use linuxtools.NetioSimple.Laws

abbrev bcc : Bcc
bcc = record { load = none; attach_kprobe = λ _. none; attach_kretprobe = λ _. none }

-- The thread 77 of the process 9, and one of another process.
abbrev mine : ℕ → Context
mine rc = record { pid_tgid = 9 * 4294967296 + 77; comm = codes "curl"; ktime = 5; rc = rc }

abbrev foreign : ℕ → Context
foreign rc = record { pid_tgid = 8 * 4294967296 + 80; comm = codes "sshd"; ktime = 6; rc = rc }

abbrev calls : List Call
calls =
    (sendto, mine 300)
    ∷ (read, foreign 44)
    ∷ (recvfrom, mine 1200)
    ∷ (write, mine 18446744073709551605)
    ∷ (write, mine 100)
    ∷ []

abbrev attached : Monitor
attached =
    monitor_of 9 (codes "curl") (record { entries = syscalls; returns = syscalls; lines = [] })

started : start bcc false 9 0 (some (codes "curl")) ≡ running attached
unfolding start attach_all
started = refl

start-Reach-Inv_example : Inv (leave sendto (mine 300) attached)
start-Reach-Inv_example =
    start-Reach-Inv bcc false 9 0 (some (codes "curl")) started
      (next here (returned attached sendto (mine 300)))

bcc-Healthy : Healthy bcc
bcc-Healthy c = (refl, refl)

-- The failed write, -11 as a register, and the other process are not counted.
stats-drain_example :
    (drain (codes "12:00:00") (leave_all calls attached).queue (leave_all calls attached)).stats
    ≡ record {
      total_sent = bytes_of 9 true calls;
      total_recv = bytes_of 9 false calls;
      send_count = number_of 9 true calls;
      recv_count = number_of 9 false calls;
      connections = [];
    }
stats-drain_example =
    stats-drain bcc false 9 0 (some (codes "curl")) calls (codes "12:00:00") bcc-Healthy started

bytes_sent : bytes_of 9 true calls ≡ 400
unfolding bytes_of
bytes_sent = refl

abbrev home : AddrInfo
home = record { saddr = codes "10.0.0.1"; sport = 4000; daddr = codes "10.0.0.2"; dport = 80 }

abbrev updates : List Update
updates =
    record { direction = 0; count = 10; addr = home }
    ∷ record { direction = 1; count = 7; addr = home }
    ∷ []

update_all-IsBalanced_example : IsBalanced (update_all updates fresh)
update_all-IsBalanced_example = update_all-IsBalanced updates

summary_numbers : (grouped 1234567 ≡ codes "1,234,567") × (kilobytes 1536 ≡ codes "1.50")
unfolding grouped grouped_onto decimal digits_onto kilobytes hundredths
summary_numbers = (refl, refl)

address : inet_ntoa 0x0100007f ≡ codes "127.0.0.1"
unfolding inet_ntoa decimal digits_onto join
address = refl

abbrev simple_calls : List Laws.Call
simple_calls = (true, mine 30) ∷ (true, mine 0) ∷ (false, mine 12) ∷ (false, foreign 99) ∷ []

run_lem_example : Laws.run 9 simple_calls NetioSimple.zero_globals ≡ record {
  total_write = Laws.bytes_of 9 true simple_calls;
  total_read = Laws.bytes_of 9 false simple_calls;
  write_count = Laws.number_of 9 true simple_calls;
  read_count = Laws.number_of 9 false simple_calls;
}
run_lem_example = Laws.run_lem 9 simple_calls

simple_run :
    Laws.run 9 simple_calls NetioSimple.zero_globals
    ≡ record { total_write = 30; total_read = 12; write_count = 1; read_count = 1 }
unfolding Laws.run Laws.submit Laws.count_all NetioSimple.count_event
simple_run = refl

abbrev refusing : NetioSimple.Bcc
refusing = record { load = none; attach_write = none; attach_read = some (codes "no") }

status_of-start_example :
    Laws.status_of (NetioSimple.start refusing 9 0 (some (codes "curl"))) ≡ some 1
status_of-start_example = Laws.status_of-start refusing 9 0 (some (codes "curl"))

-- Two calls return; the record of the first is lost, and that of the second is read.
abbrev both_returned : Monitor
both_returned = leave recvfrom (mine 1200) (leave sendto (mine 300) attached)

queued : both_returned.queue ≡ filled (mine 300) 0 ∷ filled (mine 1200) 1 ∷ []
unfolding leave return_probe filled monitor_of
queued = refl

abbrev after_loss : Monitor
after_loss = record both_returned { queue = filled (mine 1200) 1 ∷ [] }

abbrev after_poll : Monitor
after_poll = poll (codes "12:00:00") (filled (mine 1200) 1) [] after_loss

abbrev lossy : Reach attached after_poll
lossy =
    next
      (next
        (next (next here (returned attached sendto (mine 300)))
          (returned (leave sendto (mine 300) attached) recvfrom (mine 1200)))
        (lost both_returned (filled (mine 300) 0) (filled (mine 1200) 1 ∷ []) queued))
      (polled after_loss (codes "12:00:00") (filled (mine 1200) 1) [] refl)

abbrev bytes_out : Account
bytes_out = record { in_bytes = true; outward = true }

total-moved_example :
    total bytes_out after_poll.stats
      + held bytes_out after_poll.queue
      + held bytes_out (lost_of lossy)
    ≡ moved bytes_out 9 (calls_of lossy)
total-moved_example =
    total-moved bcc false 9 0 (some (codes "curl")) bytes_out lossy bcc-Healthy started
