-- ===== src/Netio/Totals.antt =====
-- The totals of ebpf/netio_monitor.py, against the system calls that returned.
use linuxtools.Base.{
  ℕ, ◌+◌, Bool, true, false, ◌&&◌, not, List, [], ◌∷◌, ◌++◌, Option, none, ◌≡◌, refl, ◌∙◌, ap,
  arith, Bool-cases, inl, inr, ◌==◌, if◌then◌else◌, append-nil, append_assoc, sym,
}
use linuxtools.Str.{Text}
use linuxtools.Netio.Word.{low32, high32, is_negative}
use linuxtools.Netio.Probe.{Data, Context, filled}
use linuxtools.Netio.Stats.{Stats, fresh, update_connections}
use linuxtools.Netio.Event.{count_event}
use linuxtools.Netio.Monitor.{
  Syscall, sendto, sendmsg, write, syscalls, contains, return_probe, Bcc, attach, attach_all,
  Probes, unattached, Monitor, running, start, leave, poll,
}

abbrev pub Call : Type 0
Call = Syscall × Context

-- The system calls return, in this order.
unfoldable pub leave_all : List Call → Monitor → Monitor
leave_all [] m = m
leave_all ((c, ctx) ∷ calls) m = leave_all calls (leave c ctx m)

-- Python reads all that waits.
unfoldable pub drain : Text → List Data → Monitor → Monitor
drain clock [] m = m
drain clock (d ∷ q) m = drain clock q (poll clock d q m)

unfoldable pub count_all : List Data → Stats → Stats
count_all [] s = s
count_all (d ∷ ds) s = count_all ds (count_event d s)

abbrev pub sends : Syscall → Bool
sends sendto = true
sends sendmsg = true
sends write = true
sends _ = false

-- The call is one of the process `target`, in the direction `out`, and it did not fail.
abbrev pub counts : ℕ → Bool → Call → Bool
counts target out (c, ctx) =
    high32 ctx.pid_tgid == target
    && not (is_negative ctx.rc)
    && (if out then sends c else not (sends c))

-- How many bytes and how many calls those are.
unfoldable pub bytes_of : ℕ → Bool → List Call → ℕ
bytes_of target out [] = 0
bytes_of target out ((c, ctx) ∷ calls) =
    (if counts target out (c, ctx) then low32 ctx.rc else 0) + bytes_of target out calls

unfoldable pub number_of : ℕ → Bool → List Call → ℕ
number_of target out [] = 0
number_of target out (call ∷ calls) =
    (if counts target out call then 1 else 0) + number_of target out calls

drain-stats :
    (clock : Text) (q : List Data) (m : Monitor) → (drain clock q m).stats ≡ count_all q m.stats
unfolding drain count_all poll
drain-stats clock [] m = refl
drain-stats clock (d ∷ q) m = drain-stats clock q _

-- What the probes of all calls submit.
submissions : ℕ → List Call → List Data
submissions target [] = []
submissions target ((c, ctx) ∷ calls) =
    (return_probe c target ctx).submitted ++ submissions target calls

abbrev pub AllAttached : Monitor → Type 0
AllAttached m = (c : Syscall) → contains m.probes.returns c ≡ true

pub leave-eq :
    (c : Syscall) (ctx : Context) (m : Monitor)
    → AllAttached m
    → leave c ctx m ≡ record m { queue = m.queue ++ (return_probe c m.target ctx).submitted }
unfolding leave
leave-eq c ctx m h = rw (h c)

leave_all-queue :
    (calls : List Call) (m : Monitor)
    → AllAttached m
    → (leave_all calls m).queue ≡ m.queue ++ submissions m.target calls
unfolding leave_all submissions
leave_all-queue [] m h = sym (append-nil m.queue)
leave_all-queue ((c, ctx) ∷ calls) m h =
    ap (λ n. (leave_all calls n).queue) (leave-eq c ctx m h)
    ∙ leave_all-queue calls
        (record m { queue = m.queue ++ (return_probe c m.target ctx).submitted }) h
    ∙ append_assoc m.queue _ _

leave_all-stats : (calls : List Call) (m : Monitor) → (leave_all calls m).stats ≡ m.stats
unfolding leave_all leave
leave_all-stats [] m = refl
leave_all-stats ((c, ctx) ∷ calls) m = leave_all-stats calls (leave c ctx m) ∙ ground arith

-- The statistics after one call.
tally : ℕ → Call → Stats → Stats
tally target call s = record {
  total_sent = s.total_sent + (if counts target true call then low32 call.1.rc else 0);
  total_recv = s.total_recv + (if counts target false call then low32 call.1.rc else 0);
  send_count = s.send_count + (if counts target true call then 1 else 0);
  recv_count = s.recv_count + (if counts target false call then 1 else 0);
  connections = s.connections;
}

pub return_probe-submitted :
    (target : ℕ) (ctx : Context) (c : Syscall)
    → (return_probe c target ctx).submitted ≡ (
        if high32 ctx.pid_tgid == target && not (is_negative ctx.rc)
        then filled ctx (if sends c then 0 else 1) ∷ []
        else [])
unfolding return_probe
return_probe-submitted target ctx sendto = ground arith
return_probe-submitted target ctx _ = ground arith

count_event-filled :
    (target : ℕ) (ctx : Context) (c : Syscall) (s : Stats)
    → (high32 ctx.pid_tgid == target && not (is_negative ctx.rc)) ≡ true
    → count_event (filled ctx (if sends c then 0 else 1)) s ≡ tally target (c, ctx) s
unfolding count_event filled update_connections tally
count_event-filled target ctx c s h = rw h (ground arith)

tally_other :
    (target : ℕ) (ctx : Context) (c : Syscall) (s : Stats)
    → (high32 ctx.pid_tgid == target && not (is_negative ctx.rc)) ≡ false
    → s ≡ tally target (c, ctx) s
unfolding tally
tally_other target ctx c s h = rw h (ground arith)

count_return :
    (target : ℕ) (ctx : Context) (c : Syscall) (ds : List Data) (s : Stats)
    → count_all ((return_probe c target ctx).submitted ++ ds) s
      ≡ count_all ds (tally target (c, ctx) s)
unfolding count_all
count_return target ctx c ds s =
    rw (return_probe-submitted target ctx c)
      (elim (Bool-cases (high32 ctx.pid_tgid == target && not (is_negative ctx.rc))) [
        | inl mine ↦ rw mine (ap (count_all ds) (count_event-filled target ctx c s mine))
        | inr other ↦ rw other (ap (count_all ds) (tally_other target ctx c s other))
      ])

count_submissions :
    (target : ℕ) (calls : List Call) (s : Stats)
    → count_all (submissions target calls) s ≡ record {
      total_sent = s.total_sent + bytes_of target true calls;
      total_recv = s.total_recv + bytes_of target false calls;
      send_count = s.send_count + number_of target true calls;
      recv_count = s.recv_count + number_of target false calls;
      connections = s.connections;
    }
unfolding count_all submissions bytes_of number_of tally
count_submissions target [] s = ground arith
count_submissions target ((c, ctx) ∷ calls) s =
    count_return target ctx c (submissions target calls) s
    ∙ count_submissions target calls (tally target (c, ctx) s)
    ∙ ground arith

-- No call of the bcc library fails.
abbrev pub Healthy : Bcc → Type 0
Healthy bcc = (c : Syscall) → (bcc.attach_kprobe c ≡ none) × (bcc.attach_kretprobe c ≡ none)

attach-returns :
    (bcc : Bcc) (verbose : Bool) (c : Syscall) (p : Probes)
    → Healthy bcc
    → (attach bcc verbose c p).returns ≡ p.returns ++ (c ∷ [])
unfolding attach
attach-returns bcc verbose c p h = rw ((h c).0, (h c).1, attach)

attach_all-returns :
    (bcc : Bcc) (verbose : Bool) (cs : List Syscall) (p : Probes)
    → Healthy bcc
    → (attach_all bcc verbose cs p).returns ≡ p.returns ++ cs
unfolding attach_all
attach_all-returns bcc verbose [] p h = sym (append-nil p.returns)
attach_all-returns bcc verbose (c ∷ cs) p h =
    attach_all-returns bcc verbose cs (attach bcc verbose c p) h
    ∙ rw (attach-returns bcc verbose c p h) (append_assoc p.returns (c ∷ []) cs)

contains-syscalls : (c : Syscall) → contains syscalls c ≡ true
contains-syscalls sendto = refl
contains-syscalls _ = refl

pub start-running :
    (bcc : Bcc) (verbose : Bool) (pid euid : ℕ) (comm : Option Text) {m : Monitor}
    → start bcc verbose pid euid comm ≡ running m
    → (m.probes ≡ attach_all bcc verbose syscalls unattached)
      × (m.queue ≡ [])
      × (m.stats ≡ fresh)
      × (m.target ≡ pid)
unfolding start
start-running bcc verbose pid euid comm e = ground arith

pub start-AllAttached :
    (bcc : Bcc) (verbose : Bool) (pid euid : ℕ) (comm : Option Text) {m : Monitor}
    → Healthy bcc
    → start bcc verbose pid euid comm ≡ running m
    → AllAttached m
start-AllAttached bcc verbose pid euid comm h e c =
    rw
      (
        (start-running bcc verbose pid euid comm e).0,
        attach_all-returns bcc verbose syscalls unattached h,
      )
      (contains-syscalls c)

-- When all probes were attached, and all the records of the calls that returned are read, the
-- statistics are the bytes and the number of the calls of the monitored process that did not fail,
-- the sends and the receives apart; the table of connections is empty.
pub stats-drain :
    (bcc : Bcc) (verbose : Bool) (pid euid : ℕ) (comm : Option Text) {m : Monitor}
    (calls : List Call) (clock : Text)
    → Healthy bcc
    → start bcc verbose pid euid comm ≡ running m
    → let n = leave_all calls m in
      (drain clock n.queue n).stats ≡ record {
        total_sent = bytes_of pid true calls;
        total_recv = bytes_of pid false calls;
        send_count = number_of pid true calls;
        recv_count = number_of pid false calls;
        connections = [];
      }
stats-drain bcc verbose pid euid comm {m} calls clock h e =
    let (_, empty, zero_stats, target) = start-running bcc verbose pid euid comm e in
    drain-stats clock _ _
    ∙ rw
        (
          leave_all-queue calls m (start-AllAttached bcc verbose pid euid comm h e),
          leave_all-stats calls m,
          empty,
          zero_stats,
          target,
        )
        (count_submissions pid calls fresh ∙ ground arith)
