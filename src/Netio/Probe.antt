-- ===== src/Netio/Probe.antt =====
-- The BPF program of ebpf/netio_monitor.py: a kernel call enters or leaves a system call, and the
-- probe that hangs there prints to the trace pipe or submits a record.
use linuxtools.Base.{ℕ, Bool, List, [], ◌∷◌, not, ◌==◌, if◌then◌else◌}
use linuxtools.Str.{Text, codes}
use linuxtools.Netio.Word.{low32, high32, is_negative, ntohs}

-- `struct data_t`
pub record Data : Type 0 where
  pub pid : ℕ
  pub tid : ℕ
  pub comm : Text
  pub ts : ℕ
  pub saddr : ℕ
  pub daddr : ℕ
  pub sport : ℕ
  pub dport : ℕ
  pub bytes : ℕ
  pub protocol : ℕ
  pub direction : ℕ

-- `struct data_t data = {}`
abbrev pub zeroed : Data
zeroed = record {
  pid = 0;
  tid = 0;
  comm = [];
  ts = 0;
  saddr = 0;
  daddr = 0;
  sport = 0;
  dport = 0;
  bytes = 0;
  protocol = 0;
  direction = 0;
}

-- What the kernel's helpers return to a probe: the thread, its name, the clock, and the register
-- that holds the result of the system call.
pub record Context : Type 0 where
  pub pid_tgid : ℕ
  pub comm : Text
  pub ktime : ℕ
  pub rc : ℕ

-- The fields of a `struct sock` that `extract_sock_info` reads.
pub record Sock : Type 0 where
  pub family : ℕ
  pub rcv_saddr : ℕ
  pub daddr : ℕ
  pub num : ℕ
  pub dport : ℕ
  pub protocol : ℕ

-- What a probe does: it submits records, and prints `name: args`.
pub record Effects : Type 0 where
  pub submitted : List Data
  pub printed : List (Text × List ℕ)

abbrev pub nothing : Effects
nothing = record { submitted = []; printed = [] }

abbrev pub printk : Text → List ℕ → Effects
printk name args = record { submitted = []; printed = (name, args) ∷ [] }

-- `filter_pid`, with the number that Python puts in place of TARGET_PID.
unfoldable pub filter_pid : ℕ → Context → Bool
filter_pid target ctx = high32 ctx.pid_tgid == target

-- `AF_INET` is 2.
unfoldable pub extract_sock_info : Context → Sock → Data → ℕ → ℕ → Data
extract_sock_info ctx sk d direction bytes =
    let addressed : Data =
      if sk.family == 2
      then record d {
        saddr = sk.rcv_saddr;
        daddr = sk.daddr;
        sport = sk.num;
        dport = ntohs sk.dport;
        protocol = sk.protocol;
      }
      else d in
    record addressed {
      pid = high32 ctx.pid_tgid;
      tid = low32 ctx.pid_tgid;
      ts = ctx.ktime;
      bytes = bytes;
      direction = direction;
      comm = ctx.comm;
    }

-- The record that each return probe fills in.
unfoldable pub filled : Context → ℕ → Data
filled ctx direction = record zeroed {
  pid = high32 ctx.pid_tgid;
  tid = low32 ctx.pid_tgid;
  ts = ctx.ktime;
  bytes = low32 ctx.rc;
  direction = direction;
  comm = ctx.comm;
}

-- The body that the six return probes have in common.
unfoldable pub on_return : ℕ → ℕ → Context → Effects
unfolding filter_pid filled
on_return direction target ctx =
    if not (filter_pid target ctx)
    then nothing
    else if is_negative ctx.rc
    then nothing
    else record { submitted = filled ctx direction ∷ []; printed = [] }

unfoldable pub trace_sendto_entry : ℕ → Context → ℕ → ℕ → Effects
unfolding filter_pid
trace_sendto_entry target ctx fd len =
    if not (filter_pid target ctx) then nothing else printk (codes "sendto") (fd ∷ len ∷ [])

unfoldable pub trace_sendto_return : ℕ → Context → Effects
unfolding on_return
trace_sendto_return = on_return 0

unfoldable pub trace_recvfrom_entry : ℕ → Context → ℕ → ℕ → Effects
unfolding filter_pid
trace_recvfrom_entry target ctx fd len =
    if not (filter_pid target ctx) then nothing else printk (codes "recvfrom") (fd ∷ len ∷ [])

unfoldable pub trace_recvfrom_return : ℕ → Context → Effects
unfolding on_return
trace_recvfrom_return = on_return 1

unfoldable pub trace_sendmsg_entry : ℕ → Context → ℕ → Effects
unfolding filter_pid
trace_sendmsg_entry target ctx fd =
    if not (filter_pid target ctx) then nothing else printk (codes "sendmsg") (fd ∷ [])

unfoldable pub trace_sendmsg_return : ℕ → Context → Effects
unfolding on_return
trace_sendmsg_return = on_return 0

unfoldable pub trace_recvmsg_entry : ℕ → Context → ℕ → Effects
unfolding filter_pid
trace_recvmsg_entry target ctx fd =
    if not (filter_pid target ctx) then nothing else printk (codes "recvmsg") (fd ∷ [])

unfoldable pub trace_recvmsg_return : ℕ → Context → Effects
unfolding on_return
trace_recvmsg_return = on_return 1

unfoldable pub trace_write_entry : ℕ → Context → ℕ → ℕ → Effects
unfolding filter_pid
trace_write_entry target ctx fd count = if not (filter_pid target ctx) then nothing else nothing

unfoldable pub trace_write_return : ℕ → Context → Effects
unfolding on_return
trace_write_return = on_return 0

unfoldable pub trace_read_entry : ℕ → Context → ℕ → ℕ → Effects
unfolding filter_pid
trace_read_entry target ctx fd count = if not (filter_pid target ctx) then nothing else nothing

unfoldable pub trace_read_return : ℕ → Context → Effects
unfolding on_return
trace_read_return = on_return 1
