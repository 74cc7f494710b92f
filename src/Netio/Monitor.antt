-- ===== src/Netio/Monitor.antt =====
-- `main` of ebpf/netio_monitor.py: its checks, the probes that it attaches, and the monitor that
-- then runs, as a state with one step for each thing that can happen.
use linuxtools.Base.{
  ℕ, Bool, true, false, ◌||◌, List, [], ◌∷◌, ◌++◌, Option, none, some, ◌≡◌, if◌then◌else◌, not,
  ◌==◌, replicate,
}
use linuxtools.Str.{Text, codes, ljust}
use linuxtools.Str.Number.{decimal}
use linuxtools.Netio.Probe.{
  Data, Context, Effects, trace_sendto_return, trace_recvfrom_return, trace_sendmsg_return,
  trace_recvmsg_return, trace_write_return, trace_read_return, trace_sendto_entry,
  trace_recvfrom_entry, trace_sendmsg_entry, trace_recvmsg_entry, trace_write_entry,
  trace_read_entry,
}
use linuxtools.Netio.Stats.{Stats, fresh}
use linuxtools.Netio.Summary.{print_summary}
use linuxtools.Netio.Event.{count_event, event_line}

pub data Syscall : Type 0 where
  sendto recvfrom sendmsg recvmsg write read : Syscall

-- The table `syscalls`, in its order.
abbrev pub syscalls : List Syscall
syscalls = sendto ∷ recvfrom ∷ sendmsg ∷ recvmsg ∷ write ∷ read ∷ []

abbrev pub name_of : Syscall → Text
name_of sendto = codes "sendto"
name_of recvfrom = codes "recvfrom"
name_of sendmsg = codes "sendmsg"
name_of recvmsg = codes "recvmsg"
name_of write = codes "write"
name_of read = codes "read"

abbrev pub same : Syscall → Syscall → Bool
same sendto sendto = true
same recvfrom recvfrom = true
same sendmsg sendmsg = true
same recvmsg recvmsg = true
same write write = true
same read read = true
same _ _ = false

abbrev pub contains : List Syscall → Syscall → Bool
contains [] c = false
contains (x ∷ xs) c = same x c || contains xs c

-- The second and third columns of the table.
unfoldable pub return_probe : Syscall → ℕ → Context → Effects
unfolding trace_sendto_return trace_recvfrom_return trace_sendmsg_return trace_recvmsg_return
    trace_write_return trace_read_return
return_probe sendto = trace_sendto_return
return_probe recvfrom = trace_recvfrom_return
return_probe sendmsg = trace_sendmsg_return
return_probe recvmsg = trace_recvmsg_return
return_probe write = trace_write_return
return_probe read = trace_read_return

unfoldable pub entry_probe : Syscall → ℕ → Context → ℕ → ℕ → Effects
entry_probe sendto target ctx a b = trace_sendto_entry target ctx a b
entry_probe recvfrom target ctx a b = trace_recvfrom_entry target ctx a b
entry_probe sendmsg target ctx a b = trace_sendmsg_entry target ctx a
entry_probe recvmsg target ctx a b = trace_recvmsg_entry target ctx a
entry_probe write target ctx a b = trace_write_entry target ctx a b
entry_probe read target ctx a b = trace_read_entry target ctx a b

-- What the bcc library answers, to the loading of the program and to each call that attaches: None, or
-- the exception's text.
pub record Bcc : Type 0 where
  pub load : Option Text
  pub attach_kprobe : Syscall → Option Text
  pub attach_kretprobe : Syscall → Option Text

-- The attached probes, and the lines printed while attaching.
pub record Probes : Type 0 where
  pub entries : List Syscall
  pub returns : List Syscall
  pub lines : List Text

abbrev warning : Syscall → Text → Text
warning c e = codes "Warning: Could not attach to " ++ (name_of c ++ (codes ": " ++ e))

-- One round of the loop over `syscalls`. A failed second call leaves the first probe attached.
unfoldable pub attach : Bcc → Bool → Syscall → Probes → Probes
attach bcc verbose c p = elim (bcc.attach_kprobe c) [
  | some e ↦ record p { lines = p.lines ++ (warning c e ∷ []) }
  | none ↦ elim (bcc.attach_kretprobe c) [
    | some e ↦ record p { entries = p.entries ++ (c ∷ []); lines = p.lines ++ (warning c e ∷ []) }
    | none ↦ record {
      entries = p.entries ++ (c ∷ []);
      returns = p.returns ++ (c ∷ []);
      lines = p.lines ++ (if verbose then (codes "Attached probes to " ++ name_of c) ∷ [] else []);
    }
  ]
]

unfoldable pub attach_all : Bcc → Bool → List Syscall → Probes → Probes
unfolding attach
attach_all bcc verbose [] p = p
attach_all bcc verbose (c ∷ cs) p = attach_all bcc verbose cs (attach bcc verbose c p)

-- The running monitor: what was printed before the loop, what the probes have submitted and Python has not read, the statistics, and
-- the lines printed for the records.
pub record Monitor : Type 0 where
  pub target : ℕ
  pub heading : List Text
  pub probes : Probes
  pub queue : List Data
  pub stats : Stats
  pub out : List Text

-- `main` exits before the loop, an exception ends it, with what it printed, or the loop begins.
pub data Started : Type 0 where
  exited : ℕ → Text → Started
  raised : List Text → Text → Started
  running : Monitor → Started

abbrev pub monitoring : ℕ → Text → Text
monitoring pid name =
    codes "Monitoring network I/O for PID " ++ (decimal pid ++ (codes " (" ++ (name ++ codes ")")))

abbrev pub rule : Text
rule = replicate 80 b'='

-- The table's head, behind an empty line.
abbrev pub header : List Text
header =
    []
    ∷ rule
    ∷ (ljust 8 (codes "TIME")
        ++ (codes " "
            ++ (ljust 4 (codes "DIR")
                ++ (codes " "
                    ++ (ljust 6 (codes "PID")
                        ++ (codes " "
                            ++ (ljust 16 (codes "COMM")
                                ++ (codes " "
                                    ++ (ljust 8 (codes "BYTES") ++ codes "  CONNECTION")))))))))
    ∷ rule
    ∷ []

abbrev pub unattached : Probes
unattached = record { entries = []; returns = []; lines = [] }

-- The state in which the loop begins.
unfoldable pub monitor_of : ℕ → Text → Probes → Monitor
monitor_of pid name probes = record {
  target = pid;
  heading = monitoring pid name ∷ (probes.lines ++ header);
  probes = probes;
  queue = [];
  stats = fresh;
  out = [];
}

-- `main` up to the polling loop: `euid` is the user, `comm` the text of `/proc/<pid>/comm`, stripped.
unfoldable pub start : Bcc → Bool → ℕ → ℕ → Option Text → Started
unfolding attach_all monitor_of
start bcc verbose pid euid comm =
    if not (euid == 0)
    then exited 1 (codes "Error: This program must be run as root (use sudo)")
    else elim comm [
      | none ↦ exited 1 (codes "Error: Process with PID " ++ (decimal pid ++ codes " not found"))
      | some name ↦ elim bcc.load [
        | some e ↦ raised (monitoring pid name ∷ []) e
        | none ↦ running (monitor_of pid name (attach_all bcc verbose syscalls unattached))
      ]
    ]

-- A system call returns on some processor.
unfoldable pub leave : Syscall → Context → Monitor → Monitor
leave c ctx m =
    if contains m.probes.returns c
    then record m { queue = m.queue ++ (return_probe c m.target ctx).submitted }
    else m

-- `perf_buffer_poll` hands the record `d` to `print_event`, and `q` stays queued.
unfoldable pub poll : Text → Data → List Data → Monitor → Monitor
poll clock d q m = record m {
  queue = q;
  stats = count_event d m.stats;
  out = m.out ++ (event_line clock d ∷ []);
}

-- `signal_handler`: the summary behind the message, whose two `\n` begin lines, and the status.
unfoldable pub signal_handler : Monitor → List Text × ℕ
signal_handler m = ([] ∷ [] ∷ codes "Interrupted by user" ∷ print_summary m.stats, 0)

pub data Step : Monitor → Monitor → Type 0 where
  returned : (m : Monitor) (c : Syscall) (ctx : Context) → Step m (leave c ctx m)
  polled :
      (m : Monitor) (clock : Text) (d : Data) (q : List Data)
      → m.queue ≡ d ∷ q
      → Step m (poll clock d q m)
  -- A full ring drops a record.
  lost :
      (m : Monitor) (d : Data) (q : List Data) → m.queue ≡ d ∷ q → Step m (record m { queue = q })

pub data Reach (s : Monitor) : Monitor → Type 0 where
  here : Reach s s
  next : {t u : Monitor} → Reach s t → Step t u → Reach s u
