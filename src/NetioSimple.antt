-- ===== src/NetioSimple.antt =====
-- ebpf/netio_monitor_simple.py: the two probes, the callback with its four globals, the summary and
-- the start of `main`.
pub mod Laws
use linuxtools.Base.{
  ℕ, ◌+◌, ◌≡◌, Bool, true, false, ◌||◌, not, List, [], ◌∷◌, ◌++◌, Option, none, some, ◌==◌,
  if◌then◌else◌, replicate,
}
use linuxtools.Str.{Text, codes, ljust, rjust}
use linuxtools.Str.Number.{decimal, grouped}
use linuxtools.Netio.Word.{low32, high32, is_negative}
use linuxtools.Netio.Probe.{Context}
use linuxtools.Netio.Summary.{kilobytes}

-- `struct data_t`
pub record Data : Type 0 where
  pub pid : ℕ
  pub comm : Text
  pub bytes : ℕ
  pub direction : ℕ

unfoldable pub filter_pid : ℕ → Context → Bool
filter_pid target ctx = high32 ctx.pid_tgid == target

-- The body that the two return probes have in common; `ret <= 0` leaves.
unfoldable pub on_return : ℕ → ℕ → Context → List Data
unfolding filter_pid
on_return direction target ctx =
    if not (filter_pid target ctx)
    then []
    else if is_negative ctx.rc || low32 ctx.rc == 0
    then []
    else record {
      pid = high32 ctx.pid_tgid;
      comm = ctx.comm;
      bytes = low32 ctx.rc;
      direction = direction;
    }
      ∷ []

unfoldable pub trace_write_return : ℕ → Context → List Data
unfolding on_return
trace_write_return = on_return 0

unfoldable pub trace_read_return : ℕ → Context → List Data
unfolding on_return
trace_read_return = on_return 1

-- The globals.
pub record Globals : Type 0 where
  pub total_write : ℕ
  pub total_read : ℕ
  pub write_count : ℕ
  pub read_count : ℕ

abbrev pub zero_globals : Globals
zero_globals = record { total_write = 0; total_read = 0; write_count = 0; read_count = 0 }

unfoldable pub count_event : Data → Globals → Globals
count_event event g =
    if event.direction == 0
    then record g { total_write = g.total_write + event.bytes; write_count = g.write_count + 1 }
    else record g { total_read = g.total_read + event.bytes; read_count = g.read_count + 1 }

unfoldable pub event_line : Data → Text
event_line event =
    ljust 5 (if event.direction == 0 then codes "WRITE" else codes "READ")
    ++ (codes " "
        ++ (rjust 6 (decimal event.pid)
            ++ (codes " "
                ++ (ljust 16 event.comm
                    ++ (codes " " ++ (rjust 8 (decimal event.bytes) ++ codes " bytes"))))))

-- The callback: the globals after it, and the line that it prints.
unfoldable pub print_event : Data → Globals → Globals × Text
unfolding count_event event_line
print_event event g = (count_event event g, event_line event)

-- `signal_handler` prints these lines and exits with status 0.
unfoldable pub summary_lines : Globals → List Text
unfolding kilobytes grouped
summary_lines g =
    []
    ∷ []
    ∷ replicate 60 b'='
    ∷ codes "SUMMARY"
    ∷ replicate 60 b'='
    ∷ (codes "Total Bytes Written: "
        ++ (grouped g.total_write
            ++ (codes " bytes (" ++ (kilobytes g.total_write ++ codes " KB)"))))
    ∷ (codes "Total Bytes Read:    "
        ++ (grouped g.total_read ++ (codes " bytes (" ++ (kilobytes g.total_read ++ codes " KB)"))))
    ∷ (codes "Write Operations:    " ++ grouped g.write_count)
    ∷ (codes "Read Operations:     " ++ grouped g.read_count)
    ∷ []

-- What the bcc library answers: None, or the text of the exception.
pub record Bcc : Type 0 where
  pub load : Option Text
  pub attach_write : Option Text
  pub attach_read : Option Text

pub data Started : Type 0 where
  exited : ℕ → List Text → Started
  running : List Text → Started

abbrev rule : Text
rule = replicate 60 b'='

-- What is printed before the loop.
abbrev pub header : List Text
header =
    []
    ∷ rule
    ∷ (ljust 5 (codes "DIR")
        ++ (codes " "
            ++ (ljust 6 (codes "PID")
                ++ (codes " "
                    ++ (ljust 16 (codes "COMM") ++ (codes " " ++ ljust 8 (codes "BYTES")))))))
    ∷ rule
    ∷ codes "Monitoring... Press Ctrl+C to stop"
    ∷ []
    ∷ []

-- The block that attaches the probes, after the lines `before`.
unfoldable pub attach : Bcc → List Text → Started
attach bcc before = elim bcc.attach_write [
  | some e ↦ exited 1 (before ++ ((codes "Error attaching probes: " ++ e) ∷ []))
  | none ↦ elim bcc.attach_read [
    | some e ↦ exited 1 (
        before
        ++ (codes "  Attached to write syscall" ∷ (codes "Error attaching probes: " ++ e) ∷ []))
    | none ↦ running (
        before
        ++ (codes "  Attached to write syscall" ∷ codes "  Attached to read syscall" ∷ header))
  ]
]

-- `main` up to the loop, for the user `euid` and the text of `/proc/<pid>/comm`, stripped.
unfoldable pub start : Bcc → ℕ → ℕ → Option Text → Started
unfolding attach
start bcc pid euid comm =
    if not (euid == 0)
    then exited 1 (codes "Error: This program must be run as root (use sudo)" ∷ [])
    else elim comm [
      | none ↦
          exited 1 ((codes "Error: Process with PID " ++ (decimal pid ++ codes " not found")) ∷ [])
      | some name ↦
          let first =
            (codes "Monitoring I/O for PID "
              ++ (decimal pid ++ (codes " (" ++ (name ++ codes ")"))))
            ∷ codes "Loading BPF program..."
            ∷ [] in
          elim bcc.load [
            | some e ↦ exited 1 (first ++ ((codes "Error loading BPF program: " ++ e) ∷ []))
            | none ↦ attach bcc (
                first
                ++ (codes "BPF program loaded successfully" ∷ codes "Attaching probes..." ∷ []))
          ]
    ]
