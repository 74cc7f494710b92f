-- ===== src/Netio/Summary.antt =====
-- `Stats.print_summary` of ebpf/netio_monitor.py, with the number formats `:,` and `:.2f`.
use linuxtools.Base.{
  ℕ, ◌+◌, ◌*◌, ◌/◌, ◌%◌, List, [], ◌∷◌, ◌++◌, ◌||◌, ltb, ◌==◌, if◌then◌else◌, replicate,
}
use linuxtools.Str.{Text, codes}
use linuxtools.Str.Number.{decimal, grouped}
use linuxtools.Dict.{Dict}
use linuxtools.Netio.Stats.{Stats, Flow}

-- `f"{x / 1024:.2f}"`: hundredths, a half goes to the even one. For x below 2 ^ 53 the float
-- x / 1024 is exact, and so is this.
unfoldable pub hundredths : ℕ → ℕ
hundredths x =
    let q = x * 25 / 256 in
    let r = x * 25 % 256 in if ltb r 128 then q else if r == 128 then q + q % 2 else q + 1

unfoldable pub kilobytes : ℕ → Text
unfolding hundredths
kilobytes x =
    let h = hundredths x in
    decimal (h / 100) ++ (codes "." ++ ((b'0' + h % 100 / 10) ∷ (b'0' + h % 10) ∷ []))

abbrev rule : ℕ → Text
rule c = replicate 80 c

-- One connection, unless both counters are zero.
unfoldable pub flow_lines : Text → Flow → List Text
flow_lines conn f =
    if ltb 0 f.sent || ltb 0 f.recv
    then conn
      ∷ (codes "  Sent: "
          ++ (grouped f.sent ++ (codes " bytes, Recv: " ++ (grouped f.recv ++ codes " bytes"))))
      ∷ []
    else []

unfoldable pub connection_lines : Dict Flow → List Text
unfolding flow_lines
connection_lines [] = []
connection_lines ((conn, f) ∷ d) = flow_lines conn f ++ connection_lines d

-- The lines that `print_summary` prints; a `\n` inside a call begins a line.
unfoldable pub print_summary : Stats → List Text
unfolding connection_lines kilobytes grouped
print_summary s =
    []
    ∷ rule b'='
    ∷ codes "SUMMARY STATISTICS"
    ∷ rule b'='
    ∷ (codes "Total Bytes Sent:     "
        ++ (grouped s.total_sent ++ (codes " bytes (" ++ (kilobytes s.total_sent ++ codes " KB)"))))
    ∷ (codes "Total Bytes Received: "
        ++ (grouped s.total_recv ++ (codes " bytes (" ++ (kilobytes s.total_recv ++ codes " KB)"))))
    ∷ (codes "Send Operations:      " ++ grouped s.send_count)
    ∷ (codes "Receive Operations:   " ++ grouped s.recv_count)
    ∷ []
    ∷ codes "Per-Connection Statistics:"
    ∷ rule b'-'
    ∷ connection_lines s.connections
