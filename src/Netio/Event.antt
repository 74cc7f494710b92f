-- ===== src/Netio/Event.antt =====
-- `inet_ntoa` and `print_event` of ebpf/netio_monitor.py.
use linuxtools.Base.{ℕ, ◌/◌, ◌%◌, ◌||◌, not, [], ◌∷◌, ◌++◌, Option, none, some, ◌==◌, if◌then◌else◌}
use linuxtools.Str.{Text, codes, join, ljust, rjust}
use linuxtools.Str.Number.{decimal}
use linuxtools.Netio.Probe.{Data}
use linuxtools.Netio.Stats.{Stats, AddrInfo, addr_key, update}

-- `socket.inet_ntoa(struct.pack("I", addr))` on a little-endian machine
unfoldable pub inet_ntoa : ℕ → Text
inet_ntoa addr = join (codes ".") (
    decimal (addr % 256)
    ∷ decimal (addr / 256 % 256)
    ∷ decimal (addr / 65536 % 256)
    ∷ decimal (addr / 16777216 % 256)
    ∷ [])

-- `addr_info`: None when both addresses are zero.
unfoldable pub addr_info : Data → Option AddrInfo
addr_info event =
    if not (event.saddr == 0) || not (event.daddr == 0)
    then some (record {
      saddr = inet_ntoa event.saddr;
      sport = event.sport;
      daddr = inet_ntoa event.daddr;
      dport = event.dport;
    })
    else none

unfoldable pub addr_str : Option AddrInfo → Text
addr_str none = codes "N/A"
addr_str (some a) = addr_key a

unfoldable pub direction_str : ℕ → Text
direction_str direction = if direction == 0 then codes "SEND" else codes "RECV"

-- The printed line, at the time `clock`. The name is what `comm.decode` returns.
unfoldable pub event_line : Text → Data → Text
unfolding addr_info addr_str direction_str
event_line clock event =
    clock
    ++ (codes " "
        ++ (ljust 4 (direction_str event.direction)
            ++ (codes " "
                ++ (rjust 6 (decimal event.pid)
                    ++ (codes " "
                        ++ (ljust 16 event.comm
                            ++ (codes " "
                                ++ (rjust 8 (decimal event.bytes)
                                    ++ (codes " bytes  " ++ addr_str (addr_info event))))))))))

-- The statistics after the callback.
unfoldable pub count_event : Data → Stats → Stats
unfolding addr_info update
count_event event s = update event.direction event.bytes (addr_info event) s

-- The callback: it counts the record and prints a line.
unfoldable pub print_event : Text → Data → Stats → Stats × Text
unfolding count_event event_line
print_event clock event s = (count_event event s, event_line clock event)
