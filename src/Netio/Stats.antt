-- ===== src/Netio/Stats.antt =====
-- `class Stats` of ebpf/netio_monitor.py.
use linuxtools.Base.{ℕ, ◌+◌, [], ◌++◌, Option, none, some, ◌==◌, if◌then◌else◌}
use linuxtools.Str.{Text, codes}
use linuxtools.Str.Number.{decimal}
use linuxtools.Dict.{Dict, lookup, insert}

-- `{'sent': …, 'recv': …}`
pub record Flow : Type 0 where
  pub sent : ℕ
  pub recv : ℕ

-- `addr_info`
pub record AddrInfo : Type 0 where
  pub saddr : Text
  pub sport : ℕ
  pub daddr : Text
  pub dport : ℕ

-- The attribute `start_time` is set to None and never read.
pub record Stats : Type 0 where
  pub total_sent : ℕ
  pub total_recv : ℕ
  pub send_count : ℕ
  pub recv_count : ℕ
  pub connections : Dict Flow

-- `Stats()`
abbrev pub fresh : Stats
fresh = record { total_sent = 0; total_recv = 0; send_count = 0; recv_count = 0; connections = [] }

-- `f"{saddr}:{sport} -> {daddr}:{dport}"`
unfoldable pub addr_key : AddrInfo → Text
addr_key a =
    a.saddr
    ++ (codes ":"
        ++ (decimal a.sport ++ (codes " -> " ++ (a.daddr ++ (codes ":" ++ decimal a.dport)))))

-- An entry of the `defaultdict`.
unfoldable pub flow : Text → Dict Flow → Flow
flow k d = elim (lookup k d) [ none ↦ record { sent = 0; recv = 0 } | some f ↦ f ]

-- `self.connections[key]['sent'] += n`, or `['recv']`
unfoldable pub add_flow : ℕ → ℕ → Text → Dict Flow → Dict Flow
add_flow direction n k d =
    let f = flow k d in
    insert k
      (if direction == 0 then record f { sent = f.sent + n } else record f { recv = f.recv + n }) d

-- `if addr_info: …`
unfoldable pub update_connections : ℕ → ℕ → Option AddrInfo → Dict Flow → Dict Flow
update_connections direction n none d = d
update_connections direction n (some a) d = add_flow direction n (addr_key a) d

unfoldable pub update : ℕ → ℕ → Option AddrInfo → Stats → Stats
update direction n addr s =
    let counted : Stats =
      if direction == 0
      then record s { total_sent = s.total_sent + n; send_count = s.send_count + 1 }
      else record s { total_recv = s.total_recv + n; recv_count = s.recv_count + 1 } in
    record counted { connections = update_connections direction n addr s.connections }
