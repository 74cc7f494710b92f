-- ===== src/Netio/Flows.antt =====
-- `Stats.update` on records with addresses: the table of connections agrees with the totals, and
-- holds for each connection what the records of it carry.
use linuxtools.Base.{
  ◌&&◌, not, ℕ, ◌+◌, List, [], ◌∷◌, some, ◌≡◌, refl, arith, Bool-cases, inl, inr, ◌==◌,
  if◌then◌else◌,
}
use linuxtools.Str.{Text, eqb}
use linuxtools.Dict.{Dict, lookup, insert, NodupKeys, insert-NodupKeys}
use linuxtools.Netio.Stats.{
  Stats, Flow, AddrInfo, fresh, flow, add_flow, addr_key, update_connections, update,
}

-- The bytes of all connections.
pub sum_sent : Dict Flow → ℕ
sum_sent [] = 0
sum_sent ((_, f) ∷ d) = f.sent + sum_sent d

pub sum_recv : Dict Flow → ℕ
sum_recv [] = 0
sum_recv ((_, f) ∷ d) = f.recv + sum_recv d

-- Writing an entry replaces what it held.
sum_sent-insert :
    (k : Text) (f : Flow) (d : Dict Flow)
    → sum_sent (insert k f d) + (flow k d).sent ≡ sum_sent d + f.sent
unfolding sum_sent insert flow lookup
sum_sent-insert k f [] = omega arith
sum_sent-insert k f ((j, g) ∷ d) = ground (arith, sum_sent-insert k f d)

sum_recv-insert :
    (k : Text) (f : Flow) (d : Dict Flow)
    → sum_recv (insert k f d) + (flow k d).recv ≡ sum_recv d + f.recv
unfolding sum_recv insert flow lookup
sum_recv-insert k f [] = omega arith
sum_recv-insert k f ((j, g) ∷ d) = ground (arith, sum_recv-insert k f d)

-- An update, as the callback makes it.
pub record Update : Type 0 where
  pub direction : ℕ
  pub count : ℕ
  pub addr : AddrInfo

unfoldable pub update_all : List Update → Stats → Stats
update_all [] s = s
update_all (u ∷ us) s = update_all us (update u.direction u.count (some u.addr) s)

-- The table accounts for every byte counted, and lists no connection twice.
pub record IsBalanced (s : Stats) : Type 0 where
  pub sent : s.total_sent ≡ sum_sent s.connections
  pub recv : s.total_recv ≡ sum_recv s.connections
  pub nodup : NodupKeys s.connections

sum_sent-add_flow :
    (direction n : ℕ) (k : Text) (d : Dict Flow)
    → sum_sent (add_flow direction n k d) ≡ sum_sent d + (if direction == 0 then n else 0)
unfolding add_flow
sum_sent-add_flow direction n k d = elim (Bool-cases (direction == 0)) [
  | inl out ↦ rw out (
      omega (
        arith,
        sum_sent-insert k (record { sent = (flow k d).sent + n; recv = (flow k d).recv }) d,
      ))
  | inr back ↦ rw back (
      omega (
        arith,
        sum_sent-insert k (record { sent = (flow k d).sent; recv = (flow k d).recv + n }) d,
      ))
]

sum_recv-add_flow :
    (direction n : ℕ) (k : Text) (d : Dict Flow)
    → sum_recv (add_flow direction n k d) ≡ sum_recv d + (if direction == 0 then 0 else n)
unfolding add_flow
sum_recv-add_flow direction n k d = elim (Bool-cases (direction == 0)) [
  | inl out ↦ rw out (
      omega (
        arith,
        sum_recv-insert k (record { sent = (flow k d).sent + n; recv = (flow k d).recv }) d,
      ))
  | inr back ↦ rw back (
      omega (
        arith,
        sum_recv-insert k (record { sent = (flow k d).sent; recv = (flow k d).recv + n }) d,
      ))
]

update-IsBalanced :
    (u : Update) (s : Stats)
    → IsBalanced s
    → IsBalanced (update u.direction u.count (some u.addr) s)
unfolding update update_connections
update-IsBalanced u s b = record {
  sent = ground (arith, sum_sent-add_flow u.direction u.count (addr_key u.addr) s.connections);
  recv = ground (arith, sum_recv-add_flow u.direction u.count (addr_key u.addr) s.connections);
  nodup = unfold add_flow in insert-NodupKeys (addr_key u.addr) _ s.connections b.nodup;
}

update_all-IsBalanced_from :
    (us : List Update) (s : Stats) → IsBalanced s → IsBalanced (update_all us s)
unfolding update_all
update_all-IsBalanced_from [] s b = b
update_all-IsBalanced_from (u ∷ us) s b = update_all-IsBalanced_from us _ (update-IsBalanced u s b)

fresh-IsBalanced : IsBalanced fresh
unfolding sum_sent sum_recv
fresh-IsBalanced = record { sent = refl; recv = refl; nodup = tt }

-- After any updates that each carry addresses, whatever their direction, the bytes of all connections
-- add up to the two totals, and each connection has one entry.
pub update_all-IsBalanced : (us : List Update) → IsBalanced (update_all us fresh)
update_all-IsBalanced us = update_all-IsBalanced_from us fresh fresh-IsBalanced

-- The bytes that the updates of one connection carry, in one direction.
unfoldable pub sent_on : Text → List Update → ℕ
sent_on k [] = 0
sent_on k (u ∷ us) =
    (if eqb (addr_key u.addr) k && u.direction == 0 then u.count else 0) + sent_on k us

unfoldable pub recv_on : Text → List Update → ℕ
recv_on k [] = 0
recv_on k (u ∷ us) =
    (if eqb (addr_key u.addr) k && not (u.direction == 0) then u.count else 0) + recv_on k us
