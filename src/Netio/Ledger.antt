-- ===== src/Netio/Ledger.antt =====
-- The accounts of ebpf/netio_monitor.py over any interleaving of system calls, reads and losses.
use linuxtools.Base.{
  ℕ, ◌+◌, Bool, List, [], ◌∷◌, ◌++◌, Option, ◌≡◌, refl, ap, ◌∙◌, arith, ◌==◌, if◌then◌else◌,
}
use linuxtools.Str.{Text}
use linuxtools.Netio.Probe.{Data, Context, filled}
use linuxtools.Netio.Stats.{Stats, fresh}
use linuxtools.Netio.Event.{count_event}
use linuxtools.Netio.Monitor.{
  Syscall, return_probe, Bcc, Monitor, running, start, leave, poll, Step, returned, polled, lost,
  Reach, here, next,
}
use linuxtools.Netio.Totals.{
  Call, bytes_of, number_of, AllAttached, leave-eq, Healthy, return_probe-submitted, start-running,
  start-AllAttached,
}

-- The system calls that returned in a run, in order.
unfoldable pub calls_of : {m n : Monitor} → Reach m n → List Call
calls_of here = []
calls_of (next r (returned m c ctx)) = calls_of r ++ ((c, ctx) ∷ [])
calls_of (next r (polled m clock d q e)) = calls_of r
calls_of (next r (lost m d q e)) = calls_of r

-- The records that were lost.
unfoldable pub lost_of : {m n : Monitor} → Reach m n → List Data
lost_of here = []
lost_of (next r (returned m c ctx)) = lost_of r
lost_of (next r (polled m clock d q e)) = lost_of r
lost_of (next r (lost m d q e)) = lost_of r ++ (d ∷ [])

-- What is accounted for: the bytes or the number of operations, of the sends or of the receives.
pub record Account : Type 0 where
  pub in_bytes : Bool
  pub outward : Bool

abbrev pub total : Account → Stats → ℕ
total a s =
    if a.in_bytes
    then (if a.outward then s.total_sent else s.total_recv)
    else (if a.outward then s.send_count else s.recv_count)

abbrev pub amount : Account → Data → ℕ
amount a d =
    if d.direction == 0
    then (if a.outward then (if a.in_bytes then d.bytes else 1) else 0)
    else (if a.outward then 0 else (if a.in_bytes then d.bytes else 1))

-- What the records carry.
unfoldable pub held : Account → List Data → ℕ
held a [] = 0
held a (d ∷ ds) = amount a d + held a ds

-- What the system calls of the process `target` moved.
abbrev pub moved : Account → ℕ → List Call → ℕ
moved a target calls =
    if a.in_bytes then bytes_of target a.outward calls else number_of target a.outward calls

held-append : (a : Account) (ds es : List Data) → held a (ds ++ es) ≡ held a ds + held a es
unfolding held
held-append a [] es = omega arith
held-append a (d ∷ ds) es = omega (arith, held-append a ds es)

bytes_of-append :
    (target : ℕ) (out : Bool) (cs ds : List Call)
    → bytes_of target out (cs ++ ds) ≡ bytes_of target out cs + bytes_of target out ds
unfolding bytes_of
bytes_of-append target out [] ds = omega arith
bytes_of-append target out (c ∷ cs) ds = omega (arith, bytes_of-append target out cs ds)

number_of-append :
    (target : ℕ) (out : Bool) (cs ds : List Call)
    → number_of target out (cs ++ ds) ≡ number_of target out cs + number_of target out ds
unfolding number_of
number_of-append target out [] ds = omega arith
number_of-append target out (c ∷ cs) ds = omega (arith, number_of-append target out cs ds)

moved-append :
    (a : Account) (target : ℕ) (cs ds : List Call)
    → moved a target (cs ++ ds) ≡ moved a target cs + moved a target ds
moved-append a target cs ds =
    ground (arith, bytes_of-append target a.outward cs ds, number_of-append target a.outward cs ds)

-- A record counted.
total-count_event :
    (a : Account) (d : Data) (s : Stats) → total a (count_event d s) ≡ total a s + amount a d
unfolding count_event
total-count_event a d s = ground arith

-- What a probe submits.
held-submitted :
    (a : Account) (target : ℕ) (c : Syscall) (ctx : Context)
    → held a (return_probe c target ctx).submitted ≡ moved a target ((c, ctx) ∷ [])
unfolding held bytes_of number_of filled
held-submitted a target c ctx = rw (return_probe-submitted target ctx c) (ground arith)

-- No step changes the probes or the process.
Step-kept : {m n : Monitor} → Step m n → (n.probes ≡ m.probes) × (n.target ≡ m.target)
unfolding leave poll
Step-kept (returned m c ctx) = (ground arith, ground arith)
Step-kept (polled m clock d q e) = (refl, refl)
Step-kept (lost m d q e) = (refl, refl)

Reach-kept : {m n : Monitor} → Reach m n → (n.probes ≡ m.probes) × (n.target ≡ m.target)
Reach-kept here = (refl, refl)
Reach-kept (next r s) =
    let (probes, target) = Reach-kept r in
    let (probes', target') = Step-kept s in (probes' ∙ probes, target' ∙ target)

-- What the state accounts for: counted, or waiting.
abbrev pub booked : Account → Monitor → ℕ
booked a m = total a m.stats + held a m.queue

booked-leave :
    (a : Account) (c : Syscall) (ctx : Context) (m : Monitor)
    → AllAttached m
    → booked a (leave c ctx m) ≡ booked a m + moved a m.target ((c, ctx) ∷ [])
booked-leave a c ctx m h =
    ap (booked a) (leave-eq c ctx m h)
    ∙ omega (
      arith,
      held-append a m.queue (return_probe c m.target ctx).submitted,
      held-submitted a m.target c ctx,
    )

booked-poll :
    (a : Account) (clock : Text) (d : Data) (q : List Data) (m : Monitor)
    → m.queue ≡ d ∷ q
    → booked a (poll clock d q m) ≡ booked a m
unfolding poll held
booked-poll a clock d q m e = rw e (omega (arith, total-count_event a d m.stats))

booked-lost :
    (a : Account) (d : Data) (q : List Data) (m : Monitor)
    → m.queue ≡ d ∷ q
    → booked a (record m { queue = q }) + amount a d ≡ booked a m
unfolding held
booked-lost a d q m e = rw e (omega arith)

booked-Reach :
    (a : Account) {m n : Monitor} (r : Reach m n)
    → AllAttached m
    → booked a n + held a (lost_of r) ≡ booked a m + moved a m.target (calls_of r)
unfolding calls_of lost_of held bytes_of number_of
booked-Reach a here h = ground arith
booked-Reach a {m = m} (next r (returned t c ctx)) h =
    let (probes, target) = Reach-kept r in
    let attached : AllAttached t = rw probes h in
    omega (
      arith,
      booked-Reach a r h,
      booked-leave a c ctx t attached,
      ap (λ k. moved a k ((c, ctx) ∷ [])) target,
      moved-append a m.target (calls_of r) ((c, ctx) ∷ []),
    )
booked-Reach a (next r (polled t clock d q e)) h =
    omega (arith, booked-Reach a r h, booked-poll a clock d q t e)
booked-Reach a (next r (lost t d q e)) h =
    omega (arith, booked-Reach a r h, booked-lost a d q t e, held-append a (lost_of r) (d ∷ []))

total-fresh : (a : Account) → total a fresh ≡ 0
total-fresh a = ground arith

-- When all probes were attached, then in every state that the monitor can reach, in whatever order
-- system calls return, records are read and records are lost: what the statistics count, what waits
-- and what was lost add up to what the calls of the process moved that did not fail, in bytes and in
-- operations, for the sends and for the receives.
pub total-moved :
    (bcc : Bcc) (verbose : Bool) (pid euid : ℕ) (comm : Option Text) {m n : Monitor} (a : Account)
    (r : Reach m n)
    → Healthy bcc
    → start bcc verbose pid euid comm ≡ running m
    → total a n.stats + held a n.queue + held a (lost_of r) ≡ moved a pid (calls_of r)
unfolding held
total-moved bcc verbose pid euid comm {m} a r h e =
    let (_, empty, zero_stats, target) = start-running bcc verbose pid euid comm e in
    let begin : booked a m ≡ 0 = rw (empty, zero_stats) (omega (arith, total-fresh a)) in
    omega (
      arith,
      booked-Reach a r (start-AllAttached bcc verbose pid euid comm h e),
      begin,
      ap (λ k. moved a k (calls_of r)) target,
    )
