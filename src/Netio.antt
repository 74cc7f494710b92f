-- ===== src/Netio.antt =====
-- ebpf/netio_monitor.py: the probes of the embedded BPF program, the statistics, the callback of the
-- perf buffer, and what `main` attaches.
pub mod Word
pub mod Probe
pub mod Stats
pub mod Summary
pub mod Event
pub mod Monitor
pub mod Invariant
pub mod Totals
pub mod Flows
pub mod Ledger
