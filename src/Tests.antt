-- ===== src/Tests.antt =====
-- Runs of the model on small inputs, and the theorems at concrete inputs.
mod Netio
mod Scripts
mod Report
mod Network
mod Devices
mod Traffic
mod Plots
mod Json
mod Bench
mod Packets
mod Latency
