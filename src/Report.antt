-- ===== src/Report.antt =====
-- VMM_Hygine_Report.py: the system report, in text, HTML, JSON or CSV.
pub mod Machine
pub mod Pci
pub mod Dump
pub mod Generate
pub mod Sections
pub mod Drvinfo
pub mod System
pub mod Printer
pub mod Tabulate
pub mod Table
pub mod Output
pub mod Html
