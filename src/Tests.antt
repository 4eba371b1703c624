-- ===== src/Tests.antt =====
-- The theorems at concrete inputs.
mod Machine
mod Examples
mod Scans
