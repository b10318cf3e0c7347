-- ===== src/Tests.antt =====
-- The theorems at concrete inputs, and runs of the definitions.
mod Checksums
mod Packets
mod Names
mod Loading
mod Recovering
mod Repairing
mod Scanning
mod Planning
