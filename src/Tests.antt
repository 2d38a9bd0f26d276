-- ===== src/Tests.antt =====
-- Runs of the code on concrete inputs, and an application of each theorem to one.
mod Data
mod Swarm
mod Verify
mod Sense
mod Peers
mod Search
mod Log
mod Release
mod Queue
mod Records
mod Round
mod Detect
