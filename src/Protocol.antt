-- ===== src/Protocol.antt =====
-- Signed receipts, votes on them, and the decisions of the swarm.
pub mod Json
pub mod Receipt
pub mod Verifier
pub mod Vote
pub mod Consensus
pub mod Isolation
pub mod Peer
