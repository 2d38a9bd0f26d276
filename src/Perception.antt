-- ===== src/Perception.antt =====
-- What a drone observed, and the gate between consensus and flight control.
pub mod Claim
pub mod Depth
pub mod Detector
pub mod Supervisor
