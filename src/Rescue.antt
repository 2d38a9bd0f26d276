-- ===== src/Rescue.antt =====
-- codebase/rescue: the movement contract of the search.
pub mod Movement
pub mod Bridge
pub mod Gate
pub mod Outbox
pub mod Collector
