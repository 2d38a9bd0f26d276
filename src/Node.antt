-- ===== src/Node.antt =====
-- codebase/node: the event log and the mission loop.
pub mod Events
pub mod Mission
