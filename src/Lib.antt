-- ===== src/Lib.antt =====
-- VeriSwarm flight protocol: signed perception receipts, peer consensus over them, and the gate that
-- releases a flight command. The program is codebase/ of the repository, in Python.
--
-- How the parts interact. A drone summarises what it sees in a claim (codebase/perception/claim.py)
-- and signs it with its command in a receipt (codebase/protocol/receipts.py). Each peer checks the
-- receipt with a `ReceiptVerifier` and answers with a signed vote; a `ConsensusEngine` tallies the
-- votes (codebase/protocol/peer_consensus.py), and an `IsolationTracker` takes drones off the roster
-- whose receipts are rejected too often. A `SafetySupervisor` releases the command
-- (codebase/perception/safety_supervisor.py) on an accepted tally, the receipt, its own health
-- inputs, and a measured clearance (codebase/perception/depth_check.py). In the search of
-- codebase/rescue/movement_security.py, vehicles move on fresh authorizations and within the limits of
-- a contract, and the cells of a lost vehicle go to the healthy ones. A positive observation is labelled
-- by the tally behind it (codebase/rescue/security_bridge.py), its event waits in a queue until the
-- collector confirms it (codebase/rescue/outbox.py and codebase/rescue/collector.py), and what the swarm
-- decides is appended to a log whose records form a hash chain (codebase/node/events.py). One round of
-- a drone, from the frame to the command, is a step of codebase/node/mission.py.
--
-- Which file models which part:
--   Base                  Python's integers, sets, dictionaries, texts and floats; checks that raise
--   Perception/Claim      `PerceptionClaim`: `__post_init__` is `construct_claim`; `claims_agree`
--   Perception/Depth      `required_clearance`, `check_free_space`
--   Perception/Detector   `_clip` is `clip`; `detections_to_action`, `frame_to_perception`; and
--                         `from_detections` and `PerceptionResult` of codebase/perception/claim.py
--   Perception/Supervisor `SafetySupervisor`: `_action` is `action_of`; `authorize`
--   Protocol/Json         JSON values, and the code outside the repository as the record `Library`
--   Protocol/Receipt      `Receipt`, `SignedReceipt`, `canonical`, `receipt_digest`
--   Protocol/Verifier     `ReceiptVerifier`: `__init__` is `init_verifier`; `verify`
--   Protocol/Vote         `PeerVote`, `SignedVote`, `VoteVerifier.verify` is `verify_vote`
--   Protocol/Peer         `outputs_agree`, `PeerVerifier`: `_co_visible` is `co_visible`
--   Protocol/Peer/Voting  `vote_on`, `_build_signed_vote`
--   Protocol/Consensus    `quorum_thresholds`, `ConsensusResult`, `ReputationStore`
--   Protocol/Consensus/Tally  `ConsensusEngine.tally`
--   Protocol/Isolation    `fallback_action`, `IsolationTracker`: `record` is `record_outcome`
--   Rescue/Movement       `resolve_authorization`, `reassign_unfinished_cells` of
--                         codebase/rescue/movement_security.py
--   Rescue/Gate           `_command_limit_failure` is `command_limit_failure`;
--                         `evaluate_movement_command`
--   Rescue/Bridge         `assess_consensus_security`
--   Rescue/Outbox         the tables of `RescueOutbox`, `enqueue`; in Outbox/Flush `_post_event` is a
--                         parameter, the loop over the retries `attempt`; `flush`
--   Rescue/Collector      `RescueCollector`: `__init__` is `init_collector`, `_restore` is `restore`,
--                         `collect` is `collect_event`
--   Node/Events           `EventLog`: `__init__` is `open_log`; `emit`, `verify_event_chain`;
--                         in Events/Writers several writers in turn
--   Node/Mission          `MissionRunner`: `step` is `step_round`, `_hold` is `hold_round`
--   Tests                 concrete runs
--
-- How it is modelled. State is a record that an operation takes and returns. An exception is the
-- constructor `raise` of `Result`. A `__post_init__` is a list of tests with messages, in the source's
-- order, and `check_all` raises at the first that applies; a test of a Python type is left to the
-- types here. Sets are lists without repetition, dictionaries association lists in insertion order.
-- Integers are exact, as in Python, and counts are natural numbers. Floats are a type `F` with the
-- operations that the code uses, none of whose laws is assumed unless a theorem says so. The clock is
-- an argument. Every loop runs over a list, or over the number of events or retries that its arguments
-- allow, and is structural recursion, so no fuel is needed. The event log is the list of its lines as
-- they are read back, and whether the last one has its newline: a write may be refused or cut off. A
-- record is read back as it was written; each table of the outbox is a list
-- of rows.
--
-- Outside the repository, and parameters here: the boxes of the detector, JSON printing, SHA-256,
-- Ed25519, the matching of images and the replies of the network. Not modelled: serialisation to and
-- from the wire, the co-visibility geometry (a parameter, as the record `Senses`), the validation of rescue events and of the movement
-- contract, the projection of the collected events (an interface, the record `Projection`), the loop
-- over the mission's steps, gRPC and threads, the detector's model, the simulators and the dashboard.
pub mod Base
pub mod Perception
pub mod Protocol
pub mod Node
pub mod Rescue
mod Tests
