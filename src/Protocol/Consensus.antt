-- ===== src/Protocol/Consensus.antt =====
-- codebase/protocol/peer_consensus.py: thresholds, `ConsensusResult`, `ReputationStore` and the
-- tally of `ConsensusEngine`.
pub mod Tally
pub mod Ballot
pub mod Sole
pub mod Cast
pub mod Count
pub mod Agreement
pub mod Safety
pub mod Order
use veri_swarm_flight.Base.{
  ℕ, ◌+◌, ◌-◌, ◌*◌, ◌/◌, ◌≡◌, Bool, true, false, not, ◌&&◌, ◌||◌, Option, none, some, List, [], ◌∷◌,
  String, string_eq, ◌==◌, ◌!=◌, if◌then◌else◌, Result, ok, raise, value_error, ◌>>◌, ◌>>=◌,
  check_all, length, leb, ltb, eqb,
}
use veri_swarm_flight.Base.Sets.{member, add, discard, of_list, subset, disjoint}
use veri_swarm_flight.Base.Dict.{Dict, get, get_or, set_item, delete}
use veri_swarm_flight.Base.Text.{concat, decimal, is_hex_text}
use veri_swarm_flight.Base.Floats.{Floats, float}
use veri_swarm_flight.Protocol.Json.{Library}
use veri_swarm_flight.Protocol.Receipt.{Receipt, receipt_digest}
use veri_swarm_flight.Protocol.Vote.{
  Vote, ack, dispute, vote_beq, PeerVote, SignedVote, peer_vote_eq, verify_vote, reason_ok,
}

pub data Outcome : Type 0 where
  was_accepted was_rejected no_quorum : Outcome

pub record ConsensusResult : Type 0 where
  pub outcome : Outcome
  pub ack_count : ℕ
  pub dispute_count : ℕ
  pub missing_count : ℕ
  pub ack_threshold : ℕ
  pub dispute_threshold : ℕ
  pub reason : String
  pub ack_voter_ids : List String
  pub dispute_voter_ids : List String
  pub semantic_ack_count : ℕ
  pub semantic_voter_ids : List String
  pub equivocation_voter_ids : List String
  pub target_receipt_hash : String

abbrev pub is_accepted : Outcome → Bool
is_accepted was_accepted = true
is_accepted was_rejected = false
is_accepted no_quorum = false

abbrev pub is_rejected : Outcome → Bool
is_rejected was_accepted = false
is_rejected was_rejected = true
is_rejected no_quorum = false

-- The checks of `ConsensusResult.__post_init__`. That counts are not negative holds by their type.
unfoldable pub result_checks : ConsensusResult → List (Bool × String)
result_checks r =
    (ltb r.ack_threshold 1 || ltb r.dispute_threshold 1, "consensus thresholds must be positive")
    ∷ (ltb r.ack_count r.semantic_ack_count, "semantic_ack_count cannot exceed ack_count")
    ∷ (
      is_accepted r.outcome && ltb r.ack_count r.ack_threshold,
      "ACCEPTED result is below ACK threshold",
    )
    ∷ (
      is_rejected r.outcome && ltb r.dispute_count r.dispute_threshold,
      "REJECTED result is below DISPUTE threshold",
    )
    ∷ (not (subset r.semantic_voter_ids r.ack_voter_ids), "semantic voters must be ACK voters")
    ∷ (not (disjoint r.ack_voter_ids r.dispute_voter_ids), "a voter cannot count on both sides")
    ∷ (
      not (disjoint r.equivocation_voter_ids r.ack_voter_ids)
          || not (disjoint r.equivocation_voter_ids r.dispute_voter_ids),
      "equivocators cannot count toward a decision",
    )
    ∷ (
      not (r.target_receipt_hash == "") && not (is_hex_text 64 r.target_receipt_hash),
      "target_receipt_hash must be 64 lowercase hex chars",
    )
    ∷ []

unfoldable pub construct_result : ConsensusResult → Result ConsensusResult
construct_result r = check_all (result_checks r) >> ok r

-- `2k // 3 + 1` and `k // 3 + 1`.
abbrev pub ack_quorum : ℕ → ℕ
ack_quorum k = 2 * k / 3 + 1

abbrev pub dispute_quorum : ℕ → ℕ
dispute_quorum k = k / 3 + 1

unfoldable pub quorum_thresholds : ℕ → Result (ℕ × ℕ)
quorum_thresholds k =
    if ltb k 1
    then raise (value_error "num_peers must be >= 1")
    else ok (ack_quorum k, dispute_quorum k)

-- What the loop over the votes keeps.
pub record Ballots : Type 0 where
  pub valid_by_voter : Dict String SignedVote
  pub equivocators : List String

abbrev pub no_ballots : Ballots
no_ballots = record { valid_by_voter = []; equivocators = [] }

-- A vote that passed the filters: the first of its voter is kept, the same one again is ignored,
-- and another takes the voter out for good.
unfoldable pub register_vote : Ballots → SignedVote → Ballots
register_vote b s =
    let voter = s.vote.voter_id in
    if member voter b.equivocators then b else elim (get voter b.valid_by_voter) [
      | none ↦ record b { valid_by_voter = set_item voter s b.valid_by_voter }
      | some previous ↦
          if previous.vote != s.vote
          then record {
            valid_by_voter = delete voter b.valid_by_voter;
            equivocators = add voter b.equivocators;
          }
          else b
    ]

-- The voters whose vote passes a test.
unfoldable pub voters_where : (SignedVote → Bool) → Dict String SignedVote → List String
voters_where p [] = []
voters_where p ((voter, s) ∷ rest) =
    if p s then add voter (voters_where p rest) else voters_where p rest

abbrev pub is_ack : SignedVote → Bool
is_ack s = vote_beq s.vote.decision ack

abbrev pub is_dispute : SignedVote → Bool
is_dispute s = vote_beq s.vote.decision dispute

-- Only an ACK with reason "ok" exercised the semantic layer.
abbrev pub is_semantic : SignedVote → Bool
is_semantic s = is_ack s && s.vote.reason == reason_ok

abbrev pub outside_roster : Option (List String) → String → Bool
outside_roster none voter = false
outside_roster (some roster) voter = not (member voter roster)

-- The peers that are expected to vote.
abbrev pub peers_of : List String → String → List String
peers_of roster originator = discard originator roster

pub record ReputationStore (F : Type 0) : Type 0 where
  pub alpha : F
  pub beta : F
  pub r_min : F
  pub weights : Dict String F

module _ {F : Type 0} ⦃fl : Floats F⦄ where
  -- `ReputationStore.weight`, `total` and `update`.
  unfoldable pub weight : ReputationStore F → String → F
  weight rep d = get_or d (float 1) rep.weights

  unfoldable pub total : ReputationStore F → List String → F
  unfolding weight
  total rep [] = float 0
  total rep (d ∷ ds) = fl.plus (total rep ds) (weight rep d)

  -- `min(1.0, w + alpha)` for each of the drones.
  unfoldable pub reward : ReputationStore F → List String → ReputationStore F
  unfolding weight
  reward rep [] = rep
  reward rep (d ∷ ds) =
      let raised = fl.plus (weight rep d) rep.alpha in
      let clipped = if fl.lt raised (float 1) then raised else float 1 in
      reward (record rep { weights = set_item d clipped rep.weights }) ds

  -- `max(r_min, w - beta)` for each of the drones.
  unfoldable pub penalise : ReputationStore F → List String → ReputationStore F
  unfolding weight
  penalise rep [] = rep
  penalise rep (d ∷ ds) =
      let lowered = fl.minus (weight rep d) rep.beta in
      let clipped = if fl.lt rep.r_min lowered then lowered else rep.r_min in
      penalise (record rep { weights = set_item d clipped rep.weights }) ds

  unfoldable pub update_reputation :
      ReputationStore F → List String → List String → Outcome → ReputationStore F
  unfolding reward penalise
  update_reputation rep acks disputes was_accepted = penalise (reward rep acks) disputes
  update_reputation rep acks disputes was_rejected = penalise (reward rep disputes) acks
  update_reputation rep acks disputes no_quorum = rep

  -- Reputation tightens a decision that has its integer quorum.
  unfoldable pub ack_weighs : Option (ReputationStore F) → List String → List String → Bool
  unfolding total
  ack_weighs none peers acks = true
  ack_weighs (some rep) peers acks =
      fl.le (total rep peers) (float 0)
      || fl.le (fl.times (fl.over (float 2) (float 3)) (total rep peers)) (total rep acks)

  unfoldable pub dispute_weighs : Option (ReputationStore F) → List String → List String → Bool
  unfolding total
  dispute_weighs none peers disputes = true
  dispute_weighs (some rep) peers disputes =
      fl.le (total rep peers) (float 0)
      || fl.lt (fl.times (fl.over (float 1) (float 3)) (total rep peers)) (total rep disputes)

pub record Engine : Type 0 where
  pub num_peers : ℕ
  pub ack_threshold : ℕ
  pub dispute_threshold : ℕ

-- `ConsensusEngine.__init__`.
unfoldable pub init_engine : ℕ → Result Engine
unfolding quorum_thresholds
init_engine k = quorum_thresholds k >>= λ t.
    ok (record { num_peers = k; ack_threshold = t.0; dispute_threshold = t.1 })

-- The two ways in which a roster is refused.
unfoldable pub check_roster : Engine → Option (List String) → String → Result (Unit {0})
check_roster eng none originator = ok tt
check_roster eng (some roster) originator = check_all (
    (not (member originator roster), "expected_voters must include the receipt originator")
    ∷ (
      not (eqb (length (peers_of roster originator)) eng.num_peers),
      "consensus engine peer count does not match expected roster",
    )
    ∷ [])
