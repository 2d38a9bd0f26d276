-- ===== src/Protocol/Consensus/Tally.antt =====
-- codebase/protocol/peer_consensus.py: `ConsensusEngine.tally`.
use veri_swarm_flight.Base.{
  ℕ, ◌-◌, Bool, false, ◌&&◌, Option, none, some, List, [], ◌∷◌, String, string_eq, ◌==◌, ◌!=◌,
  if◌then◌else◌, Result, ok, raise, value_error, ◌>>◌, length, leb,
}
use veri_swarm_flight.Base.Sets.{of_list}
use veri_swarm_flight.Base.Dict.{Dict}
use veri_swarm_flight.Base.Text.{concat, decimal}
use veri_swarm_flight.Base.Floats.{Floats}
use veri_swarm_flight.Protocol.Json.{Library}
use veri_swarm_flight.Protocol.Receipt.{Receipt, receipt_digest}
use veri_swarm_flight.Protocol.Vote.{SignedVote, verify_vote}
use veri_swarm_flight.Protocol.Consensus.{
  Outcome, was_accepted, was_rejected, no_quorum, ConsensusResult, construct_result, Ballots,
  no_ballots, register_vote, voters_where, is_ack, is_dispute, is_semantic, outside_roster,
  peers_of, ReputationStore, ack_weighs, dispute_weighs, Engine, check_roster,
}

-- What a tally goes by: the keys of the voters, the roster as a set, the originator and the digest
-- of the receipt.
pub record Terms : Type 0 where
  pub keys : Dict String (List ℕ)
  pub roster : Option (List String)
  pub originator : String
  pub target : String

module _ {F B : Type 0} (lib : Library F B) where
  -- The filters of the loop: the vote is for this receipt, from the roster, not from the
  -- originator, and signed by its voter.
  unfoldable pub counts : Terms → SignedVote → Bool
  counts t s =
      if s.vote.target_receipt_hash != t.target
      then false
      else if outside_roster t.roster s.vote.voter_id
      then false
      else if s.vote.voter_id == t.originator
      then false
      else verify_vote lib t.keys s

  -- The loop over the votes.
  unfoldable pub collect : Terms → Ballots → List SignedVote → Ballots
  collect t b [] = b
  collect t b (s ∷ votes) = collect t (if counts t s then register_vote b s else b) votes

-- The peers whose weight is the whole: the roster's. Without a roster there is no reputation.
abbrev pub weighed_peers : Terms → List String
weighed_peers t = elim t.roster [ none ↦ [] | some roster ↦ peers_of roster t.originator ]

-- How many votes are expected.
abbrev pub expected_votes : Engine → Terms → ℕ
expected_votes eng t = elim t.roster [
  | none ↦ eng.num_peers
  | some roster ↦ length (peers_of roster t.originator)
]

module _ {F : Type 0} ⦃fl : Floats F⦄ where
  unfoldable pub decide :
      Engine → Option (ReputationStore F) → Terms → List String → List String → Outcome
  unfolding ack_weighs dispute_weighs
  decide eng rep t acks disputes =
      if leb eng.ack_threshold (length acks) && ack_weighs rep (weighed_peers t) acks
      then was_accepted
      else if leb eng.dispute_threshold (length disputes)
          && dispute_weighs rep (weighed_peers t) disputes
      then was_rejected
      else no_quorum

unfoldable pub explain : Outcome → Engine → ℕ → ℕ → String
explain was_accepted eng acks disputes =
    concat "ack_quorum_reached:" (concat (decimal acks) (concat ">=" (decimal eng.ack_threshold)))
explain was_rejected eng acks disputes =
    concat "dispute_quorum_reached:"
      (concat (decimal disputes) (concat ">=" (decimal eng.dispute_threshold)))
explain no_quorum eng acks disputes = concat "insufficient_votes:ack=" (
    concat (decimal acks) (
      concat "<" (
        concat (decimal eng.ack_threshold) (
          concat ",dispute="
            (concat (decimal disputes) (concat "<" (decimal eng.dispute_threshold)))))))

-- The result over the ballots; `max(0, a - b)` is `a - b`.
unfoldable pub summarise : Engine → Terms → Ballots → Outcome → ConsensusResult
unfolding explain
summarise eng t b outcome =
    let acks : List String = voters_where is_ack b.valid_by_voter in
    let disputes : List String = voters_where is_dispute b.valid_by_voter in
    let semantic : List String = voters_where is_semantic b.valid_by_voter in
    record {
      outcome = outcome;
      ack_count = length acks;
      dispute_count = length disputes;
      missing_count = expected_votes eng t - length acks - length disputes;
      ack_threshold = eng.ack_threshold;
      dispute_threshold = eng.dispute_threshold;
      reason = explain outcome eng (length acks) (length disputes);
      ack_voter_ids = acks;
      dispute_voter_ids = disputes;
      semantic_ack_count = length semantic;
      semantic_voter_ids = semantic;
      equivocation_voter_ids = b.equivocators;
      target_receipt_hash = t.target;
    }

-- `expected_voters is required with reputation`.
abbrev pub check_reputation {ℓ} : {F : Type ℓ} → Option (List String) → Option F → Result (Unit {0})
check_reputation roster none = ok tt
check_reputation none (some rep) = raise (value_error "expected_voters is required with reputation")
check_reputation (some roster) (some rep) = ok tt

module _ {F B : Type 0} (lib : Library F B) ⦃fl : Floats F⦄ where
  unfoldable pub terms_of : Receipt F → Dict String (List ℕ) → Option (List String) → Terms
  terms_of r keys expected = record {
    keys = keys;
    roster = elim expected [ none ↦ none | some ids ↦ some (of_list ids) ];
    originator = r.drone_id;
    target = receipt_digest lib r;
  }

  -- The decision over the collected ballots.
  unfoldable pub conclude : Engine → Option (ReputationStore F) → Terms → Ballots → ConsensusResult
  unfolding decide summarise
  conclude eng rep t b = summarise eng t b (
      decide eng rep t (voters_where is_ack b.valid_by_voter)
        (voters_where is_dispute b.valid_by_voter))

  -- `ConsensusEngine.tally`.
  unfoldable pub tally :
      Engine
      → Receipt F
      → List SignedVote
      → Dict String (List ℕ)
      → Option (List String)
      → Option (ReputationStore F)
      → Result ConsensusResult
  tally eng r votes keys expected rep =
      let t = terms_of r keys expected in
      check_roster eng t.roster t.originator
      >> (check_reputation t.roster rep
          >> construct_result (conclude eng rep t (collect lib t no_ballots votes)))
