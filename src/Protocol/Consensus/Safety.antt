-- ===== src/Protocol/Consensus/Safety.antt =====
-- codebase/protocol/peer_consensus.py: no two nodes decide a receipt in opposite ways unless a voter
-- signed both decisions, and the tally never trips over the checks of its own result.
use veri_swarm_flight.Base.{
  ℕ, ◌≤◌, ◌≡◌, refl, subst, true, Option, none, some, List, String, string_eq, arith, ok, length,
  AllPassed, check_all_of_AllPassed,
}
use veri_swarm_flight.Base.Sets.{
  member, common_of_length, length-le_of_members, subset_of_members, of_list,
}
use veri_swarm_flight.Base.Dict.{Dict}
use veri_swarm_flight.Base.Text.{is_hex_text}
use veri_swarm_flight.Base.Floats.{Floats}
use veri_swarm_flight.Protocol.Json.{Library}
use veri_swarm_flight.Protocol.Receipt.{Receipt, canonical, receipt_digest}
use veri_swarm_flight.Protocol.Vote.{ack, dispute, SignedVote}
use veri_swarm_flight.Protocol.Consensus.{
  was_accepted, was_rejected, ConsensusResult, result_checks, construct_result, Ballots,
  voters_where, is_ack, is_dispute, is_semantic, peers_of, ReputationStore, Engine, init_engine,
  check_roster,
}
use veri_swarm_flight.Protocol.Consensus.Tally.{
  Terms, conclude, summarise, decide, terms_of, tally, check_reputation,
}
use veri_swarm_flight.Protocol.Consensus.Count.{
  IsTidy, votes-IsTidy, voters_where-peers, voters_where-disjoint, voters_where-subset,
  equivocators-disjoint, distinct-voters_where, ack_xor_dispute,
}
use veri_swarm_flight.Protocol.Consensus.Cast.{Cast, voter_cast}
use veri_swarm_flight.Protocol.Consensus.Agreement.{
  init_engine-eq-ok, check_roster-eq-ok, ballots_of, acks, disputes, conclude_quorum, tally-eq-ok,
}

roster_passes :
    (eng : Engine) (roster : List String) (originator : String)
    → member originator roster ≡ true
    → length (peers_of roster originator) ≡ eng.num_peers
    → check_roster eng (some roster) originator ≡ ok tt
unfolding check_roster
roster_passes eng roster originator m e =
    check_all_of_AllPassed _ (ground arith, (ground arith, tt))

check_reputation-roster :
    {F : Type 0} (roster : List String) (rep : Option F)
    → check_reputation (some roster) rep ≡ ok tt
check_reputation-roster roster none = refl
check_reputation-roster roster (some rep) = refl

module _ {F B : Type 0} (lib : Library F B) ⦃fl : Floats F⦄ where
  -- One peer of the roster cast an acknowledgement among the votes of one node and a dispute among
  -- those of another, both signed over this receipt.
  pub record DoubleVoter (r : Receipt F) (keys : Dict String (List ℕ)) (ids : List String)
      (votes others : List SignedVote) : Type 0 where
    pub voter : String
    pub for : SignedVote
    pub against : SignedVote
    pub cast_for : Cast lib r votes keys ids voter for
    pub cast_against : Cast lib r others keys ids voter against
    pub decisions : (for.vote.decision ≡ ack) × (against.vote.decision ≡ dispute)

  -- If one node accepts a receipt and another one rejects it, whatever votes and reputations each
  -- of them went by, then some voter of the common roster signed an acknowledgement of that receipt
  -- that is among the votes of the one, and a dispute of it that is among the votes of the other.
  pub accept_reject_DoubleVoter :
      (k : ℕ) (eng : Engine) (r : Receipt F) (keys : Dict String (List ℕ)) (ids : List String)
      (votes others : List SignedVote) (rep rep' : Option (ReputationStore F))
      (res res' : ConsensusResult)
      → init_engine k ≡ ok eng
      → tally lib eng r votes keys (some ids) rep ≡ ok res
      → tally lib eng r others keys (some ids) rep' ≡ ok res'
      → res.outcome ≡ was_accepted
      → res'.outcome ≡ was_rejected
      → DoubleVoter r keys ids votes others
  unfolding terms_of
  accept_reject_DoubleVoter k eng r keys ids votes others rep rep' res res' made h h' o o' =
      let (roster, e) = tally-eq-ok lib eng r votes keys (some ids) rep h in
      let (_, e') = tally-eq-ok lib eng r others keys (some ids) rep' h' in
      let (origin, size) = check_roster-eq-ok eng (of_list ids) r.drone_id roster in
      let (positive, peers, at, dt) = init_engine-eq-ok k eng made in
      let t = terms_of lib r keys (some ids) in
      let tidy = votes-IsTidy lib t votes in
      let tidy' = votes-IsTidy lib t others in
      let enough =
        (conclude_quorum lib eng r keys (some ids) votes rep).0
          (subst (λ x. x.outcome ≡ was_accepted) e o) in
      let enough' =
        (conclude_quorum lib eng r keys (some ids) others rep').1
          (subst (λ x. x.outcome ≡ was_rejected) e' o') in
      let (v, acked, disputed) =
        common_of_length (acks lib eng r keys (some ids) votes rep)
          (disputes lib eng r keys (some ids) others rep') (peers_of (of_list ids) r.drone_id)
          (distinct-voters_where is_ack _) (distinct-voters_where is_dispute _)
          (voters_where-peers lib t _ tidy is_ack (of_list ids) refl)
          (voters_where-peers lib t _ tidy' is_dispute (of_list ids) refl) (omega arith) in
      let (s, said, mine) = voter_cast lib r votes keys ids is_ack v acked in
      let (s', said', mine') = voter_cast lib r others keys ids is_dispute v disputed in
      record {
        voter = v;
        for = s;
        against = s';
        cast_for = mine;
        cast_against = mine';
        decisions = (ground arith, ground arith);
      }

  semantic_acks : (s : SignedVote) → is_semantic s ≡ true → is_ack s ≡ true
  semantic_acks s h = ground arith

  module _ (eng : Engine) (rep : Option (ReputationStore F)) (t : Terms) (b : Ballots)
      (tidy : IsTidy lib t b) (positive : (1 ≤ eng.ack_threshold) × (1 ≤ eng.dispute_threshold))
      (digest : is_hex_text 64 t.target ≡ true) where
    semantic-le :
        length (voters_where is_semantic b.valid_by_voter)
        ≤ length (voters_where is_ack b.valid_by_voter)
    semantic-le =
        length-le_of_members _ _ (distinct-voters_where is_semantic b.valid_by_voter)
          (voters_where-subset lib t b tidy is_semantic is_ack semantic_acks)

    conclude_passes : AllPassed (result_checks (conclude lib eng rep t b))
    unfolding result_checks conclude summarise decide
    conclude_passes = (
      ground arith,
      (
        ground (arith, semantic-le),
        (
          ground arith,
          (
            ground arith,
            (
              ground (
                arith,
                subset_of_members _ _
                    (voters_where-subset lib t b tidy is_semantic is_ack semantic_acks),
              ),
              (
                ground
                    (arith, voters_where-disjoint lib t b tidy is_ack is_dispute ack_xor_dispute),
                (
                  ground (
                    arith,
                    equivocators-disjoint lib t b tidy is_ack,
                    equivocators-disjoint lib t b tidy is_dispute,
                  ),
                  (ground arith, tt),
                ),
              ),
            ),
          ),
        ),
      ),
    )

  -- Where the roster is right, the tally returns: its result always passes the checks that
  -- `ConsensusResult` makes of every result, on any votes and reputations. It rests on SHA-256
  -- digests being printed as 64 hexadecimal digits.
  pub tally_total :
      (k : ℕ) (eng : Engine) (r : Receipt F) (votes : List SignedVote) (keys : Dict String (List ℕ))
      (ids : List String) (rep : Option (ReputationStore F))
      → ((m : B) → is_hex_text 64 (lib.sha256_hex m) ≡ true)
      → init_engine k ≡ ok eng
      → member r.drone_id (of_list ids) ≡ true
      → length (peers_of (of_list ids) r.drone_id) ≡ k
      → (res : ConsensusResult) × (tally lib eng r votes keys (some ids) rep ≡ ok res)
        × (res.target_receipt_hash ≡ receipt_digest lib r)
  unfolding tally terms_of receipt_digest construct_result
  tally_total k eng r votes keys ids rep hex made origin size =
      let (positive, peers, at, dt) = init_engine-eq-ok k eng made in
      let t = terms_of lib r keys (some ids) in
      let b = ballots_of lib r keys (some ids) votes in
      let passed =
        conclude_passes eng rep t b (votes-IsTidy lib t votes) (omega arith, omega arith)
          (hex (canonical lib r)) in
      (
        conclude lib eng rep t b,
        rw (
          roster_passes eng (of_list ids) r.drone_id origin (omega arith),
          check_reputation-roster (of_list ids) rep,
          check_all_of_AllPassed _ passed,
        ),
        unfold conclude summarise in refl,
      )
