-- ===== src/Protocol/Consensus/Order.antt =====
-- codebase/protocol/peer_consensus.py: the result of a tally does not depend on the order of votes.
use mathlib.Core.List.Perm
use mathlib.Core.List.{Perm}
use veri_swarm_flight.Base.{
  ◌≤◌, ◌≡◌, sym, ap, ◌∙◌, Bool, false, ◌&&◌, none, List, String, string_eq, arith, ◌==◌, length,
}
use veri_swarm_flight.Base.Sets.{member, length-le_of_members}
use veri_swarm_flight.Base.Floats.{Floats}
use veri_swarm_flight.Protocol.Json.{Library}
use veri_swarm_flight.Protocol.Vote.{ack, dispute, vote_beq, PeerVote, SignedVote, reason_ok}
use veri_swarm_flight.Protocol.Consensus.{Ballots, no_ballots, voters_where, Engine}
use veri_swarm_flight.Protocol.Consensus.Tally.{Terms, collect, conclude, summarise, decide}
use veri_swarm_flight.Protocol.Consensus.Ballot.{
  Status, silent, equivocal, voted, status, collect-perm,
}
use veri_swarm_flight.Protocol.Consensus.Count.{
  IsTidy, votes-IsTidy, member-voters_where, distinct-voters_where,
}

-- A test of the vote that a voter stands by.
stands : (PeerVote → Bool) → Status → Bool
stands p silent = false
stands p equivocal = false
stands p (voted v) = p v

module _ {F B : Type 0} (lib : Library F B) (t : Terms) where
  member-stands :
      (b : Ballots) (p : PeerVote → Bool) (v : String)
      → IsTidy lib t b
      → member v (voters_where (λ s. p s.vote) b.valid_by_voter) ≡ stands p (status b v)
  unfolding stands status
  member-stands b p v tidy =
      ground (arith, member-voters_where (λ s. p s.vote) b.valid_by_voter v tidy.once, tidy.apart v)

  -- The same voters are counted for any test, whatever the order of the votes.
  pub voters-perm :
      (votes others : List SignedVote) (p : PeerVote → Bool) (v : String)
      → Perm votes others
      → member v (voters_where (λ s. p s.vote) (collect lib t no_ballots votes).valid_by_voter)
        ≡ member v (voters_where (λ s. p s.vote) (collect lib t no_ballots others).valid_by_voter)
  voters-perm votes others p v perm =
      member-stands _ p v (votes-IsTidy lib t votes)
      ∙ ap (stands p) (collect-perm lib t votes others v perm)
      ∙ sym (member-stands _ p v (votes-IsTidy lib t others))

  count-le :
      (votes others : List SignedVote) (p : PeerVote → Bool)
      → Perm votes others
      → length (voters_where (λ s. p s.vote) (collect lib t no_ballots votes).valid_by_voter)
        ≤ length (voters_where (λ s. p s.vote) (collect lib t no_ballots others).valid_by_voter)
  count-le votes others p perm =
      length-le_of_members _ _ (distinct-voters_where (λ s. p s.vote) _)
        (λ v m. rw (← voters-perm votes others p v perm) m)

  count-perm :
      (votes others : List SignedVote) (p : PeerVote → Bool)
      → Perm votes others
      → length (voters_where (λ s. p s.vote) (collect lib t no_ballots votes).valid_by_voter)
        ≡ length (voters_where (λ s. p s.vote) (collect lib t no_ballots others).valid_by_voter)
  count-perm votes others p perm =
      omega (arith, count-le votes others p perm, count-le others votes p (Perm.symm perm))

module _ {F B : Type 0} (lib : Library F B) ⦃fl : Floats F⦄ where
  -- Without reputation the outcome and all counts are the same for every order in which the votes
  -- arrive, and so is who counts as acknowledging, as disputing and as cross-checking.
  pub conclude-perm :
      (eng : Engine) (t : Terms) (votes others : List SignedVote)
      → Perm votes others
      → let res = conclude lib eng none t (collect lib t no_ballots votes) in
        let res' = conclude lib eng none t (collect lib t no_ballots others) in
        (res.outcome ≡ res'.outcome)
        × (res.ack_count ≡ res'.ack_count)
        × (res.dispute_count ≡ res'.dispute_count)
        × (res.semantic_ack_count ≡ res'.semantic_ack_count)
        × (res.missing_count ≡ res'.missing_count)
        × ((v : String) → member v res.ack_voter_ids ≡ member v res'.ack_voter_ids)
        × ((v : String) → member v res.dispute_voter_ids ≡ member v res'.dispute_voter_ids)
        × ((v : String) → member v res.semantic_voter_ids ≡ member v res'.semantic_voter_ids)
  unfolding conclude summarise decide
  conclude-perm eng t votes others perm =
      let a = count-perm lib t votes others (λ p. vote_beq p.decision ack) perm in
      let d = count-perm lib t votes others (λ p. vote_beq p.decision dispute) perm in
      let s =
        count-perm lib t votes others (λ p. vote_beq p.decision ack && p.reason == reason_ok)
          perm in
      (
        rw (a, d),
        a,
        d,
        s,
        rw (a, d),
        λ v. voters-perm lib t votes others (λ p. vote_beq p.decision ack) v perm,
        λ v. voters-perm lib t votes others (λ p. vote_beq p.decision dispute) v perm,
        λ v.
            voters-perm lib t votes others (λ p. vote_beq p.decision ack && p.reason == reason_ok) v
              perm,
      )
