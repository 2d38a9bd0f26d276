-- ===== src/Protocol/Consensus/Ballot.antt =====
-- codebase/protocol/peer_consensus.py: what the loop over the votes makes of each voter, and that
-- the order of the votes does not matter.
use mathlib.Core.List.{Perm, Permᴰ}
use veri_swarm_flight.Protocol.Consensus.Count.{votes-IsTidy}
use mathlib.Core.HLevel.{hedberg}
use mathlib.Core.Logic.{∥∥₁_elim}
use veri_swarm_flight.Base.{
  ◌≡◌, refl, ap, sym, subst, ◌∙◌, inl, inr, Bool, true, false, ◌&&◌, Option, none, some, List, [],
  ◌∷◌, String, string_eq, arith, ◌==◌, Bool-cases, Option-cases, eq_iff, if◌then◌else◌, Eq-discrete,
}
use veri_swarm_flight.Base.Sets.{member, member-add}
use veri_swarm_flight.Base.Dict.{get, get-set_item, get-delete_ne}
use veri_swarm_flight.Protocol.Json.{Library}
use veri_swarm_flight.Protocol.Vote.{PeerVote, SignedVote, peer_vote_eq, peer_vote_beq_iff}
use veri_swarm_flight.Protocol.Consensus.{Ballots, no_ballots, register_vote}
use veri_swarm_flight.Protocol.Consensus.Tally.{Terms, counts, collect}

-- What the votes of one voter amount to.
pub data Status : Type 0 where
  silent equivocal : Status
  voted : PeerVote → Status

-- One more vote.
unfoldable pub note_vote : Status → PeerVote → Status
note_vote silent p = voted p
note_vote equivocal p = equivocal
note_vote (voted q) p = if q == p then voted q else equivocal

-- The specification: a pass over the votes for one voter alone.
module _ {F B : Type 0} (lib : Library F B) (t : Terms) (voter : String) where
  -- The vote is counted, and of this voter.
  abbrev pub concerns : SignedVote → Bool
  concerns s = counts lib t s && voter == s.vote.voter_id

  unfoldable pub summary : Status → List SignedVote → Status
  unfolding note_vote
  summary st [] = st
  summary st (s ∷ votes) = summary (if concerns s then note_vote st s.vote else st) votes

-- What the ballots say of a voter.
unfoldable pub status : Ballots → String → Status
status b voter =
    if member voter b.equivocators
    then equivocal
    else elim (get voter b.valid_by_voter) [ none ↦ silent | some s ↦ voted s.vote ]

register_vote-status :
    (b : Ballots) (s : SignedVote) (voter : String)
    → status (register_vote b s) voter
      ≡ (if voter == s.vote.voter_id then note_vote (status b voter) s.vote else status b voter)
unfolding register_vote status note_vote
register_vote-status b s voter = ground (
  arith,
  eq_iff voter s.vote.voter_id,
  get-set_item s.vote.voter_id voter s b.valid_by_voter,
  get-delete_ne s.vote.voter_id voter b.valid_by_voter,
  member-add s.vote.voter_id voter b.equivocators,
)

collect-status :
    {F B : Type 0} (lib : Library F B) (t : Terms) (voter : String) (b : Ballots)
    (votes : List SignedVote)
    → status (collect lib t b votes) voter ≡ summary lib t voter (status b voter) votes
unfolding collect summary
collect-status lib t voter b [] = refl
collect-status lib t voter b (s ∷ votes) = elim (Bool-cases (counts lib t s)) [
  | inl yes' ↦ rw yes' (
      collect-status lib t voter (register_vote b s) votes
      ∙ ap (λ st. summary lib t voter st votes) (register_vote-status b s voter))
  | inr no' ↦ rw no' (collect-status lib t voter b votes)
]

status-no_ballots : (voter : String) → status no_ballots voter ≡ silent
unfolding status
status-no_ballots voter = unfold member get in refl

pub collect-status-summary :
    {F B : Type 0} (lib : Library F B) (t : Terms) (votes : List SignedVote) (voter : String)
    → status (collect lib t no_ballots votes) voter ≡ summary lib t voter silent votes
collect-status-summary lib t votes voter =
    collect-status lib t voter no_ballots votes
    ∙ ap (λ st. summary lib t voter st votes) (status-no_ballots voter)

abbrev pub is_equivocal : Status → Bool
is_equivocal silent = false
is_equivocal equivocal = true
is_equivocal (voted p) = false

abbrev pub vote_in : Status → Option PeerVote
vote_in silent = none
vote_in equivocal = none
vote_in (voted p) = some p

abbrev pub kept_vote : Option SignedVote → Option PeerVote
kept_vote none = none
kept_vote (some s) = some s.vote

status-parts :
    (b : Ballots) (voter : String)
    → (member voter b.equivocators ≡ true → get voter b.valid_by_voter ≡ none)
    → (member voter b.equivocators ≡ is_equivocal (status b voter))
      × (kept_vote (get voter b.valid_by_voter) ≡ vote_in (status b voter))
unfolding status
status-parts b voter apart = elim (Bool-cases (member voter b.equivocators)) [
  | inl double ↦ rw (double, apart double) (refl, refl)
  | inr single ↦ elim (Option-cases (get voter b.valid_by_voter)) [
    | inl absent ↦ rw (single, absent) (refl, refl)
    | inr (s, found) ↦ rw (single, found) (refl, refl)
  ]
]

-- After the loop the two tables say of each voter exactly what a pass over that voter's own
-- countable votes says: the voter is an equivocator if two of them differ, and has a kept vote if
-- there is one and all are the same, which is that vote; never both.
pub collect-summary :
    {F B : Type 0} (lib : Library F B) (t : Terms) (votes : List SignedVote) (voter : String)
    → let b = collect lib t no_ballots votes in
      let standing = summary lib t voter silent votes in
      (member voter b.equivocators ≡ is_equivocal standing)
      × (kept_vote (get voter b.valid_by_voter) ≡ vote_in standing)
collect-summary lib t votes voter =
    let b = collect lib t no_ballots votes in
    subst
      (λ x.
        (member voter b.equivocators ≡ is_equivocal x)
        × (kept_vote (get voter b.valid_by_voter) ≡ vote_in x))
      (collect-status-summary lib t votes voter)
      (status-parts b voter ((votes-IsTidy lib t votes).apart voter))

note_vote_comm :
    (st : Status) (p q : PeerVote) → note_vote (note_vote st p) q ≡ note_vote (note_vote st q) p
unfolding note_vote
note_vote_comm silent p q = ground (arith, peer_vote_beq_iff p q, peer_vote_beq_iff q p)
note_vote_comm equivocal p q = refl
note_vote_comm (voted r) p q =
    ground (arith, peer_vote_beq_iff r p, peer_vote_beq_iff r q, peer_vote_beq_iff p q)

summary-Permᴰ :
    {F B : Type 0} (lib : Library F B) (t : Terms) (voter : String) {vs ws : List SignedVote}
    → Permᴰ vs ws
    → (st : Status) → summary lib t voter st vs ≡ summary lib t voter st ws
unfolding summary
summary-Permᴰ lib t voter Permᴰ.nil st = refl
summary-Permᴰ lib t voter (Permᴰ.cons e p) st = rw e (summary-Permᴰ lib t voter p _)
summary-Permᴰ lib t voter (Permᴰ.swap {a = a} {b = b} {l = l} e f) st =
    rw (← e, ← f)
      (ap (λ x. summary lib t voter x l) (ground (arith, note_vote_comm st a.vote b.vote)))
summary-Permᴰ lib t voter (Permᴰ.trans p q) st =
    summary-Permᴰ lib t voter p st ∙ summary-Permᴰ lib t voter q st

Status-set : IsSet Status
Status-set = hlevel (hedberg (Eq-discrete peer_vote_eq))

-- The order in which votes arrive does not matter: for every voter, a rearrangement of the votes
-- leaves the same standing.
pub collect-perm :
    {F B : Type 0} (lib : Library F B) (t : Terms) (votes others : List SignedVote) (voter : String)
    → Perm votes others
    → status (collect lib t no_ballots votes) voter ≡ status (collect lib t no_ballots others) voter
collect-perm lib t votes others voter p = ∥∥₁_elim p (Status-set _ _) (λ d.
    collect-status-summary lib t votes voter
    ∙ summary-Permᴰ lib t voter d silent
    ∙ sym (collect-status-summary lib t others voter))
