-- ===== src/Tests/Peers.antt =====
-- Votes of drone b on the receipt of drone a.
use veri_swarm_flight.Base.{◌≡◌, refl, none, some, List, [], ◌∷◌, string_eq, arith, ok}
use veri_swarm_flight.Base.Int.{ℤ, pos, ◌+ℤ◌}
use veri_swarm_flight.Base.Dict.{get}
use veri_swarm_flight.Protocol.Json.{Json}
use veri_swarm_flight.Protocol.Receipt.{SignedReceipt, receipt_digest}
use veri_swarm_flight.Protocol.Vote.{
  SignedVote, ack, construct_vote, construct_signed_vote, vote_checks, is_reason, canonical_vote,
  reason_ok,
}
use veri_swarm_flight.Protocol.Peer.{
  PeerVerifier, Senses, Evidence, init_peer, peer_checks, co_visible, match_frames,
  semantic_applicable, geometry_supplied, veto, compare_observations, outputs_agree, square_sum,
  paired,
}
use veri_swarm_flight.Protocol.Peer.Voting.{
  judge, covis_after, sign_vote, build_signed_vote, vote_fresh, vote_on,
}
use veri_swarm_flight.Protocol.Peer.Semantic.{IsCrossChecked, vote_on-IsCrossChecked}
use veri_swarm_flight.Protocol.Peer.Cache.{vote_run, vote_on_again}
use veri_swarm_flight.Tests.Data.{whole, plain, receipt, signed, seen_claim, zeros}
use veri_swarm_flight.Tests.Verify.{verifier, other}
use veri_swarm_flight.Tests.Verify
use veri_swarm_flight.Tests.Sense

program : Unit {0}
unfolding Verify.program Sense.program construct_vote construct_signed_vote vote_checks is_reason
    canonical_vote init_peer peer_checks co_visible match_frames semantic_applicable
    geometry_supplied veto compare_observations outputs_agree square_sum paired judge covis_after
    sign_vote build_signed_vote vote_fresh vote_on vote_run ◌+ℤ◌
program = tt

-- Every two poses overlap by one, at 30 degrees; a signature is 128 zeros.
abbrev senses : Senses ℤ (Json ℤ) ℤ ℤ
senses = record {
  covisibility = λ mine theirs h v. pos 1;
  parallax_angle = λ mine theirs h v. pos 30;
  inliers = λ mine theirs. pos 20;
  sign_bytes = λ message.
      "00000000000000000000000000000000000000000000000000000000000000000000000000000000000000000000000000000000000000000000000000000000";
}

abbrev peer : PeerVerifier ℤ
peer = record {
  my_drone_id = "b";
  receipt_verifier = verifier;
  agreement_threshold = pos 1;
  o_min = pos 1;
  hfov = pos 1;
  vfov = pos 1;
  m_min = pos 15;
  phi_min = pos 23;
  occupancy_tolerance = pos 1;
  last_covis = none;
  vote_cache = [];
}

abbrev evidence : Evidence ℤ ℤ ℤ
evidence = record {
  my_observation = none;
  my_pose = some (pos 1);
  originator_pose = some (pos 2);
  my_frame = some (pos 3);
  originator_frame = some (pos 4);
  my_claim = some seen_claim;
  checked_at = pos 1500;
  voted_at = pos 1600;
}

peer-ok : init_peer peer ≡ ok peer
unfolding program
peer-ok = refl

abbrev cast : SignedVote
cast = record {
  vote = record {
    voter_id = "b";
    target_receipt_hash = zeros;
    decision = ack;
    reason = reason_ok;
    timestamp_ns = pos 1600;
  };
  signature =
      "00000000000000000000000000000000000000000000000000000000000000000000000000000000000000000000000000000000000000000000000000000000";
}

votes : (vote_on plain senses peer signed evidence).1 ≡ ok cast
unfolding program
votes = refl

nothing_cached : get (receipt_digest plain receipt) peer.vote_cache ≡ none
unfolding program
nothing_cached = refl

vote_on-IsCrossChecked_example : IsCrossChecked plain senses peer signed evidence
vote_on-IsCrossChecked_example =
    vote_on-IsCrossChecked plain senses peer signed evidence cast nothing_cached votes refl refl

-- Another drone's receipt comes in between, and the second look sees nothing.
abbrev between : List (SignedReceipt ℤ × Evidence ℤ ℤ ℤ)
between = (other, evidence) ∷ []

abbrev blind : Evidence ℤ ℤ ℤ
blind = record evidence { my_claim = none; my_frame = none }

votes_first : (vote_on plain senses (vote_run plain senses peer []) signed evidence).1 ≡ ok cast
unfolding program
votes_first = refl

vote_on_again_example :
    (vote_on plain senses
      (vote_run plain senses
        (vote_on plain senses (vote_run plain senses peer []) signed evidence).0
        between)
      signed
      blind).1
    ≡ ok cast
vote_on_again_example =
    vote_on_again plain senses peer peer [] between signed signed evidence blind cast peer-ok
      votes_first refl (omega arith)
