-- ===== src/Tests/Verify.antt =====
-- Verifications of one receipt.
use veri_swarm_flight.Base.{
  ◌≡◌, refl, true, false, some, List, [], ◌∷◌, string_eq, arith, ok, check_all,
}
use veri_swarm_flight.Base.Int.{ℤ, pos, int_beq, int_eq, ◌-ℤ◌}
use veri_swarm_flight.Base.Sets.{member}
use veri_swarm_flight.Base.Dict.{get, set_item, has_key, delete, move_to_end, trim}
use veri_swarm_flight.Base.Text.{is_hex_text}
use veri_swarm_flight.Protocol.Receipt.{
  SignedReceipt, is_drone_id, is_mission_id, below_ground, receipt_checks, construct_receipt,
  receipt_dict, canonical, receipt_digest,
}
use veri_swarm_flight.Protocol.Receipt.Binding.{
  IsSound, canonical-injective, construct_receipt-IsSound,
}
use veri_swarm_flight.Protocol.Verifier.{
  load_keys, init_verifier, Verifier, digests, sequences, is_stale, objection, claim_sequence,
  consume_receipt, verify,
}
use veri_swarm_flight.Protocol.Verifier.Replay.{Call, verify_run, replay_refused}
use veri_swarm_flight.Protocol.Verifier.Soundness.{IsBacked, verify-IsBacked}
use veri_swarm_flight.Protocol.Verifier.Bounds.{IsBounded, verify_run-IsBounded}
use veri_swarm_flight.Tests.Data.{whole, plain, swarm_keys, receipt, signed, zeros}

unfoldable pub program : Unit {0}
unfolding load_keys init_verifier member get set_item has_key delete move_to_end trim int_beq
    canonical receipt_dict receipt_digest is_stale objection claim_sequence consume_receipt verify
    verify_run check_all is_hex_text is_drone_id is_mission_id below_ground receipt_checks
    construct_receipt ◌-ℤ◌
program = tt

abbrev pub verifier : Verifier
verifier = record {
  peer_keys = swarm_keys;
  approved_models = zeros ∷ [];
  max_age_ns = pos 5000000000;
  expected_mission_id = some "mission";
  expected_mission_epoch = some (pos 1);
  approved_runtimes = some (zeros ∷ []);
  enforce_sequence = true;
  replay_cache_size = 2;
  seen = [];
  seen_sequences = [];
}

abbrev pub other : SignedReceipt ℤ
other = record {
  receipt = record receipt { drone_id = "b"; sequence = pos 9 };
  signature = "signed by b";
}

passes : (verify plain verifier signed (pos 1500) "fleet" true).1.passed ≡ true
unfolding program
passes = refl

-- A packet of another drone in between.
abbrev between : List (Call ℤ)
between = record { packet = other; now = pos 1600; scope = "fleet"; consume = true } ∷ []

replay_refused_example :
    (verify plain
      (verify_run plain (verify plain verifier signed (pos 1500) "fleet" true).0 between)
      signed
      (pos 1700)
      "fleet"
      true).1.passed
    ≡ false
replay_refused_example =
    replay_refused plain verifier signed signed (pos 1500) (pos 1700) "fleet" between passes refl
      (omega arith)

verify-IsBacked_example :
    IsBacked plain verifier signed (pos 1500)
    × (true ≡ true → has_key (receipt_digest plain receipt) (digests verifier "fleet") ≡ false)
    × (true ≡ true → true ≡ true → has_key (pos 5) (sequences verifier "fleet" "a") ≡ false)
verify-IsBacked_example = verify-IsBacked plain verifier signed (pos 1500) "fleet" true passes

canonical-injective_example : receipt ≡ receipt
canonical-injective_example = canonical-injective plain (λ r s h. h) receipt receipt refl

constructed : construct_receipt receipt ≡ ok receipt
unfolding program
constructed = refl

construct_receipt-IsSound_example : (receipt ≡ receipt) × IsSound receipt
construct_receipt-IsSound_example = construct_receipt-IsSound receipt receipt constructed

abbrev loaded : Verifier
loaded = record verifier { peer_keys = ("a", 1 ∷ []) ∷ [] }

loaded-ok : init_verifier plain (("a", "a0") ∷ []) verifier (pos 2) ≡ ok loaded
unfolding program
loaded-ok = refl

abbrev repeated : List (Call ℤ)
repeated =
    record { packet = signed; now = pos 1500; scope = "fleet"; consume = true }
    ∷ record { packet = signed; now = pos 1600; scope = "fleet"; consume = true }
    ∷ between

verify_run-IsBounded_example : IsBounded plain (verify_run plain loaded repeated)
verify_run-IsBounded_example =
    verify_run-IsBounded plain (("a", "a0") ∷ []) verifier loaded (pos 2) repeated loaded-ok
