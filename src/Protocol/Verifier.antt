-- ===== src/Protocol/Verifier.antt =====
-- codebase/protocol/receipts.py: `ReceiptVerifier`. The clock is an argument.
pub mod Replay
pub mod Soundness
pub mod Bounds
use veri_swarm_flight.Base.{
  ℕ, ◌≡◌, Bool, true, false, not, ◌&&◌, Option, none, some, List, [], ◌∷◌, String, string_eq, Eq,
  ◌==◌, ◌!=◌, if◌then◌else◌, Result, ok, raise, value_error, ◌>>=◌,
}
use veri_swarm_flight.Base.Int.{ℤ, pos, pos_part, ltb_ℤ, abs, min_ℤ, ◌-ℤ◌, int_eq}
use veri_swarm_flight.Base.Sets.{member}
use veri_swarm_flight.Base.Dict.{Dict, get, get_or, set_item, has_key, delete, move_to_end, trim}
use veri_swarm_flight.Base.Text.{concat, prefix}
use veri_swarm_flight.Protocol.Json.{Library}
use veri_swarm_flight.Protocol.Receipt.{Receipt, SignedReceipt, canonical, receipt_digest}

pub record VerificationResult : Type 0 where
  pub passed : Bool
  pub reason : String

abbrev pub refused : String → VerificationResult
refused reason = record { passed = false; reason = reason }

abbrev pub accepted : VerificationResult
accepted = record { passed = true; reason = "ok" }

-- `OrderedDict[K, None]`, oldest first.
abbrev pub Seen : Type 0 → Type 0
Seen K = Dict K (Unit {0})

pub record Verifier : Type 0 where
  pub peer_keys : Dict String (List ℕ)
  pub approved_models : List String
  pub max_age_ns : ℤ
  pub expected_mission_id : Option String
  pub expected_mission_epoch : Option ℤ
  pub approved_runtimes : Option (List String)
  pub enforce_sequence : Bool
  pub replay_cache_size : ℕ
  pub seen : Dict String (Seen String)
  pub seen_sequences : Dict String (Dict String (Seen ℤ))

-- `expected is not None and value != expected`.
abbrev pub unexpected : {K : Type 0} ⦃e : Eq K⦄ → Option K → K → Bool
unexpected none value = false
unexpected (some wanted) value = value != wanted

abbrev pub not_approved : Option (List String) → String → Bool
not_approved none value = false
not_approved (some approved) value = not (member value approved)

-- The digests that a scope has seen.
abbrev pub digests : Verifier → String → Seen String
digests v scope = get_or scope [] v.seen

-- The sequence numbers that a scope has seen of a drone.
abbrev pub sequences : Verifier → String → String → Seen ℤ
sequences v scope drone = get_or drone [] (get_or scope [] v.seen_sequences)

module _ {F B : Type 0} (lib : Library F B) where
  -- The keys of the registry; one that does not load raises.
  unfoldable pub load_keys : Dict String String → Result (Dict String (List ℕ))
  load_keys [] = ok []
  load_keys ((id, hex) ∷ rest) = elim (lib.load_key hex) [
    | none ↦ raise (value_error "invalid verify key")
    | some key ↦ load_keys rest >>= λ keys. ok ((id, key) ∷ keys)
  ]

  -- `ReceiptVerifier.__init__`, from a verifier that holds the settings.
  unfoldable pub init_verifier : Dict String String → Verifier → ℤ → Result Verifier
  unfolding load_keys
  init_verifier peer_keys settings replay_cache_size = load_keys peer_keys >>= λ keys.
      if ltb_ℤ replay_cache_size (pos 1)
      then raise (value_error "replay_cache_size must be >= 1")
      else ok (record settings {
        peer_keys = keys;
        replay_cache_size = pos_part replay_cache_size;
        seen = [];
        seen_sequences = [];
      })

  -- Step 0: the receipt is older, or further in the future, than is accepted.
  unfoldable pub is_stale : Verifier → Receipt F → ℤ → Bool
  is_stale v r now =
      ltb_ℤ (pos 0) v.max_age_ns
      && ltb_ℤ (min_ℤ v.max_age_ns r.valid_for_ns) (abs (now -ℤ r.timestamp_ns))

  -- Steps 0 to 3: the reason to refuse, if there is one.
  unfoldable pub objection : Verifier → SignedReceipt F → ℤ → Option String
  unfolding is_stale
  objection v s now =
      if is_stale v s.receipt now
      then some "stale_receipt"
      else if unexpected v.expected_mission_id s.receipt.mission_id
      then some "wrong_mission"
      else if unexpected v.expected_mission_epoch s.receipt.mission_epoch
      then some "wrong_mission_epoch"
      else elim (get s.receipt.drone_id v.peer_keys) [
        | none ↦ some (concat "unknown_drone_id:" s.receipt.drone_id)
        | some key ↦
            if not (lib.verifies key (canonical lib s.receipt) s.signature)
            then some "bad_signature"
            else if not (member s.receipt.model_hash v.approved_models)
            then some (concat "model_hash_not_approved:" (prefix 16 s.receipt.model_hash))
            else if not_approved v.approved_runtimes s.receipt.runtime_hash
            then some (concat "runtime_hash_not_approved:" (prefix 16 s.receipt.runtime_hash))
            else none
      ]

  -- The sequence check: a number that was seen takes the digest out again.
  unfoldable pub claim_sequence : Verifier → Receipt F → String → Verifier × VerificationResult
  claim_sequence v r scope =
      if has_key r.sequence (sequences v scope r.drone_id)
      then (
        record v { seen = set_item scope (delete (receipt_digest lib r) (digests v scope)) v.seen },
        refused "duplicate_sequence",
      )
      else (
        record v {
          seen_sequences =
              set_item scope
                (set_item r.drone_id
                  (trim v.replay_cache_size (set_item r.sequence tt (sequences v scope r.drone_id)))
                  (get_or scope [] v.seen_sequences))
                v.seen_sequences;
        },
        accepted,
      )

  -- Step 4: replay detection within the scope.
  unfoldable pub consume_receipt : Verifier → Receipt F → String → Verifier × VerificationResult
  consume_receipt v r scope =
      let digest = receipt_digest lib r in
      if has_key digest (digests v scope)
      then (
        record v { seen = set_item scope (move_to_end digest (digests v scope)) v.seen },
        refused "replayed_receipt",
      )
      else let v' : Verifier = record v {
        seen =
            set_item scope (trim v.replay_cache_size (set_item digest tt (digests v scope))) v.seen;
      } in
        if v.enforce_sequence then claim_sequence v' r scope else (v', accepted)

  -- `ReceiptVerifier.verify`; `now` is `now_ns`, or the clock where that is not given.
  unfoldable pub verify :
      Verifier → SignedReceipt F → ℤ → String → Bool → Verifier × VerificationResult
  verify v s now scope consume = elim (objection v s now) [
    | some reason ↦ (v, refused reason)
    | none ↦ if consume then consume_receipt v s.receipt scope else (v, accepted)
  ]
