-- ===== src/Tests/Log.antt =====
-- A log of two writers.
use veri_swarm_flight.Base.{
  ℕ, ◌≡◌, ◌↔◌, refl, sym, ◌∙◌, ap, Bool, true, false, ◌&&◌, Option, none, some, List, [], ◌∷◌, ◌++◌,
  String, string_eq, ◌==◌, Eq, eqb, eq_iff, arith, if◌then◌else◌, ok, length, ◌⊎◌,
}
use veri_swarm_flight.Base.Int.{ℤ, pos, negsuc, int_beq, int_beq_iff, ◌+ℤ◌}
use veri_swarm_flight.Base.Dict.{get, set_item}
use veri_swarm_flight.Base.Text.{decimal, decimal_ℤ, concat}
use veri_swarm_flight.Node.Events.{
  Field, absent, words, other, Seq, missing, number, castable, strange, Line, malformed, File,
  Write, done, unsynced, cut, refused, empty_file, glued, append_text, write_line, Codec, Emission,
  last_complete_from, seq_of, hash_of, open_log, emit, check_event, verify_from, verify_event_chain,
  last_complete,
}
use veri_swarm_flight.Node.Events.Writers.{Turn, opens, emits, step, run, run-verify_event_chain}
use veri_swarm_flight.Node.Events.Tamper.{records, Collision, IsFaithful, final_hash_pins_records}

-- Canonical texts of poses at time 9: the number and the hash that is named.
abbrev pose_text : Seq → Option ℤ → Option String → Field → Option (ℕ × String)
pose_text (number (pos n)) (some t) (some k) (words s) =
    if int_beq t (pos 9) && k == "pose" then some (n, s) else none
pose_text s t k f = none

pair_beq : ℕ × String → ℕ × String → Bool
pair_beq (n, s) (m, t) = eqb n m && s == t

pair_beq_iff : (x y : ℕ × String) → (pair_beq x y ≡ true) ↔ (x ≡ y)
unfolding pair_beq
pair_beq_iff (n, s) (m, t) = ground (arith, eq_iff s t)

instance abbrev pair_eq : Eq (ℕ × String)
pair_eq = record { beq = pair_beq; beq_iff = pair_beq_iff }

abbrev codec : Codec (Unit {0}) (ℕ × String)
codec = record {
  dumps = λ p. pose_text p.seq p.t p.kind p.prev_hash;
  sha256_hex = λ b. concat "h" (decimal b.0);
  failure = tt;
}

abbrev IsPose : Seq → Option ℤ → Option String → Field → ℕ × String → Type 0
IsPose s t k f x = (s ≡ number (pos x.0)) × (t ≡ some (pos 9)) × (k ≡ some "pose") × (f ≡ words x.1)

pose_text-IsPose :
    (s : Seq) (t : Option ℤ) (k : Option String) (f : Field) (x : ℕ × String)
    → pose_text s t k f ≡ some x
    → IsPose s t k f x
pose_text-IsPose missing t k f x h = cc
pose_text-IsPose (castable n s) t k f x h = cc
pose_text-IsPose (strange s) t k f x h = cc
pose_text-IsPose (number (negsuc n)) t k f x h = cc
pose_text-IsPose (number (pos n)) none k f x h = cc
pose_text-IsPose (number (pos n)) (some t) none f x h = cc
pose_text-IsPose (number (pos n)) (some t) (some k) absent x h = cc
pose_text-IsPose (number (pos n)) (some t) (some k) (other s) x h = cc
pose_text-IsPose (number (pos n)) (some t) (some k) (words s) x h =
    let e : (n, s) ≡ x = ground arith in
    (
      ap (λ y. number (pos y.0)) e,
      ap some ((int_beq_iff t (pos 9)).0 (ground arith)),
      ap some ((eq_iff k "pose").0 (ground arith)),
      ap (λ y. words y.1) e,
    )

faithful : IsFaithful codec
faithful a b x h k =
    let (s, t, l, f) = pose_text-IsPose a.seq a.t a.kind a.prev_hash x h in
    let (s', t', l', f') = pose_text-IsPose b.seq b.t b.kind b.prev_hash x k in
    λ i. record {
      seq = (s ∙ sym s') i;
      t = (t ∙ sym t') i;
      kind = (l ∙ sym l') i;
      prev_hash = (f ∙ sym f') i;
      rest = tt;
    }

unfoldable pub program : Unit {0}
unfolding glued append_text write_line get set_item last_complete_from seq_of hash_of open_log emit
    check_event verify_from verify_event_chain step run ◌+ℤ◌ int_beq decimal decimal_ℤ
program = tt

abbrev pose : Write → Emission (Unit {0})
pose write = record { kind = "pose"; rest = tt; now = pos 9; write = write }

-- Two writers take turns; one write is refused, and one is written but not synced.
abbrev turns : List (Turn (Unit {0}))
turns =
    opens "mission" false
    ∷ emits "mission" (pose done)
    ∷ opens "console" false
    ∷ emits "mission" (pose done)
    ∷ emits "console" (pose refused)
    ∷ emits "console" (pose unsynced)
    ∷ emits "mission" (pose done)
    ∷ []

-- A line that is no JSON, with its newline.
abbrev torn : File (Unit {0})
torn = record { lines = malformed ∷ []; ended = true }

abbrev log : List (Line (Unit {0}))
log = (run codec (record { file = torn; writers = [] }) turns).file.lines

four_records : length (records log) ≡ 4
unfolding program
four_records = refl

torn_valid : verify_event_chain codec (malformed ∷ []) ≡ ok (true, "ok")
unfolding program
torn_valid = refl

run-verify_event_chain_example : verify_event_chain codec log ≡ ok (true, "ok")
run-verify_event_chain_example = run-verify_event_chain codec (malformed ∷ []) turns torn_valid refl

-- A second process empties the log while a writer is open: the chain starts with number 2.
emptied :
    verify_event_chain codec
      (run codec
        (record { file = empty_file; writers = [] })
        (opens "mission" false
          ∷ emits "mission" (pose done)
          ∷ opens "console" true
          ∷ emits "mission" (pose done)
          ∷ [])).file.lines
    ≡ ok (false, "sequence_gap:expected=1,got=2")
unfolding program
emptied = refl

-- A write is cut off: the next event is appended to the torn line and cannot be read, so the one after
-- it leaves a gap.
cut_off :
    verify_event_chain codec
      (run codec
        (record { file = empty_file; writers = [] })
        (opens "mission" false
          ∷ emits "mission" (pose done)
          ∷ emits "mission" (pose cut)
          ∷ emits "mission" (pose done)
          ∷ emits "mission" (pose done)
          ∷ [])).file.lines
    ≡ ok (false, "sequence_gap:expected=2,got=3")
unfolding program
cut_off = refl

-- The same log with a torn line behind it.
abbrev copied : List (Line (Unit {0}))
copied = log ++ malformed ∷ []

copied_valid : verify_event_chain codec copied ≡ ok (true, "ok")
unfolding program
copied_valid = refl

same_end : hash_of (last_complete log) ≡ hash_of (last_complete copied)
unfolding program
same_end = refl

same_length : length (records log) ≡ length (records copied)
unfolding program
same_length = refl

final_hash_pins_records_example : Collision codec.sha256_hex ⊎ (records log ≡ records copied)
final_hash_pins_records_example =
    final_hash_pins_records codec log copied faithful run-verify_event_chain_example copied_valid
      same_length same_end
