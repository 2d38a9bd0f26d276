-- ===== src/Protocol/Json.antt =====
-- The values that `json.dumps` prints, and the code outside the repository that the protocol calls:
-- JSON printing, SHA-256 and Ed25519 (PyNaCl).
use veri_swarm_flight.Base.{ℕ, ◌≡◌, refl, Bool, Option, List, [], ◌∷◌, String}
use veri_swarm_flight.Base.Int.{ℤ}

mutual
  pub data Json (F : Type 0) : Type 0 where
    boolean : Bool → Json F
    integer : ℤ → Json F
    number : F → Json F
    text : String → Json F
    array : Items F → Json F
    object : Fields F → Json F

  pub data Items (F : Type 0) : Type 0 where
    nil : Items F
    cons : Json F → Items F → Items F

  pub data Fields (F : Type 0) : Type 0 where
    end : Fields F
    field : String → Json F → Fields F → Fields F

-- `B` is the type of byte strings.
pub record Library (F B : Type 0) : Type 0 where
  -- `json.dumps(value, sort_keys=True, separators=(",", ":"), ensure_ascii=True).encode("utf-8")`.
  pub dumps : Json F → B
  -- `hashlib.sha256(message).hexdigest()`.
  pub sha256_hex : B → String
  -- `VerifyKey(bytes.fromhex(hex))`, `none` where it raises.
  pub load_key : String → Option (List ℕ)
  -- `key.verify(message, bytes.fromhex(signature))`, `false` where it raises.
  pub verifies : List ℕ → B → String → Bool

module _ {F : Type 0} where
  unfoldable pub numbers : List F → Items F
  numbers [] = nil
  numbers (x ∷ xs) = cons (number x) (numbers xs)

  unfoldable pub integers : List ℤ → Items F
  integers [] = nil
  integers (x ∷ xs) = cons (integer x) (integers xs)

  pub numbers-injective : (xs ys : List F) → numbers xs ≡ numbers ys → xs ≡ ys
  unfolding numbers
  numbers-injective [] [] h = refl
  numbers-injective [] (y ∷ ys) h = cc
  numbers-injective (x ∷ xs) [] h = cc
  numbers-injective (x ∷ xs) (y ∷ ys) h = cc (numbers-injective xs ys (cc))

  pub integers-injective : (xs ys : List ℤ) → integers xs ≡ integers ys → xs ≡ ys
  unfolding integers
  integers-injective [] [] h = refl
  integers-injective [] (y ∷ ys) h = cc
  integers-injective (x ∷ xs) [] h = cc
  integers-injective (x ∷ xs) (y ∷ ys) h = cc (integers-injective xs ys (cc))
