-- ===== src/Base/Text.antt =====
-- Texts: the regular expressions that the program matches identifiers and digests against, the
-- decimal numerals of formatted messages, and `s[:n]`.
use Prim.Native.Nat.{ℕ, zero, suc, ◌/◌, ◌%◌}
use Prim.Native.Char.{code}
use Prim.Native.String.append
use Prim.Native.String.{String, ◌++◌}
use mathlib.Core.Path.{◌≡◌, refl, ap, ◌∙◌}
use mathlib.Core.Bool.{Bool, true, false, ◌&&◌, ◌||◌}
use mathlib.Core.List
use mathlib.Core.List.{List, ◌∷◌}
use native.Mathlib.Omega.{arith}
use veri_swarm_flight.Base.Tests.{leb, ltb, eqb, if◌then◌else◌}
use veri_swarm_flight.Base.Lists.{length, all}
use veri_swarm_flight.Base.Int.{ℤ, pos, negsuc}

-- The code points.
unfoldable pub codes : String → List ℕ
codes String.[] = List.[]
codes (String.◌∷◌ c s) = code c ∷ codes s

abbrev pub concat : String → String → String
concat s t = s ++ t

-- `s[:n]`.
unfoldable pub prefix : ℕ → String → String
prefix zero s = ""
prefix (suc n) String.[] = ""
prefix (suc n) (String.◌∷◌ c s) = String.◌∷◌ c (prefix n s)

abbrev pub is_digit : ℕ → Bool
is_digit c = leb b'0' c && leb c b'9'

-- `[0-9a-f]`.
unfoldable pub is_hex : ℕ → Bool
is_hex c = is_digit c || (leb b'a' c && leb c b'f')

-- `[A-Za-z0-9]`.
unfoldable pub is_alnum : ℕ → Bool
is_alnum c = is_digit c || (leb b'A' c && leb c b'Z') || (leb b'a' c && leb c b'z')

-- `[A-Za-z0-9_.-]`.
unfoldable pub is_name_char : ℕ → Bool
unfolding is_alnum
is_name_char c = is_alnum c || eqb c b'_' || eqb c b'.' || eqb c b'-'

-- `[A-Za-z0-9_.:-]`.
unfoldable pub is_reason_char : ℕ → Bool
unfolding is_name_char
is_reason_char c = is_name_char c || eqb c b':'

-- `[0-9a-f]{n}\Z`.
unfoldable pub is_hex_text : ℕ → String → Bool
unfolding codes is_hex
is_hex_text n s = eqb (length (codes s)) n && all is_hex (codes s)

-- `[A-Za-z0-9][class]{0,most}\Z`.
unfoldable pub is_name_codes : (ℕ → Bool) → ℕ → List ℕ → Bool
is_name_codes class most List.[] = false
is_name_codes class most (c ∷ cs) = is_alnum c && leb (length cs) most && all class cs

digit : ℕ → String
digit n =
    if eqb n 0
    then "0"
    else if eqb n 1
    then "1"
    else if eqb n 2
    then "2"
    else if eqb n 3
    then "3"
    else if eqb n 4
    then "4"
    else if eqb n 5
    then "5"
    else if eqb n 6
    then "6"
    else if eqb n 7
    then "7"
    else if eqb n 8
    then "8"
    else "9"

decimal_go : ℕ → ℕ → String → String
decimal_go zero n acc = acc
decimal_go (suc f) n acc =
    let rest = decimal_go f (n / 10) (digit (n % 10) ++ acc) in
    if ltb n 10 then digit n ++ acc else rest

-- `str(n)`: `n + 1` rounds are more than it has digits.
unfoldable pub decimal : ℕ → String
unfolding digit decimal_go
decimal n = decimal_go (suc n) n ""

-- `str(n)` of an integer.
unfoldable pub decimal_ℤ : ℤ → String
unfolding decimal
decimal_ℤ (pos n) = decimal n
decimal_ℤ (negsuc n) = "-" ++ decimal (suc n)

pub codes-append : (s t : String) → codes (s ++ t) ≡ List.◌++◌ (codes s) (codes t)
unfolding codes
codes-append String.[] t = ap codes (λ i. append.nil t i)
codes-append (String.◌∷◌ c s) t =
    ap codes (λ i. append.cons c s t i) ∙ ap (◌∷◌ (code c)) (codes-append s t)

all-append :
    (p : ℕ → Bool) (xs ys : List ℕ)
    → all p xs ≡ true
    → all p ys ≡ true
    → all p (List.◌++◌ xs ys) ≡ true
all-append p List.[] ys h k = k
all-append p (x ∷ xs) ys h k = ground (arith, all-append p xs ys)

pub all-codes-append :
    (p : ℕ → Bool) (s t : String)
    → all p (codes s) ≡ true
    → all p (codes t) ≡ true
    → all p (codes (s ++ t)) ≡ true
all-codes-append p s t h k = rw (codes-append s t) (all-append p (codes s) (codes t) h k)

decimal_test : decimal 1207 ≡ "1207"
unfolding decimal
decimal_test = refl
