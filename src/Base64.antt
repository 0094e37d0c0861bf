-- ===== src/Base64.antt =====
-- core/src/api/sse.rs: `b64_encode`, and cli/src/session/b64.rs: `decode`, with bytes and characters as
-- numbers below 256. A shift left and an `|` of disjoint bits are a product and a sum; a shift right and a
-- mask are a quotient and a remainder.
pub mod RoundTrip
use core_tempo.Common.{
  ℕ, ◌+◌, ◌-◌, ◌*◌, ◌/◌, ◌%◌, Bool, true, false, not, ◌&&◌, ◌||◌, List, [], ◌∷◌, ◌++◌, Option, none,
  some, nat_beq, leb, ltb, length, if◌then◌else◌,
}

infixl 20 ◌>>=◌
abbrev ◌>>=◌ {ℓ κ} : {A : Type ℓ} {B : Type κ} → Option A → (A → Option B) → Option B
none >>= f = none
some a >>= f = f a

-- `B64_TABLE` at an index below 64: the letters, the digits, `+` and `/`.
unfoldable pub table : ℕ → ℕ
table i =
    if ltb i 26
    then 65 + i
    else if ltb i 52
    then 97 + (i - 26)
    else if ltb i 62
    then 48 + (i - 52)
    else if nat_beq i 62
    then 43
    else 47

abbrev pub equals_sign : ℕ
equals_sign = 61

abbrev pub word : ℕ → ℕ → ℕ → ℕ
word a b c = a * 65536 + b * 256 + c

-- Three bytes to four characters, the last two of them padding where bytes are missing.
unfoldable pub encode : List ℕ → List ℕ
unfolding table
encode [] = []
encode (a ∷ []) =
    table (word a 0 0 / 262144 % 64)
    ∷ table (word a 0 0 / 4096 % 64)
    ∷ equals_sign
    ∷ equals_sign
    ∷ []
encode (a ∷ b ∷ []) =
    table (word a b 0 / 262144 % 64)
    ∷ table (word a b 0 / 4096 % 64)
    ∷ table (word a b 0 / 64 % 64)
    ∷ equals_sign
    ∷ []
encode (a ∷ b ∷ c ∷ bytes) =
    table (word a b c / 262144 % 64)
    ∷ table (word a b c / 4096 % 64)
    ∷ table (word a b c / 64 % 64)
    ∷ table (word a b c % 64)
    ∷ encode bytes

unfoldable pub sextet : ℕ → Option ℕ
sextet c =
    if leb 65 c && leb c 90
    then some (c - 65)
    else if leb 97 c && leb c 122
    then some (c - 97 + 26)
    else if leb 48 c && leb c 57
    then some (c - 48 + 52)
    else if nat_beq c 43
    then some 62
    else if nat_beq c 47
    then some 63
    else none

-- How many `=` the quantum ends in.
unfoldable pub padding : ℕ → ℕ → ℕ → ℕ → ℕ
padding p q r s =
    if not (nat_beq s equals_sign)
    then 0
    else if not (nat_beq r equals_sign)
    then 1
    else if not (nat_beq q equals_sign)
    then 2
    else if not (nat_beq p equals_sign)
    then 3
    else 4

-- The value of a character at a position, 0 where it is padding.
abbrev pub value_at : ℕ → ℕ → ℕ → Option ℕ
value_at pad position c = if leb (4 - pad) position then some 0 else sextet c

-- `n << 6 | value`, four times.
unfoldable pub quantum : ℕ → ℕ → ℕ → ℕ → ℕ → Option ℕ
unfolding sextet
quantum pad p q r s = do
  a ← value_at pad 0 p
  b ← value_at pad 1 q
  c ← value_at pad 2 r
  d ← value_at pad 3 s
  some (((a * 64 + b) * 64 + c) * 64 + d)

-- The low three bytes, less those that are padding.
abbrev pub bytes_of : ℕ → ℕ → List ℕ
bytes_of pad n =
    n / 65536 % 256
    ∷ (if ltb pad 2 then n / 256 % 256 ∷ (if ltb pad 1 then n % 256 ∷ [] else []) else [])

abbrev pub is_empty : List ℕ → Bool
is_empty [] = true
is_empty (c ∷ cs) = false

-- One quantum: padding says that it is short, so it can only end the input.
abbrev pub decode_one : ℕ → Bool → Option ℕ → Option (List ℕ) → Option (List ℕ)
decode_one pad more value after =
    if ltb 2 pad || ltb 0 pad && more
    then none
    else do n ← value; bytes ← after; some (bytes_of pad n ++ bytes)

unfoldable pub decode_quanta : List ℕ → Option (List ℕ)
unfolding quantum padding
decode_quanta [] = some []
decode_quanta (p ∷ q ∷ r ∷ s ∷ rest) =
    let pad = padding p q r s in
    decode_one pad (not (is_empty rest)) (quantum pad p q r s) (decode_quanta rest)
decode_quanta _ = none

unfoldable pub decode : List ℕ → Option (List ℕ)
unfolding decode_quanta
decode text = if not (nat_beq (length text % 4) 0) then none else decode_quanta text
