-- ===== src/Base64/RoundTrip.antt =====
-- core/src/api/sse.rs and cli/src/session/b64.rs: what the server encodes, the client decodes.
use core_tempo.Common.{
  ℕ, ◌+◌, ◌*◌, ◌/◌, ◌%◌, ◌<◌, ◌≡◌, refl, false, List, [], ◌∷◌, some, nat_beq, length, arith, All,
}
use core_tempo.Base64.{
  table, equals_sign, word, encode, sextet, padding, quantum, decode_quanta, decode,
}

sextet-table : (i : ℕ) → i < 64 → sextet (table i) ≡ some i
unfolding sextet table
sextet-table i h = ground (arith, h)

table_no_padding : (i : ℕ) → i < 64 → nat_beq (table i) equals_sign ≡ false
unfolding table
table_no_padding i h = ground (arith, h)

quantum-full :
    (i j k l : ℕ)
    → i < 64
    → j < 64
    → k < 64
    → l < 64
    → quantum 0 (table i) (table j) (table k) (table l) ≡ some (((i * 64 + j) * 64 + k) * 64 + l)
unfolding quantum
quantum-full i j k l hi hj hk hl =
    rw (sextet-table i hi, sextet-table j hj, sextet-table k hk, sextet-table l hl) refl

quantum-short :
    (i j k : ℕ)
    → i < 64
    → j < 64
    → k < 64
    → quantum 1 (table i) (table j) (table k) equals_sign ≡ some (((i * 64 + j) * 64 + k) * 64 + 0)
unfolding quantum
quantum-short i j k hi hj hk = rw (sextet-table i hi, sextet-table j hj, sextet-table k hk) refl

quantum-shorter :
    (i j : ℕ)
    → i < 64
    → j < 64
    → quantum 2 (table i) (table j) equals_sign equals_sign
      ≡ some (((i * 64 + j) * 64 + 0) * 64 + 0)
unfolding quantum
quantum-shorter i j hi hj = rw (sextet-table i hi, sextet-table j hj) refl

padding-full : (p q r l : ℕ) → l < 64 → padding p q r (table l) ≡ 0
unfolding padding
padding-full p q r l hl = rw (table_no_padding l hl) refl

padding-short : (p q k : ℕ) → k < 64 → padding p q (table k) equals_sign ≡ 1
unfolding padding
padding-short p q k hk = rw (table_no_padding k hk) refl

padding-shorter : (p j : ℕ) → j < 64 → padding p (table j) equals_sign equals_sign ≡ 2
unfolding padding
padding-shorter p j hj = rw (table_no_padding j hj) refl

abbrev pub IsByte : ℕ → Type 0
IsByte b = b < 256

low : (n m : ℕ) → n / m % 64 < 64
low n m = omega arith

decode_quanta-encode :
    (bytes : List ℕ) → All IsByte bytes → decode_quanta (encode bytes) ≡ some bytes
unfolding decode_quanta encode
decode_quanta-encode [] h = refl
decode_quanta-encode (a ∷ []) h =
    let n = word a 0 0 in
    let byte = h.0 in
    let first : ((n / 262144 % 64 * 64 + n / 4096 % 64) * 64 + 0) * 64 + 0 ≡ n =
      omega (arith, byte) in
    let high : n / 65536 % 256 ≡ a = omega (arith, byte) in
    rw
      (
        padding-shorter (table (n / 262144 % 64)) (n / 4096 % 64) (omega arith),
        quantum-shorter (n / 262144 % 64) (n / 4096 % 64) (omega arith) (omega arith),
        first,
        high,
      )
      refl
decode_quanta-encode (a ∷ b ∷ []) h =
    let n = word a b 0 in
    let one = h.0 in
    let two = h.1.0 in
    let first : ((n / 262144 % 64 * 64 + n / 4096 % 64) * 64 + n / 64 % 64) * 64 + 0 ≡ n =
      omega (arith, one, two) in
    let high : n / 65536 % 256 ≡ a = omega (arith, one, two) in
    let mid : n / 256 % 256 ≡ b = omega (arith, one, two) in
    rw
      (
        padding-short (table (n / 262144 % 64)) (table (n / 4096 % 64)) (n / 64 % 64) (omega arith),
        quantum-short (n / 262144 % 64) (n / 4096 % 64) (n / 64 % 64) (omega arith) (omega arith)
            (omega arith),
        first,
        high,
        mid,
      )
      refl
decode_quanta-encode (a ∷ b ∷ c ∷ bytes) h =
    let n = word a b c in
    let one = h.0 in
    let two = h.1.0 in
    let three = h.1.1.0 in
    let rest = h.1.1.1 in
    let first : ((n / 262144 % 64 * 64 + n / 4096 % 64) * 64 + n / 64 % 64) * 64 + n % 64 ≡ n =
      omega (arith, one, two, three) in
    let high : n / 65536 % 256 ≡ a = omega (arith, one, two, three) in
    let mid : n / 256 % 256 ≡ b = omega (arith, one, two, three) in
    let least : n % 256 ≡ c = omega (arith, one, two, three) in
    rw
      (
        padding-full (table (n / 262144 % 64)) (table (n / 4096 % 64)) (table (n / 64 % 64))
            (n % 64) (omega arith),
        quantum-full (n / 262144 % 64) (n / 4096 % 64) (n / 64 % 64) (n % 64) (omega arith)
            (omega arith) (omega arith) (omega arith),
        decode_quanta-encode bytes rest,
        first,
        high,
        mid,
        least,
      )
      refl

encode-whole : (bytes : List ℕ) → length (encode bytes) % 4 ≡ 0
unfolding encode
encode-whole [] = refl
encode-whole (a ∷ []) = refl
encode-whole (a ∷ b ∷ []) = refl
encode-whole (a ∷ b ∷ c ∷ bytes) = let rest = encode-whole bytes in omega (arith, rest)

-- What the client decodes of what the server encodes is the bytes that were encoded, whatever bytes they are.
pub decode-encode : (bytes : List ℕ) → All IsByte bytes → decode (encode bytes) ≡ some bytes
unfolding decode
decode-encode bytes h = rw (encode-whole bytes) (decode_quanta-encode bytes h)
