-- ===== src/Terminal/Stripper/Chunks.antt =====
-- core/src/pty/detector.rs: the stripper over a stream that arrives in chunks.
use core_tempo.Common.{
  ℕ, ◌≡◌, refl, ap, Bool, true, false, ◌||◌, List, [], ◌∷◌, ◌++◌, nat_beq, nat_beq_iff, all, arith,
  inl, inr, Bool-cases,
}
use core_tempo.Terminal.Stripper.{
  StripMode, text, esc, csi, osc, osc_esc, printable, strip_byte, feed,
}

-- One `feed` after another, the outputs joined.
unfoldable pub feed_all : StripMode → List (List ℕ) → List ℕ × StripMode
feed_all mode [] = ([], mode)
feed_all mode (chunk ∷ chunks) =
    let (out, next) = feed mode chunk in
    let (rest, last) = feed_all next chunks in (out ++ rest, last)

abbrev pub join_all : List (List ℕ) → List ℕ
join_all [] = []
join_all (chunk ∷ chunks) = chunk ++ join_all chunks

append_assoc : (xs ys zs : List ℕ) → (xs ++ ys) ++ zs ≡ xs ++ (ys ++ zs)
append_assoc [] ys zs = refl
append_assoc (x ∷ xs) ys zs = ap (λ l. x ∷ l) (append_assoc xs ys zs)

feed-append :
    (mode : StripMode) (xs ys : List ℕ)
    → feed mode (xs ++ ys)
      ≡ ((feed mode xs).0 ++ (feed (feed mode xs).1 ys).0, (feed (feed mode xs).1 ys).1)
unfolding feed
feed-append mode [] ys = refl
feed-append mode (b ∷ xs) ys =
    let one = strip_byte mode b in
    rw (feed-append one.1 xs ys, append_assoc one.0 (feed one.1 xs).0 (feed (feed one.1 xs).1 ys).0)
      refl

pub feed_all-join_all :
    (mode : StripMode) (chunks : List (List ℕ)) → feed_all mode chunks ≡ feed mode (join_all chunks)
unfolding feed_all feed
feed_all-join_all mode [] = refl
feed_all-join_all mode (chunk ∷ chunks) =
    rw (feed-append mode chunk (join_all chunks), feed_all-join_all (feed mode chunk).1 chunks) refl

abbrev pub passes : ℕ → Bool
passes b = nat_beq b 10 || printable b

all-append :
    (xs ys : List ℕ) → all passes xs ≡ true → all passes ys ≡ true → all passes (xs ++ ys) ≡ true
all-append [] ys hx hy = hy
all-append (x ∷ xs) ys hx hy = ground (arith, all-append xs ys)

strip_byte-passes : (mode : StripMode) (b : ℕ) → all passes (strip_byte mode b).0 ≡ true
unfolding strip_byte
strip_byte-passes text b = ground arith
strip_byte-passes esc b = ground arith
strip_byte-passes csi b = ground arith
strip_byte-passes osc b = ground arith
strip_byte-passes osc_esc b = refl

-- Whatever comes in, in whatever mode, only newlines and printable ASCII come out.
pub feed-passes : (mode : StripMode) (bytes : List ℕ) → all passes (feed mode bytes).0 ≡ true
unfolding feed
feed-passes mode [] = refl
feed-passes mode (b ∷ bytes) =
    all-append (strip_byte mode b).0 (feed (strip_byte mode b).1 bytes).0 (strip_byte-passes mode b)
      (feed-passes (strip_byte mode b).1 bytes)

strip_byte_clean : (b : ℕ) → passes b ≡ true → strip_byte text b ≡ (b ∷ [], text)
unfolding strip_byte
strip_byte_clean b h = elim (Bool-cases (nat_beq b 10)) [
  | inl newline ↦ let same : b ≡ 10 = (nat_beq_iff b 10).0 newline in rw same refl
  | inr other ↦
      let shown : printable b ≡ true = ground (arith, other, h) in
      let not_esc : nat_beq b 27 ≡ false = ground (arith, nat_beq_iff b 27, shown) in
      rw (not_esc, other, shown) refl
]

feed_clean : (bytes : List ℕ) → all passes bytes ≡ true → feed text bytes ≡ (bytes, text)
unfolding feed
feed_clean [] h = refl
feed_clean (b ∷ bytes) h =
    let first : passes b ≡ true = ground (arith, h) in
    let clean : all passes bytes ≡ true = ground (arith, h) in
    rw (strip_byte_clean b first, feed_clean bytes clean) refl

-- Stripping is idempotent: what has passed the stripper passes it again as it is.
pub feed_again :
    (mode : StripMode) (bytes : List ℕ)
    → feed text (feed mode bytes).0 ≡ ((feed mode bytes).0, text)
feed_again mode bytes = feed_clean (feed mode bytes).0 (feed-passes mode bytes)
