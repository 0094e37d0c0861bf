-- ===== src/Terminal/Coalesce/Stream.antt =====
-- core/src/pty/ring.rs: `coalesce` neither loses nor reorders a byte, and keeps no full batch waiting.
use core_tempo.Common.{
  ℕ, ◌≡◌, ◌≢◌, refl, ap, subst, sym, ◌∙◌, true, List, [], ◌∷◌, ◌++◌, ltb, length, arith, inl, inr,
  Bool-cases,
}
use core_tempo.Terminal.Coalesce.{
  Wake, received, elapsed, closed, Phase, waiting, batching, returned, Coalescer, start, flush,
  extend, wake_at, coalesce, flush_bytes,
}

abbrev pub joined : List (List ℕ) → List ℕ
joined [] = []
joined (bytes ∷ rest) = bytes ++ joined rest

-- The bytes read before the reads ended.
abbrev pub read_in : List Wake → List ℕ
read_in [] = []
read_in (received bytes ∷ wakes) = bytes ++ read_in wakes
read_in (elapsed ∷ wakes) = read_in wakes
read_in (closed ∷ wakes) = []

append_assoc : (xs ys zs : List ℕ) → (xs ++ ys) ++ zs ≡ xs ++ (ys ++ zs)
append_assoc [] ys zs = refl
append_assoc (x ∷ xs) ys zs = ap (λ l. x ∷ l) (append_assoc xs ys zs)

append_nil : (xs : List ℕ) → xs ++ [] ≡ xs
append_nil [] = refl
append_nil (x ∷ xs) = ap (λ l. x ∷ l) (append_nil xs)

joined-snoc : (xss : List (List ℕ)) (xs : List ℕ) → joined (xss ++ xs ∷ []) ≡ joined xss ++ xs
joined-snoc [] xs = append_nil xs
joined-snoc (ys ∷ xss) xs = rw (joined-snoc xss xs, append_assoc ys (joined xss) xs) refl

-- All that has come out and is still held.
abbrev pub total : Coalescer → List ℕ
total c = joined c.flushed ++ c.pending

abbrev pub Held : Phase → List ℕ → Type 0
Held batching pending = Unit
Held waiting pending = pending ≡ []
Held returned pending = pending ≡ []

-- Between two wakes: a batch is short, and nothing is held while none is under way.
pub record IsShort (c : Coalescer) : Type 0 where
  pub short : ltb (length c.pending) flush_bytes ≡ true
  pub held : Held c.phase c.pending

flush-total : (next : Phase) (c : Coalescer) → total (flush next c) ≡ total c
flush-total next c =
    append_nil (joined (c.flushed ++ c.pending ∷ [])) ∙ joined-snoc c.flushed c.pending

extend-total : (bytes : List ℕ) (c : Coalescer) → total (extend bytes c) ≡ total c ++ bytes
extend-total bytes c =
    let more : Coalescer = record c { phase = batching; pending = c.pending ++ bytes } in
    let grown : total more ≡ total c ++ bytes =
      sym (append_assoc (joined c.flushed) c.pending bytes) in
    elim (Bool-cases (ltb (length (c.pending ++ bytes)) flush_bytes)) [
      | inl short ↦ rw short grown
      | inr full ↦ rw full (flush-total waiting more ∙ grown)
    ]

flush-IsShort : (next : Phase) (c : Coalescer) → Held next [] → IsShort (flush next c)
flush-IsShort next c h = record { short = ground arith; held = h }

extend-IsShort : (bytes : List ℕ) (c : Coalescer) → IsShort (extend bytes c)
extend-IsShort bytes c = elim (Bool-cases (ltb (length (c.pending ++ bytes)) flush_bytes)) [
  | inl short ↦ rw short (record { short = short; held = tt })
  | inr full ↦
      rw full
        (flush-IsShort waiting (record c { phase = batching; pending = c.pending ++ bytes }) refl)
]

-- Nothing wakes it once it has returned.
coalesce_returned : (c : Coalescer) (wakes : List Wake) → c.phase ≡ returned → coalesce c wakes ≡ c
unfolding coalesce
coalesce_returned c [] h = refl
coalesce_returned c (wake ∷ wakes) h = simp h (coalesce_returned c wakes h)

-- What `coalesce` makes of the wakes from some state on.
record Streams (c : Coalescer) (wakes : List Wake) (out : Coalescer) : Type 0 where
  all_read : total out ≡ total c ++ read_in wakes
  is_short : IsShort out

extend_going : (bytes : List ℕ) (c : Coalescer) → (extend bytes c).phase ≢ returned
extend_going bytes c e = elim (Bool-cases (ltb (length (c.pending ++ bytes)) flush_bytes)) [
  | inl short ↦ ground (arith, rw short at e)
  | inr full ↦ ground (arith, rw full at e)
]

module _ (wakes : List Wake) (c : Coalescer) (going : c.phase ≢ returned) (short : IsShort c)
    (rest : (d : Coalescer)
      → d.phase ≢ returned
      → IsShort d
      → Streams d wakes (coalesce d wakes)) where
  onward :
      (next : Coalescer) (bytes : List ℕ)
      → total next ≡ total c ++ bytes
      → Streams next wakes (coalesce next wakes)
      → Streams c (received bytes ∷ wakes) (coalesce next wakes)
  onward next bytes e s = record {
    all_read = s.all_read ∙ rw e (append_assoc (total c) bytes (read_in wakes));
    is_short = s.is_short;
  }

  read_on : (bytes : List ℕ) → Streams c (received bytes ∷ wakes) (coalesce (extend bytes c) wakes)
  read_on bytes =
      onward (extend bytes c) bytes (extend-total bytes c)
        (rest (extend bytes c) (extend_going bytes c) (extend-IsShort bytes c))

  ended :
      (out : Coalescer)
      → out.phase ≡ returned
      → total out ≡ total c
      → IsShort out
      → Streams c (closed ∷ wakes) (coalesce out wakes)
  ended out done e s =
      rw (coalesce_returned out wakes done)
        (record { all_read = e ∙ sym (append_nil (total c)); is_short = s })

  woken :
      (p : Phase) (w : Wake) → c.phase ≡ p → Streams c (w ∷ wakes) (coalesce (wake_at p c w) wakes)
  woken waiting (received bytes) here = read_on bytes
  woken batching (received bytes) here = read_on bytes
  woken waiting elapsed here =
      let s = rest c going short in record { all_read = s.all_read; is_short = s.is_short }
  woken batching elapsed here =
      let s = rest (flush waiting c) (λ e. ground (arith, e)) (flush-IsShort waiting c refl) in
      record { all_read = s.all_read ∙ rw (flush-total waiting c) refl; is_short = s.is_short }
  woken waiting closed here =
      ended (record c { phase = returned }) refl refl
        (record { short = short.short; held = subst (λ q. Held q c.pending) here short.held })
  woken batching closed here =
      ended (flush returned c) refl (flush-total returned c) (flush-IsShort returned c refl)
  woken returned w here = absurd (going here)

coalesce-Streams :
    (wakes : List Wake) (c : Coalescer)
    → c.phase ≢ returned
    → IsShort c
    → Streams c wakes (coalesce c wakes)
unfolding coalesce
coalesce-Streams [] c going short = record {
  all_read = sym (append_nil (total c));
  is_short = short;
}
coalesce-Streams (wake ∷ wakes) c going short =
    woken wakes c going short (coalesce-Streams wakes) c.phase wake refl

-- Whatever reads, deadlines and end of the reads come in whatever order: the flushes joined in order, with
-- what is still held, are the bytes read before the end, a batch held is shorter than 32 KB, and nothing is
-- held while no batch is under way or once the reads have ended.
pub coalesce_lem :
    (wakes : List Wake)
    → (joined (coalesce start wakes).flushed ++ (coalesce start wakes).pending ≡ read_in wakes)
      × (ltb (length (coalesce start wakes).pending) flush_bytes ≡ true)
      × Held (coalesce start wakes).phase (coalesce start wakes).pending
coalesce_lem wakes =
    let s =
      coalesce-Streams wakes start (λ e. ground (arith, e))
        (record { short = ground arith; held = refl }) in
    (s.all_read, s.is_short.short, s.is_short.held)
