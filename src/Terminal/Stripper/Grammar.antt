-- ===== src/Terminal/Stripper/Grammar.antt =====
-- core/src/pty/detector.rs: what the stripper takes out of a stream, against a grammar of escape
-- sequences.
use core_tempo.Common.{
  ℕ, ◌≡◌, ◌≢◌, ◌≤◌, ◌<◌, ◌⊎◌, refl, ap, ◌∙◌, List, [], ◌∷◌, ◌++◌, nat_beq_iff, All, arith,
}
use core_tempo.Terminal.Stripper.{StripMode, text, esc, csi, osc, strip_byte, feed}

abbrev pub IsPrintable : ℕ → Type 0
IsPrintable b = (32 ≤ b) × (b ≤ 126)

-- A byte inside a control sequence, and the byte that ends one.
abbrev pub IsParameter : ℕ → Type 0
IsParameter b = (b < 64) ⊎ (126 < b)

abbrev pub IsFinal : ℕ → Type 0
IsFinal b = (64 ≤ b) × (b ≤ 126)

-- A byte of an operating system command, which a bell or an escape ends.
abbrev pub IsBody : ℕ → Type 0
IsBody b = (b ≢ 7) × (b ≢ 27)

-- A stream of whole sequences, and what of it is shown.
pub data Shown : List ℕ → List ℕ → Type 0 where
  nothing : Shown [] []
  newline : {bs out : List ℕ} → Shown bs out → Shown (10 ∷ bs) (10 ∷ out)
  char : {bs out : List ℕ} (b : ℕ) → IsPrintable b → Shown bs out → Shown (b ∷ bs) (b ∷ out)
  control :
      {bs out : List ℕ} (b : ℕ)
      → b ≢ 10
      → b ≢ 27
      → (b < 32) ⊎ (126 < b)
      → Shown bs out
      → Shown (b ∷ bs) out
  two_bytes : {bs out : List ℕ} (b : ℕ) → b ≢ 91 → b ≢ 93 → Shown bs out → Shown (27 ∷ b ∷ bs) out
  control_sequence :
      {all bs out : List ℕ} (parameters : List ℕ) (final : ℕ)
      → All IsParameter parameters
      → IsFinal final
      → all ≡ 27 ∷ 91 ∷ (parameters ++ final ∷ bs)
      → Shown bs out
      → Shown all out
  command_bell :
      {all bs out : List ℕ} (body : List ℕ)
      → All IsBody body
      → all ≡ 27 ∷ 93 ∷ (body ++ 7 ∷ bs)
      → Shown bs out
      → Shown all out
  command_escape :
      {all bs out : List ℕ} (body : List ℕ) (b : ℕ)
      → All IsBody body
      → all ≡ 27 ∷ 93 ∷ (body ++ 27 ∷ b ∷ bs)
      → Shown bs out
      → Shown all out

-- One byte, by its class.
text_char : (b : ℕ) → IsPrintable b → strip_byte text b ≡ (b ∷ [], text)
unfolding strip_byte
text_char b h = ground (arith, nat_beq_iff b 27, nat_beq_iff b 10)

text_control : (b : ℕ) → b ≢ 10 → b ≢ 27 → (b < 32) ⊎ (126 < b) → strip_byte text b ≡ ([], text)
unfolding strip_byte
text_control b n e h = ground (arith, nat_beq_iff b 27, nat_beq_iff b 10)

esc_other : (b : ℕ) → b ≢ 91 → b ≢ 93 → strip_byte esc b ≡ ([], text)
unfolding strip_byte
esc_other b h k = ground (arith, nat_beq_iff b 91, nat_beq_iff b 93)

csi_parameter : (b : ℕ) → IsParameter b → strip_byte csi b ≡ ([], csi)
unfolding strip_byte
csi_parameter b h = ground arith

csi_final : (b : ℕ) → IsFinal b → strip_byte csi b ≡ ([], text)
unfolding strip_byte
csi_final b h = ground arith

osc_body : (b : ℕ) → IsBody b → strip_byte osc b ≡ ([], osc)
unfolding strip_byte
osc_body b h = ground (arith, nat_beq_iff b 7, nat_beq_iff b 27)

-- One byte and then the rest.
feed_step :
    (mode : StripMode) (b : ℕ) (bs : List ℕ) {next : StripMode} {o : List ℕ}
    → strip_byte mode b ≡ (o, next)
    → feed mode (b ∷ bs) ≡ (o ++ (feed next bs).0, (feed next bs).1)
unfolding feed
feed_step mode b bs h = rw h refl

feed_parameters :
    (parameters bs : List ℕ)
    → All IsParameter parameters
    → feed csi (parameters ++ bs) ≡ feed csi bs
feed_parameters [] bs h = refl
feed_parameters (p ∷ parameters) bs h =
    feed_step csi p (parameters ++ bs) (csi_parameter p h.0) ∙ feed_parameters parameters bs h.1

feed_body : (body bs : List ℕ) → All IsBody body → feed osc (body ++ bs) ≡ feed osc bs
feed_body [] bs h = refl
feed_body (b ∷ body) bs h = feed_step osc b (body ++ bs) (osc_body b h.0) ∙ feed_body body bs h.1

feed_escape : (b : ℕ) (bs : List ℕ) → feed text (27 ∷ b ∷ bs) ≡ feed esc (b ∷ bs)
unfolding feed strip_byte
feed_escape b bs = refl

feed_csi : (bs : List ℕ) → feed esc (91 ∷ bs) ≡ feed csi bs
unfolding feed strip_byte
feed_csi bs = refl

feed_osc : (bs : List ℕ) → feed esc (93 ∷ bs) ≡ feed osc bs
unfolding feed strip_byte
feed_osc bs = refl

feed_bell : (bs : List ℕ) → feed osc (7 ∷ bs) ≡ feed text bs
unfolding feed strip_byte
feed_bell bs = refl

feed_osc_escape : (b : ℕ) (bs : List ℕ) → feed osc (27 ∷ b ∷ bs) ≡ feed text bs
unfolding feed strip_byte
feed_osc_escape b bs = refl

pub Shown-feed : {bytes out : List ℕ} → Shown bytes out → feed text bytes ≡ (out, text)
unfolding feed
Shown-feed nothing = refl
Shown-feed (newline {bs} s) = feed_step text 10 bs refl ∙ rw (Shown-feed s) refl
Shown-feed (char {bs} b h s) = feed_step text b bs (text_char b h) ∙ rw (Shown-feed s) refl
Shown-feed (control {bs} b n e h s) = feed_step text b bs (text_control b n e h) ∙ Shown-feed s
Shown-feed (two_bytes {bs} b h k s) =
    feed_escape b bs ∙ feed_step esc b bs (esc_other b h k) ∙ Shown-feed s
Shown-feed (control_sequence {all} {bs} parameters final ps f e s) =
    ap (feed text) e
    ∙ feed_escape 91 (parameters ++ final ∷ bs)
    ∙ feed_csi (parameters ++ final ∷ bs)
    ∙ feed_parameters parameters (final ∷ bs) ps
    ∙ feed_step csi final bs (csi_final final f)
    ∙ Shown-feed s
Shown-feed (command_bell {all} {bs} body h e s) =
    ap (feed text) e
    ∙ feed_escape 93 (body ++ 7 ∷ bs)
    ∙ feed_osc (body ++ 7 ∷ bs)
    ∙ feed_body body (7 ∷ bs) h
    ∙ feed_bell bs
    ∙ Shown-feed s
Shown-feed (command_escape {all} {bs} body b h e s) =
    ap (feed text) e
    ∙ feed_escape 93 (body ++ 27 ∷ b ∷ bs)
    ∙ feed_osc (body ++ 27 ∷ b ∷ bs)
    ∙ feed_body body (27 ∷ b ∷ bs) h
    ∙ feed_osc_escape b bs
    ∙ Shown-feed s
