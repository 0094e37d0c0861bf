-- ===== src/Terminal/Stripper/Sequences.antt =====
-- core/src/pty/detector.rs: every stream that the stripper ends outside an escape sequence is one of the
-- grammar.
use core_tempo.Common.{
  ℕ, ◌≡◌, ◌≢◌, ◌↔◌, refl, sym, ap, ◌∙◌, subst, false, ◌&&◌, List, [], ◌∷◌, ◌++◌, nat_beq,
  nat_beq_iff, leb, All, arith, inl, inr, Bool-cases,
}
use mathlib.Core.List.{append_assoc}
use core_tempo.Terminal.Stripper.{
  StripMode, text, esc, csi, osc, osc_esc, printable, strip_byte, feed,
}
use core_tempo.Terminal.Stripper.Chunks.{feed_all, join_all, feed_all-join_all}
use core_tempo.Terminal.Stripper.Grammar.{
  Shown, nothing, newline, char, control, two_bytes, control_sequence, command_bell, command_escape,
  IsParameter, IsBody, Shown-feed,
}

All-snoc : (P : ℕ → Type 0) (xs : List ℕ) (x : ℕ) → All P xs → P x → All P (xs ++ x ∷ [])
All-snoc P [] x h p = (p, tt)
All-snoc P (y ∷ xs) x h p = (h.0, All-snoc P xs x h.1 p)

-- What the rest of a stream is in each mode, if the stream ends outside a sequence.
abbrev Ends : StripMode → List ℕ → List ℕ → Type 0
Ends text bs out = Shown bs out
Ends esc bs out = Shown (27 ∷ bs) out
Ends csi bs out =
    (parameters : List ℕ) → All IsParameter parameters → Shown (27 ∷ 91 ∷ (parameters ++ bs)) out
Ends osc bs out = (body : List ℕ) → All IsBody body → Shown (27 ∷ 93 ∷ (body ++ bs)) out
Ends osc_esc bs out = (body : List ℕ) → All IsBody body → Shown (27 ∷ 93 ∷ (body ++ 27 ∷ bs)) out

differs : (b n : ℕ) → nat_beq b n ≡ false → b ≢ n
differs b n h e = cc (h, (nat_beq_iff b n).1 e)

text-Ends :
    (b : ℕ) (bs out : List ℕ)
    → Ends (strip_byte text b).1 bs out
    → Ends text (b ∷ bs) ((strip_byte text b).0 ++ out)
unfolding strip_byte
text-Ends b bs out h = elim (Bool-cases (nat_beq b 27)) [
  | inl e ↦ let same : b ≡ 27 = (nat_beq_iff b 27).0 e in rw same (rw same at h)
  | inr not_esc ↦ elim (Bool-cases (nat_beq b 10)) [
    | inl e ↦ let same : b ≡ 10 = (nat_beq_iff b 10).0 e in rw same (newline (rw same at h))
    | inr other ↦ elim (Bool-cases (printable b)) [
      | inl shown ↦
          rw (not_esc, other, shown)
            (char b (ground (arith, shown)) (rw (not_esc, other, shown) at h))
      | inr hidden ↦
          rw (not_esc, other, hidden)
            (control b (differs b 10 other) (differs b 27 not_esc) (ground (arith, hidden))
              (rw (not_esc, other, hidden) at h))
    ]
  ]
]

esc-Ends :
    (b : ℕ) (bs out : List ℕ)
    → Ends (strip_byte esc b).1 bs out
    → Ends esc (b ∷ bs) ((strip_byte esc b).0 ++ out)
unfolding strip_byte
esc-Ends b bs out h = elim (Bool-cases (nat_beq b 91)) [
  | inl e ↦ let same : b ≡ 91 = (nat_beq_iff b 91).0 e in rw same ((rw same at h) [] tt)
  | inr not_csi ↦ elim (Bool-cases (nat_beq b 93)) [
    | inl e ↦ let same : b ≡ 93 = (nat_beq_iff b 93).0 e in rw same ((rw same at h) [] tt)
    | inr other ↦
        rw (not_csi, other)
          (two_bytes b (differs b 91 not_csi) (differs b 93 other) (rw (not_csi, other) at h))
  ]
]

csi-Ends :
    (b : ℕ) (bs out : List ℕ)
    → Ends (strip_byte csi b).1 bs out
    → Ends csi (b ∷ bs) ((strip_byte csi b).0 ++ out)
unfolding strip_byte
csi-Ends b bs out h = elim (Bool-cases (leb 64 b && leb b 126)) [
  | inl final ↦
      rw final
        (λ ps all_ps. control_sequence ps b all_ps (ground (arith, final)) refl (rw final at h))
  | inr parameter ↦ rw parameter (λ ps all_ps.
      subst (λ t. Shown (27 ∷ 91 ∷ t) out) (append_assoc ps (b ∷ []) bs)
        ((rw parameter at h) (ps ++ b ∷ [])
          (All-snoc IsParameter ps b all_ps (ground (arith, parameter)))))
]

osc-Ends :
    (b : ℕ) (bs out : List ℕ)
    → Ends (strip_byte osc b).1 bs out
    → Ends osc (b ∷ bs) ((strip_byte osc b).0 ++ out)
unfolding strip_byte
osc-Ends b bs out h = elim (Bool-cases (nat_beq b 7)) [
  | inl e ↦
      let same : b ≡ 7 = (nat_beq_iff b 7).0 e in
      rw same (λ body all_body. command_bell body all_body refl (rw same at h))
  | inr not_bell ↦ elim (Bool-cases (nat_beq b 27)) [
    | inl e ↦ let same : b ≡ 27 = (nat_beq_iff b 27).0 e in rw same (rw same at h)
    | inr other ↦
        rw (not_bell, other)
          (λ body all_body.
            subst (λ t. Shown (27 ∷ 93 ∷ t) out) (append_assoc body (b ∷ []) bs)
              ((rw (not_bell, other) at h) (body ++ b ∷ [])
                (All-snoc IsBody body b all_body (differs b 7 not_bell, differs b 27 other))))
  ]
]

step-Ends :
    (mode : StripMode) (b : ℕ) (bs out : List ℕ)
    → Ends (strip_byte mode b).1 bs out
    → Ends mode (b ∷ bs) ((strip_byte mode b).0 ++ out)
unfolding strip_byte
step-Ends text b bs out h = text-Ends b bs out h
step-Ends esc b bs out h = esc-Ends b bs out h
step-Ends csi b bs out h = csi-Ends b bs out h
step-Ends osc b bs out h = osc-Ends b bs out h
step-Ends osc_esc b bs out h = λ body all_body. command_escape body b all_body refl h

feed-Ends :
    (mode : StripMode) (bytes : List ℕ)
    → (feed mode bytes).1 ≡ text
    → Ends mode bytes (feed mode bytes).0
unfolding feed
feed-Ends text [] h = nothing
feed-Ends esc [] h = cc
feed-Ends csi [] h = cc
feed-Ends osc [] h = cc
feed-Ends osc_esc [] h = cc
feed-Ends mode (b ∷ bytes) h =
    step-Ends mode b bytes (feed (strip_byte mode b).1 bytes).0
      (feed-Ends (strip_byte mode b).1 bytes h)

-- A stream that arrives in any chunks, sequences split between two of them included, ends outside an escape
-- sequence with an output exactly when the grammar reads it as whole sequences that show just this: newlines
-- and printable characters are shown, other control bytes and bytes above 126 are not, nor is `ESC [` to a
-- final byte, `ESC ]` to a bell or to an escape and a byte, or an escape with any other byte.
pub feed_all-Shown :
    (chunks : List (List ℕ)) (out : List ℕ)
    → (feed_all text chunks ≡ (out, text)) ↔ Shown (join_all chunks) out
feed_all-Shown chunks out = (
  λ h.
      (let e : feed text (join_all chunks) ≡ (out, text) =
          sym (feed_all-join_all text chunks) ∙ h in
        subst (Shown (join_all chunks)) (ap (λ x. x.0) e)
          (feed-Ends text (join_all chunks) (ap (λ x. x.1) e))),
  λ s. feed_all-join_all text chunks ∙ Shown-feed s,
)
