-- ===== src/Ring/Window.antt =====
-- core/src/pty/ring.rs: the ring is a window on the end of everything ever written.
use Prim.Native.Nat.{min, max}
use mathlib.Core.List.{append-nil, append_assoc}
use core_tempo.Common.{
  ℕ, ◌+◌, ◌-◌, ◌≤◌, ◌<◌, ◌≡◌, refl, sym, ap, ◌∙◌, List, [], ◌∷◌, ◌++◌, none, some, arith, leb,
  Bool-cases, inl, inr, length, length-append, length-drop, drop, drop-append_le, drop-append_ge,
  drop-drop, drop-nil,
}
use core_tempo.Ring.{ReplayRing, new, push, start, read_since}

-- A ring after the writes whose bytes, all together, are `history`: it holds the last bytes of it, as
-- many as fit, and its cursors count in it.
pub record Holds (r : ReplayRing) (history : List ℕ) : Type 0 where
  pub counted : r.written ≡ length history
  pub kept : r.buf ≡ drop (length history - r.capacity) history

-- A new ring holds the end of the empty history.
pub new-Holds : (capacity : ℕ) → Holds (new capacity) []
unfolding new
new-Holds capacity = record { counted = refl; kept = sym (drop-nil (0 - capacity)) }

-- A write at least as long as the ring leaves its own end only.
kept_of_long :
    (cap : ℕ) (history bytes : List ℕ)
    → cap ≤ length bytes
    → drop (length bytes - cap) bytes ≡ drop (length (history ++ bytes) - cap) (history ++ bytes)
kept_of_long cap history bytes h = rw (length-append history bytes) (
    rw (drop-append_ge (length history + length bytes - cap) history bytes (omega arith))
      (ap (λ k. drop k bytes) {x = length bytes - cap} (omega arith)))

-- A shorter one pushes out as many old bytes as do not fit.
kept_of_short :
    (cap : ℕ) (history bytes : List ℕ)
    → length bytes < cap
    → let buf = drop (length history - cap) history in
      drop (length buf + length bytes - cap) buf ++ bytes
      ≡ drop (length (history ++ bytes) - cap) (history ++ bytes)
kept_of_short cap history bytes h =
    let past = length history - cap in
    let overflow = length (drop past history) + length bytes - cap in
    let total : past + overflow ≡ length history + length bytes - cap =
      omega (arith, length-drop past history) in
    rw (length-append history bytes) (
      rw (drop-append_le (length history + length bytes - cap) history bytes (omega arith))
        (ap (λ k. k ++ bytes) (drop-drop overflow past history ∙ ap (λ k. drop k history) total)))

-- A write, whatever its length, appends to the history that the ring holds the end of.
pub push-Holds :
    (r : ReplayRing) (history bytes : List ℕ)
    → Holds r history
    → Holds (push r bytes) (history ++ bytes)
unfolding push
push-Holds r history bytes h = record {
  counted = omega (arith, h.counted, length-append history bytes);
  kept = elim (Bool-cases (leb r.capacity (length bytes))) [
    | inl long ↦ rw long (kept_of_long r.capacity history bytes (ground arith))
    | inr short ↦ rw short (rw h.kept (kept_of_short r.capacity history bytes (ground arith)))
  ];
}

start_lem :
    (r : ReplayRing) (history : List ℕ) → Holds r history → start r ≡ length history - r.capacity
start_lem r history h =
    omega (arith, h.counted, ap length h.kept, length-drop (length history - r.capacity) history)

drop_window :
    (past from : ℕ) (xs : List ℕ) → past ≤ from → drop (from - past) (drop past xs) ≡ drop from xs
drop_window past from xs h =
    drop-drop (from - past) past xs ∙ ap (λ k. drop k xs) {x = past + (from - past)} (omega arith)

-- What is read from a cursor is what was written from there on.
read_of_Holds :
    (r : ReplayRing) (history : List ℕ) (since : ℕ)
    → Holds r history
    → read_since r (some since) ≡ (
      length history,
      drop (max (length history - r.capacity) (min (length history) since)) history,
    )
unfolding read_since
read_of_Holds r history since h =
    rw (start_lem r history h, h.counted, h.kept)
      (ap (λ (bytes : List ℕ). (length history, bytes)) (drop_window _ _ history (omega arith)))

read_all_of_Holds :
    (r : ReplayRing) (history : List ℕ)
    → Holds r history
    → read_since r none ≡ (length history, drop (length history - r.capacity) history)
unfolding read_since
read_all_of_Holds r history h =
    rw (start_lem r history h, h.counted, h.kept)
      (ap (λ (bytes : List ℕ). (length history, bytes)) (drop_window _ _ history (omega arith)))

-- Many writes, and the bytes of all of them.
abbrev pub pushes : ReplayRing → List (List ℕ) → ReplayRing
pushes r [] = r
pushes r (w ∷ ws) = pushes (push r w) ws

abbrev pub bytes_of : List (List ℕ) → List ℕ
bytes_of [] = []
bytes_of (w ∷ ws) = w ++ bytes_of ws

push-capacity : (r : ReplayRing) (bytes : List ℕ) → (push r bytes).capacity ≡ r.capacity
unfolding push
push-capacity r bytes = refl

pushes-Holds :
    (r : ReplayRing) (history : List ℕ) (ws : List (List ℕ))
    → Holds r history
    → Holds (pushes r ws) (history ++ bytes_of ws)
pushes-Holds r history [] h = rw (append-nil history) h
pushes-Holds r history (w ∷ ws) h =
    rw (← append_assoc history w (bytes_of ws))
      (pushes-Holds (push r w) (history ++ w) ws (push-Holds r history w h))

pushes-capacity : (r : ReplayRing) (ws : List (List ℕ)) → (pushes r ws).capacity ≡ r.capacity
pushes-capacity r [] = refl
pushes-capacity r (w ∷ ws) = pushes-capacity (push r w) ws ∙ push-capacity r w

new-capacity : (capacity : ℕ) → (new capacity).capacity ≡ capacity
unfolding new
new-capacity capacity = refl

-- After any writes to a new ring, a read from a cursor returns the count of all bytes written and the
-- bytes from that cursor on; a cursor that has left the ring is moved up to the oldest byte kept, and
-- one past the end yields nothing.
pub read_since-pushes :
    (capacity : ℕ) (ws : List (List ℕ)) (since : ℕ)
    → let history = bytes_of ws in
      read_since (pushes (new capacity) ws) (some since) ≡ (
        length history,
        drop (max (length history - capacity) (min (length history) since)) history,
      )
read_since-pushes capacity ws since =
    let r = pushes (new capacity) ws in
    let same : r.capacity ≡ capacity = pushes-capacity (new capacity) ws ∙ new-capacity capacity in
    rw same at
      (read_of_Holds r (bytes_of ws) since (pushes-Holds (new capacity) [] ws (new-Holds capacity)))

resume_at :
    (past fresh : List ℕ) (cap : ℕ)
    → length fresh ≤ cap
    → drop
        (max (length (past ++ fresh) - cap) (min (length (past ++ fresh)) (length past)))
        (past ++ fresh)
      ≡ fresh
resume_at past fresh cap h =
    ap (λ k. drop k (past ++ fresh)) {y = length past} (omega (arith, length-append past fresh))
    ∙ drop-append_ge (length past) past fresh (omega arith)
    ∙ ap (λ k. drop k fresh) {y = 0} (omega arith)

-- A reader that comes back with the cursor it was given misses nothing as long as what was written
-- since fits in the ring, whatever was written before.
pub read_since_resumes :
    (capacity : ℕ) (before after : List (List ℕ))
    → length (bytes_of after) ≤ capacity
    → let r = pushes (new capacity) before in
      (read_since (pushes r after) (some (read_since r none).0)).1 ≡ bytes_of after
read_since_resumes capacity before after h =
    let r = pushes (new capacity) before in
    let past = bytes_of before in
    let fresh = bytes_of after in
    let held : Holds r past = pushes-Holds (new capacity) [] before (new-Holds capacity) in
    let room : (pushes r after).capacity ≡ capacity =
      pushes-capacity r after ∙ pushes-capacity (new capacity) before ∙ new-capacity capacity in
    let whole =
      read_of_Holds (pushes r after) (past ++ fresh) (length past)
        (pushes-Holds r past after held) in
    rw (ap (λ (x : ℕ × List ℕ). x.0) (read_all_of_Holds r past held)) (
      ap (λ (x : ℕ × List ℕ). x.1) whole
      ∙ resume_at past fresh (pushes r after).capacity (omega (arith, room)))
