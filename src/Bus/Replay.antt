-- ===== src/Bus/Replay.antt =====
-- core/src/bus.rs: a replay is gap-free, and is refused just when events asked for are gone.
use mathlib.Core.List.{append-nil, append_assoc}
use core_tempo.Common.{
  ℕ, zero, suc, ◌+◌, ◌-◌, ◌≤◌, ◌<◌, ◌≡◌, refl, sym, ap, ◌∙◌, List, [], ◌∷◌, ◌++◌, none, some, arith,
  ltb, leb, if◌then◌else◌, Bool-cases, ==_iff, ◌==◌, nat_eq, subst, inl, inr, length, length-append,
  length-drop, drop, drop-nil, drop-append_le, drop-drop,
}
use core_tempo.Types.Ids.{Timestamp}
use core_tempo.Types.Event.{Event, EventPayload}
use core_tempo.Bus.{Bus, new, push_ring, publish, newer, replay, replay_since, replay_ring}

-- Events numbered one after the other, from the number after `k`.
abbrev pub Numbered : ℕ → List Event → Type 0
Numbered k [] = Unit {0}
Numbered k (e ∷ es) = (e.seq ≡ suc k) × Numbered (suc k) es

-- The bus after the events `sent`: their numbers run from one, and the ring holds the last of them.
pub record Recorded (b : Bus) : Type 0 where
  pub numbered : Numbered 0 b.sent
  pub counted : b.seq ≡ length b.sent
  pub kept : b.ring ≡ drop (length b.sent - replay_ring) b.sent

new-Recorded : Recorded new
unfolding new
new-Recorded = record { numbered = tt; counted = refl; kept = refl }

Numbered-append :
    (k : ℕ) (es : List Event) (e : Event)
    → Numbered k es
    → e.seq ≡ suc (k + length es)
    → Numbered k (es ++ e ∷ [])
Numbered-append k [] e h same = (omega arith, tt)
Numbered-append k (x ∷ es) e h same = (h.0, Numbered-append (suc k) es e h.1 (omega arith))

drop_last_ring :
    (cap : ℕ) (xs : List Event) (e : Event)
    → 0 < cap
    → cap ≤ length xs
    → drop 1 (drop (length xs - cap) xs) ++ e ∷ []
      ≡ drop (length (xs ++ e ∷ []) - cap) (xs ++ e ∷ [])
drop_last_ring cap xs e h full = rw (length-append xs (e ∷ [])) (
    rw (drop-append_le (length xs + 1 - cap) xs (e ∷ []) (omega arith)) (
      ap (λ k. k ++ e ∷ [])
        (drop-drop 1 (length xs - cap) xs
          ∙ ap (λ k. drop k xs) {x = length xs - cap + 1} (omega arith))))

drop_short_ring :
    (cap : ℕ) (xs : List Event) (e : Event)
    → length xs < cap
    → drop (length xs - cap) xs ++ e ∷ [] ≡ drop (length (xs ++ e ∷ []) - cap) (xs ++ e ∷ [])
drop_short_ring cap xs e h = rw (length-append xs (e ∷ [])) (
    rw (drop-append_le (length xs + 1 - cap) xs (e ∷ []) (omega arith))
      (ap (λ k. drop k xs ++ e ∷ []) {x = length xs - cap} (omega arith)))

-- A ring of `cap` entries that holds the last of `xs` holds, after a push, the last of the longer list.
push_ring_lem :
    (cap : ℕ) (xs : List Event) (e : Event)
    → 0 < cap
    → push_ring cap (drop (length xs - cap) xs) e
      ≡ drop (length (xs ++ e ∷ []) - cap) (xs ++ e ∷ [])
unfolding push_ring
push_ring_lem cap xs e h = elim (Bool-cases (length (drop (length xs - cap) xs) == cap)) [
  | inl full ↦ rw full (
      drop_last_ring cap xs e h
        (omega (arith, (==_iff _ cap).0 full, length-drop (length xs - cap) xs)))
  | inr room ↦ rw room (
      drop_short_ring cap xs e (
        ground (
          arith,
          ==_iff (length (drop (length xs - cap) xs)) cap,
          length-drop (length xs - cap) xs,
        )))
]

newer-Numbered :
    (since k : ℕ) (es : List Event) → Numbered k es → newer since es ≡ drop (since - k) es
newer-Numbered since k [] h = sym (drop-nil (since - k))
newer-Numbered since k (e ∷ es) h = elim (Bool-cases (ltb since e.seq)) [
  | inl new ↦
      let zero_left : since - k ≡ 0 = ground (arith, h.0) in
      let none_left : since - suc k ≡ 0 = ground (arith, h.0) in
      rw (new, zero_left)
        (ap (◌∷◌ e) (newer-Numbered since (suc k) es h.1 ∙ ap (λ n. drop n es) none_left))
  | inr old ↦
      let more_left : since - k ≡ suc (since - suc k) = ground (arith, h.0) in
      rw (old, more_left) (newer-Numbered since (suc k) es h.1)
]

Numbered-drop : (n k : ℕ) (es : List Event) → Numbered k es → Numbered (k + n) (drop n es)
Numbered-drop zero k es h = subst (λ j. Numbered j es) (omega arith) h
Numbered-drop (suc n) k [] h = tt
Numbered-drop (suc n) k (e ∷ es) h =
    subst (λ j. Numbered j (drop n es)) {x = suc k + n} (omega arith)
      (Numbered-drop n (suc k) es h.1)

-- `publish` numbers the event after all before it, and records it.
publish-Recorded :
    (b : Bus) (now : Timestamp) (payload : EventPayload)
    → Recorded b
    → Recorded (publish b now payload).0
unfolding publish
publish-Recorded b now payload h = record {
  numbered = Numbered-append 0 b.sent _ h.numbered (omega (arith, h.counted));
  counted = omega (arith, h.counted, length-append b.sent (_ ∷ []));
  kept = rw h.kept (push_ring_lem replay_ring b.sent _ (omega arith));
}

replay-Numbered :
    (past : ℕ) (window : List Event) (last since : ℕ)
    → Numbered past window
    → last ≡ past + length window
    → replay window last since
      ≡ (if leb past since then some (drop (since - past) window) else none)
unfolding replay
replay-Numbered past [] last since h e = rw (drop-nil (since - past)) (ground arith)
replay-Numbered past (first ∷ rest) last since h e =
    ground (arith, newer-Numbered since past (first ∷ rest) h)

replay_since_lem :
    (b : Bus) (since : ℕ)
    → Recorded b
    → replay_since b since
      ≡ (if leb (length b.sent - replay_ring) since then some (drop since b.sent) else none)
unfolding replay_since
replay_since_lem b since h =
    let past = length b.sent - replay_ring in
    let window =
      replay-Numbered past (drop past b.sent) (length b.sent) since
        (subst (λ k. Numbered k (drop past b.sent)) {x = 0 + past} (omega arith)
          (Numbered-drop past 0 b.sent h.numbered))
        (omega (arith, length-drop past b.sent)) in
    rw (h.counted, h.kept)
      (elim (Bool-cases (leb past since)) [
        | inl kept ↦ rw kept (
            rw kept at window
            ∙ ap some (
                drop-drop (since - past) past b.sent
                ∙ ap (λ k. drop k b.sent) {x = past + (since - past)} (ground arith)))
        | inr gone ↦ rw gone (rw gone at window)
      ])

-- What was published, in order, with its time.
abbrev pub publish_all : Bus → List (Timestamp × EventPayload) → Bus
publish_all b [] = b
publish_all b ((now, payload) ∷ ps) = publish_all (publish b now payload).0 ps

-- The events that number `ps` from after `k`.
abbrev pub stamped : ℕ → List (Timestamp × EventPayload) → List Event
stamped k [] = []
stamped k ((now, payload) ∷ ps) =
    record { seq = suc k; ts = now; payload = payload } ∷ stamped (suc k) ps

publish_all-Recorded :
    (b : Bus) (ps : List (Timestamp × EventPayload)) → Recorded b → Recorded (publish_all b ps)
publish_all-Recorded b [] h = h
publish_all-Recorded b ((now, payload) ∷ ps) h =
    publish_all-Recorded (publish b now payload).0 ps (publish-Recorded b now payload h)

publish-sent :
    (b : Bus) (now : Timestamp) (payload : EventPayload)
    → ((publish b now payload).0.sent ≡ b.sent ++ stamped b.seq ((now, payload) ∷ []))
      × ((publish b now payload).0.seq ≡ suc b.seq)
unfolding publish
publish-sent b now payload = (ground arith, omega arith)

publish_all-sent :
    (b : Bus) (ps : List (Timestamp × EventPayload))
    → (publish_all b ps).sent ≡ b.sent ++ stamped b.seq ps
publish_all-sent b [] = sym (append-nil b.sent)
publish_all-sent b ((now, payload) ∷ ps) =
    let (sent, seq) = publish-sent b now payload in
    publish_all-sent (publish b now payload).0 ps
    ∙ rw (sent, seq)
        (append_assoc b.sent (stamped b.seq ((now, payload) ∷ [])) (stamped (suc b.seq) ps))

length-stamped : (k : ℕ) (ps : List (Timestamp × EventPayload)) → length (stamped k ps) ≡ length ps
length-stamped k [] = refl
length-stamped k ((now, payload) ∷ ps) = ap suc (length-stamped (suc k) ps)

new-sent : (new.sent ≡ []) × (new.seq ≡ 0)
unfolding new
new-sent = (refl, refl)

-- After any events published on a new bus, a replay from `since` gives exactly the events numbered
-- above `since`, in order and numbered from one, as long as no more than the ring's 1024 were
-- published after `since`; otherwise it is refused.
pub replay_since-publish_all :
    (ps : List (Timestamp × EventPayload)) (since : ℕ)
    → replay_since (publish_all new ps) since
      ≡ (if leb (length ps - replay_ring) since then some (drop since (stamped 0 ps)) else none)
replay_since-publish_all ps since =
    let all_sent : (publish_all new ps).sent ≡ stamped 0 ps =
      publish_all-sent new ps ∙ rw (new-sent.0, new-sent.1) in
    replay_since_lem (publish_all new ps) since (publish_all-Recorded new ps new-Recorded)
    ∙ rw (all_sent, length-stamped 0 ps)
