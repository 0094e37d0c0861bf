-- ===== src/Api/Sse/Seam.antt =====
-- core/src/api/sse.rs: a client that resumes gets every event that passes its filter, once and in order.
use core_tempo.Common.{
  ℕ, ◌≤◌, ◌<◌, ◌≡◌, refl, true, false, List, [], ◌∷◌, ◌++◌, map, arith, inl, inr, leb, filter, All,
  Bool-cases, ap, ◌∙◌, sym, subst,
}
use mathlib.Core.List.{append_assoc, append-nil}
use core_tempo.Types.Event.{Event}
use core_tempo.Types.Ids.{Timestamp}
use core_tempo.Common.{some, none}
use core_tempo.Bus.{newer}
use core_tempo.Api.Sse.Rising.{
  Rising, Rising-lower, Rising-split, last_of_mono, All-le-last, last_of-newer, last_of-append,
  filter-append, newer-All,
}
use core_tempo.Api.Sse.{
  EventFilterSpec, matches, Received, got, lagged, larger, pump_live, last_of, pump_events, reset,
}

map-got-append : (b c : List Event) → map got (b ++ c) ≡ map got b ++ map got c
map-got-append [] c = refl
map-got-append (e ∷ b) c = ap (λ t. got e ∷ t) (map-got-append b c)

module _ (spec : EventFilterSpec) where
  -- Events that the replay has given are passed over.
  live_skips :
      (last : ℕ) (es : List Event) (rest : List Received)
      → All (λ e. e.seq ≤ last) es
      → pump_live spec last (map got es ++ rest) ≡ pump_live spec last rest
  unfolding pump_live
  live_skips last [] rest h = refl
  live_skips last (e ∷ es) rest h =
      let old : leb e.seq last ≡ true = ground (arith, h.0) in rw old (live_skips last es rest h.1)

  live_delivers :
      (last : ℕ) (es : List Event) (more : List Received)
      → Rising last es
      → pump_live spec last (map got es ++ more)
        ≡ filter (matches spec) es ++ pump_live spec (last_of last es) more
  unfolding pump_live last_of
  live_delivers last [] more r = refl
  live_delivers last (e ∷ es) more r =
      let new : leb e.seq last ≡ false = ground (arith, r.0) in
      elim (Bool-cases (matches spec e)) [
        | inl keep ↦ rw (new, keep, live_delivers e.seq es more r.1) refl
        | inr drop ↦ rw (new, drop, live_delivers e.seq es more r.1) refl
      ]

  -- After a reset with the number `r`: events up to `r` are passed over, and the rest delivered.
  resumes :
      (r : ℕ) (kept rest : List Event)
      → All (λ e. e.seq ≤ r) kept
      → Rising r rest
      → pump_live spec r (map got (kept ++ rest)) ≡ filter (matches spec) rest
  unfolding pump_live
  resumes r kept rest old new =
      ap (pump_live spec r) (map-got-append kept rest)
      ∙ live_skips r kept (map got rest) old
      ∙ ap (pump_live spec r) (sym (append-nil (map got rest)))
      ∙ live_delivers r rest [] new
      ∙ append-nil (filter (matches spec) rest)

larger-right : (m n : ℕ) → m ≤ n → larger m n ≡ n
larger-right m n h = ground arith

module _ (spec : EventFilterSpec) (since : ℕ) (before between later : List Event) where
  abbrev seen_last : ℕ
  seen_last = last_of 0 (newer since before)

  -- The replay and the live events meet without a gap, whatever the subscription gives after them.
  seam :
      (seq : ℕ) (now : Timestamp) (more : List Received)
      → Rising 0 (before ++ (between ++ later))
      → All (λ e. since < e.seq) between
      → All (λ e. since < e.seq) later
      → pump_events spec
          (some (newer since (before ++ between)))
          seq
          now
          (map got (between ++ later) ++ more)
        ≡ filter (matches spec) (newer since (before ++ (between ++ later)))
          ++ pump_live spec (last_of (last_of seen_last between) later) more
  seam seq now more r hb hl =
      let (rise_before, r1) = Rising-split 0 before (between ++ later) r in
      let (rise_between, rise_later) = Rising-split (last_of 0 before) between later r1 in
      let kept : newer since (before ++ between) ≡ newer since before ++ between =
        filter-append _ before between
        ∙ ap (λ t. newer since before ++ t) (newer-All since between hb) in
      let all_kept : newer since (before ++ (between ++ later))
          ≡ newer since before ++ (between ++ later) =
        filter-append _ before (between ++ later)
        ∙ ap (λ t. newer since before ++ t)
            (filter-append _ between later
              ∙ ap (λ t. t ++ newer since later) (newer-All since between hb)
              ∙ ap (λ t. between ++ t) (newer-All since later hl)) in
      let m = seen_last in
      let le : m ≤ last_of 0 before = last_of-newer since 0 0 before (omega arith) rise_before in
      let low = Rising-lower m (last_of 0 before) between le rise_between in
      let last : last_of 0 (newer since before ++ between) ≡ last_of m between =
        last_of-append 0 (newer since before) between in
      let live = map got (between ++ later) ++ more in
      let tail = pump_live spec (last_of (last_of m between) later) more in
      let delivered : pump_live spec (last_of m between) live
          ≡ filter (matches spec) later ++ tail =
        ap (λ t. pump_live spec (last_of m between) (t ++ more)) (map-got-append between later)
        ∙ ap (pump_live spec (last_of m between))
            (append_assoc (map got between) (map got later) more)
        ∙ live_skips spec (last_of m between) between (map got later ++ more)
            (All-le-last m between low)
        ∙ live_delivers spec (last_of m between) later more (
            Rising-lower (last_of m between) (last_of (last_of 0 before) between) later
              (last_of_mono m (last_of 0 before) between le) rise_later) in
      let seen = newer since before ++ between in
      ap (λ t. filter (matches spec) t ++ pump_live spec (last_of 0 t) live) kept
      ∙ ap (λ t. filter (matches spec) seen ++ t) (ap (λ n. pump_live spec n live) last ∙ delivered)
      ∙ sym (append_assoc (filter (matches spec) seen) (filter (matches spec) later) tail)
      ∙ ap (λ t. t ++ tail)
          (sym (filter-append (matches spec) seen later)
            ∙ ap (filter (matches spec))
                (append_assoc (newer since before) between later ∙ sym all_kept))

  -- The last number that was seen is no later than the last of all.
  seen_last-le :
      Rising 0 (before ++ (between ++ later))
      → last_of (last_of seen_last between) later ≤ last_of 0 (before ++ (between ++ later))
  seen_last-le r =
      let (rise_before, r1) = Rising-split 0 before (between ++ later) r in
      rw
        (
          last_of-append 0 before (between ++ later),
          last_of-append (last_of 0 before) between later,
        )
        (last_of_mono (last_of seen_last between) (last_of (last_of 0 before) between) later (
          last_of_mono seen_last (last_of 0 before) between
            (last_of-newer since 0 0 before (omega arith) rise_before)))

-- A client resumes after `since`, subscribes when `before` are published, and has its replay read when
-- `between` are too. The numbers rise, and the client had seen `since` when it subscribed. If the ring has
-- the replay, then while the subscription misses nothing the client gets the events after `since` that pass
-- its filter, each once and in order. If the subscription then lags, a reset with the number `r` that the
-- bus has reached follows, what is still received up to `r` is passed over, and the rest is delivered each
-- once and in order; what was missed is not. If the ring has not the replay, the client gets a reset with
-- the number reached when it is made, and then what comes later, each once and in order.
pub events_once :
    (spec : EventFilterSpec) (since seq r : ℕ) (now then_at : Timestamp)
    (before between later kept rest : List Event)
    → Rising 0 (before ++ (between ++ later))
    → All (λ e. since < e.seq) between
    → All (λ e. since < e.seq) later
    → last_of 0 (before ++ (between ++ later)) ≤ r
    → All (λ e. e.seq ≤ r) kept
    → Rising r rest
    → (pump_events spec
          (some (newer since (before ++ between)))
          seq
          now
          (map got (between ++ later))
        ≡ filter (matches spec) (newer since (before ++ (between ++ later))))
      × ((pump_events spec
              (some (newer since (before ++ between)))
              seq
              now
              (map got (between ++ later) ++ lagged r then_at ∷ map got (kept ++ rest))
            ≡ filter (matches spec) (newer since (before ++ (between ++ later)))
              ++ reset r then_at ∷ filter (matches spec) rest)
          × (pump_events spec none (last_of 0 (before ++ between)) now (map got (between ++ later))
              ≡ reset (last_of 0 (before ++ between)) now ∷ filter (matches spec) later))
unfolding pump_live
events_once spec since seq r now then_at before between later kept rest rising hb hl reached old
      new =
    let live = map got (between ++ later) in
    let spliced = seam spec since before between later seq now in
    let below : last_of (last_of (last_of 0 (newer since before)) between) later ≤ r =
      omega (arith, seen_last-le spec since before between later rising) in
    let halves =
      Rising-split 0 (before ++ between) later
        (subst (Rising 0) (sym (append_assoc before between later)) rising) in
    let first = Rising-split 0 before between halves.0 in
    (
      ap (λ t. pump_events spec (some (newer since (before ++ between))) seq now t)
            (sym (append-nil live))
          ∙ spliced [] rising hb hl
          ∙ append-nil _,
      (
        spliced (lagged r then_at ∷ map got (kept ++ rest)) rising hb hl
            ∙ ap
                (λ n.
                  filter (matches spec) (newer since (before ++ (between ++ later)))
                  ++ reset r then_at ∷ pump_live spec n (map got (kept ++ rest)))
                (larger-right (last_of (last_of (last_of 0 (newer since before)) between) later) r
                  below)
            ∙ ap
                (λ t.
                  filter (matches spec) (newer since (before ++ (between ++ later)))
                  ++ reset r then_at ∷ t)
                (resumes spec r kept rest old new),
        ap (λ t. reset (last_of 0 (before ++ between)) now ∷ t)
            (resumes spec (last_of 0 (before ++ between)) between later
              (subst (λ n. All (λ e. e.seq ≤ n) between) (sym (last_of-append 0 before between))
                (All-le-last (last_of 0 before) between first.1))
              halves.1),
      ),
    )
