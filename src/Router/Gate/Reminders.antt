-- ===== src/Router/Gate/Reminders.antt =====
-- core/src/router/mod.rs: the spacing of the reminders about owed replies (`advance_nudge_round`).
use core_tempo.Common.{
  is_some, ℕ, suc, ◌+◌, ◌-◌, ◌≡◌, ◌≢◌, refl, ap, ◌<◌, inl, inr, true, false, List, [], ◌∷◌, Option,
  none, some, arith, ltb, string_eq, ==_refl, Bool-cases, String, All,
}
use core_tempo.Common.Dict.{lookup-insert}
use core_tempo.Common.Dict
use core_tempo.Types.Ids.{AgentId, MessageId}
use core_tempo.Router.State.{publish, Moment, Router, ReplyNudgeState, backoff_after}
use core_tempo.Types.Event.{agent_nudged}
use core_tempo.Router.Sinks.{render_reply_nudge}
use core_tempo.Router.Gate.{
  StateSource, IdleDecision, nudge, hold_quiet, on_stable_idle, owed_of, owed_decision,
  owed_reply_decision, after_owed, tell_round, nudge_round, pending_asks, advance_nudge_round, sort,
  put_nudges,
}
use core_tempo.Router.Gate.Rounds.{
  Rest, rest_all, IsEarly, HasRound, rest_all-Kept, rest_all-SameBooks,
}
use core_tempo.Router.Accounts.Same.{SameBooks}
use core_tempo.Router.Accounts.Rests.{on_stable_idle-SameBooks}

-- How many reminders an agent has had about what it owes, and when the last was.
abbrev pub rounds : Option ReplyNudgeState → ℕ
rounds none = 0
rounds (some n) = n.nudges

-- The state after a reminder: one more round, begun now.
pub record IsReminded (s : Router) (t : Router) (now : ℕ) (a : AgentId) : Type 0 where
  pub state : ReplyNudgeState
  pub found : Dict.lookup a t.owed_nudges ≡ some state
  pub counted : state.nudges ≡ suc (rounds (Dict.lookup a s.owed_nudges))
  pub begun : state.last_nudge_at ≡ now
  pub timing : t.timing ≡ s.timing

reminded : Router → Moment → AgentId → ℕ → Router
reminded s now a n =
    publish (put_nudges a (record { nudges = n; last_nudge_at = now.instant; stalled = false }) s)
      now (agent_nudged a)

reminded-IsReminded :
    (s : Router) (now : Moment) (a : AgentId)
    → IsReminded s (reminded s now a (suc (rounds (Dict.lookup a s.owed_nudges)))) now.instant a
unfolding reminded
reminded-IsReminded s now a = record {
  state = record {
    nudges = suc (rounds (Dict.lookup a s.owed_nudges));
    last_nudge_at = now.instant;
    stalled = false;
  };
  found = rw (lookup-insert a a _ s.owed_nudges, ==_refl a) refl;
  counted = refl;
  begun = refl;
  timing = refl;
}

nudge_round-reminded :
    (s t : Router) (now : Moment) (a : AgentId) (owed : List MessageId) (text : String)
    (obs : StateSource) (n : Option ReplyNudgeState)
    → after_owed obs now a (tell_round now a owed (nudge_round s now.instant a n)) ≡ (t, nudge text)
    → reminded s now a (suc (rounds n)) ≡ t
unfolding reminded
nudge_round-reminded s t now a owed text obs none h = ground (arith, h)
nudge_round-reminded s t now a owed text obs (some n) h =
    let next : suc n.nudges ≡ n.nudges + 1 = omega arith in
    elim (Bool-cases (ltb (now.instant - n.last_nudge_at) (backoff_after s.timing n.nudges))) [
      | inr due ↦
          let told : (
            reminded s now a (n.nudges + 1),
            nudge (render_reply_nudge owed (n.nudges + 1)),
          )
              ≡ (t, nudge text) =
            rw due at h in
          rw next (ground (arith, told))
      | inl early ↦ absurd (ground (arith, rw early at h))
    ]

owed_decision-IsReminded :
    (s t : Router) (obs : StateSource) (now : Moment) (a : AgentId) (ids : List MessageId)
    (text : String)
    → ids ≢ []
    → after_owed obs now a (owed_decision s obs now a ids) ≡ (t, nudge text)
    → IsReminded s t now.instant a
unfolding advance_nudge_round
owed_decision-IsReminded s t obs now a [] text owes h = absurd (owes refl)
owed_decision-IsReminded s t obs now a (id ∷ ids) text owes h =
    elim (Bool-cases (is_some (obs.blocked_since a))) [
      | inl stuck ↦ absurd (ground (arith, rw stuck at h))
      | inr free ↦
          rw⁻¹
            (nudge_round-reminded s t now a (sort (id ∷ ids)) text obs (Dict.lookup a s.owed_nudges)
              (rw free at h))
            (reminded-IsReminded s now a)
    ]

-- The decision in the agent's next rest.
held_while_early :
    (t : Router) (obs : StateSource) (later : Moment) (a : AgentId) (ids : List MessageId)
    (n : ReplyNudgeState)
    → ids ≢ []
    → Dict.lookup a t.owed_nudges ≡ some n
    → ltb (later.instant - n.last_nudge_at) (backoff_after t.timing n.nudges) ≡ true
    → (after_owed obs later a (owed_decision t obs later a ids)).1 ≡ hold_quiet
unfolding advance_nudge_round
held_while_early t obs later a [] n owes had early = absurd (owes refl)
held_while_early t obs later a (id ∷ ids) n owes had early =
    elim (Bool-cases (is_some (obs.blocked_since a))) [
      | inl stuck ↦ rw stuck refl
      | inr free ↦ rw (free, had, early) (ground arith)
    ]

told-SameBooks :
    (s : Router) (obs : StateSource) (now : Moment) (a : AgentId) {t : Router} {d : IdleDecision}
    → on_stable_idle s obs now a ≡ (t, d)
    → SameBooks s t
told-SameBooks s obs now a {t} {d} h =
    let b = on_stable_idle-SameBooks s obs now a in
    let e : (on_stable_idle s obs now a).0 ≡ t = ap (λ x. x.0) h in rw⁻¹ e b

-- A reminder to an agent about the replies it owes is one more round. While nothing then happens to the
-- router but that agents come to rest, it itself any number of times before the backoff of that round has
-- passed since the reminder, the agent at rest within that backoff is held without a word. A reply to its
-- last owed ask, or a restart of the agent, forgets the round.
pub reminders_spaced :
    (s t : Router) (obs next : StateSource) (now later : Moment) (a : AgentId) (text : String)
    (rests : List Rest)
    → owed_of s a ≢ []
    → on_stable_idle s obs now a ≡ (t, nudge text)
    → All
        (IsEarly a now.instant (backoff_after s.timing (rounds (Dict.lookup a t.owed_nudges))))
        rests
    → later.instant - now.instant < backoff_after s.timing (rounds (Dict.lookup a t.owed_nudges))
    → (rounds (Dict.lookup a t.owed_nudges) ≡ suc (rounds (Dict.lookup a s.owed_nudges)))
      × ((on_stable_idle (rest_all t rests) next later a).1 ≡ hold_quiet)
unfolding on_stable_idle owed_reply_decision
reminders_spaced s t obs next now later a text rests owes h all_early early =
    elim (Bool-cases (ltb 0 (pending_asks s a))) [
      | inl waits ↦ absurd (ground (arith, rw waits at h))
      | inr free ↦
          let r = owed_decision-IsReminded s t obs now a (owed_of s a) text owes (rw free at h) in
          let n = rounds (Dict.lookup a t.owed_nudges) in
          let u = rest_all t rests in
          let begun : HasRound a now.instant n s.timing t = record {
            state = r.state;
            found = r.found;
            counted = rw r.found refl;
            begun = r.begun;
            same_timing = r.timing;
          } in
          let k = rest_all-Kept a now.instant n s.timing t rests all_early begun in
          let same = rest_all-SameBooks s t rests (told-SameBooks s obs now a h) in
          (
            rw r.found r.counted,
            (let still : ltb 0 (pending_asks u a) ≡ false = rw same.counts free in
                rw still (
                  held_while_early u next later a (owed_of u a) k.state (rw same.owed owes) k.found
                    (rw (k.begun, k.same_timing, k.counted) (ground (arith, early))))),
          )
    ]
