-- ===== src/Router/Gate/Rounds.antt =====
-- core/src/router/mod.rs: how long a round of reminders stays, while agents come to rest.
use core_tempo.Common.{
  Bool, is_some, ℕ, ◌-◌, ◌<◌, ◌≡◌, refl, ◌∙◌, inl, inr, true, false, List, [], ◌∷◌, Option, none,
  some, arith, ltb, ◌==◌, string_eq, ==_refl, ==_iff, Bool-cases, All,
}
use core_tempo.Common.Dict.{lookup-insert}
use core_tempo.Common.Dict
use core_tempo.Types.Ids.{AgentId, MessageId}
use core_tempo.Types.Config.{Edge, AgentConfig}
use core_tempo.Router.State.{
  Moment, Router, TurnState, ReplyNudgeState, WatchdogTiming, backoff_after,
}
use core_tempo.Router.Gate.{
  StateSource, IdleDecision, on_stable_idle, owed_of, owed_decision, owed_reply_decision,
  after_owed, tell_round, nudge_round, turn_decision, hold_turn, close_turn, unmet_edges,
  pending_asks, advance_nudge_round, put_nudges,
}
use core_tempo.Router.Accounts.Same.{SameBooks, SameBooks-trans}
use core_tempo.Router.Accounts.Rests.{on_stable_idle-SameBooks}

-- An agent comes to rest.
pub record Rest : Type 0 where
  pub moment : Moment
  pub obs : StateSource
  pub agent : AgentId

pub rest_all : Router → List Rest → Router
rest_all s [] = s
rest_all s (l ∷ rests) = rest_all (on_stable_idle s l.obs l.moment l.agent).0 rests

-- If it is this agent that rests, `within` has not passed since `since`.
abbrev pub IsEarly : AgentId → ℕ → ℕ → Rest → Type 0
IsEarly a since within l = l.agent ≡ a → l.moment.instant - since < within

-- The rounds of `t` are those of `s`.
pub record SameRounds (s : Router) (t : Router) : Type 0 where
  pub owed_nudges : t.owed_nudges ≡ s.owed_nudges
  pub timing : t.timing ≡ s.timing

-- The agent has had `n` reminders, the last at `since`.
pub record HasRound (a : AgentId) (since n : ℕ) (timing : WatchdogTiming) (s : Router)
    : Type 0 where
  pub state : ReplyNudgeState
  pub found : Dict.lookup a s.owed_nudges ≡ some state
  pub counted : state.nudges ≡ n
  pub begun : state.last_nudge_at ≡ since
  pub same_timing : s.timing ≡ timing

hold_turn-SameRounds :
    (s : Router) (now : Moment) (a : AgentId) (turn : TurnState) (unmet : List Edge)
    → SameRounds s (hold_turn s now a turn unmet).0
hold_turn-SameRounds s now a turn [] = closed turn.capped
  where
    closed : (capped : List AgentId) → SameRounds s (close_turn s now a turn capped).0
    closed [] = ground arith
    closed (to ∷ tos) = ground arith
hold_turn-SameRounds s now a turn (e ∷ es) = ground arith

turn_decision-SameRounds :
    (s : Router) (now : Moment) (a : AgentId) (cfg : Option AgentConfig) (turn : Option TurnState)
    → SameRounds s (turn_decision s now a cfg turn).0
unfolding unmet_edges
turn_decision-SameRounds s now a none turn = ground arith
turn_decision-SameRounds s now a (some cfg) none = ground arith
turn_decision-SameRounds s now a (some cfg) (some turn) = hold_turn-SameRounds s now a turn _

module _ (a : AgentId) (since n : ℕ) (timing : WatchdogTiming) where
  abbrev pub Kept : Router → Type 0
  Kept = HasRound a since n timing

  SameRounds-Kept : (s t : Router) → SameRounds s t → Kept s → Kept t
  SameRounds-Kept s t same r = record {
    state = r.state;
    found = rw (same.owed_nudges) r.found;
    counted = r.counted;
    begun = r.begun;
    same_timing = same.timing ∙ r.same_timing;
  }

  put_nudges-Kept :
      (s : Router) (b : AgentId) (state : ReplyNudgeState)
      → b == a ≡ false
      → Kept s
      → Kept (put_nudges b state s)
  put_nudges-Kept s b state other r = record {
    state = r.state;
    found = rw (lookup-insert b a state s.owed_nudges, other) r.found;
    counted = r.counted;
    begun = r.begun;
    same_timing = r.same_timing;
  }

  -- Another agent's round leaves this one's, and before its backoff this one's is only marked as stalled.
  other_round-Kept :
      (s : Router) (at : ℕ) (b : AgentId) (state : Option ReplyNudgeState)
      → b == a ≡ false
      → Kept s
      → Kept (nudge_round s at b state).0
  other_round-Kept s at b none other r = put_nudges-Kept s b _ other r
  other_round-Kept s at b (some state) other r =
      elim (Bool-cases (ltb (at - state.last_nudge_at) (backoff_after s.timing state.nudges))) [
        | inl early ↦ rw early (put_nudges-Kept s b _ other r)
        | inr due ↦ rw due (put_nudges-Kept s b _ other r)
      ]

  own_round-Kept :
      (s : Router) (at : ℕ)
      → at - since < backoff_after timing n
      → Kept s
      → Kept (nudge_round s at a (Dict.lookup a s.owed_nudges)).0
  own_round-Kept s at early r =
      let waits : ltb (at - r.state.last_nudge_at) (backoff_after s.timing r.state.nudges) ≡ true =
        rw (r.begun, r.counted, r.same_timing) (ground (arith, early)) in
      rw (r.found, waits)
        (record {
          state = record r.state { stalled = true };
          found = rw (lookup-insert a a _ s.owed_nudges, ==_refl a) refl;
          counted = r.counted;
          begun = r.begun;
          same_timing = r.same_timing;
        })

  round-Kept :
      (s : Router) (at : ℕ) (b : AgentId)
      → (b ≡ a → at - since < backoff_after timing n)
      → Kept s
      → Kept (nudge_round s at b (Dict.lookup b s.owed_nudges)).0
  round-Kept s at b early r = elim (Bool-cases (b == a)) [
    | inl own ↦ let same = (==_iff b a).0 own in rw same (own_round-Kept s at (early same) r)
    | inr other ↦ other_round-Kept s at b (Dict.lookup b s.owed_nudges) other r
  ]

  tell_round-Kept :
      (now : Moment) (b : AgentId) (owed : List MessageId) (told : Router × Option ℕ × Bool)
      → Kept told.0
      → Kept (tell_round now b owed told).0
  tell_round-Kept now b owed (t, some round, stall) r =
      SameRounds-Kept t _ (record { owed_nudges = refl; timing = refl }) r
  tell_round-Kept now b owed (t, none, true) r =
      SameRounds-Kept t _ (record { owed_nudges = refl; timing = refl }) r
  tell_round-Kept now b owed (t, none, false) r = r

  owed_decision-Kept :
      (s : Router) (obs : StateSource) (now : Moment) (b : AgentId) (ids : List MessageId)
      → (b ≡ a → now.instant - since < backoff_after timing n)
      → Kept s
      → Kept (owed_decision s obs now b ids).0
  unfolding advance_nudge_round
  owed_decision-Kept s obs now b [] early r = r
  owed_decision-Kept s obs now b (id ∷ ids) early r =
      elim (Bool-cases (is_some (obs.blocked_since b))) [
        | inl stuck ↦ rw stuck r
        | inr free ↦ rw free (tell_round-Kept now b _ _ (round-Kept s now.instant b early r))
      ]

  after_owed-Kept :
      (t : Router) (obs : StateSource) (now : Moment) (b : AgentId) (told : Option IdleDecision)
      → Kept t
      → Kept (after_owed obs now b (t, told)).0
  after_owed-Kept t obs now b (some d) r = r
  after_owed-Kept t obs now b none r = elim (Bool-cases (is_some (obs.blocked_since b))) [
    | inl stuck ↦ rw stuck r
    | inr free ↦
        let c =
          turn_decision-SameRounds t now b (Dict.lookup b t.workflow.agents)
            (Dict.lookup b t.turns) in
        rw free (SameRounds-Kept t _ c r)
  ]

  on_stable_idle-Kept :
      (s : Router) (obs : StateSource) (now : Moment) (b : AgentId)
      → (b ≡ a → now.instant - since < backoff_after timing n)
      → Kept s
      → Kept (on_stable_idle s obs now b).0
  unfolding on_stable_idle owed_reply_decision
  on_stable_idle-Kept s obs now b early r = elim (Bool-cases (ltb 0 (pending_asks s b))) [
    | inl waits ↦ rw waits r
    | inr free ↦
        let owed = owed_decision s obs now b (owed_of s b) in
        rw free (
          after_owed-Kept owed.0 obs now b owed.1
            (owed_decision-Kept s obs now b (owed_of s b) early r))
  ]

  pub rest_all-Kept :
      (s : Router) (rests : List Rest)
      → All (IsEarly a since (backoff_after timing n)) rests
      → Kept s
      → Kept (rest_all s rests)
  unfolding rest_all
  rest_all-Kept s [] early r = r
  rest_all-Kept s (l ∷ rests) early r =
      rest_all-Kept (on_stable_idle s l.obs l.moment l.agent).0 rests early.1
        (on_stable_idle-Kept s l.obs l.moment l.agent early.0 r)

pub rest_all-SameBooks :
    (s t : Router) (rests : List Rest) → SameBooks s t → SameBooks s (rest_all t rests)
unfolding rest_all
rest_all-SameBooks s t [] same = same
rest_all-SameBooks s t (l ∷ rests) same =
    let told = on_stable_idle t l.obs l.moment l.agent in
    rest_all-SameBooks s told.0 rests
      (SameBooks-trans s t told.0 same (on_stable_idle-SameBooks t l.obs l.moment l.agent))
