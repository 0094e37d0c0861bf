-- ===== src/Trigger/Watch/Quiet.antt =====
-- core/src/trigger.rs: what the two looks of a pass find when they let it settle.
use core_tempo.Common.{
  ℕ, ◌≡◌, ◌≢◌, refl, String, not, List, [], ◌∷◌, Option, none, some, arith, inl, inr, ◌==◌, ==_iff,
  nat_eq, string_eq, or_else, find, All, Bool-cases,
}
use core_tempo.Common.{◌+◌, is_some, ltb, if◌then◌else◌}
use core_tempo.Common.Dict
use core_tempo.Router.State.{Router, TurnState}
use core_tempo.Router.Gate.{pending_asks, total_pending_asks_among, open_turns_among}
use core_tempo.Types.Ids.{AgentId}
use core_tempo.Types.Config.{AgentState, state_eq, state_beq_iff}
use core_tempo.Types.Config
use core_tempo.Types.Message.{kind_eq}
use core_tempo.Workflow.Validate.{Outcome, ok, err}
use core_tempo.Trigger.Watch.{
  Observed, observed_states, Verdict, quiescent, depth_verdict, check_depths, router_verdict,
  or_verdict, busy_verdict, gone_verdict, check,
}

-- The roster at rest: each agent idle with an empty queue, awaiting no reply, and with no turn open.
pub record IsQuiet (roster : List AgentId) (o : Observed) : Type 0 where
  pub idle : All (λ agent. o.debounced agent ≡ Config.idle) roster
  pub drained : All (λ agent. o.depth agent ≡ ok 0) roster
  pub answered : All (λ agent. pending_asks o.router agent ≡ 0) roster
  pub at_rest : All (λ agent. Dict.lookup agent o.router.turns ≡ none) roster

busy-none : (found : Option (AgentId × AgentState)) → busy_verdict found ≡ none → found ≡ none
busy-none none h = refl
busy-none (some s) h = cc

find-none-idle :
    (roster : List AgentId) (o : Observed)
    → find (λ s. not (s.1 == Config.idle)) (observed_states roster o) ≡ none
    → All (λ agent. o.debounced agent ≡ Config.idle) roster
find-none-idle [] o h = tt
find-none-idle (a ∷ roster) o h = elim (Bool-cases (o.debounced a == Config.idle)) [
  | inl rest ↦ ((==_iff (o.debounced a) Config.idle).0 rest, find-none-idle roster o (rw rest at h))
  | inr busy ↦ cc (rw busy at h)
]

depth_verdict-none :
    (agent : AgentId) (d : Outcome ℕ String) → depth_verdict agent d ≡ none → d ≡ ok 0
depth_verdict-none agent (ok n) h = elim (Bool-cases (n == 0)) [
  | inl zero_deep ↦ rw ((==_iff n 0).0 zero_deep)
  | inr deep ↦ cc (rw deep at h)
]
depth_verdict-none agent (err e) h = cc

or_else-none {ℓ} : {A : Type ℓ} (a b : Option A) → or_else a b ≡ none → (a ≡ none) × (b ≡ none)
or_else-none none b h = (refl, h)
or_else-none (some a) b h = cc

check_depths-none :
    (roster : List AgentId) (o : Observed)
    → check_depths o.depth (observed_states roster o) ≡ none
    → All (λ agent. o.depth agent ≡ ok 0) roster
unfolding check_depths
check_depths-none [] o h = tt
check_depths-none (agent ∷ roster) o h =
    let (first, rest) = or_else-none (depth_verdict agent (o.depth agent)) _ h in
    (depth_verdict-none agent (o.depth agent) first, check_depths-none roster o rest)

or_verdict-quiescent :
    (o : Option Verdict) (v : Verdict)
    → or_verdict o v ≡ quiescent
    → o ≢ some quiescent
    → (o ≡ none) × (v ≡ quiescent)
or_verdict-quiescent none v h n = (refl, h)
or_verdict-quiescent (some w) v h n = absurd (n (rw h))

check_depths-ne :
    (depth : AgentId → Outcome ℕ String) (states : List (AgentId × AgentState))
    → check_depths depth states ≢ some quiescent
unfolding check_depths
check_depths-ne depth [] h = cc
check_depths-ne depth ((agent, state) ∷ states) h =
    go (check_depths-ne depth states) (depth agent) h
  where
    go :
        check_depths depth states ≢ some quiescent
        → (d : Outcome ℕ String)
        → or_else (depth_verdict agent d) (check_depths depth states) ≡ some quiescent
        → ⊥
    go rest (ok n) h = elim (Bool-cases (n == 0)) [
      | inl z ↦ rest (rw z at h)
      | inr nz ↦ cc (rw nz at h)
    ]
    go rest (err e) h = cc

gone-ne : (found : Option (AgentId × AgentState)) → gone_verdict found ≢ some quiescent
gone-ne none h = cc
gone-ne (some (a, s)) h = cc

busy-ne : (found : Option (AgentId × AgentState)) → busy_verdict found ≢ some quiescent
busy-ne none h = cc
busy-ne (some (a, s)) h = cc

none_pending :
    (router : Router) (roster : List AgentId)
    → total_pending_asks_among router roster ≡ 0
    → All (λ agent. pending_asks router agent ≡ 0) roster
unfolding total_pending_asks_among
none_pending router [] h = tt
none_pending router (a ∷ roster) h = (omega arith, none_pending router roster (omega arith))

none_open :
    (router : Router) (roster : List AgentId)
    → open_turns_among router roster ≡ 0
    → All (λ agent. Dict.lookup agent router.turns ≡ none) roster
unfolding open_turns_among
none_open router [] h = tt
none_open router (a ∷ roster) h =
    (closed (Dict.lookup a router.turns) h, none_open router roster (omega arith))
  where
    closed :
        (turn : Option TurnState)
        → (if is_some turn then 1 else 0) + open_turns_among router roster ≡ 0
        → turn ≡ none
    closed none h = refl
    closed (some turn) h = absurd (omega arith)

router_verdict-quiescent :
    (router : Router) (roster : List AgentId)
    → router_verdict router roster ≡ quiescent
    → (total_pending_asks_among router roster ≡ 0) × (open_turns_among router roster ≡ 0)
unfolding router_verdict
router_verdict-quiescent router roster h =
    elim (Bool-cases (ltb 0 (total_pending_asks_among router roster))) [
      | inl asks ↦ cc (rw asks at h)
      | inr no_asks ↦ elim (Bool-cases (ltb 0 (open_turns_among router roster))) [
        | inl turns ↦ cc (rw (no_asks, turns) at h)
        | inr no_turns ↦ (ground (arith, no_asks), ground (arith, no_turns))
      ]
    ]

pub check-IsQuiet :
    (roster : List AgentId) (o : Observed) → check roster o ≡ quiescent → IsQuiet roster o
unfolding check
check-IsQuiet roster o h =
    let states = observed_states roster o in
    let (present, h1) = or_verdict-quiescent (gone_verdict (find _ states)) _ h (gone-ne _) in
    let (idle, h2) = or_verdict-quiescent (busy_verdict (find _ states)) _ h1 (busy-ne _) in
    let (depths, h3) =
      or_verdict-quiescent (check_depths o.depth states) (router_verdict o.router roster) h2
        (check_depths-ne o.depth states) in
    let (asks, turns) = router_verdict-quiescent o.router roster h3 in
    record {
      idle = find-none-idle roster o (busy-none _ idle);
      drained = check_depths-none roster o depths;
      answered = none_pending o.router roster asks;
      at_rest = none_open o.router roster turns;
    }
