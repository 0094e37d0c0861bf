-- ===== src/Serve/Drained/Flag.antt =====
-- daemon/src/serve.rs: the shutdown flag stops a worker, and is never taken back.
use core_tempo.Common.{
  ◌≡◌, refl, String, Bool, true, false, not, ◌||◌, List, [], ◌∷◌, ◌++◌, Option, none, some, inl,
  inr, ◌==◌, string_eq, if◌then◌else◌, leb, Bool-cases, any, length, ap, ◌∙◌,
}
use core_tempo.Common.Dict.{lookup}
use core_tempo.Types.Ids.{FlowName}
use core_tempo.Trigger.Hub.{TaskEnd}
use core_tempo.Serve.{
  Worker, receiving, stopped, dequeued, locking, permitting, FlowIngress, Shared, Desk, interrupted,
  settle_queued, settle_running, close_queue, stop_worker, abandon, queue_cap, admit, work_at, work,
  end_run, ServeState, Call, posts, works, ends, interrupts, on_flow, step, run,
}
use core_tempo.Serve.Accounts.Moves.{settle_drained-Drains}

-- The branch that is taken.
if_true :
    (test : Bool) (d e : Desk) (P : Desk → Type 0) → test ≡ true → P d → P (if test then d else e)
if_true true d e P h p = p
if_true false d e P h p = cc

stop_worker-stopped : (d : Desk) → (stop_worker d).0.worker ≡ stopped
unfolding stop_worker close_queue
stop_worker-stopped (f, s) = ap (λ g. g.worker) (settle_drained-Drains f.jobs _).flow

-- Wherever it waits, a worker that sees the flag stops.
pub work-stopped :
    (flow : FlowName) (granted : Bool) (f : FlowIngress) (s : Shared)
    → s.shutdown ≡ true
    → (work flow granted (f, s)).0.worker ≡ stopped
unfolding work abandon
work-stopped flow granted f s down = at f.worker refl
  where
    at : (w : Worker) → f.worker ≡ w → (work_at flow granted w (f, s)).0.worker ≡ stopped
    at stopped e = e
    at receiving e =
        if_true s.shutdown _ _ (λ d. d.0.worker ≡ stopped) down (stop_worker-stopped (f, s))
    at (dequeued job) e =
        if_true s.shutdown _ _ (λ d. d.0.worker ≡ stopped) down
          (stop_worker-stopped (settle_queued job.id interrupted (f, s)))
    at (locking job) e =
        if_true s.shutdown _ _ (λ d. d.0.worker ≡ stopped) down
          (stop_worker-stopped (settle_queued job.id interrupted (f, s)))
    at (permitting job) e =
        if_true s.shutdown _ _ (λ d. d.0.worker ≡ stopped) down
          (stop_worker-stopped (settle_queued job.id interrupted (f, s)))

pub work-kept :
    (flow : FlowName) (granted : Bool) (f : FlowIngress) (s : Shared)
    → f.worker ≡ stopped
    → (work flow granted (f, s)).0.worker ≡ stopped
unfolding work
work-kept flow granted f s e = rw e refl

pub admit-worker : (id payload : String) (d : Desk) → (admit id payload d).0.0.worker ≡ d.0.worker
unfolding admit
admit-worker id payload (f, s) = elim (Bool-cases (not f.is_open || f.closed)) [
  | inl shut ↦ rw shut refl
  | inr accepts ↦ elim (Bool-cases (leb queue_cap (length f.jobs))) [
    | inl full ↦ rw (accepts, full) refl
    | inr room ↦ rw (accepts, room) refl
  ]
]

pub end_run-worker :
    (id : String) (how : TaskEnd) (d : Desk) → (end_run id how d).0.worker ≡ d.0.worker
unfolding end_run
end_run-worker id how (f, s) = elim (Bool-cases (any (λ run. run == id) f.runs)) [
  | inl live ↦ rw live refl
  | inr gone ↦ rw gone refl
]

stop_worker-down : (d : Desk) → (stop_worker d).1.shutdown ≡ d.1.shutdown
unfolding stop_worker close_queue
stop_worker-down (f, s) = (settle_drained-Drains f.jobs _).down

-- The flag is never taken back.
work-down :
    (flow : FlowName) (granted : Bool) (f : FlowIngress) (s : Shared)
    → s.shutdown ≡ true
    → (work flow granted (f, s)).1.shutdown ≡ true
unfolding work abandon settle_queued
work-down flow granted f s down = at f.worker
  where
    at : (w : Worker) → (work_at flow granted w (f, s)).1.shutdown ≡ true
    at stopped = down
    at receiving =
        if_true s.shutdown _ _ (λ d. d.1.shutdown ≡ true) down (stop_worker-down (f, s) ∙ down)
    at (dequeued job) =
        if_true s.shutdown _ _ (λ d. d.1.shutdown ≡ true) down
          (stop_worker-down (settle_queued job.id interrupted (f, s)) ∙ down)
    at (locking job) =
        if_true s.shutdown _ _ (λ d. d.1.shutdown ≡ true) down
          (stop_worker-down (settle_queued job.id interrupted (f, s)) ∙ down)
    at (permitting job) =
        if_true s.shutdown _ _ (λ d. d.1.shutdown ≡ true) down
          (stop_worker-down (settle_queued job.id interrupted (f, s)) ∙ down)

admit-down : (id payload : String) (d : Desk) → (admit id payload d).0.1.shutdown ≡ d.1.shutdown
unfolding admit
admit-down id payload (f, s) = elim (Bool-cases (not f.is_open || f.closed)) [
  | inl shut ↦ rw shut refl
  | inr accepts ↦ elim (Bool-cases (leb queue_cap (length f.jobs))) [
    | inl full ↦ rw (accepts, full) refl
    | inr room ↦ rw (accepts, room) refl
  ]
]

end_run-down :
    (id : String) (how : TaskEnd) (d : Desk) → (end_run id how d).1.shutdown ≡ d.1.shutdown
unfolding end_run settle_running
end_run-down id how (f, s) = elim (Bool-cases (any (λ run. run == id) f.runs)) [
  | inl live ↦ rw live refl
  | inr gone ↦ rw gone refl
]

on_flow-down :
    (flow : FlowName) (act : Desk → Desk) (s : ServeState) (found : Option FlowIngress)
    → ((f : FlowIngress) → (act (f, s.shared)).1.shutdown ≡ true)
    → s.shared.shutdown ≡ true
    → (on_flow flow act s found).shared.shutdown ≡ true
on_flow-down flow act s none h down = down
on_flow-down flow act s (some f) h down = h f

step-down :
    (c : Call) (s : ServeState) → s.shared.shutdown ≡ true → (step c s).shared.shutdown ≡ true
unfolding step
step-down (posts flow id payload) s down =
    on_flow-down flow (λ d. (admit id payload d).0) s (lookup flow s.flows)
      (λ f. admit-down id payload (f, s.shared) ∙ down) down
step-down (works flow granted) s down =
    on_flow-down flow (work flow granted) s (lookup flow s.flows)
      (λ f. work-down flow granted f s.shared down) down
step-down (ends flow id how) s down =
    on_flow-down flow (end_run id how) s (lookup flow s.flows)
      (λ f. end_run-down id how (f, s.shared) ∙ down) down
step-down interrupts s down = refl

pub run-down :
    (cs : List Call) (s : ServeState) → s.shared.shutdown ≡ true → (run cs s).shared.shutdown ≡ true
unfolding run
run-down [] s down = down
run-down (c ∷ cs) s down = run-down cs (step c s) (step-down c s down)

pub run-append : (cs ds : List Call) (s : ServeState) → run (cs ++ ds) s ≡ run ds (run cs s)
unfolding run
run-append [] ds s = refl
run-append (c ∷ cs) ds s = run-append cs ds (step c s)
