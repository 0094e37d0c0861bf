-- ===== src/Serve/Drained.antt =====
-- daemon/src/serve.rs: what an interrupt leaves of a flow.
pub mod Flag
use core_tempo.Common.{
  ℕ, ◌+◌, ◌≡◌, refl, String, Bool, true, false, not, ◌||◌, List, [], ◌∷◌, ◌++◌, Option, none, some,
  arith, inl, inr, ◌==◌, ==_iff, string_eq, if◌then◌else◌, leb, Bool-cases, any, length, ap, ◌∙◌,
}
use core_tempo.Common.Dict.{lookup, lookup-insert}
use core_tempo.Types.Ids.{FlowName}
use core_tempo.Types.Config.{FrozenWorkflow}
use core_tempo.Workflow.Validate.{err}
use core_tempo.Trigger.Hub.{TaskEnd}
use core_tempo.Serve.{
  Worker, receiving, stopped, dequeued, locking, permitting, FlowIngress, Shared, Desk, interrupted,
  settle_queued, settle_running, close_queue, stop_worker, abandon, queue_cap, shutting_down, admit,
  work_at, work, end_run, ServeState, Call, posts, works, ends, interrupts, on_flow, step, run,
  serve,
}
use core_tempo.Serve.Accounts.{IsBooked-lookup}
use core_tempo.Serve.Accounts.Moves.{settle_drained-Drains}
use core_tempo.Serve.Accounts.Run.{serve-IsAccounted}
use core_tempo.Serve.Drained.Flag.{
  work-stopped, work-kept, admit-worker, end_run-worker, run-down, run-append,
}

module _ (flow : FlowName) where
  -- The flow, if it has an ingress, has stopped.
  abbrev StoppedAt : Option FlowIngress → Type 0
  StoppedAt none = Unit {0}
  StoppedAt (some f) = f.worker ≡ stopped

  abbrev IsStopped : ServeState → Type 0
  IsStopped s = StoppedAt (lookup flow s.flows)

  on_flow-IsStopped :
      (name : FlowName) (act : Desk → Desk) (s : ServeState) (found : Option FlowIngress)
      → ((f : FlowIngress) → f.worker ≡ stopped → (act (f, s.shared)).0.worker ≡ stopped)
      → lookup name s.flows ≡ found
      → IsStopped s
      → IsStopped (on_flow name act s found)
  on_flow-IsStopped name act s none keeps e h = h
  on_flow-IsStopped name act s (some f) keeps e h =
      rw (lookup-insert name flow (act (f, s.shared)).0 s.flows) (elim (Bool-cases (name == flow)) [
        | inl same ↦
            let own : f.worker ≡ stopped = rw e at (rw (← (==_iff name flow).0 same) at h) in
            rw same (keeps f own)
        | inr other ↦ rw other h
      ])

  step-IsStopped : (c : Call) (s : ServeState) → IsStopped s → IsStopped (step c s)
  unfolding step
  step-IsStopped (posts name id payload) s h =
      on_flow-IsStopped name (λ d. (admit id payload d).0) s (lookup name s.flows)
        (λ f e. admit-worker id payload (f, s.shared) ∙ e) refl h
  step-IsStopped (works name granted) s h =
      on_flow-IsStopped name (work name granted) s (lookup name s.flows)
        (λ f e. work-kept name granted f s.shared e) refl h
  step-IsStopped (ends name id how) s h =
      on_flow-IsStopped name (end_run id how) s (lookup name s.flows)
        (λ f e. end_run-worker id how (f, s.shared) ∙ e) refl h
  step-IsStopped interrupts s h = h

  run-IsStopped : (cs : List Call) (s : ServeState) → IsStopped s → IsStopped (run cs s)
  unfolding run
  run-IsStopped [] s h = h
  run-IsStopped (c ∷ cs) s h = run-IsStopped cs (step c s) (step-IsStopped c s h)

  works-IsStopped :
      (granted : Bool) (s : ServeState)
      → s.shared.shutdown ≡ true
      → IsStopped (step (works flow granted) s)
  unfolding step
  works-IsStopped granted s down = at (lookup flow s.flows) refl
    where
      at :
          (found : Option FlowIngress)
          → lookup flow s.flows ≡ found
          → IsStopped (on_flow flow (work flow granted) s found)
      at none e = rw e tt
      at (some f) e =
          rw
            (
              lookup-insert flow flow (work flow granted (f, s.shared)).0 s.flows,
              (==_iff flow flow).1 refl,
            )
            (work-stopped flow granted f s.shared down)

-- An interrupt, at any moment, and a turn of the worker after it, at any later one: from then on the
-- flow has nothing queued and nothing in hand, counts as outstanding only the runs that still live, and
-- refuses every post, whatever else happens.
pub shutdown_drains :
    (frozen : FrozenWorkflow) (max_concurrent_runs : ℕ) (before between after : List Call)
    (flow : FlowName) (granted : Bool) (f : FlowIngress) (s : ServeState) (id payload : String)
    → s
      ≡ run
          (before ++ (interrupts ∷ (between ++ works flow granted ∷ after)))
          (serve frozen max_concurrent_runs)
    → lookup flow s.flows ≡ some f
    → (f.jobs ≡ [])
      × (f.outstanding ≡ length f.runs)
      × (f.running ≡ length f.runs)
      × (admit id payload (f, s.shared) ≡ ((f, s.shared), err shutting_down))
unfolding admit
shutdown_drains frozen max_concurrent_runs before between after flow granted f s id payload e
      found =
    let all = before ++ (interrupts ∷ (between ++ works flow granted ∷ after)) in
    let start = serve frozen max_concurrent_runs in
    let flagged = step interrupts (run before start) in
    let first = run between flagged in
    let e1 : run all start ≡ run after (step (works flow granted) first) =
      run-append before _ start
      ∙ (unfold run in run-append between (works flow granted ∷ after) flagged) in
    let end_stopped =
      run-IsStopped flow after (step (works flow granted) first)
        (works-IsStopped flow granted first (run-down between flagged (unfold step in refl))) in
    let here : f.worker ≡ stopped = rw found at (rw (← (e ∙ e1)) at end_stopped) in
    let books = rw (← e) at (serve-IsAccounted frozen max_concurrent_runs all) in
    let b = IsBooked-lookup flow f s.flows books.booked found in
    let (empty, shut) = b.shut here in
    let o : f.outstanding ≡ 0 + 0 + length f.runs = rw (here, empty) at b.outstanding in
    (empty, omega arith, b.running, rw shut refl)
