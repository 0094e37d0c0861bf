-- ===== src/Serve/Accounts/Moves.antt =====
-- daemon/src/serve.rs: what keeps the books of a flow, and that a worker which stops does.
use core_tempo.Common.{
  ℕ, ◌+◌, ◌-◌, ◌≡◌, refl, String, true, false, List, [], ◌∷◌, arith, ◌==◌, string_eq, nat_eq,
  length, count-append, ap, ◌∙◌,
}
use core_tempo.Serve.{
  Job, receiving, stopped, FlowIngress, Shared, Desk, interrupted, settle_queued, settle_drained,
  close_queue, stop_worker, abandon,
}
use core_tempo.Serve.Accounts.{in_hand, times, queued_times, holds, IsBooked}

-- From one desk to the next the books stay true, no permit is lost, and no trigger.
pub record Moves (d e : Desk) : Type 0 where
  pub booked : IsBooked e.0
  pub permits : e.1.permits + length e.0.runs ≡ d.1.permits + length d.0.runs
  pub kept :
      (id : String)
      → times id e.1.accepted + times id d.1.settlements + holds id d.0
        ≡ times id d.1.accepted + times id e.1.settlements + holds id e.0

-- The queue's jobs are settled, and nothing else changes.
pub record Drains (jobs : List Job) (d e : Desk) : Type 0 where
  pub flow : e.0 ≡ record d.0 { outstanding = d.0.outstanding - length jobs }
  pub permits : e.1.permits ≡ d.1.permits
  pub accepted : e.1.accepted ≡ d.1.accepted
  pub down : e.1.shutdown ≡ d.1.shutdown
  pub settled :
      (id : String) → times id e.1.settlements ≡ times id d.1.settlements + queued_times id jobs

pub settle_drained-Drains : (jobs : List Job) (d : Desk) → Drains jobs d (settle_drained jobs d)
unfolding settle_drained settle_queued
settle_drained-Drains [] (f, s) = record {
  flow = ap (λ n. record f { outstanding = n }) {x = f.outstanding} (omega arith);
  permits = refl;
  accepted = refl;
  down = refl;
  settled = λ id. omega arith;
}
settle_drained-Drains (job ∷ jobs) (f, s) =
    let r = settle_drained-Drains jobs (settle_queued job.id interrupted (f, s)) in
    record {
      flow =
          r.flow
          ∙ ap (λ n. record f { outstanding = n }) {x = f.outstanding - 1 - length jobs}
              (omega arith);
      permits = r.permits;
      accepted = r.accepted;
      down = r.down;
      settled = λ id.
          omega (arith, r.settled id, count-append (λ k. k == id) s.settlements (job.id ∷ []));
    }

-- A worker that stops with nothing in hand but what was just settled.
abbrev pub shut_flow : FlowIngress → ℕ → FlowIngress
shut_flow f n = record f {
  worker = stopped;
  is_open = false;
  closed = true;
  jobs = [];
  outstanding = n;
}

shut-Moves :
    (d e : Desk) (n : ℕ)
    → IsBooked d.0
    → e.0 ≡ shut_flow d.0 n
    → n ≡ length d.0.runs
    → e.1.permits ≡ d.1.permits
    → e.1.accepted ≡ d.1.accepted
    → ((id : String)
        → times id e.1.settlements
          ≡ times id d.1.settlements
            + queued_times id d.0.jobs
            + queued_times id (in_hand d.0.worker))
    → Moves d e
shut-Moves (f, s) (g, t) n b flow same permits accepted paid = rw flow (record {
  booked = record {
    outstanding = omega arith;
    running = b.running;
    bounded = omega arith;
    shut = λ w. (refl, refl);
  };
  permits = rw permits refl;
  kept = λ id. rw accepted (omega (arith, paid id));
})

pub stop_worker-Moves :
    (f : FlowIngress) (s : Shared)
    → f.worker ≡ receiving
    → IsBooked f
    → Moves (f, s) (stop_worker (f, s))
unfolding stop_worker close_queue
stop_worker-Moves f s w b =
    let r = settle_drained-Drains f.jobs (shut_flow f f.outstanding, s) in
    let o : f.outstanding ≡ length f.jobs + 0 + length f.runs = rw w at b.outstanding in
    shut-Moves (f, s) (stop_worker (f, s)) (f.outstanding - length f.jobs) b r.flow (omega arith)
      r.permits r.accepted (λ id. rw w (omega (arith, r.settled id)))

pub abandon-Moves :
    (job : Job) (f : FlowIngress) (s : Shared)
    → in_hand f.worker ≡ job ∷ []
    → IsBooked f
    → Moves (f, s) (abandon job (f, s))
unfolding abandon settle_queued stop_worker close_queue
abandon-Moves job f s w b =
    let r =
      settle_drained-Drains f.jobs
        (shut_flow f (f.outstanding - 1), (settle_queued job.id interrupted (f, s)).1) in
    let o : f.outstanding ≡ length f.jobs + 1 + length f.runs = rw w at b.outstanding in
    shut-Moves (f, s) (abandon job (f, s)) (f.outstanding - 1 - length f.jobs) b r.flow
      (omega arith) r.permits r.accepted
      (λ id.
        rw w (omega (arith, r.settled id, count-append (λ k. k == id) s.settlements (job.id ∷ []))))

pub stays-Moves : (d : Desk) → IsBooked d.0 → Moves d d
stays-Moves d b = record { booked = b; permits = refl; kept = λ id. refl }
