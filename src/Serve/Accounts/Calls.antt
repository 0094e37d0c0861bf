-- ===== src/Serve/Accounts/Calls.antt =====
-- daemon/src/serve.rs: each call keeps the books of the flow that it is about.
use core_tempo.Common.{
  suc, ◌+◌, ◌≤◌, ◌≡◌, refl, String, Bool, true, false, not, ◌||◌, List, [], ◌∷◌, arith, inl, inr,
  ◌==◌, ==_iff, string_eq, nat_eq, if◌then◌else◌, leb, Bool-cases, length, length-append,
  count-append, any, ap,
}
use core_tempo.Types.Ids.{FlowName}
use core_tempo.Trigger.Hub.{TaskEnd}
use core_tempo.Serve.{
  Job, Worker, receiving, stopped, dequeued, locking, permitting, FlowIngress, Shared, Desk,
  queue_cap, settle_running, admit, receive, spawn_run, work_at, work, take_run, end_run,
}
use core_tempo.Serve.Accounts.{in_hand, times, IsBooked}
use core_tempo.Serve.Accounts.Moves.{Moves, stop_worker-Moves, abandon-Moves, stays-Moves}

receive-Moves :
    (jobs : List Job) (f : FlowIngress) (s : Shared)
    → f.worker ≡ receiving
    → f.jobs ≡ jobs
    → IsBooked f
    → Moves (f, s) (receive jobs (f, s))
receive-Moves [] f s w e b = stays-Moves (f, s) b
receive-Moves (job ∷ jobs) f s w e b =
    let o : f.outstanding ≡ suc (length jobs) + 0 + length f.runs = rw (w, e) at b.outstanding in
    let few : suc (length jobs) ≤ queue_cap = rw e at b.bounded in
    record {
      booked = record {
        outstanding = omega arith;
        running = b.running;
        bounded = omega arith;
        shut = λ q. absurd (ground arith);
      };
      permits = refl;
      kept = λ id. rw (w, e) (omega arith);
    }

-- A worker that goes on to its next wait with the same job.
hold-Moves :
    (job : Job) (next : Worker) (f : FlowIngress) (s : Shared)
    → in_hand f.worker ≡ job ∷ []
    → in_hand next ≡ job ∷ []
    → IsBooked f
    → Moves (f, s) (record f { worker = next }, s)
hold-Moves job next f s w n b = record {
  booked = record {
    outstanding = rw n (rw w at b.outstanding);
    running = b.running;
    bounded = b.bounded;
    shut = λ q. absurd (cc (rw q at n));
  };
  permits = refl;
  kept = λ id. rw (w, n) refl;
}

spawn_run-Moves :
    (flow : FlowName) (job : Job) (f : FlowIngress) (s : Shared)
    → in_hand f.worker ≡ job ∷ []
    → 1 ≤ s.permits
    → IsBooked f
    → Moves (f, s) (spawn_run flow job (f, s))
unfolding spawn_run
spawn_run-Moves flow job f s w p b =
    let o : f.outstanding ≡ length f.jobs + 1 + length f.runs = rw w at b.outstanding in
    let r = b.running in
    record {
      booked = record {
        outstanding = omega arith;
        running = omega arith;
        bounded = b.bounded;
        shut = λ q. absurd (ground arith);
      };
      permits = omega arith;
      kept = λ id. rw w (omega arith);
    }

if-Moves :
    (test : Bool) (d e g : Desk)
    → (test ≡ true → Moves d e)
    → (test ≡ false → Moves d g)
    → Moves d (if test then e else g)
if-Moves true d e g h k = h refl
if-Moves false d e g h k = k refl

work_at-Moves :
    (flow : FlowName) (granted : Bool) (w : Worker) (f : FlowIngress) (s : Shared)
    → f.worker ≡ w
    → IsBooked f
    → Moves (f, s) (work_at flow granted w (f, s))
work_at-Moves flow granted stopped f s e b = stays-Moves (f, s) b
work_at-Moves flow granted receiving f s e b =
    if-Moves s.shutdown (f, s) _ _ (λ down. stop_worker-Moves f s e b)
      (λ up. receive-Moves f.jobs f s e refl b)
work_at-Moves flow granted (dequeued job) f s e b =
    if-Moves s.shutdown (f, s) _ _ (λ down. abandon-Moves job f s (ap in_hand e) b)
      (λ up. hold-Moves job (locking job) f s (ap in_hand e) refl b)
work_at-Moves flow granted (locking job) f s e b =
    if-Moves s.shutdown (f, s) _ _ (λ down. abandon-Moves job f s (ap in_hand e) b)
      (λ up.
        if-Moves granted (f, s) _ _
          (λ there. hold-Moves job (permitting job) f s (ap in_hand e) refl b)
          (λ waits. stays-Moves (f, s) b))
work_at-Moves flow granted (permitting job) f s e b =
    if-Moves s.shutdown (f, s) _ _ (λ down. abandon-Moves job f s (ap in_hand e) b)
      (λ up.
        if-Moves (leb 1 s.permits) (f, s) _ _
          (λ free. spawn_run-Moves flow job f s (ap in_hand e) (ground (arith, free)) b)
          (λ taken. stays-Moves (f, s) b))

pub work-Moves :
    (flow : FlowName) (granted : Bool) (d : Desk) → IsBooked d.0 → Moves d (work flow granted d)
unfolding work
work-Moves flow granted (f, s) b = work_at-Moves flow granted f.worker f s refl b

pub admit-Moves : (id payload : String) (d : Desk) → IsBooked d.0 → Moves d (admit id payload d).0
unfolding admit
admit-Moves id payload (f, s) b = elim (Bool-cases (not f.is_open || f.closed)) [
  | inl shut ↦ rw shut (stays-Moves (f, s) b)
  | inr accepts ↦ elim (Bool-cases (leb queue_cap (length f.jobs))) [
    | inl full ↦ rw (accepts, full) (stays-Moves (f, s) b)
    | inr room ↦
        let job : Job = record { id = id; payload = payload } in
        let o = b.outstanding in
        rw (accepts, room)
          (record {
            booked = record {
              outstanding = omega (arith, length-append f.jobs (job ∷ []));
              running = b.running;
              bounded = ground (arith, room, length-append f.jobs (job ∷ []));
              shut = λ q. absurd (ground (arith, accepts, b.shut q));
            };
            permits = refl;
            kept = λ other. omega (
              arith,
              count-append (λ k. k == other) s.accepted (id ∷ []),
              count-append (λ k. k.id == other) f.jobs (job ∷ []),
            );
          })
  ]
]

length-take_run :
    (id : String) (runs : List String)
    → any (λ run. run == id) runs ≡ true
    → suc (length (take_run id runs)) ≡ length runs
unfolding take_run
length-take_run id [] h = cc
length-take_run id (run ∷ runs) h = elim (Bool-cases (run == id)) [
  | inl same ↦ rw same refl
  | inr other ↦ rw other (ap suc (length-take_run id runs (rw other at h)))
]

times-take_run :
    (id other : String) (runs : List String)
    → any (λ run. run == id) runs ≡ true
    → times other (take_run id runs) + times other (id ∷ []) ≡ times other runs
unfolding take_run
times-take_run id other [] h = cc
times-take_run id other (run ∷ runs) h = elim (Bool-cases (run == id)) [
  | inl same ↦ let e = (==_iff run id).0 same in rw same (rw (← e) (omega arith))
  | inr differs ↦ rw differs (omega (arith, times-take_run id other runs (rw differs at h)))
]

pub end_run-Moves :
    (id : String) (how : TaskEnd) (d : Desk) → IsBooked d.0 → Moves d (end_run id how d)
unfolding end_run settle_running
end_run-Moves id how (f, s) b = elim (Bool-cases (any (λ run. run == id) f.runs)) [
  | inl live ↦
      let fewer = length-take_run id f.runs live in
      let o = b.outstanding in
      let r = b.running in
      rw live (record {
        booked = record {
          outstanding = omega arith;
          running = omega arith;
          bounded = b.bounded;
          shut = b.shut;
        };
        permits = omega arith;
        kept = λ other. omega (
          arith,
          count-append (λ k. k == other) s.settlements (id ∷ []),
          times-take_run id other f.runs live,
        );
      })
  | inr gone ↦ rw gone (stays-Moves (f, s) b)
]
