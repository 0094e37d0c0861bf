-- ===== src/Serve/Accounts/Run.antt =====
-- daemon/src/serve.rs: any history of calls keeps the accounts of the daemon.
use core_tempo.Common.{
  ℕ, ◌≡◌, refl, List, [], ◌∷◌, map, Option, none, some, arith, string_eq, All, length,
}
use core_tempo.Common.Dict.{lookup}
use core_tempo.Types.Ids.{FlowName}
use core_tempo.Types.Config.{FrozenWorkflow}
use core_tempo.Serve.{
  FlowIngress, Desk, ServeState, Call, posts, works, ends, interrupts, put_back, on_flow, step, run,
  new_ingress, webhook_flows, serve, admit, work, end_run,
}
use core_tempo.Serve.Accounts.{
  holds, IsBooked, total, IsAccounted, total-insert, IsBooked-insert, IsBooked-lookup,
}
use core_tempo.Serve.Accounts.Moves.{Moves}
use core_tempo.Serve.Accounts.Calls.{work-Moves, admit-Moves, end_run-Moves}

module _ (max_concurrent_runs : ℕ) where
  put_back-IsAccounted :
      (flow : FlowName) (f : FlowIngress) (s : ServeState) (e : Desk)
      → lookup flow s.flows ≡ some f
      → Moves (f, s.shared) e
      → IsAccounted max_concurrent_runs s
      → IsAccounted max_concurrent_runs (put_back flow s e)
  put_back-IsAccounted flow f s (g, shared) found m a = record {
    booked = IsBooked-insert flow g s.flows a.booked m.booked;
    permits =
        omega
          (arith, a.permits, m.permits, total-insert (λ x. length x.runs) flow f g s.flows found);
    kept =
        λ id. omega (arith, a.kept id, m.kept id, total-insert (holds id) flow f g s.flows found);
  }

  on_flow-IsAccounted :
      (flow : FlowName) (act : Desk → Desk) (s : ServeState) (found : Option FlowIngress)
      → ((d : Desk) → IsBooked d.0 → Moves d (act d))
      → lookup flow s.flows ≡ found
      → IsAccounted max_concurrent_runs s
      → IsAccounted max_concurrent_runs (on_flow flow act s found)
  on_flow-IsAccounted flow act s none moves e a = a
  on_flow-IsAccounted flow act s (some f) moves e a =
      put_back-IsAccounted flow f s (act (f, s.shared)) e
        (moves (f, s.shared) (IsBooked-lookup flow f s.flows a.booked e)) a

  step-IsAccounted :
      (c : Call) (s : ServeState)
      → IsAccounted max_concurrent_runs s
      → IsAccounted max_concurrent_runs (step c s)
  unfolding step
  step-IsAccounted (posts flow id payload) s a =
      on_flow-IsAccounted flow (λ d. (admit id payload d).0) s (lookup flow s.flows)
        (admit-Moves id payload) refl a
  step-IsAccounted (works flow granted) s a =
      on_flow-IsAccounted flow (work flow granted) s (lookup flow s.flows) (work-Moves flow granted)
        refl a
  step-IsAccounted (ends flow id how) s a =
      on_flow-IsAccounted flow (end_run id how) s (lookup flow s.flows) (end_run-Moves id how) refl
        a
  step-IsAccounted interrupts s a = record { booked = a.booked; permits = a.permits; kept = a.kept }

  run-IsAccounted :
      (cs : List Call) (s : ServeState)
      → IsAccounted max_concurrent_runs s
      → IsAccounted max_concurrent_runs (run cs s)
  unfolding run
  run-IsAccounted [] s a = a
  run-IsAccounted (c ∷ cs) s a = run-IsAccounted cs (step c s) (step-IsAccounted c s a)

new-IsBooked :
    (names : List FlowName)
    → All (λ (e : FlowName × FlowIngress). IsBooked e.1) (map (λ n. (n, new_ingress)) names)
new-IsBooked [] = tt
new-IsBooked (name ∷ names) = (
  record {
    outstanding = refl;
    running = refl;
    bounded = omega arith;
    shut = λ w. absurd (ground arith);
  },
  new-IsBooked names,
)

total-new :
    (amount : FlowIngress → ℕ) (names : List FlowName)
    → amount new_ingress ≡ 0
    → total amount (map (λ n. (n, new_ingress)) names) ≡ 0
total-new amount [] z = refl
total-new amount (name ∷ names) z = omega (arith, z, total-new amount names z)

-- After any calls of a daemon, in any order: each flow's count of outstanding triggers is that of its
-- queue, its worker's hand and its live runs, no queue is over its cap, the permits left and the live
-- runs make up the limit, and every trigger was accepted as often as it was settled or is still held.
pub serve-IsAccounted :
    (frozen : FrozenWorkflow) (max_concurrent_runs : ℕ) (calls : List Call)
    → IsAccounted max_concurrent_runs (run calls (serve frozen max_concurrent_runs))
unfolding serve
serve-IsAccounted frozen max_concurrent_runs calls =
    run-IsAccounted max_concurrent_runs calls (serve frozen max_concurrent_runs) (record {
      booked = new-IsBooked (webhook_flows frozen);
      permits = omega (arith, total-new (λ f. length f.runs) (webhook_flows frozen) refl);
      kept = λ id. omega (arith, total-new (holds id) (webhook_flows frozen) refl);
    })
