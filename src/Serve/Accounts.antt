-- ===== src/Serve/Accounts.antt =====
-- daemon/src/serve.rs: the counters of every flow, the permits, and where each accepted trigger is.
pub mod Moves
pub mod Calls
pub mod Run
use core_tempo.Common.{
  ℕ, zero, suc, ◌+◌, ◌-◌, ◌≤◌, ◌≡◌, refl, String, Bool, true, false, List, [], ◌∷◌, ◌++◌, Option,
  none, some, arith, inl, inr, ◌==◌, ==_iff, string_eq, if◌then◌else◌, Bool-cases, All, count,
  length,
}
use core_tempo.Common.Dict.{Dict, lookup, insert}
use core_tempo.Types.Ids.{FlowName}
use core_tempo.Serve.{
  Job, Worker, receiving, stopped, dequeued, locking, permitting, FlowIngress, Shared, Desk,
  queue_cap, ServeState,
}

-- The job that a worker took off its queue and has not begun.
abbrev pub in_hand : Worker → List Job
in_hand receiving = []
in_hand stopped = []
in_hand (dequeued job) = job ∷ []
in_hand (locking job) = job ∷ []
in_hand (permitting job) = job ∷ []

abbrev pub times : String → List String → ℕ
times id = count (λ known. known == id)

abbrev pub queued_times : String → List Job → ℕ
queued_times id = count (λ job. job.id == id)

-- How often a flow holds a trigger: on its queue, in its worker's hand, or running.
abbrev pub holds : String → FlowIngress → ℕ
holds id f = queued_times id f.jobs + queued_times id (in_hand f.worker) + times id f.runs

pub record IsBooked (f : FlowIngress) : Type 0 where
  pub outstanding : f.outstanding ≡ length f.jobs + length (in_hand f.worker) + length f.runs
  pub running : f.running ≡ length f.runs
  pub bounded : length f.jobs ≤ queue_cap
  pub shut : f.worker ≡ stopped → (f.jobs ≡ []) × (f.is_open ≡ false)

-- A sum over all flows.
abbrev pub total : (FlowIngress → ℕ) → Dict FlowName FlowIngress → ℕ
total amount [] = 0
total amount ((name, f) ∷ flows) = amount f + total amount flows

pub record IsAccounted (max_concurrent_runs : ℕ) (s : ServeState) : Type 0 where
  pub booked : All (λ entry. IsBooked entry.1) s.flows
  pub permits : s.shared.permits + total (λ f. length f.runs) s.flows ≡ max_concurrent_runs
  pub kept :
      (id : String)
      → times id s.shared.accepted ≡ times id s.shared.settlements + total (holds id) s.flows

pub total-insert :
    (amount : FlowIngress → ℕ) (flow : FlowName) (old new : FlowIngress)
    (flows : Dict FlowName FlowIngress)
    → lookup flow flows ≡ some old
    → total amount (insert flow new flows) + amount old ≡ total amount flows + amount new
unfolding lookup insert
total-insert amount flow old new [] h = cc
total-insert amount flow old new ((name, f) ∷ flows) h = elim (Bool-cases (name == flow)) [
  | inl same ↦ let e : f ≡ old = ground (arith, same) in rw (same, e) (omega arith)
  | inr other ↦ rw other (omega (arith, total-insert amount flow old new flows (rw other at h)))
]

pub IsBooked-insert :
    (flow : FlowName) (new : FlowIngress) (flows : Dict FlowName FlowIngress)
    → All (λ entry. IsBooked entry.1) flows
    → IsBooked new
    → All (λ entry. IsBooked entry.1) (insert flow new flows)
unfolding insert
IsBooked-insert flow new [] h b = (b, tt)
IsBooked-insert flow new ((name, f) ∷ flows) h b = elim (Bool-cases (name == flow)) [
  | inl same ↦ rw same (b, h.1)
  | inr other ↦ rw other (h.0, IsBooked-insert flow new flows h.1 b)
]

pub IsBooked-lookup :
    (flow : FlowName) (f : FlowIngress) (flows : Dict FlowName FlowIngress)
    → All (λ entry. IsBooked entry.1) flows
    → lookup flow flows ≡ some f
    → IsBooked f
unfolding lookup
IsBooked-lookup flow f [] h e = cc
IsBooked-lookup flow f ((name, g) ∷ flows) h e = elim (Bool-cases (name == flow)) [
  | inl same ↦ let q : g ≡ f = ground (arith, same) in rw (← q) h.0
  | inr other ↦ IsBooked-lookup flow f flows h.1 (rw other at e)
]
