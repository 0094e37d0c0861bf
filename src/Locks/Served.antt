-- ===== src/Locks/Served.antt =====
-- core/src/locks.rs: every schedule of acquisitions ends, and serves every flow.
use core_tempo.Common.{
  ℕ, ◌+◌, ◌≤◌, ◌⊎◌, ◌≡◌, refl, true, List, [], ◌∷◌, ◌++◌, map, arith, nat_eq, if◌then◌else◌, All,
  length, ap,
}
use core_tempo.Types.Ids.{AgentId}
use core_tempo.Types.Config.{exclusive}
use core_tempo.Locks.{
  AgentLocks, Flow, acquire, wanted, mode_at, take_next, drop_guards, Step, takes, drops, Reach,
  here, next,
}
use core_tempo.Locks.Order.{Ascending, IsOrdered, acquire-IsOrdered}
use core_tempo.Locks.Progress.{never_wedged}
use core_tempo.Locks.Holders.{holders, times, exclusive_alone}

-- The steps that are left: one for each lock that is waited for, and one to let all go.
abbrev left_of : Flow → ℕ
left_of f = length f.wants + (if f.done then 0 else 1)

pub work : List Flow → ℕ
work [] = 0
work (f ∷ s) = left_of f + work s

work-append : (s u : List Flow) → work (s ++ u) ≡ work s + work u
unfolding work
work-append [] u = omega arith
work-append (f ∷ s) u = omega (arith, work-append s u)

Step-work : {locks : AgentLocks} {s u : List Flow} → Step locks s u → work s ≡ work u + 1
unfolding work
Step-work (takes before after f n rest e w g d) =
    rw (e, d)
      (omega (
        arith,
        work-append before (take_next f n rest ∷ after),
        work-append before (f ∷ after),
        ap length w,
      ))
Step-work (drops before after f e w n d) =
    rw (e, d)
      (ground (arith, work-append before (drop_guards f ∷ after), work-append before (f ∷ after)))

pub steps : {locks : AgentLocks} {start s : List Flow} → Reach locks start s → ℕ
steps here = 0
steps (next r st) = steps r + 1

steps-work :
    {locks : AgentLocks} {start s : List Flow} (r : Reach locks start s)
    → steps r + work s ≡ work start
unfolding steps
steps-work here = omega arith
steps-work (next r st) = omega (arith, steps-work r, Step-work st)

All-IsOrdered :
    (locks : AgentLocks) (flows : List (List AgentId))
    → All (λ members. Ascending (wanted locks members)) flows
    → All IsOrdered (map (acquire locks) flows)
All-IsOrdered locks [] h = tt
All-IsOrdered locks (members ∷ flows) h =
    (acquire-IsOrdered locks members h.0, All-IsOrdered locks flows h.1)

start-holders :
    (n : ℕ) (locks : AgentLocks) (flows : List (List AgentId))
    → holders n (map (acquire locks) flows) ≡ 0
unfolding holders acquire times
start-holders n locks [] = refl
start-holders n locks (members ∷ flows) = omega (arith, start-holders n locks flows)

-- Flows that take their members' locks in the pool's order, however their acquisitions interleave, are
-- never wedged: as long as one has not let its guards go, some flow can take its next lock or release.
-- An exclusive agent serves one flow at most at any time. And no schedule has more steps than there are
-- locks to take and flows to release, so that every flow gets its turn.
pub flows_served :
    (locks : AgentLocks) (flows : List (List AgentId)) (s : List Flow)
    → All (λ members. Ascending (wanted locks members)) flows
    → (r : Reach locks (map (acquire locks) flows) s)
    → (All (λ f. f.done ≡ true) s ⊎ ((u : List Flow) × Step locks s u))
      × ((n : ℕ) → mode_at locks n ≡ exclusive → holders n s ≤ 1)
      × (steps r ≤ work (map (acquire locks) flows))
flows_served locks flows s h r = (
  never_wedged locks (map (acquire locks) flows) s (All-IsOrdered locks flows h) r,
  λ n x. exclusive_alone r n x (omega (arith, start-holders n locks flows)),
  omega (arith, steps-work r),
)
