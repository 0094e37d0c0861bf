-- ===== src/Workflow/Loops/Walk.antt =====
-- core/src/workflow.rs: `walk_loops` returns, and what one call has searched when it does.
use core_tempo.Common.{
  ℕ, zero, suc, ◌≤◌, ◌<◌, ◌≡◌, refl, true, false, not, ◌||◌, List, [], ◌∷◌, ◌++◌, Option, none,
  some, arith, inl, inr, ◌==◌, ==_iff, string_eq, length, count, Bool-cases,
}
use core_tempo.Common.Dict.{Dict, lookup, keys}
use core_tempo.Common.KeySet.{member, insert}
use core_tempo.Types.Ids.{AgentId}
use core_tempo.Types.Config.{AgentConfig}
use core_tempo.Workflow.Loops.{Walked, report, loop_targets, walk_targets, walk_loops, walk_starts}

pub member-append :
    (k at : AgentId) (xs : List AgentId) → member k (xs ++ at ∷ []) ≡ (member k xs || at == k)
unfolding member
member-append k at [] = ground arith
member-append k at (x ∷ xs) = ground (arith, member-append k at xs)

-- The agents that are not being visited.
abbrev pub unvisited : List AgentId → List AgentId → ℕ
unvisited visiting = count (λ k. not (member k visiting))

unvisited_le :
    (at : AgentId) (visiting ks : List AgentId)
    → unvisited (visiting ++ at ∷ []) ks ≤ unvisited visiting ks
unvisited_le at visiting [] = omega arith
unvisited_le at visiting (k ∷ ks) =
    ground (arith, member-append k at visiting, unvisited_le at visiting ks)

unvisited_lt :
    (at : AgentId) (visiting ks : List AgentId)
    → member at ks ≡ true
    → member at visiting ≡ false
    → unvisited (visiting ++ at ∷ []) ks < unvisited visiting ks
unfolding member
unvisited_lt at visiting [] m n = cc
unvisited_lt at visiting (k ∷ ks) m n = ground (
  arith,
  member-append k at visiting,
  ==_iff k at,
  unvisited_le at visiting ks,
  unvisited_lt at visiting ks,
)

pub member-keys :
    (at : AgentId) (agents : Dict AgentId AgentConfig) (cfg : AgentConfig)
    → lookup at agents ≡ some cfg
    → member at (keys agents) ≡ true
unfolding lookup member
member-keys at [] cfg h = cc
member-keys at ((k, other) ∷ agents) cfg h = ground (arith, member-keys at agents cfg)

walk_targets_total :
    (walk : AgentId → Walked → Option Walked)
    → ((at : AgentId) (w : Walked) → (v : Walked) × (walk at w ≡ some v))
    → (tos : List AgentId) (w : Walked) → (v : Walked) × (walk_targets walk tos w ≡ some v)
unfolding walk_targets
walk_targets_total walk total [] w = (w, refl)
walk_targets_total walk total (to ∷ tos) w =
    let (v, e) = total to w in let (u, f) = walk_targets_total walk total tos v in (u, rw e f)

module _ (agents : Dict AgentId AgentConfig) where
  abbrev Returns : ℕ → Type 0
  Returns fuel =
      (visiting : List AgentId) (at : AgentId) (w : Walked)
      → unvisited visiting (keys agents) < fuel
      → (v : Walked) × (walk_loops agents fuel visiting at w ≡ some v)

  targets_total :
      (fuel : ℕ) (visiting : List AgentId) (at : AgentId) (w : Walked)
      → Returns fuel
      → unvisited visiting (keys agents) < suc fuel
      → member at visiting ≡ false
      → (found : Option AgentConfig) → lookup at agents ≡ found
      → (v : Walked) × (walk_targets
            (walk_loops agents fuel (visiting ++ at ∷ []))
            (loop_targets found)
            w
          ≡ some v)
  unfolding walk_targets
  targets_total fuel visiting at w returns h new none e = (w, refl)
  targets_total fuel visiting at w returns h new (some cfg) e =
      walk_targets_total (walk_loops agents fuel (visiting ++ at ∷ []))
        (λ to v. returns (visiting ++ at ∷ []) to v fewer) (loop_targets (some cfg)) w
    where
      fewer : unvisited (visiting ++ at ∷ []) (keys agents) < fuel
      fewer =
          omega (arith, unvisited_lt at visiting (keys agents) (member-keys at agents cfg e) new)

  -- With more fuel than there are agents not yet visited, a walk returns.
  pub walk_loops_total : (fuel : ℕ) → Returns fuel
  unfolding walk_loops
  walk_loops_total zero visiting at w h = elim h [ ]
  walk_loops_total (suc fuel) visiting at w h = elim (Bool-cases (member at visiting)) [
    | inl again ↦ (report at visiting w, rw again)
    | inr new ↦ elim (Bool-cases (member at w.done)) [
      | inl old ↦ (w, rw (new, old))
      | inr unseen ↦
          let (v, e) =
            targets_total fuel visiting at w (walk_loops_total fuel) h new (lookup at agents)
              refl in
          (record v { done = insert at v.done }, rw (new, unseen, e))
    ]
  ]

  unvisited-le-length : (ks : List AgentId) → unvisited [] ks ≤ length ks
  unvisited-le-length [] = omega arith
  unvisited-le-length (k ∷ ks) = ground (arith, unvisited-le-length ks)

  length-keys : (d : Dict AgentId AgentConfig) → length (keys d) ≡ length d
  length-keys [] = refl
  length-keys (x ∷ d) = omega (arith, length-keys d)

  pub walk_starts_total :
      (starts : List AgentId) (w : Walked)
      → (v : Walked) × (walk_starts agents (suc (length agents)) starts w ≡ some v)
  unfolding walk_starts
  walk_starts_total [] w = (w, refl)
  walk_starts_total (start ∷ starts) w = elim (Bool-cases (member start w.done)) [
    | inl old ↦ let (v, e) = walk_starts_total starts w in (v, rw old e)
    | inr new ↦
        let (u, d) =
          walk_loops_total (suc (length agents)) [] start w
            (omega (arith, unvisited-le-length (keys agents), length-keys agents)) in
        let (v, e) = walk_starts_total starts u in (v, rw (new, d) e)
  ]
