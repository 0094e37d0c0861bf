-- ===== src/Workflow/Loops/Cycles.antt =====
-- core/src/workflow.rs: a cycle of loop edges is reported exactly when there is one.
use core_tempo.Common.{
  ℕ, zero, suc, ◌≤◌, ◌≡◌, ◌↔◌, true, List, [], ◌∷◌, ◌++◌, Option, some, arith, inl, inr, ==_iff,
  string_eq, length, Bool-cases, >>=-eq-some, Option-cases, ◌∙◌,
}
use core_tempo.Common.Dict.{Dict, lookup, keys}
use core_tempo.Common.KeySet.{member}
use core_tempo.Types.Ids.{AgentId}
use core_tempo.Types.Config.{AgentConfig}
use core_tempo.Workflow.Loops.{
  Walked, loop_targets, walk_targets, finish, walk_loops, walk_starts, search_cycles,
  validate_loop_cycles,
}
use core_tempo.Workflow.Loops.Walk.{walk_starts_total, member-append, member-keys}
use core_tempo.Workflow.Loops.Search.{IsLoop, LoopPath, one, more, Acyclic, walk_starts-IsWalked}

module _ (agents : Dict AgentId AgentConfig) where
  -- The fuel is enough: the search for cycles returns, for any agents and edges.
  pub search_cycles_total : (v : Walked) × (search_cycles agents ≡ some v)
  unfolding search_cycles
  search_cycles_total = walk_starts_total agents (keys agents) (record { done = []; issues = [] })

  targets-issues :
      (walk : AgentId → Walked → Option Walked) (tos : List AgentId)
      → ((to : AgentId)
          → member to tos ≡ true
          → (w v : Walked) → walk to w ≡ some v
          → v.issues ≡ w.issues)
      → (w v : Walked) → walk_targets walk tos w ≡ some v
      → v.issues ≡ w.issues
  unfolding walk_targets member
  targets-issues walk [] quiet w v h = cc
  targets-issues walk (to ∷ tos) quiet w v h =
      let (u, first, rest) = >>=-eq-some (walk to w) (walk_targets walk tos) h in
      targets-issues walk tos (λ x m. quiet x (ground arith)) u v rest
      ∙ quiet to (ground (arith, ==_iff to to)) w u first

  module _ (acyclic : Acyclic agents) where
    walk_loops-issues :
        (fuel : ℕ) (visiting : List AgentId) (at : AgentId)
        → ((a : AgentId) → member a visiting ≡ true → LoopPath agents a at)
        → (w v : Walked) → walk_loops agents fuel visiting at w ≡ some v
        → v.issues ≡ w.issues
    unfolding walk_loops
    walk_loops-issues zero visiting at leads w v h = cc
    walk_loops-issues (suc fuel) visiting at leads w v h = elim (Bool-cases (member at visiting)) [
      | inl again ↦ absurd (acyclic at (leads at again))
      | inr new ↦ elim (Bool-cases (member at w.done)) [
        | inl old ↦ cc (rw (new, old) at h)
        | inr unseen ↦
            let (u, e, f) =
              >>=-eq-some
                (walk_targets (walk_loops agents fuel (visiting ++ at ∷ []))
                  (loop_targets (lookup at agents)) w)
                (finish at) (rw (new, unseen) at h) in
            let same =
              targets-issues (walk_loops agents fuel (visiting ++ at ∷ []))
                (loop_targets (lookup at agents))
                (λ to m. walk_loops-issues fuel (visiting ++ at ∷ []) to (λ a k. further to m a k))
                w u e in
            cc
      ]
    ]
      where
        further :
            (to : AgentId)
            → IsLoop agents at to
            → (a : AgentId) → member a (visiting ++ at ∷ []) ≡ true
            → LoopPath agents a to
        further to m a k = elim (Bool-cases (member a visiting)) [
          | inl before ↦ more (leads a before) m
          | inr last ↦ one (rw (← (==_iff at a).0 (ground (arith, member-append a at visiting))) m)
        ]

    walk_starts-issues :
        (fuel : ℕ) (starts : List AgentId) (w v : Walked)
        → walk_starts agents fuel starts w ≡ some v
        → v.issues ≡ w.issues
    unfolding walk_starts
    walk_starts-issues fuel [] w v h = cc
    walk_starts-issues fuel (start ∷ starts) w v h = elim (Bool-cases (member start w.done)) [
      | inl old ↦ walk_starts-issues fuel starts w v (rw old at h)
      | inr new ↦
          let (u, first, rest) =
            >>=-eq-some (walk_loops agents fuel [] start w) (walk_starts agents fuel starts)
              (rw new at h) in
          walk_starts-issues fuel starts u v rest
          ∙ walk_loops-issues fuel [] start (λ a m. unfold member in cc) w u first
    ]

  -- A path starts at an agent of the file.
  first_agent : (a : AgentId) {b : AgentId} → LoopPath agents a b → member a (keys agents) ≡ true
  first_agent a (one e) = elim (Option-cases (lookup a agents)) [
    | inl missing ↦ unfold member in cc (rw missing at e)
    | inr (cfg, found) ↦ member-keys a agents cfg found
  ]
  first_agent a (more p e) = first_agent a p

  quiet-Acyclic : (v : Walked) → search_cycles agents ≡ some v → v.issues ≡ [] → Acyclic agents
  unfolding search_cycles
  quiet-Acyclic v h quiet a p =
      let x =
        walk_starts-IsWalked agents (suc (length agents)) (keys agents)
          (record { done = []; issues = [] }) v h in
      let small : length v.issues ≤ 0 = rw quiet (omega arith) in
      let inv =
        x.inv small
          (record { closed = λ b m. unfold member in cc; acyclic = λ b m. unfold member in cc }) in
      inv.acyclic a (x.reached small a (first_agent a p)) p

  -- No cycle is reported exactly when no agent leads back to itself along loop edges.
  pub validate_loop_cycles_iff : (validate_loop_cycles agents ≡ []) ↔ Acyclic agents
  unfolding validate_loop_cycles
  validate_loop_cycles_iff =
      let (v, e) = search_cycles_total in
      (
        λ h. quiet-Acyclic v e (rw (e, validate_loop_cycles) at h),
        λ acyclic.
            rw (e, validate_loop_cycles)
              (unfold search_cycles in
                walk_starts-issues acyclic (suc (length agents)) (keys agents)
                  (record { done = []; issues = [] }) v e),
      )
