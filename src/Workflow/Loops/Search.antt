-- ===== src/Workflow/Loops/Search.antt =====
-- core/src/workflow.rs: what the search for cycles has done when it reports nothing.
use core_tempo.Common.{
  ℕ, zero, suc, ◌+◌, ◌≤◌, ◌≡◌, true, false, List, [], ◌∷◌, ◌++◌, Option, some, arith, inl, inr,
  ◌==◌, ==_iff, string_eq, length, length-append, Bool-cases, ◌>>=◌, >>=-eq-some,
}
use core_tempo.Common.Dict.{Dict, lookup}
use core_tempo.Common.KeySet.{member, insert, member-insert}
use core_tempo.Types.Ids.{AgentId}
use core_tempo.Types.Config.{AgentConfig}
use core_tempo.Workflow.Loops.{
  Walked, report, loop_targets, walk_targets, finish, walk_loops, walk_starts,
}

module _ (agents : Dict AgentId AgentConfig) where
  -- A loop edge from one agent to another.
  abbrev pub IsLoop : AgentId → AgentId → Type 0
  IsLoop a b = member b (loop_targets (lookup a agents)) ≡ true

  -- A way along one or more loop edges.
  pub data LoopPath (a : AgentId) : AgentId → Type 0 where
    one : {b : AgentId} → IsLoop a b → LoopPath a b
    more : {b c : AgentId} → LoopPath a b → IsLoop b c → LoopPath a c

  abbrev pub Acyclic : Type 0
  Acyclic = (a : AgentId) → ¬ LoopPath a a

  abbrev pub Contains : List AgentId → AgentId → Type 0
  Contains s a = member a s ≡ true

  -- What is done leads only to what is done, and never back to itself.
  pub record Inv (done : List AgentId) : Type 0 where
    pub closed : (a : AgentId) → Contains done a → (b : AgentId) → IsLoop a b → Contains done b
    pub acyclic : (a : AgentId) → Contains done a → ¬ LoopPath a a

  path-Contains :
      (done : List AgentId)
      → Inv done
      → (a : AgentId) → ((b : AgentId) → IsLoop a b → Contains done b)
      → {b : AgentId} → LoopPath a b
      → Contains done b
  path-Contains done inv a out (one {b} e) = out b e
  path-Contains done inv a out (more {b} {c} p e) =
      inv.closed b (path-Contains done inv a out p) c e

  insert-Inv :
      (done : List AgentId) (at : AgentId)
      → Inv done
      → ((b : AgentId) → IsLoop at b → Contains done b)
      → Inv (insert at done)
  insert-Inv done at inv out = record {
    closed = λ a m b e. added b (elim (Bool-cases (at == a)) [
      | inl same ↦ out b (rw ((==_iff at a).0 same) e)
      | inr other ↦ inv.closed a (within a m other) b e
    ]);
    acyclic = λ a m p. elim (Bool-cases (at == a)) [
      | inl same ↦
          let e = (==_iff at a).0 same in
          inv.acyclic a (path-Contains done inv a (rw (← e) out) p) p
      | inr other ↦ inv.acyclic a (within a m other) p
    ];
  }
    where
      added : (b : AgentId) → Contains done b → Contains (insert at done) b
      added b m = ground (arith, member-insert at b done)

      within : (a : AgentId) → Contains (insert at done) a → (at == a) ≡ false → Contains done a
      within a m other = ground (arith, member-insert at a done)

  -- What a walk that reports nothing new has done, of the agents `tos`.
  pub record IsWalked (tos : List AgentId) (w v : Walked) : Type 0 where
    pub grows : length w.issues ≤ length v.issues
    pub kept :
        length v.issues ≤ length w.issues → (a : AgentId) → Contains w.done a → Contains v.done a
    pub inv : length v.issues ≤ length w.issues → Inv w.done → Inv v.done
    pub reached :
        length v.issues ≤ length w.issues → (a : AgentId) → Contains tos a → Contains v.done a

  abbrev Walks : (AgentId → Walked → Option Walked) → Type 0
  Walks walk = (at : AgentId) (w v : Walked) → walk at w ≡ some v → IsWalked (at ∷ []) w v

  targets-IsWalked :
      (walk : AgentId → Walked → Option Walked)
      → Walks walk
      → (tos : List AgentId) (w v : Walked) → walk_targets walk tos w ≡ some v
      → IsWalked tos w v
  unfolding walk_targets member
  targets-IsWalked walk walks [] w v h =
      let e : w ≡ v = cc in
      rw (← e)
        (record { grows = omega arith; kept = λ _ a m. m; inv = λ _ i. i; reached = λ _ a m. cc })
  targets-IsWalked walk walks (to ∷ tos) w v h =
      let (u, first, rest) = >>=-eq-some (walk to w) (walk_targets walk tos) h in
      let x = walks to w u first in
      let y = targets-IsWalked walk walks tos u v rest in
      let xg = x.grows in
      let yg = y.grows in
      record {
        grows = omega arith;
        kept = λ q a m. y.kept (omega arith) a (x.kept (omega arith) a m);
        inv = λ q i. y.inv (omega arith) (x.inv (omega arith) i);
        reached = λ q a m. elim (Bool-cases (to == a)) [
          | inl same ↦ y.kept (omega arith) a (x.reached (omega arith) a (rw same))
          | inr other ↦ y.reached (omega arith) a (rw other at m)
        ];
      }

  length-report :
      (at : AgentId) (visiting : List AgentId) (w : Walked)
      → length (report at visiting w).issues ≡ length w.issues + 1
  length-report at visiting w = omega (arith, length-append {0} w.issues)

  walk_loops-IsWalked :
      (fuel : ℕ) (visiting : List AgentId) → Walks (walk_loops agents fuel visiting)
  unfolding walk_loops member
  walk_loops-IsWalked zero visiting at w v h = cc
  walk_loops-IsWalked (suc fuel) visiting at w v h = elim (Bool-cases (member at visiting)) [
    | inl again ↦
        let e : report at visiting w ≡ v = cc (rw again at h) in
        let l : length v.issues ≡ length w.issues + 1 = rw (← e) (length-report at visiting w) in
        record {
          grows = omega arith;
          kept = λ q. absurd (omega arith);
          inv = λ q. absurd (omega arith);
          reached = λ q. absurd (omega arith);
        }
    | inr new ↦ elim (Bool-cases (member at w.done)) [
      | inl old ↦
          let e : w ≡ v = cc (rw (new, old) at h) in
          rw (← e) (record {
            grows = omega arith;
            kept = λ _ a m. m;
            inv = λ _ i. i;
            reached = λ _ a m. ground (arith, ==_iff at a);
          })
      | inr unseen ↦ deeper (walk_loops-IsWalked fuel (visiting ++ at ∷ [])) (rw (new, unseen) at h)
    ]
  ]
    where
      deeper :
          Walks (walk_loops agents fuel (visiting ++ at ∷ []))
          → (walk_targets
                (walk_loops agents fuel (visiting ++ at ∷ []))
                (loop_targets (lookup at agents))
                w
              >>= finish at)
            ≡ some v
          → IsWalked (at ∷ []) w v
      deeper walks h =
          let (u, e, f) = >>=-eq-some _ (finish at) h in
          let x =
            targets-IsWalked (walk_loops agents fuel (visiting ++ at ∷ [])) walks
              (loop_targets (lookup at agents)) w u e in
          let xg = x.grows in
          let end : record u { done = insert at u.done } ≡ v = cc in
          rw (← end) (record {
            grows = omega arith;
            kept = λ q a m. ground (arith, member-insert at a u.done, x.kept q a m);
            inv = λ q i. insert-Inv u.done at (x.inv q i) (x.reached q);
            reached = λ q a m. ground (arith, member-insert at a u.done);
          })

  pub walk_starts-IsWalked :
      (fuel : ℕ) (starts : List AgentId) (w v : Walked)
      → walk_starts agents fuel starts w ≡ some v
      → IsWalked starts w v
  unfolding walk_starts member
  walk_starts-IsWalked fuel [] w v h =
      let e : w ≡ v = cc in
      rw (← e)
        (record { grows = omega arith; kept = λ _ a m. m; inv = λ _ i. i; reached = λ _ a m. cc })
  walk_starts-IsWalked fuel (start ∷ starts) w v h = elim (Bool-cases (member start w.done)) [
    | inl old ↦
        let y = walk_starts-IsWalked fuel starts w v (rw old at h) in
        record {
          grows = y.grows;
          kept = y.kept;
          inv = y.inv;
          reached = λ q a m. elim (Bool-cases (start == a)) [
            | inl same ↦ y.kept q a (rw (← (==_iff start a).0 same) old)
            | inr other ↦ y.reached q a (rw other at m)
          ];
        }
    | inr new ↦
        let (u, first, rest) =
          >>=-eq-some (walk_loops agents fuel [] start w) (walk_starts agents fuel starts)
            (rw new at h) in
        let x = walk_loops-IsWalked fuel [] start w u first in
        let y = walk_starts-IsWalked fuel starts u v rest in
        let xg = x.grows in
        let yg = y.grows in
        record {
          grows = omega arith;
          kept = λ q a m. y.kept (omega arith) a (x.kept (omega arith) a m);
          inv = λ q i. y.inv (omega arith) (x.inv (omega arith) i);
          reached = λ q a m. elim (Bool-cases (start == a)) [
            | inl same ↦ y.kept (omega arith) a (x.reached (omega arith) a (rw same))
            | inr other ↦ y.reached (omega arith) a (rw other at m)
          ];
        }
  ]
