-- ===== src/Locks.antt =====
-- core/src/locks.rs: the locks of a pool's agents. A lock is its place in the pool's order, which is
-- the order in which a set of members is gone through.
pub mod Order
pub mod Progress
pub mod Holders
pub mod Served
use core_tempo.Common.{
  ℕ, zero, suc, ◌+◌, ◌≡◌, Bool, true, false, not, ◌||◌, ◌&&◌, List, [], ◌∷◌, ◌++◌, map, Option,
  none, some, ◌==◌, string_eq, nat_eq, if◌then◌else◌, any,
}
use mathlib.Core.Option
use core_tempo.Common.Dict.{Dict}
use core_tempo.Types.Ids.{AgentId}
use core_tempo.Types.Config.{AgentConfig, AgentConcurrency, exclusive, shared}

abbrev pub AgentLocks : Type 0
AgentLocks = List (AgentId × AgentConcurrency)

unfoldable pub new : Dict AgentId AgentConfig → AgentLocks
new = map (λ entry. (entry.0, entry.1.concurrency))

unfoldable pub place : AgentId → AgentLocks → Option ℕ
place id [] = none
place id ((other, mode) ∷ locks) = if other == id then some 0 else Option.map suc (place id locks)

abbrev pub mode_at : AgentLocks → ℕ → AgentConcurrency
mode_at [] n = exclusive
mode_at ((id, mode) ∷ locks) zero = mode
mode_at ((id, mode) ∷ locks) (suc n) = mode_at locks n

-- The locks that `acquire` takes, in order; a member without a lock is skipped.
unfoldable pub wanted : AgentLocks → List AgentId → List ℕ
unfolding place
wanted locks [] = []
wanted locks (member ∷ members) = elim (place member locks) [
  | none ↦ wanted locks members
  | some n ↦ n ∷ wanted locks members
]

-- A flow: the locks that it still waits for, the guards that it holds, and whether it has dropped them.
pub record Flow : Type 0 where
  pub wants : List ℕ
  pub held : List ℕ
  pub done : Bool

unfoldable pub acquire : AgentLocks → List AgentId → Flow
unfolding wanted
acquire locks members = record { wants = wanted locks members; held = []; done = false }

unfoldable pub mem : ℕ → List ℕ → Bool
mem n [] = false
mem n (m ∷ ms) = m == n || mem n ms

abbrev pub is_held : ℕ → List Flow → Bool
is_held n = any (λ f. mem n f.held)

abbrev pub is_shared : AgentConcurrency → Bool
is_shared shared = true
is_shared exclusive = false

-- `read` of a lock that is never written is granted, and `write` when nobody holds the lock.
abbrev pub grants : AgentLocks → List Flow → ℕ → Bool
grants locks flows n = is_shared (mode_at locks n) || not (is_held n flows)

abbrev pub take_next : Flow → ℕ → List ℕ → Flow
take_next f n rest = record f { wants = rest; held = n ∷ f.held }

abbrev pub drop_guards : Flow → Flow
drop_guards f = record f { held = []; done = true }

-- Which of the waiting flows a free lock goes to is the runtime's choice.
pub data Step (locks : AgentLocks) (s u : List Flow) : Type 0 where
  takes :
      (before after : List Flow) (f : Flow) (n : ℕ) (rest : List ℕ)
      → s ≡ before ++ f ∷ after
      → f.wants ≡ n ∷ rest
      → grants locks s n ≡ true
      → u ≡ before ++ take_next f n rest ∷ after
      → Step locks s u
  drops :
      (before after : List Flow) (f : Flow)
      → s ≡ before ++ f ∷ after
      → f.wants ≡ []
      → f.done ≡ false
      → u ≡ before ++ drop_guards f ∷ after
      → Step locks s u

pub data Reach (locks : AgentLocks) (s : List Flow) : List Flow → Type 0 where
  here : Reach locks s s
  next : {t u : List Flow} → Reach locks s t → Step locks t u → Reach locks s u
