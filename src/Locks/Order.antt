-- ===== src/Locks/Order.antt =====
-- core/src/locks.rs: a flow waits only for locks behind those that it holds.
use core_tempo.Common.{ℕ, ◌<◌, ◌≡◌, refl, true, List, [], ◌∷◌, ◌++◌, nat_eq, All, subst}
use core_tempo.Types.Ids.{AgentId}
use core_tempo.Locks.{
  AgentLocks, Flow, acquire, wanted, take_next, Step, takes, drops, Reach, here, next,
}

-- The members of a flow come in the pool's order.
abbrev pub Ascending : List ℕ → Type 0
Ascending [] = Unit {0}
Ascending (n ∷ ns) = All (λ m. n < m) ns × Ascending ns

-- A flow waits only for locks that come after those that it holds, and holds nothing when done.
pub record IsOrdered (f : Flow) : Type 0 where
  pub rising : Ascending f.wants
  pub above : All (λ h. All (λ w. h < w) f.wants) f.held
  pub emptied : f.done ≡ true → (f.held ≡ []) × (f.wants ≡ [])

module _ {ℓ} {A : Type ℓ} (P : A → Type 0) where
  All-at : (xs ys : List A) (x : A) → All P (xs ++ x ∷ ys) → All P xs × P x × All P ys
  All-at [] ys x h = (tt, h.0, h.1)
  All-at (y ∷ xs) ys x h = let (a, b, c) = All-at xs ys x h.1 in ((h.0, a), b, c)

  All-put : (xs ys : List A) (x : A) → All P xs → P x → All P ys → All P (xs ++ x ∷ ys)
  All-put [] ys x a b c = (b, c)
  All-put (y ∷ xs) ys x a b c = (a.0, All-put xs ys x a.1 b c)

tails :
    (n : ℕ) (rest hs : List ℕ)
    → All (λ h. All (λ w. h < w) (n ∷ rest)) hs
    → All (λ h. All (λ w. h < w) rest) hs
tails n rest [] a = tt
tails n rest (h ∷ hs) a = (a.0.1, tails n rest hs a.1)

take_next-IsOrdered :
    (f : Flow) (n : ℕ) (rest : List ℕ)
    → f.wants ≡ n ∷ rest
    → IsOrdered f
    → IsOrdered (take_next f n rest)
take_next-IsOrdered f n rest e o =
    let rising : Ascending (n ∷ rest) = subst Ascending e o.rising in
    let above = subst (λ ws. All (λ h. All (λ w. h < w) ws) f.held) e o.above in
    record {
      rising = rising.1;
      above = (rising.0, tails n rest f.held above);
      emptied = λ d. cc (o.emptied d).1;
    }

Step-IsOrdered :
    {locks : AgentLocks} {s u : List Flow} → Step locks s u → All IsOrdered s → All IsOrdered u
Step-IsOrdered (takes before after f n rest e w g d) o =
    let (a, b, c) = All-at IsOrdered before after f (rw e at o) in
    rw d (All-put IsOrdered before after _ a (take_next-IsOrdered f n rest w b) c)
Step-IsOrdered (drops before after f e w n d) o =
    let (a, b, c) = All-at IsOrdered before after f (rw e at o) in
    rw d (
      All-put IsOrdered before after _ a
        (record { rising = b.rising; above = tt; emptied = λ _. (refl, w) }) c)

pub Reach-IsOrdered :
    {locks : AgentLocks} {s u : List Flow} → Reach locks s u → All IsOrdered s → All IsOrdered u
Reach-IsOrdered here o = o
Reach-IsOrdered (next r st) o = Step-IsOrdered st (Reach-IsOrdered r o)

pub acquire-IsOrdered :
    (locks : AgentLocks) (members : List AgentId)
    → Ascending (wanted locks members)
    → IsOrdered (acquire locks members)
unfolding acquire
acquire-IsOrdered locks members h = record { rising = h; above = tt; emptied = λ d. cc }
