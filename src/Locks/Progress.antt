-- ===== src/Locks/Progress.antt =====
-- core/src/locks.rs: sorted acquisition never wedges.
use core_tempo.Common.{
  ℕ, ◌≤◌, ◌<◌, ◌⊎◌, ◌≡◌, refl, Bool, true, false, List, [], ◌∷◌, ◌++◌, arith, inl, inr, nat_eq, ltb,
  All, Bool-cases, ap, subst,
}
use core_tempo.Locks.{AgentLocks, Flow, mem, is_held, Step, takes, drops, Reach}
use core_tempo.Locks.Order.{IsOrdered, Reach-IsOrdered}

-- The flows split: one to release, or one that waits for the last lock of all that are waited for, or
-- none left.
abbrev Waits : ℕ → Flow → Type 0
Waits n f = (rest : List ℕ) × (f.wants ≡ n ∷ rest)

-- Waiting for `n` at most, or done.
abbrev AtMost : ℕ → Flow → Type 0
AtMost n f = (f.done ≡ true) ⊎ ((m : ℕ) × (m ≤ n) × Waits m f)

data Survey (s : List Flow) : Type 0 where
  over : All (λ f. f.done ≡ true) s → Survey s
  free :
      (before after : List Flow) (f : Flow)
      → s ≡ before ++ f ∷ after
      → f.wants ≡ []
      → f.done ≡ false
      → Survey s
  last :
      (before after : List Flow) (f : Flow) (n : ℕ)
      → s ≡ before ++ f ∷ after
      → Waits n f
      → All (AtMost n) s
      → Survey s

AtMost-done : (n : ℕ) (s : List Flow) → All (λ f. f.done ≡ true) s → All (AtMost n) s
AtMost-done n [] h = tt
AtMost-done n (f ∷ s) h = (inl h.0, AtMost-done n s h.1)

AtMost-mono : (m n : ℕ) (s : List Flow) → m ≤ n → All (AtMost m) s → All (AtMost n) s
AtMost-mono m n [] l h = tt
AtMost-mono m n (f ∷ s) l h = (one h.0, AtMost-mono m n s l h.1)
  where
    one : AtMost m f → AtMost n f
    one (inl d) = inl d
    one (inr (k, q, w)) = inr (k, omega arith, w)

Survey-cons : (f : Flow) (s : List Flow) → Survey s → Survey (f ∷ s)
Survey-cons f s (free before after g e w d) = free (f ∷ before) after g (ap (λ t. f ∷ t) e) w d
Survey-cons f s (over all) = at f.done refl f.wants refl
  where
    at : (d : Bool) → f.done ≡ d → (w : List ℕ) → f.wants ≡ w → Survey (f ∷ s)
    at true d w e = over (d, all)
    at false d [] e = free [] s f refl e d
    at false d (n ∷ rest) e =
        last [] s f n refl (rest, e) (inr (n, omega arith, (rest, e)), AtMost-done n s all)
Survey-cons f s (last before after g n e w all) = at f.done refl f.wants refl
  where
    at : (d : Bool) → f.done ≡ d → (v : List ℕ) → f.wants ≡ v → Survey (f ∷ s)
    at true d v k = last (f ∷ before) after g n (ap (λ t. f ∷ t) e) w (inl d, all)
    at false d [] k = free [] s f refl k d
    at false d (m ∷ rest) k = elim (Bool-cases (ltb n m)) [
      | inl more ↦
          last [] s f m refl (rest, k)
            (inr (m, omega arith, (rest, k)), AtMost-mono n m s (ground (arith, more)) all)
      | inr less ↦
          last (f ∷ before) after g n (ap (λ t. f ∷ t) e) w
            (inr (m, ground (arith, less), (rest, k)), all)
    ]

survey : (s : List Flow) → Survey s
survey [] = over tt
survey (f ∷ s) = Survey-cons f s (survey s)

not_mem : (n : ℕ) (hs : List ℕ) → All (λ h. h < n) hs → mem n hs ≡ false
unfolding mem
not_mem n [] a = refl
not_mem n (h ∷ hs) a = ground (arith, a.0, not_mem n hs a.1)

-- Nobody holds the last lock that is waited for.
heads :
    (m : ℕ) (rest hs : List ℕ) (n : ℕ)
    → m ≤ n
    → All (λ h. All (λ w. h < w) (m ∷ rest)) hs
    → All (λ h. h < n) hs
heads m rest [] n l a = tt
heads m rest (h ∷ hs) n l a = (omega (arith, a.0.0), heads m rest hs n l a.1)

not_held : (n : ℕ) (s : List Flow) → All (AtMost n) s → All IsOrdered s → is_held n s ≡ false
unfolding mem
not_held n [] a o = refl
not_held n (f ∷ s) a o = ground (arith, one a.0, not_held n s a.1 o.1)
  where
    one : AtMost n f → mem n f.held ≡ false
    one (inl d) = rw ((o.0.emptied d).0) refl
    one (inr (m, l, (rest, w))) =
        not_mem n f.held (
          heads m rest f.held n l (subst (λ ws. All (λ h. All (λ w. h < w) ws) f.held) w o.0.above))

-- From any flows that take their members in the pool's order, however their acquisitions interleave:
-- either every flow has run and let its guards go, or some flow can take its next lock or release.
pub never_wedged :
    (locks : AgentLocks) (start s : List Flow)
    → All IsOrdered start
    → Reach locks start s
    → All (λ f. f.done ≡ true) s ⊎ ((u : List Flow) × Step locks s u)
never_wedged locks start s ordered r = go (survey s)
  where
    go : Survey s → All (λ f. f.done ≡ true) s ⊎ ((u : List Flow) × Step locks s u)
    go (over all) = inl all
    go (free before after f e w d) = inr (_, drops before after f e w d refl)
    go (last before after f n e (rest, w) all) =
        let clear = not_held n s all (Reach-IsOrdered r ordered) in
        inr (_, takes before after f n rest e w (ground (arith, clear)) refl)
