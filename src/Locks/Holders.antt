-- ===== src/Locks/Holders.antt =====
-- core/src/locks.rs: an exclusive agent serves one flow at a time.
use core_tempo.Common.{
  ℕ, ◌+◌, ◌≤◌, ◌≡◌, refl, true, false, List, [], ◌∷◌, ◌++◌, arith, inl, inr, ◌==◌, ==_iff, nat_eq,
  if◌then◌else◌, Bool-cases, ap,
}
use core_tempo.Types.Config.{exclusive}
use core_tempo.Locks.{
  AgentLocks, Flow, mem, is_held, mode_at, take_next, drop_guards, Step, takes, drops, Reach, here,
  next,
}

-- How often a lock is held.
unfoldable pub times : ℕ → List ℕ → ℕ
times n [] = 0
times n (m ∷ ms) = (if m == n then 1 else 0) + times n ms

unfoldable pub holders : ℕ → List Flow → ℕ
unfolding times
holders n [] = 0
holders n (f ∷ s) = times n f.held + holders n s

holders-append : (n : ℕ) (s u : List Flow) → holders n (s ++ u) ≡ holders n s + holders n u
unfolding holders
holders-append n [] u = omega arith
holders-append n (f ∷ s) u = omega (arith, holders-append n s u)

times_free : (n : ℕ) (hs : List ℕ) → mem n hs ≡ false → times n hs ≡ 0
unfolding times mem
times_free n [] h = refl
times_free n (m ∷ ms) h = ground (arith, times_free n ms)

holders_free : (n : ℕ) (s : List Flow) → is_held n s ≡ false → holders n s ≡ 0
unfolding holders
holders_free n [] h = refl
holders_free n (f ∷ s) h = ground (arith, times_free n f.held, holders_free n s)

Step-holders :
    {locks : AgentLocks} {s u : List Flow}
    → Step locks s u
    → (n : ℕ) → mode_at locks n ≡ exclusive
    → holders n s ≤ 1
    → holders n u ≤ 1
unfolding holders times
Step-holders {locks} {s} (takes before after f m rest e w g d) n x h = elim (Bool-cases (m == n)) [
  | inl same ↦
      let k = (==_iff m n).0 same in
      let free : is_held n s ≡ false = ground (arith, rw k at g) in
      let none_left = holders_free n s free in
      rw d (
        omega (
          arith,
          holders-append n before (take_next f m rest ∷ after),
          holders-append n before (f ∷ after),
          ap (holders n) e,
          same_time f m rest n same,
          none_left,
        ))
  | inr other ↦ rw d (
      omega (
        arith,
        holders-append n before (take_next f m rest ∷ after),
        holders-append n before (f ∷ after),
        ap (holders n) e,
        other_time f m rest n other,
      ))
]
  where
    same_time :
        (f : Flow) (m : ℕ) (rest : List ℕ) (n : ℕ)
        → (m == n) ≡ true
        → holders n (take_next f m rest ∷ after) ≡ 1 + holders n (f ∷ after)
    same_time f m rest n same = rw same (omega arith)

    other_time :
        (f : Flow) (m : ℕ) (rest : List ℕ) (n : ℕ)
        → (m == n) ≡ false
        → holders n (take_next f m rest ∷ after) ≡ holders n (f ∷ after)
    other_time f m rest n other = rw other (omega arith)
Step-holders (drops before after f e w b d) n x h = rw d (
    omega (
      arith,
      holders-append n before (drop_guards f ∷ after),
      holders-append n before (f ∷ after),
      ap (holders n) e,
    ))

-- An exclusive agent serves one flow at most, however the acquisitions interleave.
pub exclusive_alone :
    {locks : AgentLocks} {start s : List Flow}
    → Reach locks start s
    → (n : ℕ) → mode_at locks n ≡ exclusive
    → holders n start ≤ 1
    → holders n s ≤ 1
exclusive_alone here n x h = h
exclusive_alone (next r st) n x h = Step-holders st n x (exclusive_alone r n x h)
