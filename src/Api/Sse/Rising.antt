-- ===== src/Api/Sse/Rising.antt =====
-- core/src/api/sse.rs: lists of events whose numbers rise.
use core_tempo.Common.{
  ℕ, ◌≤◌, ◌<◌, ◌≡◌, refl, Bool, true, List, [], ◌∷◌, ◌++◌, arith, inl, inr, ltb, filter, All,
  Bool-cases, ap,
}
use core_tempo.Types.Event.{Event}
use core_tempo.Bus.{newer}
use core_tempo.Api.Sse.{last_of}

-- Numbers that rise from above `from`.
abbrev pub Rising : ℕ → List Event → Type 0
Rising from [] = Unit {0}
Rising from (e ∷ es) = (from < e.seq) × Rising e.seq es

pub Rising-lower : (m n : ℕ) (es : List Event) → m ≤ n → Rising n es → Rising m es
Rising-lower m n [] h r = tt
Rising-lower m n (e ∷ es) h r = (omega arith, r.1)

pub Rising-split :
    (from : ℕ) (a b : List Event) → Rising from (a ++ b) → Rising from a × Rising (last_of from a) b
unfolding last_of
Rising-split from [] b r = (tt, r)
Rising-split from (e ∷ a) b r = let (x, y) = Rising-split e.seq a b r.1 in ((r.0, x), y)

pub last_of_mono : (m n : ℕ) (es : List Event) → m ≤ n → last_of m es ≤ last_of n es
unfolding last_of
last_of_mono m n [] h = h
last_of_mono m n (e ∷ es) h = omega arith

last_of-ge : (from : ℕ) (es : List Event) → Rising from es → from ≤ last_of from es
unfolding last_of
last_of-ge from [] r = omega arith
last_of-ge from (e ∷ es) r = omega (arith, last_of-ge e.seq es r.1)

pub All-le-last :
    (from : ℕ) (es : List Event) → Rising from es → All (λ e. e.seq ≤ last_of from es) es
unfolding last_of
All-le-last from [] r = tt
All-le-last from (e ∷ es) r = (last_of-ge e.seq es r.1, All-le-last e.seq es r.1)

-- The last of what is newer is no later than the last of all.
pub last_of-newer :
    (since m n : ℕ) (es : List Event)
    → m ≤ n
    → Rising n es
    → last_of m (newer since es) ≤ last_of n es
unfolding last_of
last_of-newer since m n [] h r = h
last_of-newer since m n (e ∷ es) h r = elim (Bool-cases (ltb since e.seq)) [
  | inl keep ↦ rw keep (last_of-newer since e.seq e.seq es (omega arith) r.1)
  | inr drop ↦ rw drop (last_of-newer since m e.seq es (omega arith) r.1)
]

pub last_of-append :
    (from : ℕ) (a b : List Event) → last_of from (a ++ b) ≡ last_of (last_of from a) b
unfolding last_of
last_of-append from [] b = refl
last_of-append from (e ∷ a) b = last_of-append e.seq a b

pub filter-append :
    (p : Event → Bool) (a b : List Event) → filter p (a ++ b) ≡ filter p a ++ filter p b
filter-append p [] b = refl
filter-append p (e ∷ a) b = elim (Bool-cases (p e)) [
  | inl keep ↦ rw keep (ap (λ t. e ∷ t) (filter-append p a b))
  | inr drop ↦ rw drop (filter-append p a b)
]

pub newer-All : (since : ℕ) (es : List Event) → All (λ e. since < e.seq) es → newer since es ≡ es
newer-All since [] h = refl
newer-All since (e ∷ es) h =
    let keep : ltb since e.seq ≡ true = ground (arith, h.0) in
    rw keep (ap (λ t. e ∷ t) (newer-All since es h.1))
