-- ===== src/Common/Dict.antt =====
-- `HashMap` and `BTreeMap` as association lists: the first entry for a key counts, and every law is
-- about `lookup`.
use mathlib.Core.Path.{◌≡◌, refl}
use mathlib.Core.Bool.{Bool}
use mathlib.Core.Option.{Option, none, some}
use mathlib.Core.List.{List, [], ◌∷◌, map}
use native.Mathlib.Omega.{arith}
use mathlib.Core.Logic.{inl, inr}
use core_tempo.Common.Tests.{Eq, ◌==◌, ==_iff, ==_refl, if◌then◌else◌, Bool-cases}
use core_tempo.Common.Lists.{filter}

abbrev pub Dict {ℓ κ} : Type ℓ → Type κ → Type (ℓ ⊔ κ)
Dict K V = List (K × V)

module _ {ℓ κ} {K : Type ℓ} {V : Type κ} ⦃e : Eq K⦄ where
  unfoldable pub lookup : K → Dict K V → Option V
  lookup key [] = none
  lookup key ((other, new) ∷ d) = if other == key then some new else lookup key d

  unfoldable pub insert : K → V → Dict K V → Dict K V
  insert key new [] = (key, new) ∷ []
  insert key new ((other, old) ∷ d) =
      if other == key then (key, new) ∷ d else (other, old) ∷ insert key new d

  unfoldable pub remove : K → Dict K V → Dict K V
  remove key [] = []
  remove key ((other, new) ∷ d) = if other == key then remove key d else (other, new) ∷ remove key d

  abbrev pub keys : Dict K V → List K
  keys = map (λ p. p.0)

  -- `HashMap::retain` with a test on the key.
  abbrev pub retain : (K → Bool) → Dict K V → Dict K V
  retain p = filter (λ x. p x.0)

  pub lookup-insert :
      (key other : K) (new : V) (d : Dict K V)
      → lookup other (insert key new d) ≡ (if key == other then some new else lookup other d)
  unfolding lookup insert
  lookup-insert key other new [] = refl
  lookup-insert key other new ((first, old) ∷ d) =
      ground (
        arith,
        ==_iff key other,
        ==_iff first key,
        ==_iff first other,
        lookup-insert key other new d,
      )

  pub lookup-remove :
      (key other : K) (d : Dict K V)
      → lookup other (remove key d) ≡ (if key == other then none else lookup other d)
  unfolding lookup remove
  lookup-remove key other [] = ground arith
  lookup-remove key other ((first, old) ∷ d) =
      ground
        (arith, ==_iff key other, ==_iff first key, ==_iff first other, lookup-remove key other d)

  -- A filter by the key keeps the entries of the keys that pass.
  pub lookup-retain :
      (p : K → Bool) (key : K) (d : Dict K V)
      → lookup key (retain p d) ≡ (if p key then lookup key d else none)
  unfolding lookup
  lookup-retain p key [] = ground arith
  lookup-retain p key ((first, old) ∷ d) = elim (Bool-cases (first == key)) [
    | inl same ↦
        let e = (==_iff first key).0 same in
        rw e (ground (arith, ==_refl key, lookup-retain p key d))
    | inr other ↦ ground (arith, lookup-retain p key d)
  ]
