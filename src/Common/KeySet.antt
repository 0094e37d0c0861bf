-- ===== src/Common/KeySet.antt =====
-- `HashSet` and `BTreeSet` as lists; every law is about `member`.
use mathlib.Core.Path.{◌≡◌}
use mathlib.Core.Bool.{Bool, false, not, ◌||◌, ◌&&◌}
use mathlib.Core.List.{List, [], ◌∷◌}
use native.Mathlib.Omega.{arith}
use core_tempo.Common.Tests.{Eq, ◌==◌, ==_iff, if◌then◌else◌}

module _ {ℓ} {K : Type ℓ} ⦃e : Eq K⦄ where
  unfoldable pub member : K → List K → Bool
  member k [] = false
  member k (j ∷ s) = j == k || member k s

  unfoldable pub insert : K → List K → List K
  insert k [] = k ∷ []
  insert k (j ∷ s) = if j == k then j ∷ s else j ∷ insert k s

  unfoldable pub remove : K → List K → List K
  remove k [] = []
  remove k (j ∷ s) = if j == k then remove k s else j ∷ remove k s

  pub member-insert : (k j : K) (s : List K) → member j (insert k s) ≡ (k == j || member j s)
  unfolding member insert
  member-insert k j [] = ground arith
  member-insert k j (i ∷ s) =
      ground (arith, ==_iff k j, ==_iff i k, ==_iff i j, member-insert k j s)

  pub member-remove : (k j : K) (s : List K) → member j (remove k s) ≡ (not (k == j) && member j s)
  unfolding member remove
  member-remove k j [] = ground arith
  member-remove k j (i ∷ s) =
      ground (arith, ==_iff k j, ==_iff i k, ==_iff i j, member-remove k j s)
