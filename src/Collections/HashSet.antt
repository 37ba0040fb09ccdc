-- ===== src/Collections/HashSet.antt =====
-- `std::collections::HashSet` as a list without duplicates, in the order of insertion.
pub mod Laws
use p_bft.Base.{List, [], ◌∷◌, ◌++◌, Bool, true, false, not, ◌||◌, Eq, ◌==◌, if◌then◌else◌}

abbrev pub HashSet {ℓ} : Type ℓ → Type ℓ
HashSet A = List A

module _ {ℓ} {A : Type ℓ} ⦃e : Eq A⦄ where
  unfoldable pub contains : HashSet A → A → Bool
  contains [] a = false
  contains (x ∷ s) a = x == a || contains s a

  -- The set, and whether the element was new.
  unfoldable pub insert : HashSet A → A → HashSet A × Bool
  insert s a = if contains s a then (s, false) else (s ++ a ∷ [], true)

  unfoldable pub remove : HashSet A → A → HashSet A
  remove [] a = []
  remove (x ∷ s) a = if x == a then remove s a else x ∷ remove s a
