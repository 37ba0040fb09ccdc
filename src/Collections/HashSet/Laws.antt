-- ===== src/Collections/HashSet/Laws.antt =====
-- Membership and size after each operation.
use p_bft.Base.{
  ◌+◌, ◌≡◌, refl, [], ◌∷◌, ◌++◌, false, not, ◌||◌, ◌&&◌, Eq, ◌==◌, arith, length, length-append,
  if◌then◌else◌, Bool-cases, inl, inr,
}
use p_bft.Collections.HashSet.{HashSet, contains, insert, remove}

module _ {ℓ} {A : Type ℓ} ⦃e : Eq A⦄ where
  pub contains-snoc :
      (s : HashSet A) (a b : A) → contains (s ++ a ∷ []) b ≡ (a == b || contains s b)
  unfolding contains
  contains-snoc [] a b = refl
  contains-snoc (x ∷ s) a b = ground (arith, contains-snoc s a b)

  pub contains-insert :
      (s : HashSet A) (a b : A) → contains (insert s a).0 b ≡ (a == b || contains s b)
  unfolding insert
  contains-insert s a b = ground (arith, contains-snoc s a b, e.beq_decides a b)

  pub contains-remove :
      (s : HashSet A) (a b : A) → contains (remove s a) b ≡ (not (a == b) && contains s b)
  unfolding contains remove
  contains-remove [] a b = ground arith
  contains-remove (x ∷ s) a b =
      ground (arith, contains-remove s a b, e.beq_decides x a, e.beq_decides x b, e.beq_decides a b)

  -- No element twice.
  unfoldable pub IsDistinct : HashSet A → Type 0
  IsDistinct [] = Unit
  IsDistinct (x ∷ s) = (contains s x ≡ false) × IsDistinct s

  pub IsDistinct-snoc :
      (s : HashSet A) (a : A) → contains s a ≡ false → IsDistinct s → IsDistinct (s ++ a ∷ [])
  unfolding IsDistinct contains
  IsDistinct-snoc [] a h d = (refl, tt)
  IsDistinct-snoc (x ∷ s) a h d = (
    ground (arith, contains-snoc s a x, e.beq_decides x a, e.beq_decides a x),
    IsDistinct-snoc s a (ground arith) d.1,
  )

  pub insert-IsDistinct : (s : HashSet A) (a : A) → IsDistinct s → IsDistinct (insert s a).0
  unfolding insert
  insert-IsDistinct s a d = elim (Bool-cases (contains s a)) [
    | inl old ↦ rw old d
    | inr new ↦ rw new (IsDistinct-snoc s a new d)
  ]

  pub insert-new : (s : HashSet A) (a : A) → (insert s a).1 ≡ not (contains s a)
  unfolding insert
  insert-new s a = ground arith

  pub length-insert :
      (s : HashSet A) (a : A)
      → length (insert s a).0 ≡ (if contains s a then length s else length s + 1)
  unfolding insert
  length-insert s a = ground (arith, length-append s (a ∷ []))

pub ruleset set_laws = (contains-insert, contains-remove, insert-new)
