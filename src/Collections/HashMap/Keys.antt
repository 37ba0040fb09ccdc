-- ===== src/Collections/HashMap/Keys.antt =====
-- The keys of a map: distinct, and those that a lookup finds.
use mathlib.Core.Path.{subst}
use p_bft.Base.{
  ◌≡◌, refl, [], ◌∷◌, ◌||◌, false, true, Eq, ◌==◌, arith, is_some, length, Bool-cases, inl, inr,
}
use p_bft.Collections.HashMap.{HashMap, get, insert, keys, values}
use p_bft.Collections.HashMap.Laws.{get-insert}
use p_bft.Collections.HashSet.{contains}
use p_bft.Collections.HashSet.Laws.{IsDistinct}

module _ {ℓ κ} {K : Type ℓ} {V : Type κ} ⦃e : Eq K⦄ where
  pub contains-keys : (m : HashMap K V) (k : K) → contains (keys m) k ≡ is_some (get m k)
  unfolding contains get
  contains-keys [] k = refl
  contains-keys ((j, v) ∷ m) k = ground (arith, contains-keys m k)

  contains-keys-insert :
      (m : HashMap K V) (k j : K) (v : V)
      → contains (keys (insert m k v)) j ≡ (k == j || contains (keys m) j)
  unfolding contains insert
  contains-keys-insert [] k j v = refl
  contains-keys-insert ((i, w) ∷ m) k j v =
      ground (
        arith,
        contains-keys-insert m k j v,
        e.beq_decides i k,
        e.beq_decides i j,
        e.beq_decides k j,
      )

  -- No key twice, so the length counts the keys.
  pub keys-insert-IsDistinct :
      (m : HashMap K V) (k : K) (v : V) → IsDistinct (keys m) → IsDistinct (keys (insert m k v))
  unfolding insert IsDistinct contains
  keys-insert-IsDistinct [] k v d = (refl, tt)
  keys-insert-IsDistinct ((j, w) ∷ m) k v d = elim (Bool-cases (j == k)) [
    | inl eq ↦ rw eq (
        subst (λ x. (contains (keys m) x ≡ false) × IsDistinct (keys m)) ((e.beq_decides j k).0 eq)
          d)
    | inr ne ↦ rw ne (
      ground (arith, contains-keys-insert m k j v, e.beq_decides k j, e.beq_decides j k),
      keys-insert-IsDistinct m k v d.1,
    )
  ]

  pub length-keys : (m : HashMap K V) → length (keys m) ≡ length m
  length-keys [] = refl
  length-keys (x ∷ m) = ground (arith, length-keys m)

  pub length-values : (m : HashMap K V) → length (values m) ≡ length m
  length-values [] = refl
  length-values (x ∷ m) = ground (arith, length-values m)

  -- A key that is in the map stays in it.
  pub get-insert-is_some :
      (m : HashMap K V) (k j : K) (v : V)
      → is_some (get m j) ≡ true
      → is_some (get (insert m k v) j) ≡ true
  get-insert-is_some m k j v h = ground (arith, get-insert m k j v)
