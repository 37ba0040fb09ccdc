-- ===== src/Collections/HashMap/Laws.antt =====
-- What a lookup sees after each operation.
use mathlib.Core.Path.{subst₂}
use p_bft.Base.{
  ◌+◌, ◌≡◌, refl, none, some, [], ◌∷◌, Eq, ◌==◌, if◌then◌else◌, arith, length, Bool-cases, inl, inr,
  ==_refl,
}
use p_bft.Collections.HashMap.{HashMap, Entries, get, insert, remove}

module _ {ℓ κ} {K : Type ℓ} {V : Type κ} ⦃e : Eq K⦄ where
  pub get-insert :
      (m : HashMap K V) (k j : K) (v : V)
      → get (insert m k v) j ≡ (if k == j then some v else get m j)
  unfolding get insert
  get-insert [] k j v = refl
  get-insert ((i, w) ∷ m) k j v =
      ground (arith, e.beq_decides i k, e.beq_decides i j, e.beq_decides k j, get-insert m k j v)

  pub get-remove :
      (m : HashMap K V) (k j : K) → get (remove m k) j ≡ (if k == j then none else get m j)
  unfolding get remove
  get-remove [] k j = ground arith
  get-remove ((i, w) ∷ m) k j =
      ground (arith, e.beq_decides i k, e.beq_decides i j, e.beq_decides k j, get-remove m k j)

  pub get-insert_self : (m : HashMap K V) (k : K) (v : V) → get (insert m k v) k ≡ some v
  get-insert_self m k v = rw (get-insert, ==_refl k)

  -- A property of entries, kept by the operations and read by a lookup.
  module _ {μ} (P : K → V → Type μ) where
    pub insert-Entries :
        (m : HashMap K V) (k : K) (v : V) → Entries P m → P k v → Entries P (insert m k v)
    unfolding insert
    insert-Entries [] k v h p = (p, tt)
    insert-Entries ((j, w) ∷ m) k v h p = elim (Bool-cases (j == k)) [
      | inl eq ↦ rw eq (p, h.1)
      | inr ne ↦ rw ne (h.0, insert-Entries m k v h.1 p)
    ]

    pub remove-Entries : (m : HashMap K V) (k : K) → Entries P m → Entries P (remove m k)
    unfolding remove
    remove-Entries [] k h = tt
    remove-Entries ((j, w) ∷ m) k h = elim (Bool-cases (j == k)) [
      | inl eq ↦ rw eq (remove-Entries m k h.1)
      | inr ne ↦ rw ne (h.0, remove-Entries m k h.1)
    ]

    pub get-Entries : (m : HashMap K V) (k : K) (v : V) → Entries P m → get m k ≡ some v → P k v
    unfolding get
    get-Entries [] k v h g = cc
    get-Entries ((j, w) ∷ m) k v h g = elim (Bool-cases (j == k)) [
      | inl eq ↦ subst₂ P ((e.beq_decides j k).0 eq) (cc (rw eq at g)) h.0
      | inr ne ↦ get-Entries m k v h.1 (rw ne at g)
    ]

  pub length-insert_old :
      (m : HashMap K V) (k : K) (v w : V) → get m k ≡ some w → length (insert m k v) ≡ length m
  unfolding get insert
  length-insert_old [] k v w h = cc
  length-insert_old ((j, u) ∷ m) k v w h = ground (arith, length-insert_old m k v w)

  pub length-insert_new :
      (m : HashMap K V) (k : K) (v : V) → get m k ≡ none → length (insert m k v) ≡ length m + 1
  unfolding get insert
  length-insert_new [] k v h = omega arith
  length-insert_new ((j, u) ∷ m) k v h = ground (arith, length-insert_new m k v)

pub ruleset map_laws = (get-insert, get-remove)
