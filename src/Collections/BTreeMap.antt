-- ===== src/Collections/BTreeMap.antt =====
-- `std::collections::BTreeMap` over byte strings as a list sorted by key: the order in which the
-- store is serialised for its digest.
use Prim.Native.Nat.{compare, Ordering}
use p_bft.Base.{
  ℕ, ◌≡◌, ◌↔◌, refl, Option, none, some, List, [], ◌∷◌, if◌then◌else◌, Bool, true, false, arith, Eq,
}

abbrev pub Bytes : Type 0
Bytes = List ℕ

-- The lexicographic order of Rust's `String`.
unfoldable pub compare_bytes : Bytes → Bytes → Ordering
compare_bytes [] [] = Ordering.eq
compare_bytes [] (b ∷ bs) = Ordering.lt
compare_bytes (a ∷ as_) [] = Ordering.gt
compare_bytes (a ∷ as_) (b ∷ bs) = elim (compare a b) [
  | Ordering.lt ↦ Ordering.lt
  | Ordering.eq ↦ compare_bytes as_ bs
  | Ordering.gt ↦ Ordering.gt
]

unfoldable pub bytes_beq : Bytes → Bytes → Bool
bytes_beq a b = elim (compare_bytes a b) [ Ordering.eq ↦ true | _ ↦ false ]

bytes_beq_self : (a : Bytes) → bytes_beq a a ≡ true
unfolding bytes_beq compare_bytes
bytes_beq_self [] = refl
bytes_beq_self (a ∷ as_) = ground (arith, bytes_beq_self as_)

bytes_beq_sound : (a b : Bytes) → bytes_beq a b ≡ true → a ≡ b
unfolding bytes_beq compare_bytes
bytes_beq_sound [] [] h = refl
bytes_beq_sound [] (b ∷ bs) h = cc
bytes_beq_sound (a ∷ as_) [] h = cc
bytes_beq_sound (a ∷ as_) (b ∷ bs) h = ground (arith, bytes_beq_sound as_ bs)

pub bytes_beq_iff : (a b : Bytes) → (bytes_beq a b ≡ true) ↔ (a ≡ b)
bytes_beq_iff a b = (bytes_beq_sound a b, λ p. rw p (bytes_beq_self b))

instance abbrev pub bytes_eq : Eq Bytes
bytes_eq = record { beq = bytes_beq; beq_decides = bytes_beq_iff }

abbrev pub BTreeMap {ℓ} : Type ℓ → Type ℓ
BTreeMap V = List (Bytes × V)

module _ {ℓ} {V : Type ℓ} where
  unfoldable pub get : BTreeMap V → Bytes → Option V
  unfolding bytes_beq
  get [] k = none
  get ((j, v) ∷ m) k = if bytes_beq j k then some v else get m k

  unfoldable pub insert : BTreeMap V → Bytes → V → BTreeMap V
  insert [] k v = (k, v) ∷ []
  insert ((j, w) ∷ m) k v = elim (compare_bytes j k) [
    | Ordering.lt ↦ (j, w) ∷ insert m k v
    | Ordering.eq ↦ (k, v) ∷ m
    | Ordering.gt ↦ (k, v) ∷ (j, w) ∷ m
  ]

  pub get-insert :
      (m : BTreeMap V) (k j : Bytes) (v : V)
      → get (insert m k v) j ≡ (if bytes_beq k j then some v else get m j)
  unfolding get insert bytes_beq
  get-insert [] k j v = refl
  get-insert ((i, w) ∷ m) k j v =
      ground (arith, bytes_beq_iff i k, bytes_beq_iff i j, bytes_beq_iff k j, get-insert m k j v)
