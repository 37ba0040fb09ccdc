-- ===== src/Quorum/Pigeonhole.antt =====
-- Vote sets of src/state.rs as sets of node ids below a bound: how large they can be, and how far
-- two of them overlap.
use p_bft.Base.{
  ℕ, zero, suc, ◌+◌, ◌≤◌, ◌<◌, ◌≡◌, refl, ap, true, nat_beq_iff, List, [], ◌∷◌, ◌++◌, false, not,
  ◌||◌, arith, length, length-append, keep, All, nat_eq, nat_beq, Bool-cases, inl, inr,
}
use p_bft.Collections.HashSet.{HashSet, contains, remove}
use p_bft.Collections.HashSet.Laws.{IsDistinct, contains-remove}

abbrev pub Below : ℕ → HashSet ℕ → Type 0
Below n = All (λ id. id < n)

remove-absent : (s : List ℕ) (a : ℕ) → contains s a ≡ false → remove s a ≡ s
unfolding remove contains
remove-absent [] a h = refl
remove-absent (x ∷ s) a h = ground (arith, remove-absent s a)

-- Of a set, one removal takes one element at most.
length-remove : (s : List ℕ) (a : ℕ) → IsDistinct s → length s ≤ suc (length (remove s a))
unfolding remove IsDistinct
length-remove [] a d = omega arith
length-remove (x ∷ s) a d = elim (Bool-cases (nat_beq x a)) [
  | inl e ↦
      rw e (
        let same : contains s a ≡ false = ground arith in rw (remove-absent s a same) (omega arith))
  | inr e ↦ rw e (omega (arith, length-remove s a d.1))
]

remove-IsDistinct : (s : List ℕ) (a : ℕ) → IsDistinct s → IsDistinct (remove s a)
unfolding remove IsDistinct
remove-IsDistinct [] a d = tt
remove-IsDistinct (x ∷ s) a d = elim (Bool-cases (nat_beq x a)) [
  | inl e ↦ rw e (remove-IsDistinct s a d.1)
  | inr e ↦ rw e (ground (arith, contains-remove s a x), remove-IsDistinct s a d.1)
]

-- Without its possible top element a set below `n + 1` is below `n`.
remove-Below : (n : ℕ) (s : List ℕ) → Below (suc n) s → Below n (remove s n)
unfolding remove
remove-Below n [] h = tt
remove-Below n (x ∷ s) h = elim (Bool-cases (nat_beq x n)) [
  | inl e ↦ rw e (remove-Below n s h.1)
  | inr e ↦ rw e (ground (arith, h.0), remove-Below n s h.1)
]

pub length-le-bound : (n : ℕ) (s : List ℕ) → IsDistinct s → Below n s → length s ≤ n
length-le-bound zero [] d h = omega arith
length-le-bound zero (x ∷ s) d h = absurd (omega (arith, h.0))
length-le-bound (suc n) s d h = omega (
  arith,
  length-remove s n d,
  length-le-bound n (remove s n) (remove-IsDistinct s n d) (remove-Below n s h),
)

-- The nodes of `s` that are in `t`, and the others.
abbrev pub common : List ℕ → List ℕ → List ℕ
common s t = keep (contains t) s

abbrev pub others : List ℕ → List ℕ → List ℕ
others s t = keep (λ x. not (contains t x)) s

length-common-others : (s t : List ℕ) → length s ≡ length (common s t) + length (others s t)
length-common-others [] t = omega arith
length-common-others (x ∷ s) t = ground (arith, length-common-others s t)

contains-append : (s t : List ℕ) (a : ℕ) → contains (s ++ t) a ≡ (contains s a || contains t a)
unfolding contains
contains-append [] t a = refl
contains-append (x ∷ s) t a = ground (arith, contains-append s t a)

contains-others_self :
    (s t : List ℕ) (a : ℕ) → contains s a ≡ false → contains (others s t) a ≡ false
unfolding contains
contains-others_self [] t a h = refl
contains-others_self (x ∷ s) t a h = ground (arith, contains-others_self s t a)

union-IsDistinct : (s t : List ℕ) → IsDistinct s → IsDistinct t → IsDistinct (others s t ++ t)
unfolding IsDistinct
union-IsDistinct [] t d d' = d'
union-IsDistinct (x ∷ s) t d d' = elim (Bool-cases (contains t x)) [
  | inl i ↦ rw i (union-IsDistinct s t d.1 d')
  | inr o ↦ rw o (
    ground (arith, contains-append (others s t) t x, contains-others_self s t x),
    union-IsDistinct s t d.1 d',
  )
]

union-Below : (n : ℕ) (s t : List ℕ) → Below n s → Below n t → Below n (others s t ++ t)
union-Below n [] t h h' = h'
union-Below n (x ∷ s) t h h' = elim (Bool-cases (contains t x)) [
  | inl i ↦ rw i (union-Below n s t h.1 h')
  | inr o ↦ rw o (h.0, union-Below n s t h.1 h')
]

-- Two sets of nodes below `n` have in common what they hold beyond `n` together.
pub overlap :
    (n : ℕ) (s t : List ℕ)
    → IsDistinct s
    → IsDistinct t
    → Below n s
    → Below n t
    → length s + length t ≤ n + length (common s t)
overlap n s t d d' h h' = omega (
  arith,
  length-le-bound n (others s t ++ t) (union-IsDistinct s t d d') (union-Below n s t h h'),
  length-append (others s t) t,
  length-common-others s t,
)

common-absent : (s t : List ℕ) (a : ℕ) → contains s a ≡ false → common s (a ∷ t) ≡ common s t
unfolding contains
common-absent [] t a h = refl
common-absent (x ∷ s) t a h =
    let rest = common-absent s t a (ground arith) in
    ground (arith, rest, nat_beq_iff x a, nat_beq_iff a x)

-- One more element to share adds one at most to what a set shares.
common-suc :
    (s t : List ℕ) (a : ℕ) → IsDistinct s → length (common s (a ∷ t)) ≤ suc (length (common s t))
unfolding contains IsDistinct
common-suc [] t a d = omega arith
common-suc (x ∷ s) t a d = elim (Bool-cases (nat_beq a x)) [
  | inl y ↦
      let same = (nat_beq_iff a x).0 y in
      ground (arith, ap length (common-absent s t a (rw same d.0)), d.0, y)
  | inr n ↦ ground (arith, common-suc s t a d.1, n)
]

common-empty : (s : List ℕ) → common s [] ≡ []
unfolding contains
common-empty [] = refl
common-empty (x ∷ s) = common-empty s

common-le : (s t : List ℕ) → IsDistinct s → length (common s t) ≤ length t
common-le s [] d = omega (arith, ap length (common-empty s))
common-le s (a ∷ t) d = omega (arith, common-suc s t a d, common-le s t d)

-- A set of nodes that are all among some is no larger.
pub length-le-subset :
    (s t : List ℕ) → IsDistinct s → All (λ a. contains t a ≡ true) s → length s ≤ length t
length-le-subset s t d h = omega (arith, ap length (common-all s h), common-le s t d)
  where
    common-all : (s : List ℕ) → All (λ a. contains t a ≡ true) s → common s t ≡ s
    common-all [] h = refl
    common-all (x ∷ s) h = rw h.0 (ap (λ xs. x ∷ xs) (common-all s h.1))
