-- ===== src/MessageBank/Collect.antt =====
-- src/message_bank.rs: what garbage collection keeps.
use p_bft.Base.{
  ℕ, ◌≡◌, refl, none, List, [], ◌∷◌, ◌&&◌, is_some, ltb, arith, if◌then◌else◌, pair_beq_iff, nat_eq,
  pair_eq, ◌∙◌,
}
use p_bft.Collections.HashMap.{HashMap, Entries, get, remove}
use p_bft.Collections.HashMap.Laws.{get-remove, remove-Entries}
use p_bft.Collections.HashSet.{contains}
use p_bft.Messages.PrePrepare.{PrePrepare}
use p_bft.MessageBank.{MessageBank, old_pairs, remove_all, garbage_collect}

get-remove_all :
    (ks : List (ℕ × ℕ)) (m : HashMap (ℕ × ℕ) PrePrepare) (k : ℕ × ℕ)
    → get (remove_all ks m) k ≡ (if contains ks k then none else get m k)
unfolding remove_all contains
get-remove_all [] m k = refl
get-remove_all (j ∷ ks) m k = get-remove_all ks (remove m j) k ∙ ground (arith, get-remove m j k)

-- A key is on the list of the first loop exactly if it is in the map and below the bound.
contains-old_pairs :
    (upper : ℕ) (m : HashMap (ℕ × ℕ) PrePrepare) (v n : ℕ)
    → contains (old_pairs upper m) (v, n) ≡ (ltb n upper && is_some (get m (v, n)))
unfolding old_pairs contains get
contains-old_pairs upper [] v n = ground arith
contains-old_pairs upper (((i, j), p) ∷ m) v n =
    ground (arith, pair_beq_iff nat_eq nat_eq (i, j) (v, n), contains-old_pairs upper m v n)

-- After a collection the pre-prepares with a sequence number from the bound on are as before, and
-- those below it are gone; every other field of the bank is as it was.
pub get-garbage_collect :
    (bank : MessageBank) (upper v n : ℕ)
    → (get (garbage_collect bank upper).accepted_pre_prepare_requests (v, n)
        ≡ (if ltb n upper then none else get bank.accepted_pre_prepare_requests (v, n)))
      × (garbage_collect bank upper ≡ record bank {
        accepted_pre_prepare_requests = (garbage_collect bank upper).accepted_pre_prepare_requests;
      })
unfolding garbage_collect
get-garbage_collect bank upper v n = (
  get-remove_all (old_pairs upper all) all (v, n)
      ∙ ground (arith, contains-old_pairs upper all v n),
  refl,
)
  where
    all : HashMap (ℕ × ℕ) PrePrepare
    all = bank.accepted_pre_prepare_requests

remove_all-Entries :
    (P : ℕ × ℕ → PrePrepare → Type 0) (ks : List (ℕ × ℕ)) (m : HashMap (ℕ × ℕ) PrePrepare)
    → Entries P m
    → Entries P (remove_all ks m)
unfolding remove_all
remove_all-Entries P [] m h = h
remove_all-Entries P (k ∷ ks) m h = remove_all-Entries P ks (remove m k) (remove-Entries P m k h)

pub garbage_collect-Entries :
    (P : ℕ × ℕ → PrePrepare → Type 0) (bank : MessageBank) (upper : ℕ)
    → Entries P bank.accepted_pre_prepare_requests
    → Entries P (garbage_collect bank upper).accepted_pre_prepare_requests
unfolding garbage_collect
garbage_collect-Entries P bank upper h =
    remove_all-Entries P (old_pairs upper bank.accepted_pre_prepare_requests)
      bank.accepted_pre_prepare_requests h
