-- ===== src/State/Consecutive.antt =====
-- src/state.rs: the loop that finds the buffered commits that may be applied next.
use p_bft.Base.{
  ℕ, zero, suc, ◌+◌, ◌≤◌, ◌<◌, ◌≡◌, none, some, List, [], ◌∷◌, length, arith, incr, usize_mod,
  nat_eq, leb, if◌then◌else◌, Option-cases, inl, inr,
}
use p_bft.Collections.HashMap.{HashMap, get}
use p_bft.Messages.Commit.{Commit}
use p_bft.State.{State, consecutive_from, get_next_consecutive_commits}

-- entries with a key from `n` on
keys_from : ℕ → HashMap ℕ Commit → ℕ
keys_from n [] = 0
keys_from n ((k, c) ∷ m) = if leb n k then suc (keys_from n m) else keys_from n m

keys_from-le : (n : ℕ) (m : HashMap ℕ Commit) → keys_from n m ≤ length m
unfolding keys_from
keys_from-le n [] = omega arith
keys_from-le n ((k, c) ∷ m) = ground (arith, keys_from-le n m)

keys_from_mono : (n : ℕ) (m : HashMap ℕ Commit) → keys_from (suc n) m ≤ keys_from n m
unfolding keys_from
keys_from_mono n [] = omega arith
keys_from_mono n ((k, c) ∷ m) = ground (arith, keys_from_mono n m)

-- A hit uses an entry up.
keys_from-hit :
    (n : ℕ) (m : HashMap ℕ Commit) (c : Commit)
    → get m n ≡ some c
    → keys_from (suc n) m < keys_from n m
unfolding keys_from get
keys_from-hit n [] c h = ground arith
keys_from-hit n ((k, d) ∷ m) c h = ground (arith, keys_from-hit n m c, keys_from_mono n m)

-- Each commit of `cs` is the one buffered at its place, counted from `n`, and then comes a gap.
abbrev pub MaximalRun : HashMap ℕ Commit → ℕ → List Commit → Type 0
MaximalRun m n [] = get m n ≡ none
MaximalRun m n (c ∷ cs) = (get m n ≡ some c) × MaximalRun m (suc n) cs

consecutive_from-MaximalRun :
    (fuel : ℕ) (m : HashMap ℕ Commit) (n : ℕ)
    → keys_from n m < fuel
    → n + fuel ≤ usize_mod
    → MaximalRun m n (consecutive_from fuel m n)
unfolding consecutive_from
consecutive_from-MaximalRun zero m n h b = absurd (omega arith)
consecutive_from-MaximalRun (suc fuel) m n h b = elim (Option-cases (get m n)) [
  | inl e ↦ rw (e, consecutive_from) e
  | inr (c, e) ↦
      let used = keys_from-hit n m c e in
      let next : incr n ≡ suc n = omega arith in
      rw (e, consecutive_from)
        (e, rw next (consecutive_from-MaximalRun fuel m (suc n) (omega arith) (omega arith)))
]

-- Where the sequence numbers cannot overflow, the commits returned are exactly the buffered ones
-- that follow the last one applied without a gap: each at its place, and none at the place after.
pub get_next_consecutive_commits-MaximalRun :
    (s : State)
    → let m = s.message_bank.accepted_commits_not_applied in
      s.last_seq_num_committed + length m + 2 ≤ usize_mod
      → MaximalRun m (suc s.last_seq_num_committed) (get_next_consecutive_commits s)
unfolding get_next_consecutive_commits
get_next_consecutive_commits-MaximalRun s b =
    let m = s.message_bank.accepted_commits_not_applied in
    let last = s.last_seq_num_committed in
    let next : incr last ≡ suc last = omega arith in
    rw next (
      consecutive_from-MaximalRun (suc (length m)) m (suc last)
        (omega (arith, keys_from-le (suc last) m)) (omega arith))
