-- ===== src/Replication/Reads.antt =====
-- src/state.rs, src/consensus.rs: what a client reads, in terms of the decided requests.
use p_bft.Base.{
  ℕ, zero, suc, ◌≡◌, refl, ap, ◌∙◌, Option, none, some, ◌∷◌, nat_eq, pair_eq, incr, if◌then◌else◌,
  Bool, true, false,
}
use p_bft.Collections.BTreeMap
use p_bft.Collections.BTreeMap.{Bytes, bytes_beq, get-insert}
use p_bft.External.{External}
use p_bft.State.{State, execute}
use p_bft.Messages.ClientRequest.{ClientRequest}
use p_bft.Messages.PrePrepare.{PrePrepare}
use p_bft.Messages.Commit.{Commit}
use p_bft.Consensus.Defs.{Consensus, after, sent}
use p_bft.Consensus.Execution.{on_apply_commit, checkpoint_commands}
use p_bft.Execution.Order.{Proposed, answer, read_value, on_apply_commit_next}
use p_bft.Replication.Agreed.{Decided, replay, Consistent}

-- What a key holds after a request that may write it, or another key.
abbrev after_write : Bool → Option ℕ → Option ℕ → Option ℕ
after_write true (some v) earlier = some v
after_write true none earlier = earlier
after_write false value earlier = earlier

-- The value that the last of the first `n` decided requests to write the key wrote.
unfoldable pub last_write : Decided → Bytes → ℕ → Option ℕ
last_write decided key zero = none
last_write decided key (suc n) =
    after_write (bytes_beq (decided (suc n)).key key) (decided (suc n)).value
      (last_write decided key n)

get-execute :
    (store : BTreeMap.BTreeMap ℕ) (r : ClientRequest) (value : Option ℕ) (key : Bytes)
    → BTreeMap.get (execute store (record r { value = value })).1 key
      ≡ after_write (bytes_beq r.key key) value (BTreeMap.get store key)
unfolding execute
get-execute store r (some v) key = get-insert store r.key key v ∙ hit (bytes_beq r.key key)
  where
    hit :
        (b : Bool)
        → (if b then some v else BTreeMap.get store key)
          ≡ after_write b (some v) (BTreeMap.get store key)
    hit true = refl
    hit false = refl
get-execute store r none key = miss (bytes_beq r.key key)
  where
    miss : (b : Bool) → BTreeMap.get store key ≡ after_write b none (BTreeMap.get store key)
    miss true = refl
    miss false = refl

pub get-replay :
    (decided : Decided) (key : Bytes) (n : ℕ)
    → BTreeMap.get (replay decided n) key ≡ last_write decided key n
unfolding replay last_write
get-replay decided key zero = unfold BTreeMap.get in refl
get-replay decided key (suc n) =
    get-execute (replay decided n) (decided (suc n)) (decided (suc n)).value key
    ∙ ap (after_write (bytes_beq (decided (suc n)).key key) (decided (suc n)).value)
        (get-replay decided key n)

read_value-none :
    (s : State) (r : ClientRequest) → r.value ≡ none → read_value s r ≡ BTreeMap.get s.store r.key
read_value-none s r h = rw (h, read_value) refl

-- Reads see the last write: a replica that is consistent with the decided requests answers a read
-- whose proposal is on record, when its turn comes, with the value that the last decided write to
-- the key before it wrote, and with none if there was no write. It sends nothing else to the
-- network but a checkpoint that is due.
pub answers-last_write :
    (decided : Decided) (ext : External) (e : Consensus) (c : Commit) (p : PrePrepare)
    → Consistent decided e.state
    → Proposed e c p
    → c.seq_num ≡ incr e.state.last_seq_num_committed
    → p.client_request.value ≡ none
    → (sent (on_apply_commit ext e c)).to_node
      ≡ answer ext e p.client_request
          (last_write decided p.client_request.key e.state.last_seq_num_committed)
        ∷ checkpoint_commands ext (after e (on_apply_commit ext e c))
answers-last_write decided ext e c p h known next read =
    let (_, _, _, sends, _) = on_apply_commit_next ext e c p known next in
    let value : read_value e.state p.client_request
        ≡ last_write decided p.client_request.key e.state.last_seq_num_committed =
      read_value-none e.state p.client_request read
      ∙ ap (λ m. BTreeMap.get m p.client_request.key) h.store
      ∙ get-replay decided p.client_request.key e.state.last_seq_num_committed in
    sends
    ∙ ap
        (λ x.
          answer ext e p.client_request x
          ∷ checkpoint_commands ext (after e (on_apply_commit ext e c)))
        value
