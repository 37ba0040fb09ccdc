-- ===== src/Tests/Stores.antt =====
-- Two engines that come to the same store, one by executing the request, one by checkpoints.
use p_bft.Base.{◌≡◌, refl, sym, [], ◌∷◌, arith, nat_eq, pair_eq, pair_beq}
use p_bft.Collections.BTreeMap
use p_bft.Collections.BTreeMap.{bytes_eq, bytes_beq, compare_bytes, Bytes}
use p_bft.Collections.HashMap
use p_bft.Collections.HashSet
use p_bft.Messages.CheckPoint
use p_bft.Messages.Command.{accept_checkpoint, process_message}
use p_bft.State
use p_bft.State.{State, digest, execute, applied, initial}
use p_bft.Consensus.Defs.{Consensus, with_state, sent, after, new}
use p_bft.Consensus.Execution.{on_accept_checkpoint, stabilise}
use p_bft.Consensus.Handle.{handle}
use p_bft.Replication.Agreed.{replay}
use p_bft.MessageBank
use p_bft.Tests.World.{plain, checkpoint_of, written}
use p_bft.Collections.HashSet.{HashSet}
use p_bft.Messages.Message.{check_point_message}
use p_bft.Engine.{Engine, round, deliver, running, start}
use p_bft.Engine.Reach.{Reach, here}
use p_bft.Replication.Cluster.{same_store, HonestHistory, Follows, Reach-Follows}
use p_bft.Tests.Pair.{agreed, two, heard_Reach, on}
use p_bft.Tests.Executed.{executed, executed_Reach, executed_Honest}

-- node 0 takes the store from two checkpoints
abbrev one_checkpoint : Engine
one_checkpoint = record (start 0 two (0 ∷ [])) {
  consensus = record (new 0 two (0 ∷ [])) {
    state = record (initial two 0) {
      checkpoint_votes = ((1, []), 1 ∷ []) ∷ [];
      checkpoints_current_round = (1, checkpoint_of 1 1 5) ∷ [];
      message_bank = record MessageBank.empty {
        checkpoint_messages = ((1, []), checkpoint_of 1 1 5) ∷ [];
      };
    };
  };
}

abbrev caught_up : Engine
caught_up = record (start 0 two (0 ∷ [])) {
  consensus = record (new 0 two (0 ∷ [])) {
    state = record (initial two 0) {
      last_stable_seq_num = 1;
      last_seq_num_committed = 1;
      last_checkpoint_proof = checkpoint_of 1 1 5 ∷ checkpoint_of 0 1 5 ∷ [];
      message_bank = record MessageBank.empty {
        checkpoint_messages = ((1, []), checkpoint_of 0 1 5) ∷ [];
      };
      store = written 5;
    };
  };
}

catch_1 :
    round plain
      (on (start 0 two (0 ∷ [])) (process_message (check_point_message (checkpoint_of 1 1 5))))
    ≡ running (on (start 0 two (0 ∷ [])) (accept_checkpoint (checkpoint_of 1 1 5)))
unfolding round handle p_bft.Consensus.Defs.on_process_message State.should_accept_checkpoint
    deliver
catch_1 = refl

catch_2 :
    round plain (on (start 0 two (0 ∷ [])) (accept_checkpoint (checkpoint_of 1 1 5)))
    ≡ running one_checkpoint
unfolding round handle on_accept_checkpoint HashMap.get deliver HashMap.insert
    CheckPoint.new_with_signature HashSet.insert HashSet.contains
catch_2 = refl

catch_3 :
    round plain (on one_checkpoint (process_message (check_point_message (checkpoint_of 0 1 5))))
    ≡ running (on one_checkpoint (accept_checkpoint (checkpoint_of 0 1 5)))
unfolding round handle p_bft.Consensus.Defs.on_process_message State.should_accept_checkpoint
    deliver
catch_3 = refl

catch_4 :
    round plain (on one_checkpoint (accept_checkpoint (checkpoint_of 0 1 5))) ≡ running caught_up
unfolding round handle on_accept_checkpoint HashMap.get pair_beq CheckPoint.new_with_signature
    bytes_beq compare_bytes HashSet.insert HashSet.contains stabilise State.update_checkpoint_meta
    HashMap.insert State.proof_of deliver State.get_next_consecutive_commits State.consecutive_from
    State.garbage_collect MessageBank.garbage_collect
catch_4 = refl

abbrev caught_up_Reach : Reach plain 0 two (0 ∷ []) caught_up
caught_up_Reach =
    heard_Reach (check_point_message (checkpoint_of 0 1 5))
      (heard_Reach (check_point_message (checkpoint_of 1 1 5)) here tt (omega arith) (omega arith)
        catch_1 (omega arith) catch_2)
      tt (omega arith) (omega arith) catch_3 (omega arith) catch_4

replay_one : replay agreed 1 ≡ written 5
unfolding replay execute BTreeMap.insert
replay_one = refl

caught_up_Honest : HonestHistory agreed caught_up_Reach
unfolding CheckPoint.new_with_signature
caught_up_Honest = (tt, (tt, (sym replay_one, (tt, (tt, (sym replay_one, tt))))))

same_level :
    executed.consensus.state.last_seq_num_committed
    ≡ caught_up.consensus.state.last_seq_num_committed
same_level = refl

same_store_example :
    (executed.consensus.state.store ≡ caught_up.consensus.state.store)
    × (digest plain executed.consensus.state ≡ digest plain caught_up.consensus.state)
same_store_example =
    same_store agreed executed_Reach caught_up_Reach executed_Honest caught_up_Honest same_level

Reach-Follows_example : Follows agreed executed
Reach-Follows_example = Reach-Follows agreed executed_Reach executed_Honest
