-- ===== src/ViewChanger.antt =====
-- src/view_changer.rs: which requests a node waits for, which of its proposals are under way, and
-- what the timers do when they run out. The clones of a `ViewChanger` share both sets, so there is
-- one copy of each, which a timer reads when it fires; the times to wait are left out.
use p_bft.Base.{ℕ, Bool, Option, none, some, [], nat_eq, pair_eq, if◌then◌else◌}
use p_bft.Collections.HashSet
use p_bft.Collections.HashSet.{HashSet}
use p_bft.Messages.ClientRequest.{ClientRequest, request_eq}
use p_bft.Messages.Command.{ConsensusCommand, rebroadcast_pre_prepare, init_view_change}

pub record ViewChanger : Type 0 where
  pub wait_set : HashSet ClientRequest
  pub sent_pre_prepares : HashSet (ℕ × ℕ)

abbrev pub empty : ViewChanger
empty = record { wait_set = []; sent_pre_prepares = [] }

unfoldable pub add_to_sent_pre_prepares : ViewChanger → ℕ × ℕ → ViewChanger × Bool
add_to_sent_pre_prepares w pair =
    let (sent, added) = HashSet.insert w.sent_pre_prepares pair in
    (record w { sent_pre_prepares = sent }, added)

unfoldable pub remove_from_sent_pre_prepares : ViewChanger → ℕ × ℕ → ViewChanger
remove_from_sent_pre_prepares w pair = record w {
  sent_pre_prepares = HashSet.remove w.sent_pre_prepares pair;
}

unfoldable pub is_in_sent_pre_prepares : ViewChanger → ℕ × ℕ → Bool
is_in_sent_pre_prepares w pair = HashSet.contains w.sent_pre_prepares pair

unfoldable pub add_to_wait_set : ViewChanger → ClientRequest → ViewChanger × Bool
add_to_wait_set w r =
    let (waiting, added) = HashSet.insert w.wait_set r in (record w { wait_set = waiting }, added)

unfoldable pub remove_from_wait_set : ViewChanger → ClientRequest → ViewChanger
remove_from_wait_set w r = record w { wait_set = HashSet.remove w.wait_set r }

unfoldable pub is_in_wait_set : ViewChanger → ClientRequest → Bool
is_in_wait_set w r = HashSet.contains w.wait_set r

unfoldable pub reset : ViewChanger → ViewChanger
reset w = record w { wait_set = []; sent_pre_prepares = [] }

-- A timer task that sleeps: `wait_for` and `wait_for_sent_pre_prepares`.
pub data Timer : Type 0 where
  wait_for : ClientRequest → Timer
  wait_for_sent_pre_prepares : ℕ × ℕ → Timer

-- What a timer sends when it runs out. In the source it tests first and then may wait for room in the
-- queue, so that the request may have been applied in between; here it fires when there is room.
unfoldable pub fire : ViewChanger → Timer → Option ConsensusCommand
fire w (wait_for r) = if is_in_wait_set w r then some (init_view_change r) else none
fire w (wait_for_sent_pre_prepares pair) =
    if is_in_sent_pre_prepares w pair then some (rebroadcast_pre_prepare pair) else none
