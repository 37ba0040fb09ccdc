-- ===== src/Config.antt =====
-- src/config.rs: the cluster that a node is in. The three fields that hold durations are times to
-- wait; here a timer may fire at any time after it is set, so they are left out.
use p_bft.Base.{ℕ, Bool}
use p_bft.Collections.HashMap.{HashMap}
use p_bft.External.{SocketAddr}

-- `num_nodes` and `checkpoint_frequency` are divided by. A node with no peers does not start, and `main`
-- sets the frequency to 10. For a frequency of 0, `round` of Engine has the panic of the division.
pub record Config : Type 0 where
  pub num_nodes : ℕ
  pub num_faulty : ℕ
  pub peer_addrs : HashMap ℕ SocketAddr
  pub checkpoint_frequency : ℕ
  pub is_equivocator : Bool
