-- ===== src/Tests/World.antt =====
-- A cluster of four nodes, one of which may be faulty, with a stand-in for the cryptography: the hash
-- is the text itself, and a signature is the key before the text.
use p_bft.Base.{ℕ, ◌-◌, Option, false, none, some, [], ◌∷◌, ◌++◌}
use p_bft.Collections.BTreeMap.{BTreeMap, Bytes, bytes_beq}
use p_bft.External.{External, SocketAddr, v4}
use p_bft.Config.{Config}
use p_bft.Messages.ClientRequest.{ClientRequest, digest}
use p_bft.Messages.PrePrepare
use p_bft.Messages.PrePrepare.{PrePrepare}
use p_bft.Messages.Prepare
use p_bft.Messages.Prepare.{Prepare}
use p_bft.Messages.Commit
use p_bft.Messages.Commit.{Commit}
use p_bft.Messages.CheckPoint
use p_bft.Messages.CheckPoint.{CheckPoint}
use p_bft.Consensus.Defs.{Consensus, new}

abbrev pub plain : External
plain = record {
  sha512 = λ bytes. bytes;
  sign = λ pair fed. pair ++ fed;
  verify = λ key fed signature. some (bytes_beq signature (key ++ fed));
  public_key = λ pair. pair;
  key_from_bytes = λ bytes. some bytes;
  store_json = λ m. [];
  ipv6_text = λ octets. octets;
}

abbrev pub addr : ℕ → SocketAddr
addr port = record { ip = v4 127 0 0 1; port = port }

abbrev pub cluster : Config
cluster = record {
  num_nodes = 4;
  num_faulty = 1;
  peer_addrs = (0, addr 8000) ∷ (1, addr 8001) ∷ (2, addr 8002) ∷ (3, addr 8003) ∷ [];
  checkpoint_frequency = 10;
  is_equivocator = false;
}

abbrev pub replica : ℕ → Consensus
replica id = new id cluster (id ∷ [])

abbrev pub write : ℕ → ClientRequest
write value = record {
  respond_addr = addr 9000;
  time_stamp = 7;
  key = b'x' ∷ [];
  value = some value;
}

-- the first leader's proposal at a sequence number
abbrev pub proposal : ℕ → ℕ → PrePrepare
proposal seq_num value = PrePrepare.new_with_signature plain (0 ∷ []) 0 0 seq_num (write value)

abbrev pub prepare_of : ℕ → ℕ → ℕ → Prepare
prepare_of id seq_num value = Prepare.new_with_signature plain (id ∷ []) id 0 seq_num (write value)

abbrev pub commit_of : ℕ → ℕ → ℕ → Commit
commit_of id seq_num value =
    Commit.new_with_signature plain (id ∷ []) id 0 seq_num (digest plain (write value))

-- the store after the one write
abbrev pub written : ℕ → BTreeMap ℕ
written value = (b'x' ∷ [], value) ∷ []

abbrev pub checkpoint_of : ℕ → ℕ → ℕ → CheckPoint
checkpoint_of id seq_num value =
    CheckPoint.new_with_signature plain (id ∷ []) id seq_num 0 [] (written value)

-- stand-ins for the readings of numbers and addresses: one digit, and one address for every text
abbrev pub digit : Bytes → Option ℕ
digit (c ∷ []) = some (c - 48)
digit cs = none

abbrev pub any_addr : Bytes → Option SocketAddr
any_addr text = some (addr 8000)
