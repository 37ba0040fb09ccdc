-- ===== src/Messages/ClientRequest.antt =====
-- src/messages.rs, `ClientRequest`: a read or a write of one key, its equality and its digest.
use p_bft.Base.{
  ℕ, ◌≡◌, ◌↔◌, Bool, true, false, ◌&&◌, Option, none, some, [], ◌++◌, Eq, arith, nat_beq,
}
use p_bft.Collections.BTreeMap.{Bytes, bytes_beq, bytes_beq_iff}
use p_bft.External.{External, SocketAddr, IpAddr, v4, v6, addr_text, usize_bytes, u32_bytes}

pub record ClientRequest : Type 0 where
  pub respond_addr : SocketAddr
  pub time_stamp : ℕ
  pub key : Bytes  -- `Key`, the UTF-8 bytes of a `String`
  pub value : Option ℕ  -- `Option<Value>`, a `u32`

abbrev value_bytes : Option ℕ → Bytes
value_bytes none = []
value_bytes (some v) = u32_bytes v

-- The value is fed twice: by `if let Some(value)` and by `if self.value.is_some()`.
unfoldable pub hashed : External → ClientRequest → Bytes
hashed ext r =
    addr_text ext r.respond_addr
    ++ (usize_bytes r.time_stamp ++ (r.key ++ (value_bytes r.value ++ value_bytes r.value)))

unfoldable pub digest : External → ClientRequest → Bytes
digest ext r = ext.sha512 (hashed ext r)

abbrev pub no_op : ClientRequest
no_op = record {
  respond_addr = record { ip = v4 0 0 0 0; port = 0 };
  time_stamp = 0;
  key = [];
  value = none;
}

abbrev ip_beq : IpAddr → IpAddr → Bool
ip_beq (v4 a b c d) (v4 a' b' c' d') =
    nat_beq a a' && (nat_beq b b' && (nat_beq c c' && nat_beq d d'))
ip_beq (v6 o) (v6 o') = bytes_beq o o'
ip_beq _ _ = false

pub ip_beq_iff : (a b : IpAddr) → (ip_beq a b ≡ true) ↔ (a ≡ b)
ip_beq_iff (v4 a b c d) (v4 a' b' c' d') = ground arith
ip_beq_iff (v6 o) (v6 o') = ground (arith, bytes_beq_iff o o')
ip_beq_iff (v4 a b c d) (v6 o) = ground arith
ip_beq_iff (v6 o) (v4 a b c d) = ground arith

abbrev value_beq : Option ℕ → Option ℕ → Bool
value_beq none none = true
value_beq (some a) (some b) = nat_beq a b
value_beq _ _ = false

value_beq_iff : (a b : Option ℕ) → (value_beq a b ≡ true) ↔ (a ≡ b)
value_beq_iff none none = ground arith
value_beq_iff (some a) (some b) = ground arith
value_beq_iff none (some b) = ground arith
value_beq_iff (some a) none = ground arith

-- `#[derive(PartialEq)]`
unfoldable pub request_beq : ClientRequest → ClientRequest → Bool
request_beq a b =
    ip_beq a.respond_addr.ip b.respond_addr.ip
    && (nat_beq a.respond_addr.port b.respond_addr.port
        && (nat_beq a.time_stamp b.time_stamp
            && (bytes_beq a.key b.key && value_beq a.value b.value)))

pub request_beq_iff : (a b : ClientRequest) → (request_beq a b ≡ true) ↔ (a ≡ b)
unfolding request_beq
request_beq_iff a b = ground (
  arith,
  ip_beq_iff a.respond_addr.ip b.respond_addr.ip,
  bytes_beq_iff a.key b.key,
  value_beq_iff a.value b.value,
)

instance abbrev pub request_eq : Eq ClientRequest
request_eq = record { beq = request_beq; beq_decides = request_beq_iff }
