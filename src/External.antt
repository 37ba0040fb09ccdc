-- ===== src/External.antt =====
-- What the program takes from outside: SHA-512 and ed25519 (`ed25519_dalek`), serde's JSON of the
-- store, and the text form of an IPv6 address; also the byte forms that the hashed text is built of.
use Prim.Native.Char.{code}
use Prim.Native.String.{String}
use p_bft.Base.{
  ℕ, zero, suc, ◌+◌, ◌/◌, ◌%◌, ◌≡◌, Bool, true, Option, some, [], ◌∷◌, ◌++◌, ltb, if◌then◌else◌,
}
use p_bft.Collections.BTreeMap.{Bytes, BTreeMap}

pub record External : Type 0 where
  -- `Sha512`: the hash of all bytes fed by `update`
  pub sha512 : Bytes → Bytes
  -- `Keypair::from_bytes(..).unwrap().sign_prehashed(..)` on the bytes of a key pair and the bytes
  -- fed to the hasher; the pair is the one that `Keypair::generate` made
  pub sign : Bytes → Bytes → Bytes
  -- `verify_prehashed(..).is_ok()`; `none` where `Signature::from_bytes(..).unwrap()` panics
  pub verify : Bytes → Bytes → Bytes → Option Bool
  -- the public key of a key pair
  pub public_key : Bytes → Bytes
  -- `PublicKey::from_bytes`
  pub key_from_bytes : Bytes → Option Bytes
  -- `serde_json::to_string` of the store
  pub store_json : BTreeMap ℕ → Bytes
  -- `Display` of an IPv6 address
  pub ipv6_text : Bytes → Bytes

-- A signature made with a key pair verifies under its public key.
abbrev pub SignaturesVerify : External → Type 0
SignaturesVerify ext =
    (pair fed : Bytes) → ext.verify (ext.public_key pair) fed (ext.sign pair fed) ≡ some true

-- `to_le_bytes` of an integer of `w` bytes
unfoldable pub le_bytes : ℕ → ℕ → Bytes
le_bytes zero n = []
le_bytes (suc w) n = (n % 256) ∷ le_bytes w (n / 256)

abbrev pub usize_bytes : ℕ → Bytes
usize_bytes = le_bytes 8

abbrev pub u32_bytes : ℕ → Bytes
u32_bytes = le_bytes 4

-- the bytes of an ASCII literal
abbrev pub text : String → Bytes
text String.[] = []
text (String.◌∷◌ c s) = code c ∷ text s

-- decimal digits, for numbers below 10 ^ fuel
decimal : ℕ → ℕ → Bytes
decimal zero n = []
decimal (suc fuel) n =
    let front = decimal fuel (n / 10) in
    if ltb n 10 then (48 + n) ∷ [] else front ++ (48 + n % 10) ∷ []

-- `std::net::SocketAddr`
pub data IpAddr : Type 0 where
  v4 : ℕ → ℕ → ℕ → ℕ → IpAddr
  v6 : Bytes → IpAddr

pub record SocketAddr : Type 0 where
  pub ip : IpAddr
  pub port : ℕ

ip_text : External → IpAddr → Bytes
unfolding decimal
ip_text ext (v4 a b c d) =
    decimal 3 a ++ (b'.' ∷ (decimal 3 b ++ (b'.' ∷ (decimal 3 c ++ (b'.' ∷ decimal 3 d)))))
ip_text ext (v6 octets) = b'[' ∷ (ext.ipv6_text octets ++ (b']' ∷ []))

-- `SocketAddr::to_string`
unfoldable pub addr_text : External → SocketAddr → Bytes
unfolding ip_text decimal
addr_text ext a = ip_text ext a.ip ++ (b':' ∷ decimal 5 a.port)
