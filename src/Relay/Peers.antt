-- ===== src/Relay/Peers.antt =====
-- crates/aegis-relay/src/net.rs: what a relay knows of its neighbors.
use anonymous.Common.{ℕ, Option, none, some, List}
use anonymous.Relay.Node.{RelayId}

-- A `SocketAddr`, by its text.
abbrev pub SocketAddr : Type 0
SocketAddr = List ℕ

pub record PeerInfo : Type 0 where
  pub addr : SocketAddr
  pub link_key_bytes : List ℕ
  pub kem_public_commitment : Option (List ℕ)
  pub gossip_verifying_key : Option (List ℕ)
  pub noise_static_public : Option (List ℕ)
  pub org_id : Option (List ℕ)
  pub jurisdiction : Option (List ℕ)

abbrev pub PeerInfo_new : SocketAddr → List ℕ → PeerInfo
PeerInfo_new addr link_key_bytes = record {
  addr = addr;
  link_key_bytes = link_key_bytes;
  kem_public_commitment = none;
  gossip_verifying_key = none;
  noise_static_public = none;
  org_id = none;
  jurisdiction = none;
}

abbrev pub with_gossip_verifying_key : PeerInfo → List ℕ → PeerInfo
with_gossip_verifying_key peer key = record peer { gossip_verifying_key = some key }

abbrev pub with_noise_static_public : PeerInfo → List ℕ → PeerInfo
with_noise_static_public peer key = record peer { noise_static_public = some key }

abbrev pub with_org_id : PeerInfo → List ℕ → PeerInfo
with_org_id peer org_id = record peer { org_id = some org_id }

abbrev pub with_jurisdiction : PeerInfo → List ℕ → PeerInfo
with_jurisdiction peer jurisdiction = record peer { jurisdiction = some jurisdiction }

-- `HashMap<RelayId, PeerInfo>`.
abbrev pub PeerTable : Type 0
PeerTable = List (RelayId × PeerInfo)
