-- ===== src/Secrets.antt =====
-- Configurations that differ in their private and preshared keys only, and what is left of the
-- values that the program computes from them once the keys are taken out.
pub mod Chains
pub mod Peers
pub mod Splitting
pub mod Building
pub mod Sending
use nl_wireguard.Base.{◌≡◌, String, Option, none, some, List, map, length}
use nl_wireguard.Packet.{WireguardPeerAttribute, WireguardPeer, WireguardMessage, NetlinkMessage}
use nl_wireguard.Crates.{Crates, Decoded, decoded, invalid}
use nl_wireguard.Redact.{redact_peer_attribute, redact_attribute, redact_message}
use nl_wireguard.Redact.Secrecy.{Same}
use nl_wireguard.Peer.{WireguardPeerParsed}
use nl_wireguard.Device.{WireguardParsed}
use nl_wireguard.Handle.{Reply, received, undecodable, Outcome, refused, replied}

abbrev pub mask_peer : WireguardPeer → WireguardPeer
mask_peer = map redact_peer_attribute

abbrev pub mask_message : WireguardMessage → WireguardMessage
mask_message m = record m { attributes = map redact_attribute m.attributes }

abbrev pub mask_reply : Reply → Reply
mask_reply (received m) = received (redact_message m)
mask_reply (undecodable e) = undecodable e

abbrev pub mask_outcome : Outcome → Outcome
mask_outcome (refused e) = refused e
mask_outcome (replied replies) = replied (map mask_reply replies)

-- Keys of the same number of bytes, or texts that base64 rejects in the same words.
abbrev pub SameDecoded : Decoded → Decoded → Type 0
SameDecoded (decoded key) (decoded other) = length key ≡ length other
SameDecoded (invalid e) (invalid f) = e ≡ f
SameDecoded _ _ = ⊥

module _ ⦃c : Crates⦄ where
  abbrev pub SameKey : Option String → Option String → Type 0
  SameKey none none = Unit
  SameKey (some key) (some other) = SameDecoded (c.decode key) (c.decode other)
  SameKey _ _ = ⊥

  -- The peers agree but for the preshared key.
  pub record AlikePeer (p q : WireguardPeerParsed) : Type 0 where
    pub rest : (record p { preshared_key = none }) ≡ (record q { preshared_key = none })
    pub key : SameKey p.preshared_key q.preshared_key

  abbrev pub AlikePeers :
      Option (List WireguardPeerParsed) → Option (List WireguardPeerParsed) → Type 0
  AlikePeers none none = Unit
  AlikePeers (some ps) (some qs) = Same AlikePeer ps qs
  AlikePeers _ _ = ⊥

  -- The configurations agree but for the private key and the preshared keys.
  pub record AlikeParsed (a b : WireguardParsed) : Type 0 where
    pub rest :
        (record a { private_key = none; peers = none })
        ≡ (record b { private_key = none; peers = none })
    pub key : SameKey a.private_key b.private_key
    pub peers : AlikePeers a.peers b.peers
