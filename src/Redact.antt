-- ===== src/Redact.antt =====
-- src/redact.rs: key material is removed from a message before an error keeps it.
pub mod Secrecy
pub mod Guarantees
use nl_wireguard.Base.{ℕ, List, [], ◌∷◌, map}
use nl_wireguard.Packet.{
  Bytes, WireguardPeerAttribute, WireguardPeer, WireguardAttribute, NetlinkPayload, NetlinkMessage,
}

-- `key.fill(0)`
abbrev pub fill_zero : Bytes → Bytes
fill_zero = map (λ _. 0)

-- The innermost `if let` of `redact_attributes`.
unfoldable pub redact_peer_attribute : WireguardPeerAttribute → WireguardPeerAttribute
redact_peer_attribute (WireguardPeerAttribute.preshared_key key) =
    WireguardPeerAttribute.preshared_key (fill_zero key)
redact_peer_attribute attribute = attribute

unfoldable pub redact_attribute : WireguardAttribute → WireguardAttribute
redact_attribute (WireguardAttribute.private_key key) =
    WireguardAttribute.private_key (fill_zero key)
redact_attribute (WireguardAttribute.peers peers) =
    WireguardAttribute.peers (map (map redact_peer_attribute) peers)
redact_attribute attribute = attribute

unfoldable pub redact_attributes : List WireguardAttribute → List WireguardAttribute
redact_attributes = map redact_attribute

unfoldable pub redact_payload : NetlinkPayload → NetlinkPayload
unfolding redact_attributes
redact_payload (NetlinkPayload.inner_message genl_msg) =
    NetlinkPayload.inner_message (record genl_msg {
      payload = record genl_msg.payload {
        attributes = redact_attributes genl_msg.payload.attributes;
      };
    })
redact_payload (NetlinkPayload.error err_msg) =
    NetlinkPayload.error (record err_msg { header = [] })
redact_payload (NetlinkPayload.overrun bytes) = NetlinkPayload.overrun []
redact_payload payload = payload

unfoldable pub redact_message : NetlinkMessage → NetlinkMessage
unfolding redact_payload
redact_message msg = record msg { payload = redact_payload msg.payload }
