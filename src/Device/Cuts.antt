-- ===== src/Device/Cuts.antt =====
-- A dump in one message or several, and the messages into which the kernel may cut it further, for
-- `From<Vec<WireguardMessage>>` of src/parsed.rs.
pub mod Reading
use mathlib.Core.List.{foldl, foldl-append}
use mathlib.Core.Option
use nl_wireguard.Base.{
  ◌≡◌, refl, ap, sym, ◌∙◌, String, Bool, true, false, Option, none, some, List, [], ◌∷◌, ◌++◌,
  append_assoc, inl, inr, Bool-cases, if◌then◌else◌, or_keep,
}
use nl_wireguard.Base.Text.{str_eq, eq_iff}
use nl_wireguard.Packet.{
  Bytes, WireguardCmd, WireguardAllowedIp, WireguardPeerAttribute, WireguardPeer,
  WireguardAttribute, WireguardMessage,
}
use nl_wireguard.Crates.{Crates}
use nl_wireguard.Peer.{
  WireguardPeerParsed, default_peer, parse_peer, add_attribute, parse_allowed_ips,
  merge_continuation, extend,
}
use nl_wireguard.Device.{
  WireguardParsed, default_device, same_key, push_peer, push_parsed, extend_attribute,
  extend_message, parse_messages,
}
use nl_wireguard.Split.Parsed.{with_ips, parse_continuation, parse_allowed_ips-append}
use nl_wireguard.Device.Coalesce.{merge_ips}

module _ ⦃c : Crates⦄ where
  -- The key of a peer with these attributes.
  abbrev pub HasKey : WireguardPeer → Bytes → Type 0
  HasKey attrs key = (parse_peer attrs).public_key ≡ some (c.encode key)

  abbrev pub first_part : WireguardPeer → List WireguardAllowedIp → WireguardPeer
  first_part attrs ips = attrs ++ WireguardPeerAttribute.allowed_ips ips ∷ []

  abbrev pub continuation : Bytes → List WireguardAllowedIp → WireguardPeer
  continuation key ips =
      WireguardPeerAttribute.public_key key ∷ WireguardPeerAttribute.allowed_ips ips ∷ []

  -- One cut of the attributes of a message, between two attributes `front` and `back`.
  pub data CutsAttributes : List WireguardAttribute → List WireguardAttribute → Type 0 where
    -- between two peers
    between :
        (front : List WireguardAttribute) (ps qs : List WireguardPeer)
        (back : List WireguardAttribute)
        → CutsAttributes
            (front ++ WireguardAttribute.peers (ps ++ qs) ∷ back)
            (front ++ WireguardAttribute.peers ps ∷ WireguardAttribute.peers qs ∷ back)
    -- within the allowed IPs of a peer, which are its last attribute
    within :
        (front : List WireguardAttribute) (ps : List WireguardPeer) (attrs : WireguardPeer)
        (key : Bytes) (xs ys : List WireguardAllowedIp) (qs : List WireguardPeer)
        (back : List WireguardAttribute)
        → HasKey attrs key
        → CutsAttributes
            (front ++ WireguardAttribute.peers (ps ++ first_part attrs (xs ++ ys) ∷ qs) ∷ back)
            (front
              ++ WireguardAttribute.peers (ps ++ first_part attrs xs ∷ continuation key ys ∷ qs)
                ∷ back)

  -- One cut of a dump: within one of its messages, or of a message into two.
  pub data Cut : List WireguardMessage → List WireguardMessage → Type 0 where
    inside :
        (before after : List WireguardMessage) (cmd : WireguardCmd)
        (attrs parts : List WireguardAttribute)
        → CutsAttributes attrs parts
        → Cut
            (before ++ (record { cmd = cmd; attributes = attrs }) ∷ after)
            (before ++ (record { cmd = cmd; attributes = parts }) ∷ after)
    apart :
        (before after : List WireguardMessage) (cmd : WireguardCmd)
        (attrs more : List WireguardAttribute)
        → Cut (before ++ (record { cmd = cmd; attributes = attrs ++ more }) ∷ after) (
            before
            ++ (record { cmd = cmd; attributes = attrs })
              ∷ (record { cmd = cmd; attributes = more })
              ∷ after)

  pub data Cuts : List WireguardMessage → List WireguardMessage → Type 0 where
    uncut : {ms : List WireguardMessage} → Cuts ms ms
    cut : {ms ns os : List WireguardMessage} → Cut ms ns → Cuts ns os → Cuts ms os
