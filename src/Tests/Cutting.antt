-- ===== src/Tests/Cutting.antt =====
-- The theorem on dumps that are cut, at a dump in one message and the same dump in two.
use nl_wireguard.Base.{◌≡◌, refl, List, [], ◌∷◌}
use nl_wireguard.Packet.{WireguardCmd, WireguardAttribute, WireguardPeer, WireguardMessage}
use nl_wireguard.AllowedIp.{ip_attributes}
use nl_wireguard.Peer.{parse_peer, add_attribute}
use nl_wireguard.Device.{parse_messages}
use nl_wireguard.Device.Cuts.{
  HasKey, first_part, continuation, between, within, inside, apart, Cuts, uncut, cut,
}
use nl_wireguard.Device.Cuts.Reading.{parse_messages-Cuts}
use nl_wireguard.Samples.{sample}
use nl_wireguard.Tests.{ip, key_bytes, public, keepalive, other_public}

abbrev state : WireguardPeer
state = public ∷ keepalive ∷ []

state-HasKey : HasKey state key_bytes
unfolding parse_peer add_attribute
state-HasKey = refl

abbrev of_device : List WireguardAttribute → WireguardMessage
of_device attributes = record { cmd = WireguardCmd.get_device; attributes = attributes }

abbrev name : WireguardAttribute
name = WireguardAttribute.if_name "wg0"

abbrev one : List WireguardMessage
one =
    of_device (
      name
      ∷ WireguardAttribute.peers (
          first_part state (ip_attributes (ip 1) ∷ ip_attributes (ip 2) ∷ [])
          ∷ (other_public ∷ [])
          ∷ [])
      ∷ [])
    ∷ []

-- The second address and the second peer come in a message of their own.
abbrev two : List WireguardMessage
two =
    of_device
      (name ∷ WireguardAttribute.peers (first_part state (ip_attributes (ip 1) ∷ []) ∷ []) ∷ [])
    ∷ of_device (
        WireguardAttribute.peers
          (continuation key_bytes (ip_attributes (ip 2) ∷ []) ∷ (other_public ∷ []) ∷ [])
        ∷ [])
    ∷ []

one_cut : Cuts one two
one_cut =
    cut
      (inside [] [] WireguardCmd.get_device _ _ (
        within (name ∷ []) [] state key_bytes (ip_attributes (ip 1) ∷ [])
          (ip_attributes (ip 2) ∷ []) ((other_public ∷ []) ∷ []) [] state-HasKey))
      (cut
        (inside [] [] WireguardCmd.get_device _ _ (
          between (name ∷ []) (first_part state (ip_attributes (ip 1) ∷ []) ∷ [])
            (continuation key_bytes (ip_attributes (ip 2) ∷ []) ∷ (other_public ∷ []) ∷ []) []))
        (cut
          (apart [] [] WireguardCmd.get_device
            (name
              ∷ WireguardAttribute.peers (first_part state (ip_attributes (ip 1) ∷ []) ∷ [])
              ∷ [])
            (WireguardAttribute.peers
                (continuation key_bytes (ip_attributes (ip 2) ∷ []) ∷ (other_public ∷ []) ∷ [])
              ∷ []))
          uncut))

parse_messages-Cuts_example : parse_messages one ≡ parse_messages two
parse_messages-Cuts_example = parse_messages-Cuts one_cut
