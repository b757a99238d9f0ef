-- ===== src/Examples/Config.antt =====
-- The configuration of examples/set_wireguard.rs as a message.
use nl_wireguard.Base.{◌<◌, ◌≡◌, refl, inl, false, String, some, List, [], ◌∷◌, ◌++◌, arith}
use nl_wireguard.Base.Text.{len, contains_nul}
use nl_wireguard.Packet.{WireguardPeer, WireguardAttribute, WireguardCmd, WireguardMessage}
use nl_wireguard.Crates.{Crates, Base64Laws}
use nl_wireguard.Error.{ok}
use nl_wireguard.Flags.{WireguardParsedDeviceFlags, build_device_flags}
use nl_wireguard.Peer.Accepted.{IsKey, IsAcceptable, build_iff, key_accepted}
use nl_wireguard.Split.Peers.{chunks_of_built}
use nl_wireguard.Device
use nl_wireguard.Device.{
  WireguardParsed, ifnamsiz, iface_attribute, device_attributes, parse_messages,
}
use nl_wireguard.Device.Interface.{iface_made}
use nl_wireguard.Device.Coalesce.{reported}
use nl_wireguard.Device.RoundTrip.{reported_device}
use nl_wireguard.Messages.{build_messages}
use nl_wireguard.Messages.Groups.{all_chunks}
use nl_wireguard.Messages.RoundTrip.{parse_messages-build_messages}
use nl_wireguard.Examples.{
  config_peer_key, config_public_key, config_private_key, peer_config, config,
}

module _ ⦃c : Crates⦄ where
  module _ (peer_key : IsKey config_peer_key) where
    peer-IsAcceptable : IsAcceptable peer_config
    peer-IsAcceptable = record {
      key = config_peer_key;
      has_key = refl;
      valid_key = peer_key;
      valid_preshared = tt;
      valid_ips = (omega arith, (omega arith, tt));
    }

    peer_chunked : (chunks : List WireguardPeer) × (all_chunks (peer_config ∷ []) ≡ ok chunks)
    unfolding all_chunks
    peer_chunked =
        let (attrs, built) = (build_iff peer_config).1 peer-IsAcceptable in
        let (chunks, made) = chunks_of_built peer_config attrs built in (chunks ++ [], rw made refl)

  front_built :
      (public : IsKey config_public_key) (private : IsKey config_private_key) (name : String)
      → len name < ifnamsiz
      → contains_nul name ≡ false
      → (front : List WireguardAttribute) × (device_attributes (config name) ≡ ok front)
  unfolding device_attributes Device.key_attribute
  front_built public private name short plain =
      let iface = iface_made (config name) (WireguardAttribute.if_name name) (
        inl (record { name = name; has_name = refl; short = short; plain = plain; made = refl })) in
      (
        WireguardAttribute.if_name name
            ∷ WireguardAttribute.public_key public.bytes
            ∷ WireguardAttribute.private_key private.bytes
            ∷ WireguardAttribute.listen_port 51820
            ∷ WireguardAttribute.fwmark 0
            ∷ WireguardAttribute.flags
                (build_device_flags (WireguardParsedDeviceFlags.replace_peers ∷ []))
            ∷ [],
        rw
            (
              iface,
              key_accepted "public_key" config_public_key public,
              key_accepted "private_key" config_private_key private,
            )
            refl,
      )

  -- The only message that the configuration of `set_wireguard` needs is read back as it.
  pub message_parsed :
      (base64 : Base64Laws c) (peer_key : IsKey config_peer_key) (public : IsKey config_public_key)
      (private : IsKey config_private_key) (name : String) (message : WireguardMessage)
      → len name < ifnamsiz
      → contains_nul name ≡ false
      → build_messages (config name) WireguardCmd.set_device ≡ ok (message ∷ [])
      → parse_messages (message ∷ [])
        ≡ reported_device (config name) (some (reported peer_config ∷ []))
  message_parsed base64 peer_key public private name message short plain built =
      let (front, front_ok) = front_built public private name short plain in
      let (chunks, split) = peer_chunked peer_key in
      let (messages, made, back) =
        parse_messages-build_messages base64 (config name) WireguardCmd.set_device
          (peer_config ∷ []) front chunks refl front_ok split (tt, tt) tt in
      let same : messages ≡ message ∷ [] = cc (made, built) in rw (← same) back
