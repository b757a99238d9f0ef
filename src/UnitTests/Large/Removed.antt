-- ===== src/UnitTests/Large/Removed.antt =====
-- The test of a large peer that is to be removed passes, for every number of allowed IPs.
use nl_wireguard.Base.{ℕ, ◌≡◌, refl, true, inr, some, [], ◌∷◌}
use nl_wireguard.Packet.{WireguardCmd, WireguardPeerAttribute}
use nl_wireguard.Crates.{Crates, FlagLaws}
use nl_wireguard.Error.{ok}
use nl_wireguard.Base.Text.{contains_nul}
use nl_wireguard.Flags.{WireguardParsedPeerFlags, build_peer_flags, peer_flag_bits}
use nl_wireguard.Peer.{
  build, build_holding, key_attribute, allowed_ips_attribute, attributes_after_keys,
  attributes_after_ips,
}
use nl_wireguard.Peer.Accepted.{IsKey, key_accepted}
use nl_wireguard.Device
use nl_wireguard.Device.{WireguardParsed, device_attributes, iface_attribute}
use nl_wireguard.Split.Parts.{removes}
use nl_wireguard.Split.Peers.{peer_chunks_single}
use nl_wireguard.Messages.Groups.{all_chunks, groups_of, pack}
use nl_wireguard.Messages.Loops.{build_messages_groups}
use nl_wireguard.UnitTests.Peers.{peer_public_key}
use nl_wireguard.UnitTests.Large.{
  device_private_key, large_config, removed_peer, build_messages_does_not_re_create_removed_peer,
}
use nl_wireguard.UnitTests.Large.Sizes.{host_ips, hosts_validate, large_device}
use nl_wireguard.UnitTests.Large.Parts.{name}

module _ ⦃c : Crates⦄ (flags : FlagLaws c) (peer_key : IsKey peer_public_key)
    (device_key : IsKey device_private_key) (count : ℕ) where
  abbrev public : WireguardPeerAttribute
  public = WireguardPeerAttribute.public_key peer_key.bytes

  abbrev removal_flags : WireguardPeerAttribute
  removal_flags =
      WireguardPeerAttribute.flags (build_peer_flags (WireguardParsedPeerFlags.remove_me ∷ []))

  removed_builds :
      build (removed_peer count)
      ≡ ok (public ∷ WireguardPeerAttribute.allowed_ips (host_ips count) ∷ removal_flags ∷ [])
  unfolding build build_holding key_attribute allowed_ips_attribute attributes_after_keys
      attributes_after_ips
  removed_builds =
      rw (key_accepted "peer.public_key" peer_public_key peer_key, hosts_validate peer_key count)
        refl

  removed-removes : removes (removed_peer count).flags ≡ true
  unfolding build_peer_flags peer_flag_bits
  removed-removes = flags.contains_remove_me [] []

  removed_chunks : all_chunks (removed_peer count ∷ []) ≡ ok ((public ∷ removal_flags ∷ []) ∷ [])
  unfolding all_chunks
  removed_chunks =
      rw (peer_chunks_single (removed_peer count) _ removed_builds (inr removed-removes)) refl

  abbrev config : WireguardParsed
  config = record (large_config count) { peers = some (removed_peer count ∷ []) }

  iface_built : iface_attribute config ≡ ok name
  unfolding iface_attribute contains_nul
  iface_built = refl

  front_built : device_attributes config ≡ ok (large_device device_key.bytes)
  unfolding device_attributes iface_attribute Device.key_attribute contains_nul
  front_built = rw (key_accepted "private_key" device_private_key device_key) refl

  build_messages_does_not_re_create_passes :
      build_messages_does_not_re_create_removed_peer count ≡ true
  unfolding groups_of pack
  build_messages_does_not_re_create_passes =
      rw
        (build_messages_groups config WireguardCmd.set_device (large_device device_key.bytes) name
          (removed_peer count ∷ []) refl front_built iface_built
          ((public ∷ removal_flags ∷ []) ∷ []) removed_chunks)
        refl
