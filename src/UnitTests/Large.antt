-- ===== src/UnitTests/Large.antt =====
-- The unit tests of src/parsed.rs on a peer with many allowed IPs, for any number of them.
mod Sizes
mod Parts
mod Passes
mod Removed
use nl_wireguard.Base.{
  ℕ, zero, suc, ◌+◌, ◌*◌, ◌/◌, ◌%◌, Bool, true, false, ◌&&◌, ◌||◌, all, concat_map, drop, String,
  Option, some, none, List, [], ◌∷◌, map, length, sum_by, ◌==◌, ltb, leb,
}
use nl_wireguard.Packet.{
  IpAddr, WireguardCmd, WireguardPeerAttribute, WireguardPeer, WireguardAttribute, WireguardMessage,
}
use nl_wireguard.Crates.{Crates}
use nl_wireguard.Error.{ErrorKind, Result, ok, err}
use nl_wireguard.AllowedIp.{WireguardIpAddress}
use nl_wireguard.Flags.{WireguardParsedDeviceFlags, WireguardParsedPeerFlags}
use nl_wireguard.Peer.{WireguardPeerParsed, default_peer}
use nl_wireguard.Device.{WireguardParsed, default_device}
use nl_wireguard.Messages.{build_messages, build}
use nl_wireguard.UnitTests.{same_bool}
use nl_wireguard.UnitTests.Peers.{peer_public_key}
use nl_wireguard.UnitTests.Configurations.{iface_attributes, rejected_with}

abbrev pub device_private_key : String
device_private_key = "6LTHiAM4vgKEgi5vm30f/EBIEWFDmySkTc9EWCcIqEs="

-- `10.213.(i / 256).(i % 256)`, in a network of its own.
abbrev pub host : ℕ → WireguardIpAddress
host i = record {
  ip_addr = IpAddr.v4 (181731328 + i / 256 % 256 * 256 + i % 256);
  prefix_length = 32;
  flags = none;
}

-- `n` numbers from `start` on
abbrev pub counted : ℕ → ℕ → List ℕ
counted start zero = []
counted start (suc n) = start ∷ counted (suc start) n

unfoldable pub hosts : ℕ → List WireguardIpAddress
hosts count = map host (counted 0 count)

abbrev pub peer_with_allowed_ips : ℕ → WireguardPeerParsed
peer_with_allowed_ips count = record default_peer {
  public_key = some peer_public_key;
  allowed_ips = some (hosts count);
}

abbrev pub large_config : ℕ → WireguardParsed
large_config count = record default_device {
  iface_name = some "wg0";
  private_key = some device_private_key;
  flags = some (WireguardParsedDeviceFlags.replace_peers ∷ []);
  peers = some (peer_with_allowed_ips count ∷ []);
}

abbrev pub peers_in : WireguardAttribute → List WireguardPeer
peers_in (WireguardAttribute.peers peers) = peers
peers_in attr = []

abbrev pub peers_of : WireguardMessage → List WireguardPeer
peers_of msg = concat_map peers_in msg.attributes

abbrev pub ip_count : WireguardPeerAttribute → ℕ
ip_count (WireguardPeerAttribute.allowed_ips ips) = length ips
ip_count attr = 0

abbrev pub allowed_ip_count : WireguardMessage → ℕ
allowed_ip_count msg = sum_by (sum_by ip_count) (peers_of msg)

abbrev pub any : {A : Type 0} → (A → Bool) → List A → Bool
any test [] = false
any test (x ∷ xs) = test x || any test xs

abbrev pub is_device_property : WireguardAttribute → Bool
is_device_property (WireguardAttribute.private_key key) = true
is_device_property (WireguardAttribute.flags flags) = true
is_device_property attr = false

-- The round of the loop over the messages for the one at this index; `buffer_len` is the length
-- of an attribute.
abbrev pub is_part : (WireguardAttribute → ℕ) → ℕ → WireguardMessage → Bool
is_part buffer_len index msg =
    all (λ attr. leb (buffer_len attr) 65535) msg.attributes
    && (same_bool (iface_attributes msg).0 true
        && (same_bool (iface_attributes msg).1 false
            && same_bool (any is_device_property msg.attributes) (index == 0)))

abbrev pub are_parts : (WireguardAttribute → ℕ) → ℕ → List WireguardMessage → Bool
are_parts buffer_len index [] = true
are_parts buffer_len index (msg ∷ messages) =
    is_part buffer_len index msg && are_parts buffer_len (suc index) messages

abbrev pub is_split : (WireguardAttribute → ℕ) → ℕ → Result (List WireguardMessage) → Bool
is_split buffer_len count (err e) = false
is_split buffer_len count (ok messages) =
    ltb 1 (length messages)
    && (are_parts buffer_len 0 messages && sum_by allowed_ip_count messages == count)

abbrev pub is_key_or_ips : WireguardPeerAttribute → Bool
is_key_or_ips (WireguardPeerAttribute.public_key key) = true
is_key_or_ips (WireguardPeerAttribute.allowed_ips ips) = true
is_key_or_ips attr = false

abbrev pub repeats_key_and_ips : Result (List WireguardMessage) → Bool
repeats_key_and_ips (err e) = false
repeats_key_and_ips (ok messages) =
    let peers = concat_map peers_of messages in
    ltb 1 (length peers) && all (all is_key_or_ips) (drop 1 peers)

abbrev pub is_one_without_ips : Result (List WireguardMessage) → Bool
is_one_without_ips (ok (msg ∷ [])) = allowed_ip_count msg == 0
is_one_without_ips r = false

abbrev pub removed_peer : ℕ → WireguardPeerParsed
removed_peer count = record (peer_with_allowed_ips count) {
  flags = some (WireguardParsedPeerFlags.remove_me ∷ []);
}

module _ ⦃c : Crates⦄ where
  -- The assertions on the messages; that `RawGenlMessage` can be made of each is not among them.
  abbrev pub build_messages_splits_large_peer : (WireguardAttribute → ℕ) → ℕ → Bool
  build_messages_splits_large_peer buffer_len count =
      is_split buffer_len count (build_messages (large_config count) WireguardCmd.set_device)

  abbrev pub build_messages_only_repeats_public_key_and_allowed_ips : ℕ → Bool
  build_messages_only_repeats_public_key_and_allowed_ips count =
      repeats_key_and_ips (build_messages (large_config count) WireguardCmd.set_device)

  abbrev pub build_messages_does_not_re_create_removed_peer : ℕ → Bool
  build_messages_does_not_re_create_removed_peer count = is_one_without_ips (
      build_messages (record (large_config count) { peers = some (removed_peer count ∷ []) })
        WireguardCmd.set_device)

  abbrev pub build_rejects_configuration_needing_several_messages : ℕ → Bool
  build_rejects_configuration_needing_several_messages count =
      rejected_with ErrorKind.invalid_input (build (large_config count) WireguardCmd.set_device)
