-- ===== src/Flags.antt =====
-- The flag enums of src/parsed.rs and src/peer_parsed.rs, and their conversions to and from the
-- bit sets of the packet crate.
pub mod Lossless
use nl_wireguard.Base.{ℕ, List, map, if◌then◌else◌, ◌==◌}
use nl_wireguard.Crates.{Crates}

pub data WireguardParsedDeviceFlags : Type 0 where
  replace_peers : WireguardParsedDeviceFlags
  other : ℕ → WireguardParsedDeviceFlags

pub data WireguardParsedPeerFlags : Type 0 where
  remove_me replace_allowed_ips update_only : WireguardParsedPeerFlags
  other : ℕ → WireguardParsedPeerFlags

pub data WireguardParsedAllowedIpFlags : Type 0 where
  remove_me : WireguardParsedAllowedIpFlags
  other : ℕ → WireguardParsedAllowedIpFlags

module _ ⦃c : Crates⦄ where
  unfoldable pub device_flag_bits : WireguardParsedDeviceFlags → ℕ
  device_flag_bits WireguardParsedDeviceFlags.replace_peers = c.device_replace_peers
  device_flag_bits (WireguardParsedDeviceFlags.other bits) = bits

  unfoldable pub device_flag : ℕ → WireguardParsedDeviceFlags
  device_flag bits =
      if bits == c.device_replace_peers
      then WireguardParsedDeviceFlags.replace_peers
      else WireguardParsedDeviceFlags.other bits

  unfoldable pub peer_flag_bits : WireguardParsedPeerFlags → ℕ
  peer_flag_bits WireguardParsedPeerFlags.remove_me = c.peer_remove_me
  peer_flag_bits WireguardParsedPeerFlags.replace_allowed_ips = c.peer_replace_allowed_ips
  peer_flag_bits WireguardParsedPeerFlags.update_only = c.peer_update_only
  peer_flag_bits (WireguardParsedPeerFlags.other bits) = bits

  unfoldable pub peer_flag : ℕ → WireguardParsedPeerFlags
  peer_flag bits =
      if bits == c.peer_remove_me
      then WireguardParsedPeerFlags.remove_me
      else if bits == c.peer_replace_allowed_ips
      then WireguardParsedPeerFlags.replace_allowed_ips
      else if bits == c.peer_update_only
      then WireguardParsedPeerFlags.update_only
      else WireguardParsedPeerFlags.other bits

  unfoldable pub ip_flag_bits : WireguardParsedAllowedIpFlags → ℕ
  ip_flag_bits WireguardParsedAllowedIpFlags.remove_me = c.ip_remove_me
  ip_flag_bits (WireguardParsedAllowedIpFlags.other bits) = bits

  unfoldable pub ip_flag : ℕ → WireguardParsedAllowedIpFlags
  ip_flag bits =
      if bits == c.ip_remove_me
      then WireguardParsedAllowedIpFlags.remove_me
      else WireguardParsedAllowedIpFlags.other bits

  -- The loops over the flags of a bit set, and the collections into one.
  unfoldable pub parse_device_flags : ℕ → List WireguardParsedDeviceFlags
  parse_device_flags bits = map device_flag (c.device_flags.iter bits)

  unfoldable pub build_device_flags : List WireguardParsedDeviceFlags → ℕ
  build_device_flags flags = c.device_flags.collect (map device_flag_bits flags)

  unfoldable pub parse_peer_flags : ℕ → List WireguardParsedPeerFlags
  parse_peer_flags bits = map peer_flag (c.peer_flags.iter bits)

  unfoldable pub build_peer_flags : List WireguardParsedPeerFlags → ℕ
  build_peer_flags flags = c.peer_flags.collect (map peer_flag_bits flags)

  unfoldable pub parse_ip_flags : ℕ → List WireguardParsedAllowedIpFlags
  parse_ip_flags bits = map ip_flag (c.ip_flags.iter bits)

  unfoldable pub build_ip_flags : List WireguardParsedAllowedIpFlags → ℕ
  build_ip_flags flags = c.ip_flags.collect (map ip_flag_bits flags)
