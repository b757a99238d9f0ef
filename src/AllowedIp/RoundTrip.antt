-- ===== src/AllowedIp/RoundTrip.antt =====
-- Parsing what was built, and which prefixes are valid.
use mathlib.Core.Option
use nl_wireguard.Base.{◌≡◌, ◌↔◌, ◌≤◌, Option, List, arith}
use nl_wireguard.Crates.{Crates}
use nl_wireguard.Error.{ok}
use nl_wireguard.Flags.{WireguardParsedAllowedIpFlags, parse_ip_flags, build_ip_flags}
use nl_wireguard.AllowedIp.{
  WireguardIpAddress, validate, try_from, ip_attributes, max_prefix_length,
}

module _ ⦃c : Crates⦄ where
  -- Flags in the order in which the bit set lists them.
  abbrev pub normal_flags :
      Option (List WireguardParsedAllowedIpFlags) → Option (List WireguardParsedAllowedIpFlags)
  normal_flags = Option.map (λ flags. parse_ip_flags (build_ip_flags flags))

  abbrev pub normal_ip : WireguardIpAddress → WireguardIpAddress
  normal_ip ip = record ip { flags = normal_flags ip.flags }

  pub try_from-ip_attributes :
      (ip : WireguardIpAddress) → try_from (ip_attributes ip) ≡ ok (normal_ip ip)
  unfolding try_from ip_attributes
  try_from-ip_attributes ip = ground arith

  pub validate_iff :
      (ip : WireguardIpAddress)
      → (validate ip ≡ ok tt) ↔ (ip.prefix_length ≤ max_prefix_length ip.ip_addr)
  unfolding validate
  validate_iff ip = (λ h. ground arith, λ h. ground arith)
