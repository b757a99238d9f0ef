-- ===== src/AllowedIp.antt =====
-- `WireguardIpAddress` of src/peer_parsed.rs.
pub mod RoundTrip
use mathlib.Core.List.{foldl}
use nl_wireguard.Base.{ℕ, Option, none, some, List, [], ◌∷◌, ◌++◌, if◌then◌else◌, ltb, list_of}
use mathlib.Core.Option
use nl_wireguard.Base.Text.{◌+++◌, show}
use nl_wireguard.Packet.{
  IpAddr, is_ipv4, WireguardAddressFamily, WireguardAllowedIpAttr, WireguardAllowedIp,
}
use nl_wireguard.Crates.{Crates}
use nl_wireguard.Error.{ErrorKind, Result, ok, err, error_new}
use nl_wireguard.Flags.{WireguardParsedAllowedIpFlags, parse_ip_flags, build_ip_flags}

pub record WireguardIpAddress : Type 0 where
  pub prefix_length : ℕ
  pub ip_addr : IpAddr
  pub flags : Option (List WireguardParsedAllowedIpFlags)

-- The local variables of `try_from`.
pub record IpParts : Type 0 where
  pub ip_addr : Option IpAddr
  pub prefix_length : Option ℕ
  pub flags : Option (List WireguardParsedAllowedIpFlags)

abbrev pub no_parts : IpParts
no_parts = record { ip_addr = none; prefix_length = none; flags = none }

abbrev pub max_prefix_length : IpAddr → ℕ
max_prefix_length ip = if is_ipv4 ip then 32 else 128

module _ ⦃c : Crates⦄ where
  unfoldable pub validate : WireguardIpAddress → Result (Unit {0})
  validate ip =
      let max = max_prefix_length ip.ip_addr in
      if ltb max ip.prefix_length
      then err (
          error_new ErrorKind.invalid_input
            ("`prefix_length` "
              +++ show ip.prefix_length
              +++ " is too large for "
              +++ c.show_ip ip.ip_addr
              +++ ", expecting at most "
              +++ show max)
            none)
      else ok tt

  -- One round of the loop of `try_from`.
  unfoldable pub add_part : IpParts → WireguardAllowedIpAttr → IpParts
  add_part parts (WireguardAllowedIpAttr.ip_addr v) = record parts { ip_addr = some v }
  add_part parts (WireguardAllowedIpAttr.cidr v) = record parts { prefix_length = some v }
  add_part parts (WireguardAllowedIpAttr.family v) = parts
  add_part parts (WireguardAllowedIpAttr.flags flag_bits) = record parts {
    flags = some (parse_ip_flags flag_bits);
  }
  add_part parts (WireguardAllowedIpAttr.other kind value) = parts

  unfoldable pub whole : IpParts → Result WireguardIpAddress
  whole parts = elim parts.ip_addr [
    | some ip ↦ elim parts.prefix_length [
      | some len ↦ ok (record { ip_addr = ip; prefix_length = len; flags = parts.flags })
      | none ↦ err (
          error_new ErrorKind.decode_error
            "WireguardAllowedIp does not have WireguardAllowedIpAttr::Cidr defined" none)
    ]
    | none ↦ err (
        error_new ErrorKind.decode_error
          "WireguardAllowedIp does not have WireguardAllowedIpAttr::IpAddr defined" none)
  ]

  unfoldable pub try_from : WireguardAllowedIp → Result WireguardIpAddress
  unfolding add_part whole
  try_from attrs = whole (foldl add_part no_parts attrs)

  -- `Vec::<WireguardAllowedIpAttr>::from(ip)`
  unfoldable pub ip_attributes : WireguardIpAddress → WireguardAllowedIp
  ip_attributes ip =
      WireguardAllowedIpAttr.cidr ip.prefix_length
      ∷ (if is_ipv4 ip.ip_addr
          then WireguardAllowedIpAttr.family WireguardAddressFamily.ipv4
          else WireguardAllowedIpAttr.family WireguardAddressFamily.ipv6)
      ∷ WireguardAllowedIpAttr.ip_addr ip.ip_addr
      ∷ list_of (Option.map (λ flags. WireguardAllowedIpAttr.flags (build_ip_flags flags)) ip.flags)
