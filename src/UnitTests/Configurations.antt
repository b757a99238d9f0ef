-- ===== src/UnitTests/Configurations.antt =====
-- The unit tests of src/parsed.rs on interfaces and on coalesced replies.
use mathlib.Core.List.{foldl}
use mathlib.Core.Option
use nl_wireguard.Base.{
  ℕ, ◌+◌, leb, ◌≡◌, refl, Bool, true, false, ◌&&◌, String, Option, some, none, List, [], ◌∷◌,
  length, ◌==◌, if◌then◌else◌,
}
use nl_wireguard.Base.Text.{len, str_eq, eq_iff, contains_nul}
use nl_wireguard.Packet.{
  IpAddr, is_ipv4, WireguardCmd, WireguardAddressFamily, WireguardAllowedIpAttr, WireguardAllowedIp,
  WireguardPeerAttribute, WireguardPeer, WireguardAttribute, WireguardMessage,
}
use nl_wireguard.Crates.{Crates}
use nl_wireguard.Error.{ErrorKind, Result, ok, err, error_new}
use nl_wireguard.AllowedIp.{try_from, add_part, whole}
use nl_wireguard.Peer.{WireguardPeerParsed, parse_peer, parse_allowed_ips, merge_continuation}
use nl_wireguard.Peer
use nl_wireguard.Device
use nl_wireguard.Device.{
  WireguardParsed, default_device, ifnamsiz, iface_attribute, device_attributes, leading_attributes,
  build_message, parse_messages, extend_message, extend_attribute, push_parsed, push_peer, same_key,
}
use nl_wireguard.Messages.{build, single_message, build_messages, finish, add_peers}
use nl_wireguard.UnitTests.{is_ok, fails_with, same_bool, filled}

abbrev found : Bool × Bool → WireguardAttribute → Bool × Bool
found (has_name, has_index) (WireguardAttribute.if_name v) = (true, has_index)
found (has_name, has_index) (WireguardAttribute.if_index v) = (has_name, true)
found (has_name, has_index) _ = (has_name, has_index)

-- Whether the message names its interface, and whether it gives the index.
abbrev pub iface_attributes : WireguardMessage → Bool × Bool
iface_attributes msg = foldl found (false, false) msg.attributes

-- The message is built, with these interface attributes.
abbrev builds_with : Bool × Bool → Option (Result WireguardMessage) → Bool
builds_with (name, index) none = false
builds_with (name, index) (some (err e)) = false
builds_with (name, index) (some (ok msg)) =
    same_bool (iface_attributes msg).0 name && same_bool (iface_attributes msg).1 index

-- An error of this kind is returned.
abbrev pub rejected_with : ErrorKind → Option (Result WireguardMessage) → Bool
rejected_with kind none = false
rejected_with kind (some r) = fails_with kind r

abbrev accepted : Option (Result WireguardMessage) → Bool
accepted none = false
accepted (some r) = is_ok r

-- The address stands for the text that is parsed into it.
abbrev allowed_ip : IpAddr → WireguardAllowedIp
allowed_ip ip =
    WireguardAllowedIpAttr.cidr 32
    ∷ WireguardAllowedIpAttr.family
        (if is_ipv4 ip then WireguardAddressFamily.ipv4 else WireguardAddressFamily.ipv6)
    ∷ WireguardAllowedIpAttr.ip_addr ip
    ∷ []

abbrev reply_with_peer : WireguardPeer → WireguardMessage
reply_with_peer peer = record {
  cmd = WireguardCmd.get_device;
  attributes = WireguardAttribute.peers (peer ∷ []) ∷ [];
}

-- `10.213.0.n`
abbrev address : ℕ → WireguardAllowedIp
address n = allowed_ip (IpAddr.v4 (181731328 + n))

-- A peer whose key is filled with this byte, and its allowed IPs.
abbrev continuation : ℕ → List WireguardAllowedIp → WireguardMessage
continuation byte ips = reply_with_peer (
    WireguardPeerAttribute.public_key (filled byte 32)
    ∷ WireguardPeerAttribute.allowed_ips ips
    ∷ [])

abbrev first_reply : WireguardMessage
first_reply = record {
  cmd = WireguardCmd.get_device;
  attributes =
      WireguardAttribute.if_name "wg0"
      ∷ WireguardAttribute.if_index 3
      ∷ WireguardAttribute.peers (
          (WireguardPeerAttribute.public_key (filled 1 32)
            ∷ WireguardPeerAttribute.persistent_keepalive 25
            ∷ WireguardPeerAttribute.rx_bytes 1024
            ∷ WireguardPeerAttribute.allowed_ips (address 1 ∷ address 2 ∷ [])
            ∷ [])
          ∷ [])
      ∷ [];
}

abbrev same_number : Option ℕ → ℕ → Bool
same_number none n = false
same_number (some m) n = m == n

abbrev same_text : Option String → String → Bool
same_text none t = false
same_text (some s) t = str_eq s t

abbrev count_of {ℓ} : {A : Type ℓ} → Option (List A) → Option ℕ
count_of = Option.map length

-- The one peer that the three replies make together.
abbrev is_coalesced : Option (List WireguardPeerParsed) → Bool
is_coalesced (some (peer ∷ [])) =
    same_number (count_of peer.allowed_ips) 4
    && (same_number peer.persistent_keepalive 25 && same_number peer.rx_bytes 1024)
is_coalesced _ = false

module _ ⦃c : Crates⦄ where
  abbrev build_uses_iface_name_when_both_are_defined : Bool
  build_uses_iface_name_when_both_are_defined =
      builds_with (true, false)
        (build (record default_device { iface_name = some "wg0"; iface_index = some 3 })
          WireguardCmd.get_device)

  build_uses_iface_name_passes : build_uses_iface_name_when_both_are_defined ≡ true
  unfolding build single_message build_messages finish add_peers build_message leading_attributes
      device_attributes iface_attribute Device.key_attribute contains_nul
  build_uses_iface_name_passes = refl

  abbrev build_accepts_iface_index_only : Bool
  build_accepts_iface_index_only =
      builds_with (false, true)
        (build (record default_device { iface_index = some 3 }) WireguardCmd.get_device)

  build_accepts_iface_index_only_passes : build_accepts_iface_index_only ≡ true
  unfolding build single_message build_messages finish add_peers build_message leading_attributes
      device_attributes iface_attribute Device.key_attribute
  build_accepts_iface_index_only_passes = refl

  abbrev build_requires_an_interface : Bool
  build_requires_an_interface =
      rejected_with ErrorKind.invalid_input (build default_device WireguardCmd.get_device)

  build_requires_an_interface_passes : build_requires_an_interface ≡ true
  unfolding build single_message build_messages finish add_peers build_message leading_attributes
      device_attributes iface_attribute error_new
  build_requires_an_interface_passes = refl

  abbrev named_device : String → WireguardParsed
  named_device name = record default_device { iface_name = some name }

  -- The longest name, one that is too long, and one that holds a NUL, which is `nul`.
  abbrev iface_name_is_limited_to_ifnamsiz : String → Bool
  iface_name_is_limited_to_ifnamsiz nul =
      accepted (build (named_device "aaaaaaaaaaaaaaa") WireguardCmd.get_device)
      && (rejected_with ErrorKind.invalid_input
            (build (named_device "aaaaaaaaaaaaaaaa") WireguardCmd.get_device)
          && rejected_with ErrorKind.invalid_input
              (build (named_device nul) WireguardCmd.get_device))

  iface_name_is_limited_passes :
      (nul : String)
      → leb ifnamsiz (len nul) ≡ false
      → contains_nul nul ≡ true
      → iface_name_is_limited_to_ifnamsiz nul ≡ true
  unfolding build single_message build_messages finish add_peers build_message leading_attributes
      device_attributes iface_attribute Device.key_attribute contains_nul error_new
  iface_name_is_limited_passes nul short holds_nul = rw short (rw holds_nul refl)

  abbrev get_device_replies_are_coalesced : Bool
  get_device_replies_are_coalesced =
      let parsed =
        parse_messages
          (first_reply ∷ continuation 1 (address 3 ∷ []) ∷ continuation 1 (address 4 ∷ []) ∷ []) in
      same_text parsed.iface_name "wg0"
      && (same_number parsed.iface_index 3 && is_coalesced parsed.peers)

  same_key_refl : (key : String) → str_eq key key ≡ true
  same_key_refl key = (eq_iff key key).1 refl

  get_device_replies_are_coalesced_passes : get_device_replies_are_coalesced ≡ true
  unfolding parse_messages extend_message extend_attribute push_parsed push_peer same_key parse_peer
      Peer.add_attribute parse_allowed_ips try_from add_part whole merge_continuation
  get_device_replies_are_coalesced_passes =
      rw (same_key_refl (c.encode (filled 1 32))) (rw (same_key_refl (c.encode (filled 1 32))) refl)

  abbrev peers_with_different_public_keys_are_not_coalesced : Bool
  peers_with_different_public_keys_are_not_coalesced =
      same_number
        (count_of
          (parse_messages
            (continuation 1 (address 1 ∷ []) ∷ continuation 2 (address 2 ∷ []) ∷ [])).peers)
        2

  peers_with_different_public_keys_pass :
      str_eq (c.encode (filled 1 32)) (c.encode (filled 2 32)) ≡ false
      → peers_with_different_public_keys_are_not_coalesced ≡ true
  unfolding parse_messages extend_message extend_attribute push_parsed push_peer same_key parse_peer
      Peer.add_attribute
  peers_with_different_public_keys_pass different = rw different refl
