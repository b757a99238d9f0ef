-- ===== src/Crates.antt =====
-- What src/*.rs calls of other crates and of the system, as a parameter: base64, the lengths and
-- constants of the packet crates, bit flags, and the renderings that error messages embed. The
-- laws that some theorems assume are records of their own, one for each crate.
use nl_wireguard.Base.{ℕ, ◌+◌, String, List, ◌∷◌, ◌++◌, ◌≡◌, Bool, true, sum_by}
use nl_wireguard.Base.Int.{ℤ}
use nl_wireguard.Packet.{
  Bytes, IpAddr, WireguardAllowedIp, WireguardPeerAttribute, WireguardPeer, WireguardMessage,
  NetlinkHeader, NetlinkMessage,
}

-- The outcome of a base64 decoder, with the rendering of its error.
pub data Decoded : Type 0 where
  decoded : Bytes → Decoded
  invalid : String → Decoded

-- The two operations on a set of bit flags that go through the flags one by one.
pub record Bitflags : Type 0 where
  pub iter : ℕ → List ℕ
  pub collect : List ℕ → ℕ

pub record Crates : Type 0 where
  -- base64: `BASE64_STANDARD`
  pub encode : Bytes → String
  pub decode : String → Decoded
  -- netlink-packet-core
  pub nla_header_size : ℕ
  pub nla_alignto : ℕ
  pub nlm_f_request : ℕ
  pub nlm_f_ack : ℕ
  pub nlm_f_dump : ℕ
  pub default_header : NetlinkHeader
  -- netlink-packet-generic: the header of `GenlMessage::from_payload`
  pub genl_header : WireguardMessage → Bytes
  -- netlink-packet-wireguard
  pub wg_key_len : ℕ
  pub ip_buffer_len : WireguardAllowedIp → ℕ
  pub attr_buffer_len : WireguardPeerAttribute → ℕ
  pub peer_buffer_len : WireguardPeer → ℕ
  pub device_flags : Bitflags
  pub device_replace_peers : ℕ
  pub peer_flags : Bitflags
  pub peer_contains : ℕ → ℕ → Bool
  pub peer_remove_me : ℕ
  pub peer_replace_allowed_ips : ℕ
  pub peer_update_only : ℕ
  pub ip_flags : Bitflags
  pub ip_remove_me : ℕ
  -- `Display` and `Debug` of foreign values
  pub show_ip : IpAddr → String
  pub show_os_error : ℤ → String
  pub debug_netlink_message : NetlinkMessage → String

-- base64 keeps the bytes, and accepts only the text that it would write itself.
pub record Base64Laws (c : Crates) : Type 0 where
  pub decode-encode : (bytes : Bytes) → c.decode (c.encode bytes) ≡ decoded bytes
  pub encode-decode : (s : String) (bytes : Bytes) → c.decode s ≡ decoded bytes → c.encode bytes ≡ s

-- The length of a peer is its header and its attributes, and the length of its allowed IPs is a
-- header and the addresses.
pub record LengthLaws (c : Crates) : Type 0 where
  pub peer_length :
      (peer : WireguardPeer)
      → c.peer_buffer_len peer ≡ c.nla_header_size + sum_by c.attr_buffer_len peer
  pub ips_length :
      (ips : List WireguardAllowedIp)
      → c.attr_buffer_len (WireguardPeerAttribute.allowed_ips ips)
        ≡ c.nla_header_size + sum_by c.ip_buffer_len ips

-- Keys are arrays, so their attributes have one length, and the header in front of a message
-- depends on its command.
pub record KeyLaws (c : Crates) : Type 0 where
  pub preshared_key_length :
      (key other : Bytes)
      → c.attr_buffer_len (WireguardPeerAttribute.preshared_key key)
        ≡ c.attr_buffer_len (WireguardPeerAttribute.preshared_key other)
  pub genl_header_of_cmd :
      (m n : WireguardMessage) → m.cmd ≡ n.cmd → c.genl_header m ≡ c.genl_header n

-- The flags that iteration yields make up the set again.
abbrev pub KeepsFlags : Bitflags → Type 0
KeepsFlags b = (bits : ℕ) → b.collect (b.iter bits) ≡ bits

pub record FlagLaws (c : Crates) : Type 0 where
  pub device_keeps : KeepsFlags c.device_flags
  pub peer_keeps : KeepsFlags c.peer_flags
  pub ip_keeps : KeepsFlags c.ip_flags
  -- a union contains each flag that was put in
  pub contains_remove_me :
      (before after : List ℕ)
      → c.peer_contains (c.peer_flags.collect (before ++ c.peer_remove_me ∷ after)) c.peer_remove_me
        ≡ true
