-- ===== src/Samples.antt =====
-- A concrete stand-in for the other crates, at which the assumed laws hold: the value at which
-- the theorems are applied in the tests.
pub mod Encoding
pub mod FlagSets
pub mod Keyed
pub mod Table
use Encoding.{encode, decode, decode-encode, encode-decode}
use FlagSets.{join, collect, collect_one, collect_odd}
use nl_wireguard.Base.{
  ℕ, ◌+◌, ◌%◌, ◌≡◌, refl, String, List, [], ◌∷◌, none, ◌==◌, sum_by, length, arith, true, ◌++◌,
}
use nl_wireguard.Packet.{
  Bytes, WireguardAllowedIp, WireguardPeerAttribute, WireguardPeer, WireguardMessage,
  NetlinkMessage,
}
use nl_wireguard.Crates.{Crates, Bitflags, Base64Laws, LengthLaws, KeyLaws, FlagLaws, Decoded}

abbrev pub ip_length : WireguardAllowedIp → ℕ
ip_length attrs = 4 + sum_by (λ _. 8) attrs

abbrev pub attr_length : WireguardPeerAttribute → ℕ
attr_length (WireguardPeerAttribute.allowed_ips ips) = 4 + sum_by ip_length ips
attr_length _ = 36

abbrev pub peer_length : WireguardPeer → ℕ
peer_length attrs = 4 + sum_by attr_length attrs

abbrev pub one_flag : Bitflags
one_flag = record { iter = λ bits. bits ∷ []; collect = collect }

instance abbrev pub sample : Crates
sample = record {
  encode = encode;
  decode = decode;
  nla_header_size = 4;
  nla_alignto = 65396;
  nlm_f_request = 1;
  nlm_f_ack = 4;
  nlm_f_dump = 768;
  default_header = record { flags = 0; rest = [] };
  genl_header = λ _. [];
  wg_key_len = 32;
  ip_buffer_len = ip_length;
  attr_buffer_len = attr_length;
  peer_buffer_len = peer_length;
  device_flags = one_flag;
  device_replace_peers = 1;
  peer_flags = one_flag;
  peer_contains = λ bits flag. bits % 2 == 1;
  peer_remove_me = 1;
  peer_replace_allowed_ips = 2;
  peer_update_only = 4;
  ip_flags = one_flag;
  ip_remove_me = 1;
  show_ip = λ _. "address";
  show_os_error = λ _. "error";
  debug_netlink_message = λ _. "message";
}

pub sample-Base64Laws : Base64Laws sample
sample-Base64Laws = record { decode-encode = decode-encode; encode-decode = encode-decode }

pub sample-LengthLaws : LengthLaws sample
sample-LengthLaws = record { peer_length = λ peer. refl; ips_length = λ ips. refl }

pub sample-FlagLaws : FlagLaws sample
sample-FlagLaws = record {
  device_keeps = collect_one;
  peer_keeps = collect_one;
  ip_keeps = collect_one;
  contains_remove_me = collect_odd;
}

pub sample-KeyLaws : KeyLaws sample
sample-KeyLaws = record {
  preshared_key_length = λ key other. refl;
  genl_header_of_cmd = λ m n same. refl;
}
