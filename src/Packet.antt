-- ===== src/Packet.antt =====
-- The messages of the packet crates (netlink-packet-wireguard, netlink-packet-generic and
-- netlink-packet-core) as far as src/*.rs names them: one constructor for each variant that the
-- program matches on or builds, and `other` for the variants behind its `_` arms. A newtype over
-- a vector is the list that it holds, a set of bit flags is its bits, an array is its bytes.
-- The types of std::net and std::time stand here too.
use nl_wireguard.Base.{ℕ, ◌+◌, ◌/◌, ◌%◌, String, List, Option, Bool, true, false}
use nl_wireguard.Base.Int.{ℤ}

abbrev pub Bytes : Type 0
Bytes = List ℕ

-- An address is its 32 or 128 bits.
pub data IpAddr : Type 0 where
  v4 : ℕ → IpAddr
  v6 : ℕ → IpAddr

abbrev pub is_ipv4 : IpAddr → Bool
is_ipv4 (IpAddr.v4 bits) = true
is_ipv4 (IpAddr.v6 bits) = false

-- Address and port; an IPv6 endpoint has flow information and a scope too.
pub data SocketAddr : Type 0 where
  v4 : (ip port : ℕ) → SocketAddr
  v6 : (ip port flow_info scope_id : ℕ) → SocketAddr

pub record Duration : Type 0 where
  pub as_secs : ℕ
  pub subsec_nanos : ℕ

-- `Duration::new`: nanoseconds past one second are carried over. It panics where the carry
-- passes 64 bits, which this function does not show.
abbrev pub duration_new : ℕ → ℕ → Duration
duration_new secs nanos = record {
  as_secs = secs + nanos / 1000000000;
  subsec_nanos = nanos % 1000000000;
}

pub data WireguardCmd : Type 0 where
  get_device set_device : WireguardCmd

pub data WireguardAddressFamily : Type 0 where
  ipv4 ipv6 : WireguardAddressFamily

pub data WireguardAllowedIpAttr : Type 0 where
  ip_addr : IpAddr → WireguardAllowedIpAttr
  cidr : ℕ → WireguardAllowedIpAttr
  family : WireguardAddressFamily → WireguardAllowedIpAttr
  flags : ℕ → WireguardAllowedIpAttr
  other : (kind : ℕ) (value : Bytes) → WireguardAllowedIpAttr

abbrev pub WireguardAllowedIp : Type 0
WireguardAllowedIp = List WireguardAllowedIpAttr

pub record WireguardTimeSpec : Type 0 where
  pub seconds : ℤ
  pub nano_seconds : ℤ

pub data WireguardPeerAttribute : Type 0 where
  public_key : Bytes → WireguardPeerAttribute
  preshared_key : Bytes → WireguardPeerAttribute
  endpoint : SocketAddr → WireguardPeerAttribute
  persistent_keepalive : ℕ → WireguardPeerAttribute
  last_handshake : WireguardTimeSpec → WireguardPeerAttribute
  rx_bytes : ℕ → WireguardPeerAttribute
  tx_bytes : ℕ → WireguardPeerAttribute
  allowed_ips : List WireguardAllowedIp → WireguardPeerAttribute
  protocol_version : ℕ → WireguardPeerAttribute
  flags : ℕ → WireguardPeerAttribute
  other : (kind : ℕ) (value : Bytes) → WireguardPeerAttribute

abbrev pub WireguardPeer : Type 0
WireguardPeer = List WireguardPeerAttribute

pub data WireguardAttribute : Type 0 where
  if_name : String → WireguardAttribute
  if_index : ℕ → WireguardAttribute
  private_key : Bytes → WireguardAttribute
  public_key : Bytes → WireguardAttribute
  listen_port : ℕ → WireguardAttribute
  fwmark : ℕ → WireguardAttribute
  peers : List WireguardPeer → WireguardAttribute
  flags : ℕ → WireguardAttribute
  other : (kind : ℕ) (value : Bytes) → WireguardAttribute

pub record WireguardMessage : Type 0 where
  pub cmd : WireguardCmd
  pub attributes : List WireguardAttribute

-- `header` stands for what the program never reads.
pub record GenlMessage : Type 0 where
  pub header : Bytes
  pub payload : WireguardMessage

-- The code of an error is absent in an acknowledgement; `header` is the echo of the request.
pub record ErrorMessage : Type 0 where
  pub code : Option ℤ
  pub header : Bytes

-- `extended_ack` is what the kernel says about the dump beside its code, as raw bytes.
pub record DoneMessage : Type 0 where
  pub code : ℤ
  pub extended_ack : Bytes

pub data NetlinkPayload : Type 0 where
  done : DoneMessage → NetlinkPayload
  error : ErrorMessage → NetlinkPayload
  noop : NetlinkPayload
  overrun : Bytes → NetlinkPayload
  inner_message : GenlMessage → NetlinkPayload
  other : (kind : ℕ) → NetlinkPayload

-- `rest` stands for the fields that the program neither reads nor writes.
pub record NetlinkHeader : Type 0 where
  pub flags : ℕ
  pub rest : Bytes

pub record NetlinkMessage : Type 0 where
  pub header : NetlinkHeader
  pub payload : NetlinkPayload
