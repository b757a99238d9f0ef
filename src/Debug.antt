-- ===== src/Debug.antt =====
-- The `Debug` implementations of src/parsed.rs and src/peer_parsed.rs, which format a view in which
-- the secret keys are hidden.
pub mod Hidden
use mathlib.Core.Option
use nl_wireguard.Base.{ℕ, String, Bool, Option, some, none, List, map, is_some, if◌then◌else◌}
use nl_wireguard.Packet.{SocketAddr, Duration}
use nl_wireguard.Flags.{WireguardParsedDeviceFlags, WireguardParsedPeerFlags}
use nl_wireguard.AllowedIp.{WireguardIpAddress}
use nl_wireguard.Peer.{WireguardPeerParsed}
use nl_wireguard.Device.{WireguardParsed}

-- `&dyn Debug`: the text for either value of the `alternate` flag of the formatter.
abbrev pub Debug : Type 0
Debug = Bool → String

-- `_WireguardPeerParsed`
pub record PeerView : Type 0 where
  pub endpoint : Option SocketAddr
  pub public_key : Option String
  pub preshared_key : Option String
  pub persistent_keepalive : Option ℕ
  pub last_handshake : Option Duration
  pub rx_bytes : Option ℕ
  pub tx_bytes : Option ℕ
  pub allowed_ips : Option (List WireguardIpAddress)
  pub protocol_version : Option ℕ
  pub flags : Option (List WireguardParsedPeerFlags)

-- `_WireguardParsed`; the peers stand for what their own `Debug` formats.
pub record ParsedView : Type 0 where
  pub iface_name : Option String
  pub iface_index : Option ℕ
  pub public_key : Option String
  pub private_key : Option String
  pub listen_port : Option ℕ
  pub fwmark : Option ℕ
  pub peers : Option (List Debug)
  pub flags : Option (List WireguardParsedDeviceFlags)

-- What `#[derive(Debug)]` generates for the two views.
pub record Derived : Type 0 where
  pub fmt_peer : PeerView → Debug
  pub fmt_parsed : ParsedView → Debug

unfoldable pub hide : Option String → Option String
hide key = if is_some key then some "(hidden)" else none

unfoldable pub peer_view : WireguardPeerParsed → PeerView
unfolding hide
peer_view self = record {
  endpoint = self.endpoint;
  public_key = self.public_key;
  preshared_key = hide self.preshared_key;
  persistent_keepalive = self.persistent_keepalive;
  last_handshake = self.last_handshake;
  rx_bytes = self.rx_bytes;
  tx_bytes = self.tx_bytes;
  allowed_ips = self.allowed_ips;
  protocol_version = self.protocol_version;
  flags = self.flags;
}

module _ (derived : Derived) where
  -- `Debug for WireguardPeerParsed`
  unfoldable pub fmt_peer : WireguardPeerParsed → Debug
  unfolding peer_view
  fmt_peer self = derived.fmt_peer (peer_view self)

  unfoldable pub parsed_view : WireguardParsed → ParsedView
  unfolding hide fmt_peer
  parsed_view self = record {
    iface_name = self.iface_name;
    iface_index = self.iface_index;
    public_key = self.public_key;
    private_key = hide self.private_key;
    listen_port = self.listen_port;
    fwmark = self.fwmark;
    peers = Option.map (map fmt_peer) self.peers;
    flags = self.flags;
  }

  -- `Debug for WireguardParsed`
  unfoldable pub fmt_parsed : WireguardParsed → Debug
  unfolding parsed_view
  fmt_parsed self = derived.fmt_parsed (parsed_view self)
