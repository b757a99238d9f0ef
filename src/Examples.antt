-- ===== src/Examples.antt =====
-- The programs of examples/: a configuration that is set and read back, and an interface that is
-- shown. A program is a function of its arguments and of what opening a connection returned, to how
-- it ends and what it sent.
pub mod Config
pub mod Runs
use nl_wireguard.Base.{String, Option, some, none, List, [], ◌∷◌, false, ◌⊎◌, inl, inr}
use nl_wireguard.Base.Text.{◌+++◌}
use nl_wireguard.Packet.{IpAddr, SocketAddr, NetlinkMessage}
use nl_wireguard.Crates.{Crates}
use nl_wireguard.Error.{Result, ok, err}
use nl_wireguard.AllowedIp.{WireguardIpAddress}
use nl_wireguard.Flags.{
  WireguardParsedDeviceFlags, WireguardParsedPeerFlags, WireguardParsedAllowedIpFlags,
}
use nl_wireguard.Peer.{WireguardPeerParsed, default_peer}
use nl_wireguard.Device.{WireguardParsed, default_device}
use nl_wireguard.Debug.{Derived, fmt_parsed}
use nl_wireguard.Handle.{Kernel, set, get_by_name}
use nl_wireguard.Connection.{Genetlink, WireguardHandle, new_connection}

-- How a program ends: with its usage on the standard error, with a panic, or with this line.
pub data Exit : Type 0 where
  usage : String → Exit
  panicked : Exit
  printed : String → Exit

abbrev pub any_ipv4 : WireguardIpAddress
any_ipv4 = record { ip_addr = IpAddr.v4 0; prefix_length = 0; flags = none }

abbrev pub any_ipv6 : WireguardIpAddress
any_ipv6 = record {
  ip_addr = IpAddr.v6 0;
  prefix_length = 0;
  flags = some (WireguardParsedAllowedIpFlags.remove_me ∷ []);
}

abbrev pub config_peer_key : String
config_peer_key = "8bdQrVLqiw3ZoHCucNh1YfH0iCWuyStniRr8t7H24Fk="

abbrev pub config_public_key : String
config_public_key = "JKossUAjywXuJ2YVcaeD6PaHs+afPmIthDuqEVlspwA="

abbrev pub config_private_key : String
config_private_key = "6LTHiAM4vgKEgi5vm30f/EBIEWFDmySkTc9EWCcIqEs="

-- The endpoint is 10.10.10.1.
abbrev pub peer_config : WireguardPeerParsed
peer_config = record default_peer {
  endpoint = some (SocketAddr.v4 168430081 51820);
  public_key = some config_peer_key;
  allowed_ips = some (any_ipv4 ∷ any_ipv6 ∷ []);
  flags = some (WireguardParsedPeerFlags.replace_allowed_ips ∷ []);
}

abbrev pub config : String → WireguardParsed
config name = record default_device {
  iface_name = some name;
  public_key = some config_public_key;
  private_key = some config_private_key;
  listen_port = some 51820;
  fwmark = some 0;
  peers = some (peer_config ∷ []);
  flags = some (WireguardParsedDeviceFlags.replace_peers ∷ []);
}

module _ ⦃c : Crates⦄ (derived : Derived) where
  -- `println!` of the configuration that `get_by_name` returned, behind `prefix`; a panic of `build`
  -- and an error that is unwrapped are both a panic.
  abbrev pub shown :
      String → Option (Result WireguardParsed) × List NetlinkMessage → Exit × List NetlinkMessage
  shown prefix (none, sent) = (Exit.panicked, sent)
  shown prefix (some (err e), sent) = (Exit.panicked, sent)
  shown prefix (some (ok parsed), sent) =
      (Exit.printed (prefix +++ fmt_parsed derived parsed false), sent)

  -- What `set_wireguard` does once it is connected.
  abbrev pub set_and_show : Kernel → String → Exit × List NetlinkMessage
  set_and_show kernel name =
      let (result, sent) = set kernel (config name) [] in
      let later = shown "Applied config " (get_by_name kernel name sent) in
      elim result [ ok done ↦ later | err e ↦ (Exit.panicked, sent) ]

  module _ {Connection GenetlinkHandle Receiver : Type 0}
      (genetlink : Genetlink Connection GenetlinkHandle) where
    -- The program with the kernel behind the connection that was opened and spawned.
    abbrev connected :
        (Kernel → Exit × List NetlinkMessage)
        → String ⊎ (Connection × WireguardHandle GenetlinkHandle × Receiver)
        → Exit × List NetlinkMessage
    connected program (inl e) = (Exit.panicked, [])
    connected program (inr (conn, handle, messages)) =
        program (genetlink.passes_on conn handle.handle)

    module _ (opened : String ⊎ (Connection × GenetlinkHandle × Receiver)) where
      -- `main` of set_wireguard.rs
      unfoldable pub set_wireguard : List String → Exit × List NetlinkMessage
      unfolding new_connection
      set_wireguard (program ∷ name ∷ argv) =
          connected (λ kernel. set_and_show kernel name) (new_connection genetlink opened)
      set_wireguard argv = (Exit.usage "Usage: set_wireguard <ifname>", [])

      -- `main` of get_wireguard_info.rs
      unfoldable pub get_wireguard_info : List String → Exit × List NetlinkMessage
      unfolding new_connection
      get_wireguard_info (program ∷ name ∷ argv) =
          connected (λ kernel. shown "" (get_by_name kernel name []))
            (new_connection genetlink opened)
      get_wireguard_info argv = (Exit.usage "Usage: get_wireguard_info <ifname>", [])
