-- ===== src/Handle/Applied.antt =====
-- What a device makes of the requests that `set` of src/handle.rs sends.
use mathlib.Core.List.{foldl}
use nl_wireguard.Base.{◌≡◌, inl, inr, ◌⊎◌, some, List, ◌++◌, map, All, length}
use nl_wireguard.Packet.{
  WireguardCmd, WireguardPeer, WireguardAttribute, WireguardMessage, NetlinkMessage,
}
use nl_wireguard.Crates.{Crates}
use nl_wireguard.Error.{Result, ok}
use nl_wireguard.Peer.{WireguardPeerParsed}
use nl_wireguard.Split.Devices.{Interface, MayBeSplit}
use nl_wireguard.Device.{WireguardParsed, device_attributes}
use nl_wireguard.Messages.Groups.{with_peers}
use nl_wireguard.Messages.Applied.{unsplit_peers, apply, build_messages_refines}
use nl_wireguard.Handle.{Kernel, set}
use nl_wireguard.Handle.Steps.{Completed, Stopped, request_of}
use nl_wireguard.Handle.Sending.{set_lem}

module _ ⦃c : Crates⦄ (kernel : Kernel) where
  pub trace_of :
      (sent : List NetlinkMessage) (ms : List WireguardMessage)
      (r : Result (Unit {0}) × List NetlinkMessage)
      → r.0 ≡ ok tt
      → Completed kernel sent ms r ⊎ Stopped kernel (length ms) 0 sent ms r
      → r.1 ≡ sent ++ map (request_of kernel) ms
  trace_of sent ms r success (inl completed) = completed.trace
  trace_of sent ms r success (inr stopped) = cc (success, stopped.failure)

  -- When `set` succeeds, the device is configured as if there were no limit to the length of an
  -- attribute: the requests that it sent carry messages that take the device, from any state, to
  -- where one message with the device attributes and all peers, none of them split, would take it.
  -- A peer with allowed IPs that is not removed must not be flagged to be updated only.
  -- The device is assumed to be an `Interface`, as in `build_messages_refines`.
  pub set_applies :
      {S : Type 0} (device : Interface S) (parsed : WireguardParsed)
      (peers : List WireguardPeerParsed) (front : List WireguardAttribute)
      (whole : List WireguardPeer) (s : S) (sent : List NetlinkMessage)
      → parsed.peers ≡ some peers
      → device_attributes parsed ≡ ok front
      → unsplit_peers peers ≡ ok whole
      → All MayBeSplit peers
      → (set kernel parsed sent).0 ≡ ok tt
      → (messages : List WireguardMessage) × ((set kernel parsed sent).1
          ≡ sent ++ map (request_of kernel) messages)
        × (foldl (apply device) s messages
            ≡ apply device s (with_peers WireguardCmd.set_device front whole))
  set_applies device parsed peers front whole s sent has front_ok built may success =
      let (messages, made, applied) =
        build_messages_refines device parsed WireguardCmd.set_device peers front whole s has
          front_ok built may in
      (
        messages,
        trace_of sent messages (set kernel parsed sent) success
            (set_lem kernel parsed sent messages made),
        applied,
      )
