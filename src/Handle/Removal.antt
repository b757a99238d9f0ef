-- ===== src/Handle/Removal.antt =====
-- What `remove_peer` sends.
use nl_wireguard.Base.{
  ◌<◌, ◌≡◌, refl, ◌∙◌, ◌↔◌, inl, inr, false, some, String, List, [], ◌∷◌, ◌++◌, map,
}
use mathlib.Core.Path.{subst}
use nl_wireguard.Base.Text.{len, contains_nul}
use nl_wireguard.Packet.{
  Bytes, WireguardCmd, WireguardPeerAttribute, WireguardPeer, WireguardAttribute, WireguardMessage,
  NetlinkMessage,
}
use nl_wireguard.Crates.{Crates}
use nl_wireguard.Error.{Result, ok}
use nl_wireguard.Flags.{WireguardParsedPeerFlags, build_peer_flags}
use nl_wireguard.Peer
use nl_wireguard.Peer.{remove, build_holding}
use nl_wireguard.Peer.Accepted.{IsKey, key_accepted}
use nl_wireguard.Split.{peer_chunks, split_parts, sort_attribute}
use nl_wireguard.Device
use nl_wireguard.Device.{
  WireguardParsed, default_device, ifnamsiz, iface_attribute, device_attributes, leading_attributes,
  build_message,
}
use nl_wireguard.Device.Interface.{iface_made}
use nl_wireguard.Messages.{build_messages, finish, add_peers, add_chunks, add_chunk, flush}
use nl_wireguard.Handle.{Kernel, request_for, set_flags, remove_peer, set}
use nl_wireguard.Handle.Steps.{IsAccepted, Completed, Stopped}
use nl_wireguard.Handle.Sending.{set_lem}

only_part :
    (m : WireguardMessage) (before : List WireguardMessage) (failed : WireguardMessage)
    (after : List WireguardMessage)
    → (m ∷ []) ≡ before ++ failed ∷ after
    → (before ≡ []) × (failed ≡ m)
only_part m [] failed after h = (refl, cc h)
only_part m (x ∷ []) failed after h = cc h
only_part m (x ∷ y ∷ before) failed after h = cc h

module _ ⦃c : Crates⦄ where
  -- The key of the peer and the flag that removes it.
  abbrev pub removal_peer : Bytes → WireguardPeer
  removal_peer key =
      WireguardPeerAttribute.public_key key
      ∷ WireguardPeerAttribute.flags (build_peer_flags (WireguardParsedPeerFlags.remove_me ∷ []))
      ∷ []

  abbrev pub removal : String → Bytes → WireguardMessage
  removal name key = record {
    cmd = WireguardCmd.set_device;
    attributes =
        WireguardAttribute.if_name name ∷ WireguardAttribute.peers (removal_peer key ∷ []) ∷ [];
  }

  abbrev config : String → String → WireguardParsed
  config name key = record default_device { iface_name = some name; peers = some (remove key ∷ []) }

  removal_built :
      (key : String) (k : IsKey key) → Peer.build (remove key) ≡ ok (removal_peer k.bytes)
  unfolding Peer.build build_holding remove Peer.key_attribute
  removal_built key k = rw (key_accepted "peer.public_key" key k) refl

  removal_chunks :
      (key : String) (k : IsKey key) → peer_chunks (remove key) ≡ ok (removal_peer k.bytes ∷ [])
  unfolding peer_chunks split_parts sort_attribute
  removal_chunks key k = rw (removal_built key k) refl

  removal_message :
      (name key : String) (k : IsKey key)
      → len name < ifnamsiz
      → contains_nul name ≡ false
      → build_messages (config name key) WireguardCmd.set_device ≡ ok (removal name k.bytes ∷ [])
  unfolding build_messages finish add_peers add_chunks add_chunk flush build_message
      leading_attributes device_attributes Device.key_attribute
  removal_message name key k short plain =
      let iface = iface_made (config name key) (WireguardAttribute.if_name name) (
        inl (record { name = name; has_name = refl; short = short; plain = plain; made = refl })) in
      rw (removal_chunks key k, iface) refl

  module _ (kernel : Kernel) (name key : String) (k : IsKey key) (sent : List NetlinkMessage) where
    abbrev expected : List NetlinkMessage
    expected = sent ++ request_for set_flags (removal name k.bytes) ∷ []

    -- What is to be shown of the result.
    abbrev IsRemoval : Result (Unit {0}) × List NetlinkMessage → Type 0
    IsRemoval result = (result.1 ≡ expected) × ((result.0 ≡ ok tt) ↔ IsAccepted (kernel expected))

    completed :
        (result : Result (Unit {0}) × List NetlinkMessage)
        → Completed kernel sent (removal name k.bytes ∷ []) result
        → IsRemoval result
    completed result h = (h.trace, (λ _. h.accepted.0, λ _. h.success))

    stopped :
        (result : Result (Unit {0}) × List NetlinkMessage)
        → Stopped kernel 1 0 sent (removal name k.bytes ∷ []) result
        → IsRemoval result
    stopped result h =
        let (no_more, same) = only_part (removal name k.bytes) h.before h.failed h.after h.parts in
        let trace : sent ++ map (request_for set_flags) (h.before ++ h.failed ∷ []) ≡ expected =
          cc (no_more, same) in
        (
          h.trace ∙ trace,
          (
            λ success. cc (success, h.failure),
            λ taken. absurd (
                subst (λ (xs : List NetlinkMessage). ¬ IsAccepted (kernel xs)) trace h.rejected
                  taken),
          ),
        )

  -- `remove_peer` for a name that an interface can have and a valid key sends exactly one request,
  -- for the peer of that key with the flag that removes it and with no other attribute of the
  -- interface or of a peer; it succeeds exactly if the kernel accepts that request.
  pub remove_peer_lem :
      (kernel : Kernel) (name key : String) (k : IsKey key) (sent : List NetlinkMessage)
      → len name < ifnamsiz
      → contains_nul name ≡ false
      → ((remove_peer kernel name key sent).1
          ≡ sent ++ request_for set_flags (removal name k.bytes) ∷ [])
        × (((remove_peer kernel name key sent).0 ≡ ok tt)
            ↔ IsAccepted (kernel (sent ++ request_for set_flags (removal name k.bytes) ∷ [])))
  unfolding remove_peer
  remove_peer_lem kernel name key k sent short plain =
      elim (set_lem kernel (config name key) sent (removal name k.bytes ∷ [])
        (removal_message name key k short plain)) [
          | inl all ↦ completed kernel name key k sent (set kernel (config name key) sent) all
          | inr part ↦ stopped kernel name key k sent (set kernel (config name key) sent) part
        ]
