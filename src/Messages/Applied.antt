-- ===== src/Messages/Applied.antt =====
-- What a device makes of the messages of a configuration.
use mathlib.Core.List.{foldl, foldl-append}
use nl_wireguard.Base.{
  ◌≤◌, ◌≡◌, refl, ap, sym, ◌∙◌, inl, inr, some, List, [], ◌∷◌, ◌++◌, map, All, arith, length,
}
use nl_wireguard.Packet.{WireguardCmd, WireguardPeer, WireguardAttribute, WireguardMessage}
use nl_wireguard.Crates.{Crates}
use nl_wireguard.Error.{Result, ok, ok_of_bind, ◌>>=◌}
use nl_wireguard.Peer.{WireguardPeerParsed, build}
use nl_wireguard.Split.Peers.{chunks_of_built}
use nl_wireguard.Split.Devices.{Interface, unsplit, MayBeSplit}
use nl_wireguard.Split.Applied.{peer_applied}
use nl_wireguard.Device.{WireguardParsed, device_attributes, iface_attribute}
use nl_wireguard.Device.Interface.{iface_cases}
use nl_wireguard.Messages.{build_messages}
use nl_wireguard.Messages.Groups.{all_chunks, messages_for, with_peers, concat, groups_of}
use nl_wireguard.Messages.Packing.{groups_content, groups_not_empty}
use nl_wireguard.Messages.Fewest.{build_messages_greedy}

module _ ⦃c : Crates⦄ where
  -- The attributes of all peers, none of which is split.
  unfoldable pub unsplit_peers : List WireguardPeerParsed → Result (List WireguardPeer)
  unsplit_peers [] = ok []
  unsplit_peers (p ∷ ps) = do attrs ← build p; more ← unsplit_peers ps; ok (unsplit p attrs ∷ more)

  module _ {S : Type 0} (device : Interface S) where
    abbrev pub apply_attribute : S → WireguardAttribute → S
    apply_attribute s (WireguardAttribute.peers ps) = foldl device.set_peer s ps
    apply_attribute s attr = device.set_attribute s attr

    -- What a request does.
    abbrev pub apply : S → WireguardMessage → S
    apply s m = foldl apply_attribute s m.attributes

    peers_applied :
        (s : S) (ps : List WireguardPeerParsed) (whole : List WireguardPeer)
        → All MayBeSplit ps
        → unsplit_peers ps ≡ ok whole
        → (chunks : List WireguardPeer) × (all_chunks ps ≡ ok chunks)
          × (foldl device.set_peer s chunks ≡ foldl device.set_peer s whole)
    unfolding all_chunks unsplit_peers
    peers_applied s [] whole may h =
        let made : [] ≡ whole = cc h in ([], refl, ap (foldl device.set_peer s) made)
    peers_applied s (p ∷ ps) whole may h =
        let (attrs, built, h1) = ok_of_bind (build p) _ h in
        let (rest, later, h2) = ok_of_bind (unsplit_peers ps) _ h1 in
        let made : (unsplit p attrs ∷ rest) ≡ whole = cc h2 in
        let (here, split) = chunks_of_built p attrs built in
        let first = peer_applied device s p attrs here may.0 built split in
        let (more, more_split, same) =
          peers_applied (device.set_peer s (unsplit p attrs)) ps rest may.1 later in
        (
          here ++ more,
          rw (split, all_chunks) (rw more_split refl),
          foldl-append device.set_peer s here more
              ∙ (ap (λ s'. foldl device.set_peer s' more) first
                  ∙ (same ∙ ap (foldl device.set_peer s) made)),
        )

    message_applied :
        (cmd : WireguardCmd) (s : S) (front : List WireguardAttribute) (group : List WireguardPeer)
        → apply s (with_peers cmd front group)
          ≡ foldl device.set_peer (foldl apply_attribute s front) group
    message_applied cmd s front group =
        foldl-append apply_attribute s front (WireguardAttribute.peers group ∷ [])

    -- An interface attribute only selects the interface.
    selects :
        (self : WireguardParsed) (iface : WireguardAttribute) (s : S)
        → iface_attribute self ≡ ok iface
        → apply_attribute s iface ≡ s
    selects self iface s h = elim (iface_cases self iface h) [
      | inl named ↦ ap (apply_attribute s) named.made ∙ device.names s named.name
      | inr indexed ↦ ap (apply_attribute s) indexed.made ∙ device.indexes s indexed.index
    ]

    later_applied :
        (cmd : WireguardCmd) (self : WireguardParsed) (iface : WireguardAttribute) (s : S)
        (groups : List (List WireguardPeer))
        → iface_attribute self ≡ ok iface
        → foldl apply s (map (with_peers cmd (iface ∷ [])) groups)
          ≡ foldl device.set_peer s (concat groups)
    later_applied cmd self iface s [] h = refl
    later_applied cmd self iface s (group ∷ groups) h =
        ap (λ s'. foldl apply s' (map (with_peers cmd (iface ∷ [])) groups))
          (message_applied cmd s (iface ∷ []) group
            ∙ ap (λ s'. foldl device.set_peer s' group) (selects self iface s h))
        ∙ (later_applied cmd self iface (foldl device.set_peer s group) groups h
            ∙ sym (foldl-append device.set_peer s group (concat groups)))

    all_applied :
        (cmd : WireguardCmd) (self : WireguardParsed) (front : List WireguardAttribute)
        (iface : WireguardAttribute) (s : S) (groups : List (List WireguardPeer))
        → iface_attribute self ≡ ok iface
        → 1 ≤ length groups
        → foldl apply s (messages_for cmd front iface groups)
          ≡ foldl device.set_peer (foldl apply_attribute s front) (concat groups)
    all_applied cmd self front iface s [] h some_group = absurd (omega arith)
    all_applied cmd self front iface s (group ∷ groups) h some_group =
        ap (λ s'. foldl apply s' (map (with_peers cmd (iface ∷ [])) groups))
          (message_applied cmd s front group)
        ∙ (later_applied cmd self iface
              (foldl device.set_peer (foldl apply_attribute s front) group) groups h
            ∙ sym (
                foldl-append device.set_peer (foldl apply_attribute s front) group (concat groups)))

    -- The messages of a configuration do, one after the other, what one message would do in which
    -- no peer is split: for a configuration with peers whose device attributes and peers can be
    -- built, `build_messages` succeeds, and a device in any state ends in the state to which that
    -- message would take it, with the device attributes in front of the peers. A peer with allowed
    -- IPs that is not removed must not be flagged to be updated only.
    -- It is assumed that an interface attribute changes no state, that the place of the allowed IPs
    -- among the attributes of a peer does not matter, and that a peer that may be created is found
    -- again by its public key, so that more allowed IPs can follow.
    pub build_messages_refines :
        (self : WireguardParsed) (cmd : WireguardCmd) (peers : List WireguardPeerParsed)
        (front : List WireguardAttribute) (whole : List WireguardPeer) (s : S)
        → self.peers ≡ some peers
        → device_attributes self ≡ ok front
        → unsplit_peers peers ≡ ok whole
        → All MayBeSplit peers
        → (messages : List WireguardMessage) × (build_messages self cmd ≡ ok messages)
          × (foldl apply s messages ≡ apply s (with_peers cmd front whole))
    build_messages_refines self cmd peers front whole s has front_ok built may =
        let (chunks, split, same) =
          peers_applied (foldl apply_attribute s front) peers whole may built in
        let (iface, iface_ok, made) =
          build_messages_greedy self cmd peers front chunks has front_ok split in
        (
          messages_for cmd front iface (groups_of chunks),
          made,
          all_applied cmd self front iface s (groups_of chunks) iface_ok (groups_not_empty chunks)
              ∙ (ap (foldl device.set_peer (foldl apply_attribute s front)) (groups_content chunks)
                  ∙ (same ∙ sym (message_applied cmd s front whole))),
        )
