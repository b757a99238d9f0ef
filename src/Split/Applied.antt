-- ===== src/Split/Applied.antt =====
-- What a device makes of the chunks of a peer.
use mathlib.Core.List.{foldl}
use mathlib.Core.Option
use nl_wireguard.Base.{
  ◌≡◌, refl, ap, sym, ◌∙◌, inl, inr, true, false, none, some, List, [], ◌∷◌, ◌++◌, map, All,
  Bool-cases, ◌⊎◌, concat_map, append_assoc, append-nil, flatten_option,
}
use nl_wireguard.Packet.{Bytes, WireguardAllowedIp, WireguardPeerAttribute, WireguardPeer}
use nl_wireguard.Crates.{Crates}
use nl_wireguard.Error.{ok, ok_of_bind}
use nl_wireguard.AllowedIp.{WireguardIpAddress, ip_attributes}
use nl_wireguard.Peer.{
  WireguardPeerParsed, build, allowed_ips_attribute, validate_all, pushed, attributes_after_keys,
  attributes_after_ips,
}
use nl_wireguard.Peer.Built.{Built, built}
use nl_wireguard.Split.{peer_chunks, find_public_key}
use nl_wireguard.Split.Chunks.{ips_of, without_ips, AreChunks, IsContinuation}
use nl_wireguard.Split.Parts.{after_ips_no_ips, removes, parted}
use nl_wireguard.Split.Peers.{peer_chunks-IsSplit, peer_chunks_single, peer_cases, find_kept}
use nl_wireguard.Split.Devices.{
  Interface, Creates, state-Creates, updates, unsplit, MayBeSplit, may_create,
}

module _ ⦃c : Crates⦄ where
  abbrev whole_with :
      (p : WireguardPeerParsed) (attrs : WireguardPeer)
      → Built p attrs
      → List WireguardPeerAttribute
      → WireguardPeer
  whole_with p attrs b ips =
      pushed WireguardPeerAttribute.endpoint p.endpoint
      ++ (b.public ++ (b.preshared ++ (attributes_after_keys p ++ (ips ++ attributes_after_ips p))))

  -- The attributes in front of the allowed IPs.
  abbrev in_front :
      (p : WireguardPeerParsed) (attrs : WireguardPeer)
      → Built p attrs
      → List WireguardPeerAttribute
  in_front p attrs b =
      pushed WireguardPeerAttribute.endpoint p.endpoint
      ++ (b.public ++ (b.preshared ++ attributes_after_keys p))

  made_ips :
      (ips : List WireguardIpAddress) (attrs : List WireguardPeerAttribute)
      → allowed_ips_attribute (some ips) ≡ ok attrs
      → WireguardPeerAttribute.allowed_ips (map ip_attributes ips) ∷ [] ≡ attrs
  unfolding allowed_ips_attribute
  made_ips ips attrs h = let (u, e, r) = ok_of_bind (validate_all ips) _ h in cc r

  -- The peer may be created, or is a single chunk.
  module _ {S : Type 0} (device : Interface S) where
    -- Continuations add their allowed IPs to those of the peer before.
    continuations_applied :
        (s : S) (state : List WireguardPeerAttribute) (key : Bytes) (xs : List WireguardAllowedIp)
        (more : List WireguardPeer)
        → find_public_key state ≡ some (WireguardPeerAttribute.public_key key)
        → All Creates state
        → All (IsContinuation key) more
        → foldl device.set_peer
            (device.set_peer s (state ++ WireguardPeerAttribute.allowed_ips xs ∷ []))
            more
          ≡ device.set_peer s
              (state ++ WireguardPeerAttribute.allowed_ips (xs ++ concat_map ips_of more) ∷ [])
    continuations_applied s state key xs [] holds may shapes = rw (append-nil xs) refl
    continuations_applied s state key xs (chunk ∷ more) holds may (here, later) =
        let batch : ips_of chunk ≡ here.batch = ap ips_of here.shape ∙ append-nil here.batch in
        ap
          (λ ch.
            foldl device.set_peer
              (device.set_peer
                (device.set_peer s (state ++ WireguardPeerAttribute.allowed_ips xs ∷ [])) ch)
              more)
          here.shape
        ∙ (ap (λ s'. foldl device.set_peer s' more)
              (device.continues s state key xs here.batch holds may)
            ∙ (continuations_applied s state key (xs ++ here.batch) more holds may later
                ∙ ap
                    (λ ips.
                      device.set_peer s (state ++ WireguardPeerAttribute.allowed_ips ips ∷ []))
                    (append_assoc xs here.batch (concat_map ips_of more)
                      ∙ ap (λ b. xs ++ (b ++ concat_map ips_of more)) (sym batch))))

    chunks_applied :
        (s : S) (state : List WireguardPeerAttribute) (key : Bytes) (ips : List WireguardAllowedIp)
        (chunks : List WireguardPeer)
        → find_public_key state ≡ some (WireguardPeerAttribute.public_key key)
        → All Creates state
        → AreChunks state key ips chunks
        → foldl device.set_peer s chunks
          ≡ device.set_peer s (state ++ WireguardPeerAttribute.allowed_ips ips ∷ [])
    chunks_applied s state key ips chunks holds may are =
        ap (foldl device.set_peer s) are.shape
        ∙ (continuations_applied s state key are.first_batch are.more holds may are.continuations
            ∙ ap (λ all. device.set_peer s (state ++ WireguardPeerAttribute.allowed_ips all ∷ []))
                are.all_ips)

    no_ips_kept :
        (p : WireguardPeerParsed) (attrs : WireguardPeer) (b : Built p attrs)
        → p.allowed_ips ≡ none
        → without_ips attrs ≡ attrs
    unfolding allowed_ips_attribute
    no_ips_kept p attrs b h =
        let empty : [] ≡ b.ips = cc (rw (h, allowed_ips_attribute) at b.made_ips) in
        (parted p attrs b).0 ∙ (ap (whole_with p attrs b) empty ∙ b.whole)

    ips_moved :
        (s : S) (p : WireguardPeerParsed) (attrs : WireguardPeer) (b : Built p attrs)
        (ips : List WireguardIpAddress)
        → p.allowed_ips ≡ some ips
        → device.set_peer s
            (without_ips attrs ++ WireguardPeerAttribute.allowed_ips (ips_of attrs) ∷ [])
          ≡ device.set_peer s attrs
    unfolding allowed_ips_attribute
    ips_moved s p attrs b ips h =
        let ys = attributes_after_ips p in
        let moved = WireguardPeerAttribute.allowed_ips (map ip_attributes ips) in
        let front = in_front p attrs b in
        let held : ips_of attrs ≡ map ip_attributes ips =
          (parted p attrs b).1 ∙ ap (λ o. flatten_option (Option.map (map ip_attributes) o)) h in
        let made : moved ∷ [] ≡ b.ips = made_ips ips b.ips (rw h at b.made_ips) in
        let whole : front ++ moved ∷ ys ≡ attrs =
          simp append_assoc (ap (whole_with p attrs b) made ∙ b.whole) in
        let state : without_ips attrs ≡ front ++ ys =
          (parted p attrs b).0 ∙ simp append_assoc refl in
        ap (device.set_peer s) (cc (state, held))
        ∙ (sym (device.ips_last s front ys (map ip_attributes ips) (after_ips_no_ips p))
            ∙ ap (device.set_peer s) whole)

    alone_applied :
        (s : S) (p : WireguardPeerParsed) (attrs : WireguardPeer) (chunks : List WireguardPeer)
        → build p ≡ ok attrs
        → peer_chunks p ≡ ok chunks
        → (p.allowed_ips ≡ none) ⊎ (removes p.flags ≡ true)
        → foldl device.set_peer s chunks ≡ device.set_peer s (without_ips attrs)
    alone_applied s p attrs chunks h split alone =
        let same : (without_ips attrs ∷ []) ≡ chunks =
          cc (peer_chunks_single p attrs h alone, split) in
        ap (foldl device.set_peer s) (sym same)

    unsplit_alone :
        (p : WireguardPeerParsed) (attrs : WireguardPeer)
        → without_ips attrs ≡ attrs
        → without_ips attrs ≡ unsplit p attrs
    unsplit_alone p attrs h = elim (Bool-cases (removes p.flags)) [
      | inl removed ↦ rw removed refl
      | inr keeps ↦ rw keeps h
    ]

    split_applied :
        (s : S) (p : WireguardPeerParsed) (attrs : WireguardPeer) (chunks : List WireguardPeer)
        (ips : List WireguardIpAddress)
        → build p ≡ ok attrs
        → peer_chunks p ≡ ok chunks
        → p.allowed_ips ≡ some ips
        → removes p.flags ≡ false
        → updates p.flags ≡ false
        → foldl device.set_peer s chunks ≡ device.set_peer s attrs
    split_applied s p attrs chunks ips h split has keeps creates =
        let b = built p attrs h in
        let (chunks', split', is) = peer_chunks-IsSplit p attrs ips h has keeps in
        let same : chunks ≡ chunks' = cc (split', split) in
        let may : All Creates (without_ips attrs) =
          rw (parted p attrs b).0 (state-Creates p attrs b keeps creates) in
        ap (foldl device.set_peer s) same
        ∙ (chunks_applied s (without_ips attrs) is.key (ips_of attrs) chunks'
              (find_kept attrs ∙ is.holds_key) may is.chunked
            ∙ ips_moved s p attrs b ips has)

    pub peer_applied :
        (s : S) (p : WireguardPeerParsed) (attrs : WireguardPeer) (chunks : List WireguardPeer)
        → MayBeSplit p
        → build p ≡ ok attrs
        → peer_chunks p ≡ ok chunks
        → foldl device.set_peer s chunks ≡ device.set_peer s (unsplit p attrs)
    peer_applied s p attrs chunks may h split = elim (peer_cases p) [
      | inl no_ips ↦
          alone_applied s p attrs chunks h split (inl no_ips)
          ∙ ap (device.set_peer s)
              (unsplit_alone p attrs (no_ips_kept p attrs (built p attrs h) no_ips))
      | inr (inl removed) ↦ alone_applied s p attrs chunks h split (inr removed) ∙ rw removed refl
      | inr (inr (ips, has, keeps)) ↦
          split_applied s p attrs chunks ips h split has keeps (may_create p ips has keeps may)
          ∙ rw keeps refl
    ]
