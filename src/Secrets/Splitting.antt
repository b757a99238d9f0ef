-- ===== src/Secrets/Splitting.antt =====
-- `peer_chunks` of src/parsed.rs at peers that agree but for the preshared key: it counts the
-- bytes of the attributes and looks at the public key, the allowed IPs and the flags only.
use mathlib.Core.List.{foldl}
use nl_wireguard.Base.{
  ℕ, zero, suc, ◌+◌, ◌≡◌, refl, ap, sym, ◌∙◌, some, List, [], ◌∷◌, map, map-append, sum_by, length,
  Bool-cases, Option-cases, inl, inr, arith,
}
use nl_wireguard.Packet.{WireguardAllowedIp, WireguardPeerAttribute, WireguardPeer}
use nl_wireguard.Crates.{Crates, KeyLaws}
use nl_wireguard.Error.{ok}
use nl_wireguard.Redact.{redact_peer_attribute}
use nl_wireguard.Peer.{WireguardPeerParsed, build}
use nl_wireguard.Split.{
  PeerParts, no_parts, find_public_key, take_allowed_ips_batch, sort_attribute, continuation_chunks,
  ip_chunks, split_ips, split_parts, peer_chunks,
}
use nl_wireguard.Secrets.{mask_peer, AlikePeer}
use nl_wireguard.Secrets.Chains.{map_result, chain}
use nl_wireguard.Secrets.Peers.{build_alike}

abbrev mask_parts : PeerParts → PeerParts
mask_parts parts = record parts { state_attributes = mask_peer parts.state_attributes }

find_masked : (state : WireguardPeer) → find_public_key (mask_peer state) ≡ find_public_key state
unfolding find_public_key redact_peer_attribute
find_masked [] = refl
find_masked (WireguardPeerAttribute.public_key key ∷ state) = refl
find_masked (_ ∷ state) = find_masked state

found_kept :
    (state : WireguardPeer) (key : WireguardPeerAttribute)
    → find_public_key state ≡ some key
    → redact_peer_attribute key ≡ key
unfolding find_public_key redact_peer_attribute
found_kept [] key h = cc h
found_kept (WireguardPeerAttribute.public_key bytes ∷ state) key h =
    let e : WireguardPeerAttribute.public_key bytes ≡ key = cc h in rw (← e) refl
found_kept (_ ∷ state) key h = found_kept state key h

module _ ⦃c : Crates⦄ where
  sort_masked :
      (parts : PeerParts) (attribute : WireguardPeerAttribute)
      → sort_attribute (mask_parts parts) (redact_peer_attribute attribute)
        ≡ mask_parts (sort_attribute parts attribute)
  unfolding sort_attribute redact_peer_attribute
  sort_masked parts (WireguardPeerAttribute.allowed_ips ips) = refl
  sort_masked parts attribute =
      cc (map-append redact_peer_attribute parts.state_attributes (attribute ∷ []))

  fold_masked :
      (parts : PeerParts) (attributes : WireguardPeer)
      → foldl sort_attribute (mask_parts parts) (mask_peer attributes)
        ≡ mask_parts (foldl sort_attribute parts attributes)
  fold_masked parts [] = refl
  fold_masked parts (attribute ∷ attributes) =
      rw (foldl, sort_masked parts attribute)
        (fold_masked (sort_attribute parts attribute) attributes)

  continuation_masked :
      (fuel : ℕ) (key : WireguardPeerAttribute) (ips : List WireguardAllowedIp)
      → redact_peer_attribute key ≡ key
      → map mask_peer (continuation_chunks fuel key ips) ≡ continuation_chunks fuel key ips
  unfolding continuation_chunks redact_peer_attribute
  continuation_masked zero key ips h = refl
  continuation_masked (suc fuel) key [] h = refl
  continuation_masked (suc fuel) key (ip ∷ ips) h = cc (
    h,
    continuation_masked fuel key
        (take_allowed_ips_batch (ip ∷ ips) (c.nla_header_size + c.attr_buffer_len key)).1 h,
  )

  module _ (laws : KeyLaws c) where
    length_masked :
        (attribute : WireguardPeerAttribute)
        → c.attr_buffer_len (redact_peer_attribute attribute) ≡ c.attr_buffer_len attribute
    unfolding redact_peer_attribute
    length_masked (WireguardPeerAttribute.preshared_key key) = laws.preshared_key_length _ key
    length_masked _ = refl

    pub sum_masked :
        (state : WireguardPeer)
        → sum_by c.attr_buffer_len (mask_peer state) ≡ sum_by c.attr_buffer_len state
    sum_masked [] = refl
    sum_masked (attribute ∷ state) = omega (arith, length_masked attribute, sum_masked state)

    chunks_masked :
        (state : WireguardPeer) (key : WireguardPeerAttribute) (ips : List WireguardAllowedIp)
        → redact_peer_attribute key ≡ key
        → ip_chunks (mask_peer state) key ips ≡ map mask_peer (ip_chunks state key ips)
    unfolding ip_chunks redact_peer_attribute
    chunks_masked state key ips h =
        let (first_batch, rest) =
          take_allowed_ips_batch ips (c.nla_header_size + sum_by c.attr_buffer_len state) in
        rw (sum_masked state) (
          cc (
            map-append redact_peer_attribute state
                (WireguardPeerAttribute.allowed_ips first_batch ∷ []),
            continuation_masked (length rest) key rest h,
          ))

    ips_masked :
        (state : WireguardPeer) (ips : List WireguardAllowedIp)
        → split_ips (mask_peer state) ips ≡ map_result (map mask_peer) (split_ips state ips)
    unfolding split_ips redact_peer_attribute
    ips_masked state [] =
        cc (map-append redact_peer_attribute state (WireguardPeerAttribute.allowed_ips [] ∷ []))
    ips_masked state (ip ∷ ips) = elim (Option-cases (find_public_key state)) [
      | inl absent ↦ rw (find_masked state, absent, split_ips) refl
      | inr (key, there) ↦
          rw (find_masked state, there, split_ips)
            (ap ok (chunks_masked state key (ip ∷ ips) (found_kept state key there)))
    ]

    parts_masked :
        (parts : PeerParts)
        → split_parts (mask_parts parts) ≡ map_result (map mask_peer) (split_parts parts)
    unfolding split_parts
    parts_masked parts = elim (Option-cases parts.allowed_ips) [
      | inl absent ↦ rw (absent, split_parts) refl
      | inr (ips, there) ↦ elim (Bool-cases parts.remove_me) [
        | inl removes ↦ rw (there, removes, split_parts) refl
        | inr keeps ↦ rw (there, keeps, split_parts) (ips_masked parts.state_attributes ips)
      ]
    ]

    split_masked :
        (attributes : WireguardPeer)
        → split_parts (foldl sort_attribute no_parts (mask_peer attributes))
          ≡ map_result (map mask_peer) (split_parts (foldl sort_attribute no_parts attributes))
    split_masked attributes =
        ap split_parts (fold_masked no_parts attributes)
        ∙ parts_masked (foldl sort_attribute no_parts attributes)

    pub peer_chunks_alike :
        (p q : WireguardPeerParsed)
        → AlikePeer p q
        → map_result (map mask_peer) (peer_chunks p) ≡ map_result (map mask_peer) (peer_chunks q)
    unfolding peer_chunks
    peer_chunks_alike p q h =
        chain mask_peer (map mask_peer) (build p) (build q) _ _ (build_alike p q h) (λ x y e.
          sym (split_masked x)
          ∙ (ap (λ attributes. split_parts (foldl sort_attribute no_parts attributes)) e
              ∙ split_masked y))
