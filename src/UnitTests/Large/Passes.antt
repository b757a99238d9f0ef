-- ===== src/UnitTests/Large/Passes.antt =====
-- The tests of a large peer pass, for every number of allowed IPs that is too large for one message.
use nl_wireguard.Base.{
  ℕ, ◌+◌, ◌-◌, ◌*◌, ◌^◌, ◌≤◌, ◌<◌, ◌≡◌, refl, ap, ◌∙◌, true, all, inl, inr, List, [], ◌∷◌, ◌++◌,
  length, sum_by, concat_map, append-nil, All, arith, drop, lt→ltb, ==_refl, ◌⊎◌,
}
use nl_wireguard.Base.Text.{contains_nul}
use nl_wireguard.Packet.{
  Bytes, WireguardCmd, WireguardAllowedIp, WireguardPeerAttribute, WireguardPeer,
  WireguardAttribute,
}
use nl_wireguard.Crates.{Crates, LengthLaws}
use nl_wireguard.Error.{ok, error_new}
use nl_wireguard.Peer.Accepted.{IsKey}
use nl_wireguard.Device.{iface_attribute}
use nl_wireguard.Split.Chunks.{ips_of, IsContinuation}
use nl_wireguard.Split.Peers.{peer_chunks-IsSplit}
use nl_wireguard.Messages.{build_messages, build, single_message}
use nl_wireguard.Messages.Groups.{all_chunks, concat, IsGroup}
use nl_wireguard.Messages.Total.{build_messages_total}
use nl_wireguard.Messages.Bounds.{FitsAttribute, build_messages_bounds}
use nl_wireguard.UnitTests.Peers.{peer_public_key}
use nl_wireguard.UnitTests.Large.{
  device_private_key, hosts, peer_with_allowed_ips, large_config, ip_count, allowed_ip_count,
  is_key_or_ips, is_split, repeats_key_and_ips, build_messages_splits_large_peer,
  build_messages_only_repeats_public_key_and_allowed_ips,
  build_rejects_configuration_needing_several_messages,
}
use nl_wireguard.UnitTests.Large.Sizes.{
  Sizes, host_ips, host_ips-length, host_ips-sum, large_attributes, large_builds, large-FitsPeer,
  large_device, device_builds, all_counted, peers_long,
}
use nl_wireguard.UnitTests.Large.Parts.{
  messages_for-length, name, parts, parts_peers, sum_of_peers, groups_nonempty,
  continuations_repeat, BufferLaws, all_parts,
}

module _ ⦃c : Crates⦄ (lengths : LengthLaws c) (sizes : Sizes)
    (room : c.nla_header_size + (c.nla_alignto - 1) < 2 ^ 16) (peer_key : IsKey peer_public_key)
    (device_key : IsKey device_private_key) (count : ℕ) where
  -- How the configuration was built.
  record IsLarge : Type 0 where
    first_batch : List WireguardAllowedIp
    more : List WireguardPeer
    key : Bytes
    continuations : All (IsContinuation key) more
    all_ips : first_batch ++ concat_map ips_of more ≡ host_ips count
    groups : List (List WireguardPeer)
    content :
        concat groups
        ≡ (WireguardPeerAttribute.public_key peer_key.bytes
            ∷ WireguardPeerAttribute.allowed_ips first_batch
            ∷ [])
          ∷ more
    bounded : All IsGroup groups ⊎ (groups ≡ [] ∷ [])
    not_empty : 1 ≤ length groups
    built :
        build_messages (large_config count) WireguardCmd.set_device
        ≡ ok (parts device_key.bytes groups)
    fits : All (λ m. All FitsAttribute m.attributes) (parts device_key.bytes groups)

  config-IsLarge : IsLarge
  unfolding all_chunks iface_attribute contains_nul
  config-IsLarge =
      let p = peer_with_allowed_ips count in
      let attrs = large_attributes peer_key count in
      let self = large_config count in
      let (chunks, made, split) =
        peer_chunks-IsSplit p attrs (hosts count) (large_builds peer_key count) refl refl in
      let all : all_chunks (p ∷ []) ≡ ok chunks = rw made (ap ok (append-nil chunks)) in
      let device_ok = device_builds device_key count in
      let (iface, iface_ok, f) =
        build_messages_total self WireguardCmd.set_device (p ∷ []) (large_device device_key.bytes)
          chunks refl device_ok all in
      let (messages, same, fits) =
        build_messages_bounds lengths room self WireguardCmd.set_device (p ∷ [])
          (large_device device_key.bytes) chunks refl device_ok all
          (large-FitsPeer peer_key count sizes, tt) in
      let named : name ≡ iface = cc iface_ok in
      let made_parts : build_messages self WireguardCmd.set_device
          ≡ ok (parts device_key.bytes f.groups) =
        f.messages ∙ cc named in
      let same_parts : messages ≡ parts device_key.bytes f.groups = cc (same, made_parts) in
      record {
        first_batch = split.chunked.first_batch;
        more = split.chunked.more;
        key = split.key;
        continuations = split.chunked.continuations;
        all_ips = split.chunked.all_ips ∙ append-nil (host_ips count);
        groups = f.groups;
        content = f.content ∙ split.chunked.shape;
        bounded = f.bounded;
        not_empty = f.not_empty;
        built = made_parts;
        fits = rw (← same_parts) fits;
      }

  chunk_ips : (l : IsLarge) → concat_map ips_of (concat l.groups) ≡ host_ips count
  chunk_ips l =
      rw l.content
        (ap (λ ips. ips ++ concat_map ips_of l.more) (append-nil l.first_batch) ∙ l.all_ips)

  -- One group would be too long.
  several_groups :
      65528 < 28 * count
      → (groups : List (List WireguardPeer)) → 1 ≤ length groups
      → concat_map ips_of (concat groups) ≡ host_ips count
      → All (λ m. All FitsAttribute m.attributes) (parts device_key.bytes groups)
      → 1 < length groups
  several_groups many [] h e fits = absurd (omega arith)
  several_groups many (group ∷ []) h e fits =
      let short = fits.0.1.1.1.0 in
      let long : sum_by c.ip_buffer_len (host_ips count) ≤ sum_by c.peer_buffer_len group =
        rw (← e, append-nil group) (peers_long lengths group) in
      absurd (omega (arith, short, long, host_ips-sum sizes count, sizes.header, sizes.align))
  several_groups many (group ∷ next ∷ groups) h e fits = omega arith

  module _ (many : 65528 < 28 * count) (l : IsLarge) where
    several : 1 < length l.groups
    several = several_groups many l.groups l.not_empty (chunk_ips l) l.fits

    messages_several : 1 < length (parts device_key.bytes l.groups)
    messages_several = omega (
      arith,
      several,
      messages_for-length WireguardCmd.set_device (large_device device_key.bytes) name l.groups,
    )

    ips_total : sum_by allowed_ip_count (parts device_key.bytes l.groups) ≡ count
    ips_total =
        sum_of_peers (parts device_key.bytes l.groups)
        ∙ (ap (sum_by (sum_by ip_count)) (parts_peers device_key.bytes l.groups)
            ∙ (all_counted (concat l.groups) ∙ (ap length (chunk_ips l) ∙ host_ips-length count)))

    several_chunks : 1 < length (concat l.groups)
    several_chunks = elim l.bounded [
      | inl bounded ↦ omega (arith, several, groups_nonempty l.groups bounded)
      | inr empty ↦ let one : length l.groups ≡ 1 = rw empty refl in absurd (omega (arith, several))
    ]

    is_split-true :
        (buffer_len : WireguardAttribute → ℕ)
        → BufferLaws buffer_len
        → is_split buffer_len count (ok (parts device_key.bytes l.groups)) ≡ true
    is_split-true buffer_len laws =
        rw
          (
            lt→ltb _ _ messages_several,
            all_parts buffer_len laws device_key.bytes l.groups l.fits,
            ips_total,
          )
          (==_refl count)

    chunks_repeat :
        (chunks : List WireguardPeer)
        → chunks
          ≡ (WireguardPeerAttribute.public_key peer_key.bytes
              ∷ WireguardPeerAttribute.allowed_ips l.first_batch
              ∷ [])
            ∷ l.more
        → all (all is_key_or_ips) (drop 1 chunks) ≡ true
    chunks_repeat chunks e = rw e (continuations_repeat l.key l.more l.continuations)

    repeats_key_and_ips-true : repeats_key_and_ips (ok (parts device_key.bytes l.groups)) ≡ true
    repeats_key_and_ips-true =
        rw
          (
            parts_peers device_key.bytes l.groups,
            lt→ltb _ _ several_chunks,
            chunks_repeat (concat l.groups) l.content,
          )
          refl

  module _ (many : 65528 < 28 * count) where
    build_messages_splits_large_peer_passes :
        (buffer_len : WireguardAttribute → ℕ)
        → BufferLaws buffer_len
        → build_messages_splits_large_peer buffer_len count ≡ true
    build_messages_splits_large_peer_passes buffer_len laws =
        rw config-IsLarge.built (is_split-true many config-IsLarge buffer_len laws)

    build_messages_only_repeats_passes :
        build_messages_only_repeats_public_key_and_allowed_ips count ≡ true
    build_messages_only_repeats_passes =
        rw config-IsLarge.built (repeats_key_and_ips-true many config-IsLarge)

    build_rejects_configuration_passes :
        build_rejects_configuration_needing_several_messages count ≡ true
    unfolding build single_message error_new
    build_rejects_configuration_passes =
        rw config-IsLarge.built (rw (lt→ltb _ _ (messages_several many config-IsLarge)) refl)

-- With the number of the source.
five_thousand_split :
    ⦃c : Crates⦄ (lengths : LengthLaws c) (sizes : Sizes)
    (room : c.nla_header_size + (c.nla_alignto - 1) < 2 ^ 16) (peer_key : IsKey peer_public_key)
    (device_key : IsKey device_private_key) (buffer_len : WireguardAttribute → ℕ)
    → BufferLaws buffer_len
    → build_messages_splits_large_peer buffer_len 5000 ≡ true
five_thousand_split lengths sizes room peer_key device_key buffer_len laws =
    build_messages_splits_large_peer_passes lengths sizes room peer_key device_key 5000
      (omega arith) buffer_len laws
