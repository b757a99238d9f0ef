-- ===== src/Secrets/Peers.antt =====
-- `decode_key` and `build` of src/peer_parsed.rs at peers that agree but for the preshared key.
use nl_wireguard.Base.{
  ◌≡◌, refl, ap, ◌∙◌, String, Option, none, some, length, ◌==◌, Bool-cases, inl, inr, Option-cases,
}
use nl_wireguard.Packet.{WireguardPeerAttribute}
use nl_wireguard.Crates.{Crates}
use nl_wireguard.Error.{ok}
use nl_wireguard.Redact.{fill_zero, redact_peer_attribute}
use nl_wireguard.Redact.Guarantees.{fill_zero_same}
use nl_wireguard.Key.{decode_key}
use nl_wireguard.Handle.Building.{Decoded-cases}
use nl_wireguard.Peer.{
  WireguardPeerParsed, key_attribute, allowed_ips_attribute, attributes_after_keys,
  attributes_after_ips, pushed, build_holding, build,
}
use nl_wireguard.Secrets.{mask_peer, SameDecoded, SameKey, AlikePeer}
use nl_wireguard.Secrets.Chains.{map_result, chain, chain_same, map_behind, map_before}

module _ ⦃c : Crates⦄ where
  pub decode_key_alike :
      (prop_name key other : String)
      → SameDecoded (c.decode key) (c.decode other)
      → map_result fill_zero (decode_key prop_name key)
        ≡ map_result fill_zero (decode_key prop_name other)
  unfolding decode_key
  decode_key_alike prop_name key other h = elim (Decoded-cases (c.decode key)) [
    | inl (bytes, e) ↦ elim (Decoded-cases (c.decode other)) [
      | inl (more, f) ↦
          let same : length bytes ≡ length more = rw (e, f) at h in
          elim (Bool-cases (length more == c.wg_key_len)) [
            | inl fits ↦ rw (e, f, same, fits, decode_key) (ap ok (fill_zero_same bytes more same))
            | inr long ↦ rw (e, f, same, long, decode_key) refl
          ]
      | inr (text, f) ↦ absurd (rw (e, f) at h)
    ]
    | inr (text, e) ↦ elim (Decoded-cases (c.decode other)) [
      | inl (bytes, f) ↦ absurd (rw (e, f) at h)
      | inr (other_text, f) ↦
          let same : text ≡ other_text = rw (e, f) at h in rw (e, f, same, decode_key) refl
    ]
  ]

  preshared_alike :
      (prop_name : String) (key other : Option String)
      → SameKey key other
      → map_result mask_peer (key_attribute prop_name WireguardPeerAttribute.preshared_key key)
        ≡ map_result mask_peer (key_attribute prop_name WireguardPeerAttribute.preshared_key other)
  unfolding key_attribute redact_peer_attribute
  preshared_alike prop_name none none h = refl
  preshared_alike prop_name none (some other) h = absurd h
  preshared_alike prop_name (some key) none h = absurd h
  preshared_alike prop_name (some key) (some other) h =
      chain fill_zero mask_peer (decode_key prop_name key) (decode_key prop_name other) _ _
        (decode_key_alike prop_name key other h) (λ x y e. cc e)

  module _ (p : WireguardPeerParsed) (key other : Option String) (h : SameKey key other) where
    holding_alike :
        (v : String)
        → map_result mask_peer (build_holding (record p { preshared_key = key }) v)
          ≡ map_result mask_peer (build_holding (record p { preshared_key = other }) v)
    unfolding build_holding attributes_after_keys attributes_after_ips
    holding_alike v = chain_same mask_peer (key_attribute _ _ (some v)) _ _ (λ public.
        chain mask_peer mask_peer (key_attribute _ _ key) (key_attribute _ _ other) _ _
          (preshared_alike _ key other h)
          (λ x y same. chain_same mask_peer (allowed_ips_attribute p.allowed_ips) _ _ (λ ips.
            ap ok (
              map_behind redact_peer_attribute (pushed WireguardPeerAttribute.endpoint p.endpoint) _
                _
                (map_behind redact_peer_attribute public _ _
                  (map_before redact_peer_attribute x y _ same))))))

    with_key_alike :
        map_result mask_peer (build (record p { preshared_key = key }))
        ≡ map_result mask_peer (build (record p { preshared_key = other }))
    unfolding build
    with_key_alike = elim (Option-cases p.public_key) [
      | inl absent ↦ rw (absent, build) refl
      | inr (v, there) ↦ rw (there, build) (holding_alike v)
    ]

  pub build_alike :
      (p q : WireguardPeerParsed)
      → AlikePeer p q
      → map_result mask_peer (build p) ≡ map_result mask_peer (build q)
  build_alike p q h =
      let same : p ≡ record q { preshared_key = p.preshared_key } =
        ap (λ (r : WireguardPeerParsed). record r { preshared_key = p.preshared_key }) h.rest in
      ap (λ (r : WireguardPeerParsed). map_result mask_peer (build r)) same
      ∙ with_key_alike q p.preshared_key q.preshared_key h.key
