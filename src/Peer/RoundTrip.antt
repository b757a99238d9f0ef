-- ===== src/Peer/RoundTrip.antt =====
-- `parse_peer` on the attributes that `build` writes (src/peer_parsed.rs).
use nl_wireguard.Base.{◌≡◌, refl, ◌∙◌, String, some, List, ◌++◌, if◌then◌else◌}
use nl_wireguard.Base.Folds.{◌then◌}
use nl_wireguard.Packet.{WireguardPeerAttribute, WireguardPeer}
use nl_wireguard.Crates.{Crates, Base64Laws}
use nl_wireguard.Error.{ok}
use nl_wireguard.Peer.Built.{built}
use nl_wireguard.Peer.{
  WireguardPeerParsed, default_peer, parse_peer, key_attribute, allowed_ips_attribute, pushed,
  attributes_after_keys, attributes_after_ips, build,
}
use nl_wireguard.Peer.Parsing.{
  IsDuration, normal_peer, normal_peer_flags, or_keep-none, fold_endpoint, fold_public_key,
  fold_preshared_key, fold_after_keys, fold_ips, fold_after_ips,
}

module _ ⦃c : Crates⦄ where
  module _ (base64 : Base64Laws c) (p : WireguardPeerParsed)
      (valid : IsDuration p.last_handshake) where
    parse_parts :
        (v : String) (public preshared ips : List WireguardPeerAttribute)
        → key_attribute "peer.public_key" WireguardPeerAttribute.public_key (some v) ≡ ok public
        → key_attribute "peer.preshared_key" WireguardPeerAttribute.preshared_key p.preshared_key
          ≡ ok preshared
        → allowed_ips_attribute p.allowed_ips ≡ ok ips
        → parse_peer (
            pushed WireguardPeerAttribute.endpoint p.endpoint
            ++ (public
                ++ (preshared ++ (attributes_after_keys p ++ (ips ++ attributes_after_ips p)))))
          ≡ record (normal_peer p) { public_key = some v }
    unfolding parse_peer
    parse_parts v public preshared ips made_public made_preshared made_ips =
        (fold_endpoint default_peer p.endpoint
          then (fold_public_key base64 _ v public made_public
              then (fold_preshared_key base64 _ p.preshared_key preshared refl made_preshared
                  then (fold_after_keys _ p refl valid
                      then (fold_ips _ p.allowed_ips ips refl made_ips
                          then fold_after_ips _ p))))).result
        ∙ cc (
          or_keep-none p.endpoint,
          or_keep-none p.persistent_keepalive,
          or_keep-none p.rx_bytes,
          or_keep-none p.tx_bytes,
          or_keep-none p.protocol_version,
          or_keep-none (normal_peer_flags p.flags),
        )

    -- Parsing the attributes that `build` wrote gives the peer again, except that a preshared key
    -- of zeros and a last handshake at time zero or after 2^63 seconds are dropped, and that flags
    -- come in the order of their bit sets. It is assumed that base64 keeps bytes and accepts only
    -- the text that it writes, and that the duration is one that std::time allows.
    pub parse_peer-build :
        (attrs : WireguardPeer) → build p ≡ ok attrs → parse_peer attrs ≡ normal_peer p
    parse_peer-build attrs h =
        let b = built p attrs h in
        let parsed =
          parse_parts b.key b.public b.preshared b.ips b.made_public b.made_preshared b.made_ips in
        cc (parsed, b.whole, b.holds_key)
