-- ===== src/Peer/Built.antt =====
-- What a peer holds that `build` accepts: the parts that its attributes consist of.
use nl_wireguard.Base.{◌≡◌, refl, String, Option, none, some, List, [], ◌∷◌, ◌++◌}
use nl_wireguard.Key.{decode_key}
use nl_wireguard.Packet.{Bytes, WireguardPeerAttribute, WireguardPeer}
use nl_wireguard.Crates.{Crates}
use nl_wireguard.Error.{ok, ok_of_bind}
use nl_wireguard.Peer.{
  WireguardPeerParsed, key_attribute, allowed_ips_attribute, pushed, attributes_after_keys,
  attributes_after_ips, build_holding, build,
}

module _ ⦃c : Crates⦄ where
  pub record Built (p : WireguardPeerParsed) (attrs : WireguardPeer) : Type 0 where
    pub key : String
    pub public : List WireguardPeerAttribute
    pub preshared : List WireguardPeerAttribute
    pub ips : List WireguardPeerAttribute
    pub holds_key : p.public_key ≡ some key
    pub made_public :
        key_attribute "peer.public_key" WireguardPeerAttribute.public_key (some key) ≡ ok public
    pub made_preshared :
        key_attribute "peer.preshared_key" WireguardPeerAttribute.preshared_key p.preshared_key
        ≡ ok preshared
    pub made_ips : allowed_ips_attribute p.allowed_ips ≡ ok ips
    pub whole :
        (pushed WireguardPeerAttribute.endpoint p.endpoint
          ++ (public
              ++ (preshared ++ (attributes_after_keys p ++ (ips ++ attributes_after_ips p)))))
        ≡ attrs

  build_holding-Built :
      (p : WireguardPeerParsed) (v : String) (attrs : WireguardPeer)
      → p.public_key ≡ some v
      → build_holding p v ≡ ok attrs
      → Built p attrs
  unfolding build_holding
  build_holding-Built p v attrs e h =
      let (public, made_public, h1) = ok_of_bind (key_attribute _ _ _) _ h in
      let (preshared, made_preshared, h2) = ok_of_bind (key_attribute _ _ _) _ h1 in
      let (ips, made_ips, h3) = ok_of_bind (allowed_ips_attribute _) _ h2 in
      record {
        key = v;
        public = public;
        preshared = preshared;
        ips = ips;
        holds_key = e;
        made_public = made_public;
        made_preshared = made_preshared;
        made_ips = made_ips;
        whole = cc h3;
      }

  build-Built_when :
      (o : Option String) (p : WireguardPeerParsed) (attrs : WireguardPeer)
      → p.public_key ≡ o
      → build p ≡ ok attrs
      → Built p attrs
  unfolding build
  build-Built_when none p attrs e h = cc ((rw (e, build) at h))
  build-Built_when (some v) p attrs e h = build_holding-Built p v attrs e (rw (e, build) at h)

  pub built : (p : WireguardPeerParsed) (attrs : WireguardPeer) → build p ≡ ok attrs → Built p attrs
  built p attrs = build-Built_when p.public_key p attrs refl

  -- The public key stands in the attributes, decoded.
  pub holds_public :
      (p : WireguardPeerParsed) (attrs : WireguardPeer) (b : Built p attrs)
      → (key : Bytes) × (b.public ≡ WireguardPeerAttribute.public_key key ∷ [])
        × (decode_key "peer.public_key" b.key ≡ ok key)
  unfolding key_attribute
  holds_public p attrs b =
      let (key, decoded_key, made) =
        ok_of_bind (decode_key "peer.public_key" b.key) _ b.made_public in
      (key, cc made, decoded_key)
