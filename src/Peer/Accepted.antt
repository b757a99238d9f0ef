-- ===== src/Peer/Accepted.antt =====
-- Which peers `build` of src/peer_parsed.rs accepts.
use nl_wireguard.Base.{
  ◌≤◌, ◌≡◌, refl, ◌↔◌, String, Option, none, some, List, [], ◌∷◌, ◌++◌, map, All, list_of,
  flatten_option, length, arith,
}
use nl_wireguard.Packet.{Bytes, WireguardPeerAttribute, WireguardPeer}
use nl_wireguard.Crates.{Crates, decoded}
use nl_wireguard.Error.{ok, ok_of_bind}
use nl_wireguard.Key.{decode_key}
use nl_wireguard.Key.Laws.{decoded_of_ok}
use nl_wireguard.AllowedIp.{WireguardIpAddress, validate, max_prefix_length, ip_attributes}
use nl_wireguard.AllowedIp.RoundTrip.{validate_iff}
use nl_wireguard.Peer.{
  WireguardPeerParsed, key_attribute, validate_all, allowed_ips_attribute, build_holding, build,
  pushed, attributes_after_keys, attributes_after_ips,
}
use nl_wireguard.Peer.Built.{built}

module _ ⦃c : Crates⦄ where
  -- The text is base64 of as many bytes as a key has.
  pub record IsKey (s : String) : Type 0 where
    pub bytes : Bytes
    pub decodes : c.decode s ≡ decoded bytes
    pub is_long : length bytes ≡ c.wg_key_len

  abbrev pub HasValidPrefix : WireguardIpAddress → Type 0
  HasValidPrefix ip = ip.prefix_length ≤ max_prefix_length ip.ip_addr

  pub record IsAcceptable (p : WireguardPeerParsed) : Type 0 where
    pub key : String
    pub has_key : p.public_key ≡ some key
    pub valid_key : IsKey key
    pub valid_preshared : All IsKey (list_of p.preshared_key)
    pub valid_ips : All HasValidPrefix (flatten_option p.allowed_ips)

  pub decode_key-IsKey : (name s : String) (bytes : Bytes) → decode_key name s ≡ ok bytes → IsKey s
  decode_key-IsKey name s bytes h =
      let (decodes, long) = decoded_of_ok name s bytes h in
      record { bytes = bytes; decodes = decodes; is_long = long }

  pub key_accepted : (name s : String) (k : IsKey s) → decode_key name s ≡ ok k.bytes
  unfolding decode_key
  key_accepted name s k = rw (k.decodes, decode_key) (ground (arith, k.is_long))

  attribute_keys :
      (name : String) (make : Bytes → WireguardPeerAttribute) (o : Option String)
      (attrs : List WireguardPeerAttribute)
      → key_attribute name make o ≡ ok attrs
      → All IsKey (list_of o)
  unfolding key_attribute
  attribute_keys name make none attrs h = tt
  attribute_keys name make (some v) attrs h =
      let (bytes, e, r) = ok_of_bind (decode_key name v) _ h in
      (decode_key-IsKey name v bytes e, tt)

  keys_accepted :
      (name : String) (make : Bytes → WireguardPeerAttribute) (o : Option String)
      → All IsKey (list_of o)
      → (attrs : List WireguardPeerAttribute) × (key_attribute name make o ≡ ok attrs)
  unfolding key_attribute
  keys_accepted name make none h = ([], refl)
  keys_accepted name make (some v) h = (make h.0.bytes ∷ [], rw (key_accepted name v h.0) refl)

  validated : (ips : List WireguardIpAddress) → validate_all ips ≡ ok tt → All HasValidPrefix ips
  unfolding validate_all
  validated [] h = tt
  validated (ip ∷ ips) h =
      let (u, here, later) = ok_of_bind (validate ip) (λ _. validate_all ips) h in
      ((validate_iff ip).0 here, validated ips later)

  pub validates :
      (ips : List WireguardIpAddress) → All HasValidPrefix ips → validate_all ips ≡ ok tt
  unfolding validate_all
  validates [] h = refl
  validates (ip ∷ ips) h = rw ((validate_iff ip).1 h.0) (validates ips h.1)

  ips_validated :
      (o : Option (List WireguardIpAddress)) (attrs : List WireguardPeerAttribute)
      → allowed_ips_attribute o ≡ ok attrs
      → All HasValidPrefix (flatten_option o)
  unfolding allowed_ips_attribute
  ips_validated none attrs h = tt
  ips_validated (some ips) attrs h =
      let (u, e, r) = ok_of_bind (validate_all ips) _ h in validated ips e

  ips_accepted :
      (o : Option (List WireguardIpAddress))
      → All HasValidPrefix (flatten_option o)
      → (attrs : List WireguardPeerAttribute) × (allowed_ips_attribute o ≡ ok attrs)
  unfolding allowed_ips_attribute
  ips_accepted none h = ([], refl)
  ips_accepted (some ips) h =
      (WireguardPeerAttribute.allowed_ips (map ip_attributes ips) ∷ [], rw (validates ips h) refl)

  acceptable :
      (p : WireguardPeerParsed) (attrs : WireguardPeer) → build p ≡ ok attrs → IsAcceptable p
  acceptable p attrs h =
      let b = built p attrs h in
      record {
        key = b.key;
        has_key = b.holds_key;
        valid_key = (attribute_keys _ _ (some b.key) b.public b.made_public).0;
        valid_preshared = attribute_keys _ _ p.preshared_key b.preshared b.made_preshared;
        valid_ips = ips_validated p.allowed_ips b.ips b.made_ips;
      }

  accepted :
      (p : WireguardPeerParsed) → IsAcceptable p → (attrs : WireguardPeer) × (build p ≡ ok attrs)
  unfolding build build_holding
  accepted p a =
      let (public, made_public) =
        keys_accepted "peer.public_key" WireguardPeerAttribute.public_key (some a.key)
          (a.valid_key, tt) in
      let (preshared, made_preshared) =
        keys_accepted "peer.preshared_key" WireguardPeerAttribute.preshared_key p.preshared_key
          a.valid_preshared in
      let (ips, made_ips) = ips_accepted p.allowed_ips a.valid_ips in
      (
        pushed WireguardPeerAttribute.endpoint p.endpoint
            ++ (public
                ++ (preshared ++ (attributes_after_keys p ++ (ips ++ attributes_after_ips p)))),
        rw (a.has_key, build, made_public, made_preshared, made_ips) refl,
      )

  -- A peer is built exactly if it has a public key, its public key and its preshared key, if any,
  -- are base64 of as many bytes as a key has, and no allowed IP has a longer prefix than its
  -- address family allows.
  pub build_iff :
      (p : WireguardPeerParsed) → ((attrs : WireguardPeer) × (build p ≡ ok attrs)) ↔ IsAcceptable p
  build_iff p = (λ (attrs, h). acceptable p attrs h, accepted p)
