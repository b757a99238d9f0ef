-- ===== src/Peer/Parsing.antt =====
-- What `parse_peer` makes of the attributes that each part of `build` writes (src/peer_parsed.rs).
use mathlib.Core.Option
use nl_wireguard.Base.{
  ℕ, ◌≡◌, refl, ap, ◌<◌, ◌^◌, String, Bool, false, ◌&&◌, Option, none, some, List, [], ◌∷◌, map,
  all, inl, inr, Bool-cases, or_keep, if◌then◌else◌, ltb, ◌==◌, arith,
}
use nl_wireguard.Base.Folds.{FoldsTo, ◌then◌}
use nl_wireguard.Packet.{Bytes, SocketAddr, Duration, WireguardPeerAttribute}
use nl_wireguard.Crates.{Crates, Base64Laws, decoded, invalid}
use nl_wireguard.Error.{ok, ok_of_bind}
use nl_wireguard.Key.{decode_key}
use nl_wireguard.Key.Laws.{decoded_of_ok}
use nl_wireguard.Flags.{WireguardParsedPeerFlags, parse_peer_flags, build_peer_flags}
use nl_wireguard.AllowedIp.{WireguardIpAddress, ip_attributes}
use nl_wireguard.AllowedIp.RoundTrip.{normal_ip, try_from-ip_attributes}
use nl_wireguard.Peer.{
  WireguardPeerParsed, nanos_per_second, parse_handshake, parse_allowed_ips, parse_preshared_key,
  add_attribute, key_attribute, allowed_ips_attribute, time_spec, pushed, attributes_after_keys,
  attributes_after_ips, validate_all,
}

-- What std::time guarantees of a duration.
abbrev pub IsDuration : Option Duration → Type 0
IsDuration none = Unit
IsDuration (some d) = (d.as_secs < 2 ^ 64) × (d.subsec_nanos < nanos_per_second)

abbrev pub normal_handshake : Option Duration → Option Duration
normal_handshake none = none
normal_handshake (some d) =
    if d.as_secs == 0 && d.subsec_nanos == 0
    then none
    else if ltb d.as_secs (2 ^ 63)
    then some d
    else none

pub or_keep-none : {A : Type 0} (o : Option A) → or_keep o none ≡ o
or_keep-none none = refl
or_keep-none (some a) = refl

handshake_back :
    (d : Duration)
    → IsDuration (some d)
    → parse_handshake none (time_spec d) ≡ normal_handshake (some d)
unfolding parse_handshake
handshake_back d h = ground arith

-- What an attribute list of one field does to a peer.
module _ ⦃c : Crates⦄ where
  -- Parsing `attrs` takes the peer `s` to `t`.
  abbrev pub Yields :
      WireguardPeerParsed → List WireguardPeerAttribute → WireguardPeerParsed → Type 0
  Yields = FoldsTo add_attribute

  pub fold_endpoint :
      (s : WireguardPeerParsed) (o : Option SocketAddr)
      → Yields s
          (pushed WireguardPeerAttribute.endpoint o)
          (record s { endpoint = or_keep o s.endpoint })
  unfolding add_attribute
  fold_endpoint s none = record { result = refl }
  fold_endpoint s (some v) = record { result = refl }

  fold_keepalive :
      (s : WireguardPeerParsed) (o : Option ℕ)
      → Yields s
          (pushed WireguardPeerAttribute.persistent_keepalive o)
          (record s { persistent_keepalive = or_keep o s.persistent_keepalive })
  unfolding add_attribute
  fold_keepalive s none = record { result = refl }
  fold_keepalive s (some v) = record { result = refl }

  fold_rx :
      (s : WireguardPeerParsed) (o : Option ℕ)
      → Yields s
          (pushed WireguardPeerAttribute.rx_bytes o)
          (record s { rx_bytes = or_keep o s.rx_bytes })
  unfolding add_attribute
  fold_rx s none = record { result = refl }
  fold_rx s (some v) = record { result = refl }

  fold_tx :
      (s : WireguardPeerParsed) (o : Option ℕ)
      → Yields s
          (pushed WireguardPeerAttribute.tx_bytes o)
          (record s { tx_bytes = or_keep o s.tx_bytes })
  unfolding add_attribute
  fold_tx s none = record { result = refl }
  fold_tx s (some v) = record { result = refl }

  fold_version :
      (s : WireguardPeerParsed) (o : Option ℕ)
      → Yields s
          (pushed WireguardPeerAttribute.protocol_version o)
          (record s { protocol_version = or_keep o s.protocol_version })
  unfolding add_attribute
  fold_version s none = record { result = refl }
  fold_version s (some v) = record { result = refl }

  -- Flags in the order in which the bit set lists them.
  abbrev pub normal_peer_flags :
      Option (List WireguardParsedPeerFlags) → Option (List WireguardParsedPeerFlags)
  normal_peer_flags = Option.map (λ flags. parse_peer_flags (build_peer_flags flags))

  fold_flags :
      (s : WireguardPeerParsed) (o : Option (List WireguardParsedPeerFlags))
      → Yields s
          (pushed (λ fs. WireguardPeerAttribute.flags (build_peer_flags fs)) o)
          (record s { flags = or_keep (normal_peer_flags o) s.flags })
  unfolding add_attribute
  fold_flags s none = record { result = refl }
  fold_flags s (some v) = record { result = refl }

  fold_handshake :
      (s : WireguardPeerParsed) (o : Option Duration)
      → s.last_handshake ≡ none
      → IsDuration o
      → Yields s
          (pushed (λ v. WireguardPeerAttribute.last_handshake (time_spec v)) o)
          (record s { last_handshake = normal_handshake o })
  unfolding add_attribute
  fold_handshake s none e h = record { result = cc e }
  fold_handshake s (some d) e h = record {
    result =
        ap (λ (o : Option Duration). record s { last_handshake = o }) (rw e (handshake_back d h));
  }

  -- A preshared key of zeros stands for none.
  is_zero_key : String → Bool
  is_zero_key v = elim (c.decode v) [
    | decoded key ↦ all (λ byte. byte == 0) key
    | invalid e ↦ false
  ]

  pub normal_preshared_key : Option String → Option String
  unfolding is_zero_key
  normal_preshared_key none = none
  normal_preshared_key (some v) = if is_zero_key v then none else some v

  pub preshared_none : normal_preshared_key none ≡ none
  unfolding normal_preshared_key
  preshared_none = refl

  module _ (base64 : Base64Laws c) where
    pub preshared_kept :
        (v : Bytes) → normal_preshared_key (parse_preshared_key v) ≡ parse_preshared_key v
    unfolding normal_preshared_key is_zero_key parse_preshared_key
    preshared_kept v = elim (Bool-cases (all (λ byte. byte == 0) v)) [
      | inl zeros ↦ rw (zeros, parse_preshared_key) refl
      | inr key ↦
          let same : is_zero_key (c.encode v) ≡ false =
            rw (base64.decode-encode v, is_zero_key) key in
          rw (key, parse_preshared_key) (rw (same, normal_preshared_key) refl)
    ]

    pub fold_public_key :
        (s : WireguardPeerParsed) (v : String) (attrs : List WireguardPeerAttribute)
        → key_attribute "peer.public_key" WireguardPeerAttribute.public_key (some v) ≡ ok attrs
        → Yields s attrs (record s { public_key = some v })
    unfolding add_attribute key_attribute
    fold_public_key s v attrs h =
        let (key, e, r) = ok_of_bind (decode_key "peer.public_key" v) _ h in
        let d = (decoded_of_ok _ _ _ e).0 in
        let made : (WireguardPeerAttribute.public_key key ∷ []) ≡ attrs = cc r in
        record { result = rw (← made) (cc (base64.encode-decode v key d)) }

    pub fold_preshared_key :
        (s : WireguardPeerParsed) (o : Option String) (attrs : List WireguardPeerAttribute)
        → s.preshared_key ≡ none
        → key_attribute "peer.preshared_key" WireguardPeerAttribute.preshared_key o ≡ ok attrs
        → Yields s attrs (record s { preshared_key = normal_preshared_key o })
    unfolding add_attribute key_attribute normal_preshared_key is_zero_key parse_preshared_key
    fold_preshared_key s none attrs n h =
        let made : [] ≡ attrs = cc h in record { result = rw (← made) (cc n) }
    fold_preshared_key s (some v) attrs n h =
        let (key, e, r) = ok_of_bind (decode_key "peer.preshared_key" v) _ h in
        let d = (decoded_of_ok _ _ _ e).0 in
        let made : (WireguardPeerAttribute.preshared_key key ∷ []) ≡ attrs = cc r in
        record {
          result = rw (← made) (
              ap (λ (k : Option String). record s { preshared_key = k })
                (rw (base64.encode-decode v key d) (rw (d, is_zero_key))));
        }

  pub valid_ips :
      (ips : List WireguardIpAddress)
      → parse_allowed_ips (map ip_attributes ips) ≡ map normal_ip ips
  unfolding parse_allowed_ips
  valid_ips [] = refl
  valid_ips (ip ∷ ips) = rw (try_from-ip_attributes ip, parse_allowed_ips) (rw (valid_ips ips))

  pub fold_ips :
      (s : WireguardPeerParsed) (o : Option (List WireguardIpAddress))
      (attrs : List WireguardPeerAttribute)
      → s.allowed_ips ≡ none
      → allowed_ips_attribute o ≡ ok attrs
      → Yields s attrs (record s { allowed_ips = Option.map (map normal_ip) o })
  unfolding add_attribute allowed_ips_attribute
  fold_ips s none attrs n h = let made : [] ≡ attrs = cc h in record { result = rw (← made) (cc n) }
  fold_ips s (some ips) attrs n h =
      let (u, e, r) = ok_of_bind (validate_all ips) _ h in
      let made : (WireguardPeerAttribute.allowed_ips (map ip_attributes ips) ∷ []) ≡ attrs = cc r in
      record { result = rw (← made) (cc (valid_ips ips)) }

  abbrev pub normal_peer : WireguardPeerParsed → WireguardPeerParsed
  normal_peer p = record p {
    preshared_key = normal_preshared_key p.preshared_key;
    last_handshake = normal_handshake p.last_handshake;
    allowed_ips = Option.map (map normal_ip) p.allowed_ips;
    flags = normal_peer_flags p.flags;
  }

  pub fold_after_keys :
      (s p : WireguardPeerParsed)
      → s.last_handshake ≡ none
      → IsDuration p.last_handshake
      → Yields s (attributes_after_keys p) (record s {
        persistent_keepalive = or_keep p.persistent_keepalive s.persistent_keepalive;
        last_handshake = normal_handshake p.last_handshake;
        rx_bytes = or_keep p.rx_bytes s.rx_bytes;
        tx_bytes = or_keep p.tx_bytes s.tx_bytes;
      })
  unfolding attributes_after_keys
  fold_after_keys s p e h =
      fold_keepalive s p.persistent_keepalive
      then (fold_handshake _ p.last_handshake e h
          then (fold_rx _ p.rx_bytes then fold_tx _ p.tx_bytes))

  pub fold_after_ips :
      (s p : WireguardPeerParsed)
      → Yields s (attributes_after_ips p) (record s {
        protocol_version = or_keep p.protocol_version s.protocol_version;
        flags = or_keep (normal_peer_flags p.flags) s.flags;
      })
  unfolding attributes_after_ips
  fold_after_ips s p = fold_version s p.protocol_version then fold_flags _ p.flags
