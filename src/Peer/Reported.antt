-- ===== src/Peer/Reported.antt =====
-- The peers that `From<WireguardPeer>` of src/peer_parsed.rs makes of what a kernel reports.
use mathlib.Core.List.{foldl}
use mathlib.Core.Option
use nl_wireguard.Base.{
  ◌<◌, ◌^◌, ◌≡◌, refl, ap, ◌∙◌, inl, inr, String, Option, some, List, [], ◌∷◌, map, All, list_of,
  flatten_option, length, all, ◌==◌, Bool-cases, arith,
}
use nl_wireguard.Base.Int.{ℤ, pos, negsuc}
use nl_wireguard.Packet.{
  Bytes, Duration, WireguardTimeSpec, WireguardAllowedIpAttr, WireguardAllowedIp,
  WireguardPeerAttribute, WireguardPeer,
}
use nl_wireguard.Crates.{Crates, Base64Laws, FlagLaws}
use nl_wireguard.Error.{Result, ok, err, Result-cases}
use nl_wireguard.Flags.{WireguardParsedAllowedIpFlags, parse_peer_flags, parse_ip_flags}
use nl_wireguard.Flags.Lossless.{peer_flags_back, ip_flags_back}
use nl_wireguard.AllowedIp.{WireguardIpAddress, IpParts, no_parts, add_part, whole, try_from}
use nl_wireguard.AllowedIp.RoundTrip.{normal_flags, normal_ip}
use nl_wireguard.Peer.{
  WireguardPeerParsed, default_peer, parse_handshake, parse_allowed_ips, parse_preshared_key,
  add_attribute, parse_peer, build,
}
use nl_wireguard.Peer.Parsing.{
  IsDuration, normal_handshake, normal_preshared_key, normal_peer_flags, preshared_kept,
  preshared_none,
}
use nl_wireguard.Peer.RoundTrip.{parse_peer-build}
use nl_wireguard.Peer.Accepted.{IsAcceptable, IsKey, HasValidPrefix, build_iff}

-- What fits into an `i64`.
abbrev pub IsI64 : ℤ → Type 0
IsI64 (pos n) = n < 2 ^ 63
IsI64 (negsuc n) = n < 2 ^ 63

HandshakeKept : Option Duration → Type 0
HandshakeKept o = IsDuration o × (normal_handshake o ≡ o)

handshake_kept :
    (old : Option Duration) (v : WireguardTimeSpec)
    → IsI64 v.seconds
    → HandshakeKept old
    → HandshakeKept (parse_handshake old v)
unfolding parse_handshake HandshakeKept
handshake_kept old v h k = ground arith

module _ ⦃c : Crates⦄ where
  -- An address that has a valid prefix, if it can be parsed.
  abbrev pub IsValidIp : Result WireguardIpAddress → Type 0
  IsValidIp (ok ip) = HasValidPrefix ip
  IsValidIp (err e) = Unit

  -- An attribute as a kernel writes it: keys have the length of keys, seconds fit into 64 bits and
  -- addresses have valid prefixes.
  abbrev pub IsValid : WireguardPeerAttribute → Type 0
  IsValid (WireguardPeerAttribute.public_key v) = length v ≡ c.wg_key_len
  IsValid (WireguardPeerAttribute.preshared_key v) = length v ≡ c.wg_key_len
  IsValid (WireguardPeerAttribute.last_handshake v) = IsI64 v.seconds
  IsValid (WireguardPeerAttribute.allowed_ips ips) = All (λ ip. IsValidIp (try_from ip)) ips
  IsValid _ = Unit

  whole_flags :
      (parts : IpParts) (ip : WireguardIpAddress) → whole parts ≡ ok ip → parts.flags ≡ ip.flags
  unfolding whole
  whole_flags parts ip h = ground arith

  ips_valid :
      (ips : List WireguardAllowedIp)
      → All (λ ip. IsValidIp (try_from ip)) ips
      → All HasValidPrefix (parse_allowed_ips ips)
  unfolding parse_allowed_ips
  ips_valid [] h = tt
  ips_valid (attrs ∷ ips) h = elim (Result-cases (try_from attrs)) [
    | inl (ip, parsed) ↦
        let fits : HasValidPrefix ip = rw parsed at h.0 in
        rw (parsed, parse_allowed_ips) (fits, ips_valid ips h.1)
    | inr (e, failed) ↦ rw (failed, parse_allowed_ips) (ips_valid ips h.1)
  ]

  HasValidParts : WireguardPeerParsed → Type 0
  HasValidParts p =
      All IsKey (list_of p.public_key)
      × All IsKey (list_of p.preshared_key)
      × All HasValidPrefix (flatten_option p.allowed_ips)

  module _ (base64 : Base64Laws c) where
    pub encoded-IsKey : (v : Bytes) → length v ≡ c.wg_key_len → IsKey (c.encode v)
    encoded-IsKey v h = record { bytes = v; decodes = base64.decode-encode v; is_long = h }

    preshared-IsKey :
        (v : Bytes) → length v ≡ c.wg_key_len → All IsKey (list_of (parse_preshared_key v))
    unfolding parse_preshared_key
    preshared-IsKey v h = elim (Bool-cases (all (λ byte. byte == 0) v)) [
      | inl zeros ↦ rw (zeros, parse_preshared_key) tt
      | inr key ↦ rw (key, parse_preshared_key) (encoded-IsKey v h, tt)
    ]

    add_attribute-HasValidParts :
        (p : WireguardPeerParsed) (attr : WireguardPeerAttribute)
        → HasValidParts p
        → IsValid attr
        → HasValidParts (add_attribute p attr)
    unfolding add_attribute HasValidParts
    add_attribute-HasValidParts p (WireguardPeerAttribute.public_key v) (k, s, i) valid =
        ((encoded-IsKey v valid, tt), s, i)
    add_attribute-HasValidParts p (WireguardPeerAttribute.preshared_key v) (k, s, i) valid =
        (k, preshared-IsKey v valid, i)
    add_attribute-HasValidParts p (WireguardPeerAttribute.allowed_ips ips) (k, s, i) valid =
        (k, s, ips_valid ips valid)
    add_attribute-HasValidParts p _ parts valid = parts

    parsed-HasValidParts :
        (p : WireguardPeerParsed) (attrs : WireguardPeer)
        → HasValidParts p
        → All IsValid attrs
        → HasValidParts (foldl add_attribute p attrs)
    parsed-HasValidParts p [] parts valid = parts
    parsed-HasValidParts p (attr ∷ attrs) parts valid =
        parsed-HasValidParts (add_attribute p attr) attrs
          (add_attribute-HasValidParts p attr parts valid.0) valid.1

    pub parse_peer-IsAcceptable :
        (attrs : WireguardPeer) (key : String)
        → (parse_peer attrs).public_key ≡ some key
        → All IsValid attrs
        → IsAcceptable (parse_peer attrs)
    unfolding parse_peer HasValidParts
    parse_peer-IsAcceptable attrs key has valid =
        let (keys, preshared, ips) = parsed-HasValidParts default_peer attrs (tt, tt, tt) valid in
        record {
          key = key;
          has_key = has;
          valid_key = (rw has at keys).0;
          valid_preshared = preshared;
          valid_ips = ips;
        }

  module _ (flag_laws : FlagLaws c) where
    part_kept :
        (parts : IpParts) (attr : WireguardAllowedIpAttr)
        → normal_flags parts.flags ≡ parts.flags
        → normal_flags (add_part parts attr).flags ≡ (add_part parts attr).flags
    unfolding add_part
    part_kept parts (WireguardAllowedIpAttr.flags bits) h =
        ap (λ b. some (parse_ip_flags b)) (ip_flags_back flag_laws bits)
    part_kept parts (WireguardAllowedIpAttr.ip_addr v) h = h
    part_kept parts (WireguardAllowedIpAttr.cidr v) h = h
    part_kept parts (WireguardAllowedIpAttr.family v) h = h
    part_kept parts (WireguardAllowedIpAttr.other kind v) h = h

    parts_kept :
        (parts : IpParts) (attrs : WireguardAllowedIp)
        → normal_flags parts.flags ≡ parts.flags
        → normal_flags (foldl add_part parts attrs).flags ≡ (foldl add_part parts attrs).flags
    parts_kept parts [] h = h
    parts_kept parts (attr ∷ attrs) h =
        parts_kept (add_part parts attr) attrs (part_kept parts attr h)

    ip_kept :
        (attrs : WireguardAllowedIp) (ip : WireguardIpAddress)
        → try_from attrs ≡ ok ip
        → normal_ip ip ≡ ip
    unfolding try_from whole
    ip_kept attrs ip h =
        let kept = parts_kept no_parts attrs refl in
        let same = whole_flags (foldl add_part no_parts attrs) ip h in
        ap (λ (o : Option (List WireguardParsedAllowedIpFlags)). record ip { flags = o })
          (rw same at kept)

    ips_kept :
        (ips : List WireguardAllowedIp)
        → map normal_ip (parse_allowed_ips ips) ≡ parse_allowed_ips ips
    unfolding parse_allowed_ips
    ips_kept [] = refl
    ips_kept (attrs ∷ ips) = elim (Result-cases (try_from attrs)) [
      | inl (ip, parsed) ↦
          rw (parsed, parse_allowed_ips) (cc (ip_kept attrs ip parsed, ips_kept ips))
      | inr (e, failed) ↦ rw (failed, parse_allowed_ips) (ips_kept ips)
    ]

    -- Parsing what `build` writes of the peer leaves it as it is.
    IsKept : WireguardPeerParsed → Type 0
    unfolding HandshakeKept
    IsKept p =
        (normal_preshared_key p.preshared_key ≡ p.preshared_key)
        × HandshakeKept p.last_handshake
        × (Option.map (map normal_ip) p.allowed_ips ≡ p.allowed_ips)
        × (normal_peer_flags p.flags ≡ p.flags)

    module _ (base64 : Base64Laws c) where
      add_attribute-IsKept :
          (p : WireguardPeerParsed) (attr : WireguardPeerAttribute)
          → IsKept p
          → IsValid attr
          → IsKept (add_attribute p attr)
      unfolding add_attribute IsKept
      add_attribute-IsKept p (WireguardPeerAttribute.preshared_key v) (s, h, i, f) valid =
          (preshared_kept base64 v, h, i, f)
      add_attribute-IsKept p (WireguardPeerAttribute.last_handshake v) (s, h, i, f) valid =
          (s, handshake_kept p.last_handshake v valid h, i, f)
      add_attribute-IsKept p (WireguardPeerAttribute.allowed_ips ips) (s, h, i, f) valid =
          (s, h, ap some (ips_kept ips), f)
      add_attribute-IsKept p (WireguardPeerAttribute.flags bits) (s, h, i, f) valid =
          (s, h, i, ap (λ b. some (parse_peer_flags b)) (peer_flags_back flag_laws bits))
      add_attribute-IsKept p _ kept valid = kept

      parsed-IsKept :
          (p : WireguardPeerParsed) (attrs : WireguardPeer)
          → IsKept p
          → All IsValid attrs
          → IsKept (foldl add_attribute p attrs)
      parsed-IsKept p [] kept valid = kept
      parsed-IsKept p (attr ∷ attrs) kept valid =
          parsed-IsKept (add_attribute p attr) attrs (add_attribute-IsKept p attr kept valid.0)
            valid.1

      -- What was reported can be set again: a peer that is parsed from attributes as a kernel
      -- writes them, with a public key among them, is one that `build` accepts, and what `build`
      -- makes of it parses to the very same peer. In such attributes keys have the length of keys,
      -- the seconds of the last handshake fit into 64 bits, and addresses that can be parsed have
      -- valid prefixes. It is assumed that base64 keeps bytes and accepts only the text that it
      -- writes, and that the flags which iteration yields make up the set.
      pub build-parse_peer :
          (attrs : WireguardPeer) (key : String)
          → (parse_peer attrs).public_key ≡ some key
          → All IsValid attrs
          → (again : WireguardPeer) × (build (parse_peer attrs) ≡ ok again)
            × (parse_peer again ≡ parse_peer attrs)
      unfolding parse_peer IsKept HandshakeKept
      build-parse_peer attrs key has valid =
          let p = parse_peer attrs in
          let (same_preshared, (duration, same_handshake), same_ips, same_flags) =
            parsed-IsKept default_peer attrs (preshared_none, (tt, refl), refl, refl) valid in
          let (again, built) =
            (build_iff p).1 (parse_peer-IsAcceptable base64 attrs key has valid) in
          (
            again,
            built,
            parse_peer-build base64 p duration again built
                ∙ cc (same_preshared, same_handshake, same_ips, same_flags),
          )
