-- ===== src/Split/Parts.antt =====
-- What the first loop of `peer_chunks` finds in a peer that was built.
use mathlib.Core.List.{foldl}
use mathlib.Core.Option
use nl_wireguard.Base.{
  ◌≡◌, refl, ap, ◌∙◌, Bool, false, String, Option, none, some, List, [], ◌∷◌, ◌++◌, map, All,
  All-append, concat_map-append, flatten_option, append-nil, append_assoc,
}
use nl_wireguard.Base.Folds.{FoldsTo, ◌then◌}
use nl_wireguard.Packet.{Bytes, WireguardPeerAttribute, WireguardPeer}
use nl_wireguard.Crates.{Crates}
use nl_wireguard.Error.{ok, ok_of_bind}
use nl_wireguard.Key.{decode_key}
use nl_wireguard.Flags.{WireguardParsedPeerFlags, build_peer_flags}
use nl_wireguard.AllowedIp.{WireguardIpAddress, ip_attributes}
use nl_wireguard.Peer.{
  WireguardPeerParsed, key_attribute, allowed_ips_attribute, validate_all, pushed,
  attributes_after_keys, attributes_after_ips,
}
use nl_wireguard.Peer.Built.{Built}
use nl_wireguard.Split.Chunks.{ips_of, without_ips}
use nl_wireguard.Split.{PeerParts, no_parts, sort_attribute, find_public_key}

-- An attribute that is pushed onto the state and nothing else.
abbrev pub IsPlain : WireguardPeerAttribute → Type 0
IsPlain (WireguardPeerAttribute.allowed_ips ips) = ⊥
IsPlain (WireguardPeerAttribute.flags flags) = ⊥
IsPlain _ = Unit

pub pushed-IsPlain :
    {A : Type 0} (make : A → WireguardPeerAttribute) (o : Option A)
    → ((a : A) → IsPlain (make a))
    → All IsPlain (pushed make o)
pushed-IsPlain make none h = tt
pushed-IsPlain make (some a) h = (h a, tt)

module _ ⦃c : Crates⦄ where
  pub key_attribute-IsPlain :
      (name : String) (make : Bytes → WireguardPeerAttribute) (o : Option String)
      (attrs : List WireguardPeerAttribute)
      → ((key : Bytes) → IsPlain (make key))
      → key_attribute name make o ≡ ok attrs
      → All IsPlain attrs
  unfolding key_attribute
  key_attribute-IsPlain name make none attrs h e = let made : [] ≡ attrs = cc e in rw (← made) tt
  key_attribute-IsPlain name make (some v) attrs h e =
      let (key, d, r) = ok_of_bind (decode_key name v) _ e in
      let made : (make key ∷ []) ≡ attrs = cc r in rw (← made) (h key, tt)

  pub after_keys-IsPlain : (p : WireguardPeerParsed) → All IsPlain (attributes_after_keys p)
  unfolding attributes_after_keys
  after_keys-IsPlain p =
      All-append IsPlain _ _ (pushed-IsPlain _ p.persistent_keepalive (λ _. tt)) (
        All-append IsPlain _ _ (pushed-IsPlain _ p.last_handshake (λ _. tt)) (
          All-append IsPlain _ _ (pushed-IsPlain _ p.rx_bytes (λ _. tt))
            (pushed-IsPlain _ p.tx_bytes (λ _. tt))))

  -- The loop takes the parts `s` to `t`.
  abbrev Sorts : PeerParts → List WireguardPeerAttribute → PeerParts → Type 0
  Sorts = FoldsTo sort_attribute

  abbrev push_state : PeerParts → List WireguardPeerAttribute → PeerParts
  push_state s xs = record s { state_attributes = s.state_attributes ++ xs }

  sort_step :
      (s : PeerParts) (x : WireguardPeerAttribute)
      → IsPlain x
      → sort_attribute s x ≡ push_state s (x ∷ [])
  unfolding sort_attribute
  sort_step s (WireguardPeerAttribute.allowed_ips ips) h = absurd h
  sort_step s (WireguardPeerAttribute.flags flags) h = absurd h
  sort_step s _ h = refl

  sort_plain :
      (s : PeerParts) (xs : List WireguardPeerAttribute)
      → All IsPlain xs
      → Sorts s xs (push_state s xs)
  sort_plain s [] h = record { result = cc (append-nil s.state_attributes) }
  sort_plain s (x ∷ xs) h = record {
    result = rw (sort_step s x h.0) (
        (sort_plain (push_state s (x ∷ [])) xs h.1).result
        ∙ cc (append_assoc s.state_attributes (x ∷ []) xs));
  }

  sort_ips :
      (s : PeerParts) (o : Option (List WireguardIpAddress)) (attrs : List WireguardPeerAttribute)
      → s.allowed_ips ≡ none
      → allowed_ips_attribute o ≡ ok attrs
      → Sorts s attrs (record s { allowed_ips = Option.map (map ip_attributes) o })
  unfolding sort_attribute allowed_ips_attribute
  sort_ips s none attrs n h = let made : [] ≡ attrs = cc h in record { result = rw (← made) (cc n) }
  sort_ips s (some ips) attrs n h =
      let (u, e, r) = ok_of_bind (validate_all ips) _ h in
      let made : (WireguardPeerAttribute.allowed_ips (map ip_attributes ips) ∷ []) ≡ attrs = cc r in
      record { result = rw (← made) refl }

  -- Whether the flags of a peer remove it.
  abbrev pub removes : Option (List WireguardParsedPeerFlags) → Bool
  removes none = false
  removes (some fs) = c.peer_contains (build_peer_flags fs) c.peer_remove_me

  sort_flags :
      (s : PeerParts) (o : Option (List WireguardParsedPeerFlags))
      → s.remove_me ≡ false
      → Sorts s
          (pushed (λ fs. WireguardPeerAttribute.flags (build_peer_flags fs)) o)
          (record (push_state s
            (pushed (λ fs. WireguardPeerAttribute.flags (build_peer_flags fs)) o)) {
              remove_me = removes o;
            })
  unfolding sort_attribute
  sort_flags s none n = record { result = cc (append-nil s.state_attributes, n) }
  sort_flags s (some fs) n = record { result = refl }

  sort_after_ips :
      (s : PeerParts) (p : WireguardPeerParsed)
      → s.remove_me ≡ false
      → Sorts s
          (attributes_after_ips p)
          (record (push_state s (attributes_after_ips p)) { remove_me = removes p.flags })
  unfolding attributes_after_ips
  sort_after_ips s p n =
      let version = pushed WireguardPeerAttribute.protocol_version p.protocol_version in
      let plain =
        pushed-IsPlain WireguardPeerAttribute.protocol_version p.protocol_version (λ _. tt) in
      record {
        result =
            (sort_plain s version plain then sort_flags (push_state s version) p.flags n).result
            ∙ cc (append_assoc s.state_attributes version _);
      }

  -- All attributes but the allowed IPs, in their order.
  abbrev pub state_of :
      (p : WireguardPeerParsed) (attrs : WireguardPeer)
      → Built p attrs
      → List WireguardPeerAttribute
  state_of p attrs b =
      pushed WireguardPeerAttribute.endpoint p.endpoint
      ++ (b.public ++ (b.preshared ++ (attributes_after_keys p ++ attributes_after_ips p)))

  pub sorted :
      (p : WireguardPeerParsed) (attrs : WireguardPeer) (b : Built p attrs)
      → foldl sort_attribute no_parts attrs ≡ record {
        state_attributes = state_of p attrs b;
        allowed_ips = Option.map (map ip_attributes) p.allowed_ips;
        remove_me = removes p.flags;
      }
  sorted p attrs b =
      let endpoint = pushed WireguardPeerAttribute.endpoint p.endpoint in
      rw (← b.whole) (
        (sort_plain no_parts endpoint (pushed-IsPlain _ p.endpoint (λ _. tt))
          then (sort_plain _ b.public (key_attribute-IsPlain _ _ _ _ (λ _. tt) b.made_public)
              then (sort_plain _ b.preshared
                    (key_attribute-IsPlain _ _ _ _ (λ _. tt) b.made_preshared)
                  then (sort_plain _ (attributes_after_keys p) (after_keys-IsPlain p)
                      then (sort_ips _ p.allowed_ips b.ips refl b.made_ips
                          then sort_after_ips _ p refl))))).result
        ∙ simp append_assoc)

  find_skips :
      {A : Type 0} (make : A → WireguardPeerAttribute) (o : Option A) (key : Bytes)
      (attrs : List WireguardPeerAttribute)
      → ((a : A)
          → (xs : List WireguardPeerAttribute) → find_public_key (make a ∷ xs) ≡ find_public_key xs)
      → find_public_key (pushed make o ++ (WireguardPeerAttribute.public_key key ∷ attrs))
        ≡ some (WireguardPeerAttribute.public_key key)
  unfolding find_public_key
  find_skips make none key attrs h = refl
  find_skips make (some a) key attrs h = h a _

  pub finds_key :
      (p : WireguardPeerParsed) (attrs : WireguardPeer) (b : Built p attrs) (key : Bytes)
      → b.public ≡ WireguardPeerAttribute.public_key key ∷ []
      → find_public_key (state_of p attrs b) ≡ some (WireguardPeerAttribute.public_key key)
  unfolding find_public_key
  finds_key p attrs b key e =
      rw e (find_skips WireguardPeerAttribute.endpoint p.endpoint key _ (λ a xs. refl))

-- Attributes among which there are no allowed IPs.
abbrev pub HoldsNoIps : List WireguardPeerAttribute → Type 0
HoldsNoIps xs = (without_ips xs ≡ xs) × (ips_of xs ≡ [])

no_ips-append :
    (xs ys : List WireguardPeerAttribute)
    → HoldsNoIps xs
    → (without_ips (xs ++ ys) ≡ xs ++ without_ips ys) × (ips_of (xs ++ ys) ≡ ips_of ys)
no_ips-append xs ys h = (simp (concat_map-append, h.0), simp (concat_map-append, h.1))

plain_no_ips : (xs : List WireguardPeerAttribute) → All IsPlain xs → HoldsNoIps xs
plain_no_ips [] h = (refl, refl)
plain_no_ips (WireguardPeerAttribute.allowed_ips ips ∷ xs) h = absurd h.0
plain_no_ips (WireguardPeerAttribute.flags flags ∷ xs) h = absurd h.0
plain_no_ips (x ∷ xs) h = let ih = plain_no_ips xs h.1 in (ap (λ ys. x ∷ ys) ih.0, ih.1)

module _ ⦃c : Crates⦄ where
  flags_no_ips :
      (o : Option (List WireguardParsedPeerFlags))
      → HoldsNoIps (pushed (λ fs. WireguardPeerAttribute.flags (build_peer_flags fs)) o)
  flags_no_ips none = (refl, refl)
  flags_no_ips (some fs) = (refl, refl)

  pub after_ips_no_ips : (p : WireguardPeerParsed) → HoldsNoIps (attributes_after_ips p)
  unfolding attributes_after_ips
  after_ips_no_ips p =
      let version = pushed WireguardPeerAttribute.protocol_version p.protocol_version in
      let a =
        no_ips-append version _
          (plain_no_ips version (pushed-IsPlain _ p.protocol_version (λ _. tt))) in
      let f = flags_no_ips p.flags in (a.0 ∙ ap (λ ys. version ++ ys) f.0, a.1 ∙ f.1)

  ips_attribute :
      (o : Option (List WireguardIpAddress)) (xs ys : List WireguardPeerAttribute)
      → allowed_ips_attribute o ≡ ok xs
      → HoldsNoIps ys
      → (without_ips (xs ++ ys) ≡ ys)
        × (ips_of (xs ++ ys) ≡ flatten_option (Option.map (map ip_attributes) o))
  unfolding allowed_ips_attribute
  ips_attribute none xs ys h n = let made : [] ≡ xs = cc h in rw (← made) n
  ips_attribute (some ips) xs ys h n =
      let (u, e, r) = ok_of_bind (validate_all ips) _ h in
      let made : (WireguardPeerAttribute.allowed_ips (map ip_attributes ips) ∷ []) ≡ xs = cc r in
      rw (← made) (n.0, rw n.1 (append-nil _))

  pub parted :
      (p : WireguardPeerParsed) (attrs : WireguardPeer) (b : Built p attrs)
      → (without_ips attrs ≡ state_of p attrs b)
        × (ips_of attrs ≡ flatten_option (Option.map (map ip_attributes) p.allowed_ips))
  parted p attrs b =
      let a1 =
        no_ips-append _
          (b.public
            ++ (b.preshared ++ (attributes_after_keys p ++ (b.ips ++ attributes_after_ips p))))
          (plain_no_ips _ (pushed-IsPlain WireguardPeerAttribute.endpoint p.endpoint (λ _. tt))) in
      let a2 =
        no_ips-append _
          (b.preshared ++ (attributes_after_keys p ++ (b.ips ++ attributes_after_ips p)))
          (plain_no_ips _ (key_attribute-IsPlain _ _ _ _ (λ _. tt) b.made_public)) in
      let a3 =
        no_ips-append _ (attributes_after_keys p ++ (b.ips ++ attributes_after_ips p))
          (plain_no_ips _ (key_attribute-IsPlain _ _ _ _ (λ _. tt) b.made_preshared)) in
      let a4 =
        no_ips-append _ (b.ips ++ attributes_after_ips p) (plain_no_ips _ (after_keys-IsPlain p)) in
      let a5 =
        ips_attribute p.allowed_ips b.ips (attributes_after_ips p) b.made_ips
          (after_ips_no_ips p) in
      rw (← b.whole)
        (rw (a1.0, a2.0, a3.0, a4.0, a5.0) refl, a1.1 ∙ (a2.1 ∙ (a3.1 ∙ (a4.1 ∙ a5.1))))
