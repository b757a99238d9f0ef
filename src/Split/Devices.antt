-- ===== src/Split/Devices.antt =====
-- A device as the requests change it, and the peers whose chunks do what they do in one.
use nl_wireguard.Base.{
  ℕ, ◌≡◌, inl, inr, Bool, true, false, Option, none, some, List, [], ◌∷◌, ◌++◌, All, All-append,
  ◌⊎◌, String, if◌then◌else◌,
}
use nl_wireguard.Packet.{
  Bytes, WireguardAllowedIp, WireguardPeerAttribute, WireguardPeer, WireguardAttribute,
}
use nl_wireguard.Crates.{Crates}
use nl_wireguard.Flags.{WireguardParsedPeerFlags, build_peer_flags}
use nl_wireguard.AllowedIp.{WireguardIpAddress}
use nl_wireguard.Peer.{WireguardPeerParsed, pushed, attributes_after_ips}
use nl_wireguard.Peer.Built.{Built}
use nl_wireguard.Split.{find_public_key}
use nl_wireguard.Split.Chunks.{without_ips}
use nl_wireguard.Split.Parts.{
  HoldsNoIps, IsPlain, key_attribute-IsPlain, after_keys-IsPlain, pushed-IsPlain, removes, state_of,
}

module _ ⦃c : Crates⦄ where
  -- The attribute neither removes the peer nor forbids to create it.
  abbrev pub Creates : WireguardPeerAttribute → Type 0
  Creates (WireguardPeerAttribute.flags bits) =
      (c.peer_contains bits c.peer_remove_me ≡ false)
      × (c.peer_contains bits c.peer_update_only ≡ false)
  Creates _ = Unit

  -- A WireGuard device as a request changes it: an attribute in front of the peers sets a
  -- property, a peer attribute adds or changes the peer with its public key and adds its allowed
  -- IPs. The name and the index of the interface only select it, the order of the allowed IPs
  -- among the attributes of a peer does not matter, and a peer that may be created finds itself
  -- again by its public key: further allowed IPs can follow by themselves.
  pub record Interface (S : Type 0) : Type 0 where
    pub set_attribute : S → WireguardAttribute → S
    pub set_peer : S → WireguardPeer → S
    pub names : (s : S) (name : String) → set_attribute s (WireguardAttribute.if_name name) ≡ s
    pub indexes : (s : S) (index : ℕ) → set_attribute s (WireguardAttribute.if_index index) ≡ s
    pub ips_last :
        (s : S) (xs ys : List WireguardPeerAttribute) (ips : List WireguardAllowedIp)
        → HoldsNoIps ys
        → set_peer s (xs ++ WireguardPeerAttribute.allowed_ips ips ∷ ys)
          ≡ set_peer s ((xs ++ ys) ++ WireguardPeerAttribute.allowed_ips ips ∷ [])
    pub continues :
        (s : S) (state : List WireguardPeerAttribute) (key : Bytes)
        (xs ys : List WireguardAllowedIp)
        → find_public_key state ≡ some (WireguardPeerAttribute.public_key key)
        → All Creates state
        → set_peer
            (set_peer s (state ++ WireguardPeerAttribute.allowed_ips xs ∷ []))
            (WireguardPeerAttribute.public_key key ∷ WireguardPeerAttribute.allowed_ips ys ∷ [])
          ≡ set_peer s (state ++ WireguardPeerAttribute.allowed_ips (xs ++ ys) ∷ [])

  -- Whether the flags of a peer forbid to create it.
  abbrev pub updates : Option (List WireguardParsedPeerFlags) → Bool
  updates none = false
  updates (some fs) = c.peer_contains (build_peer_flags fs) c.peer_update_only

  -- The attributes of a peer in a request that is not limited in its length.
  abbrev pub unsplit : WireguardPeerParsed → WireguardPeer → WireguardPeer
  unsplit p attrs = if removes p.flags then without_ips attrs else attrs

  plain-Creates : (xs : List WireguardPeerAttribute) → All IsPlain xs → All Creates xs
  plain-Creates [] h = tt
  plain-Creates (WireguardPeerAttribute.allowed_ips ips ∷ xs) h = absurd h.0
  plain-Creates (WireguardPeerAttribute.flags bits ∷ xs) h = absurd h.0
  plain-Creates (WireguardPeerAttribute.public_key v ∷ xs) h = (tt, plain-Creates xs h.1)
  plain-Creates (x ∷ xs) h = (tt, plain-Creates xs h.1)

  flags-Creates :
      (o : Option (List WireguardParsedPeerFlags))
      → removes o ≡ false
      → updates o ≡ false
      → All Creates (pushed (λ fs. WireguardPeerAttribute.flags (build_peer_flags fs)) o)
  flags-Creates none h k = tt
  flags-Creates (some fs) h k = ((h, k), tt)

  pub state-Creates :
      (p : WireguardPeerParsed) (attrs : WireguardPeer) (b : Built p attrs)
      → removes p.flags ≡ false
      → updates p.flags ≡ false
      → All Creates (state_of p attrs b)
  unfolding attributes_after_ips
  state-Creates p attrs b h k =
      All-append Creates _ _
        (plain-Creates _ (pushed-IsPlain WireguardPeerAttribute.endpoint p.endpoint (λ _. tt)))
        (All-append Creates _ _
          (plain-Creates _ (key_attribute-IsPlain _ _ _ _ (λ _. tt) b.made_public))
          (All-append Creates _ _
            (plain-Creates _ (key_attribute-IsPlain _ _ _ _ (λ _. tt) b.made_preshared))
            (All-append Creates _ _ (plain-Creates _ (after_keys-IsPlain p)) (
              All-append Creates _ _
                (plain-Creates _ (
                  pushed-IsPlain WireguardPeerAttribute.protocol_version p.protocol_version
                    (λ _. tt)))
                (flags-Creates p.flags h k)))))

  -- The attributes of the peer with these in the place of its allowed IPs.
  abbrev pub MayBeSplit : WireguardPeerParsed → Type 0
  MayBeSplit p = (p.allowed_ips ≡ none) ⊎ (removes p.flags ≡ true) ⊎ (updates p.flags ≡ false)

  pub may_create :
      (p : WireguardPeerParsed) (ips : List WireguardIpAddress)
      → p.allowed_ips ≡ some ips
      → removes p.flags ≡ false
      → MayBeSplit p
      → updates p.flags ≡ false
  may_create p ips has keeps (inl none_there) = cc (has, none_there)
  may_create p ips has keeps (inr (inl removed)) = cc (keeps, removed)
  may_create p ips has keeps (inr (inr creates)) = creates
