-- ===== src/Split/Peers.antt =====
-- The chunks of a peer, in terms of the attributes that `build` gives it.
use mathlib.Core.Option
use nl_wireguard.Base.{
  ◌≡◌, refl, ap, sym, ◌∙◌, ◌↔◌, ◌⊎◌, inl, inr, true, false, Bool-cases, Option-cases, Option, none,
  some, List, [], ◌∷◌, map,
}
use nl_wireguard.Packet.{Bytes, WireguardAllowedIp, WireguardPeerAttribute, WireguardPeer}
use nl_wireguard.Crates.{Crates}
use nl_wireguard.Error.{WireguardError, Result-cases, ok, err}
use nl_wireguard.AllowedIp.{WireguardIpAddress, ip_attributes}
use nl_wireguard.Peer.{WireguardPeerParsed, build}
use nl_wireguard.Peer.Built.{Built, built, holds_public}
use nl_wireguard.Split.{find_public_key, split_parts, split_ips, ip_chunks, peer_chunks}
use nl_wireguard.Split.Chunks.{ips_of, without_ips, AreChunks, ip_chunks-AreChunks}
use nl_wireguard.Split.Parts.{removes, sorted, finds_key, parted}

module _ ⦃c : Crates⦄ where
  split_state :
      (state : List WireguardPeerAttribute) (key : Bytes) (ips : List WireguardAllowedIp)
      → find_public_key state ≡ some (WireguardPeerAttribute.public_key key)
      → (chunks : List WireguardPeer) × (split_ips state ips ≡ ok chunks)
        × AreChunks state key ips chunks
  unfolding split_ips
  split_state state key [] e = (
    _,
    refl,
    record { first_batch = []; more = []; shape = refl; continuations = tt; all_ips = refl },
  )
  split_state state key (ip ∷ ips) e = (
    ip_chunks state (WireguardPeerAttribute.public_key key) (ip ∷ ips),
    rw (e, split_ips) refl,
    ip_chunks-AreChunks state key ip ips,
  )

  -- The chunks of a peer with the attributes `attrs`: `without_ips` once, and the allowed IPs
  -- over one chunk or several, which repeat the public key.
  pub record IsSplit (attrs : WireguardPeer) (chunks : List WireguardPeer) : Type 0 where
    pub key : Bytes
    pub holds_key : find_public_key attrs ≡ some (WireguardPeerAttribute.public_key key)
    pub chunked : AreChunks (without_ips attrs) key (ips_of attrs) chunks

  pub after_build :
      (p : WireguardPeerParsed) (attrs : WireguardPeer) (b : Built p attrs)
      → build p ≡ ok attrs
      → peer_chunks p
        ≡ split_parts (record {
          state_attributes = without_ips attrs;
          allowed_ips = Option.map (map ip_attributes) p.allowed_ips;
          remove_me = removes p.flags;
        })
  unfolding peer_chunks
  after_build p attrs b h = rw (h, sorted p attrs b, (parted p attrs b).0) refl

  pub find_kept :
      (xs : List WireguardPeerAttribute) → find_public_key (without_ips xs) ≡ find_public_key xs
  unfolding find_public_key
  find_kept [] = refl
  find_kept (WireguardPeerAttribute.public_key key ∷ xs) = refl
  find_kept (x ∷ xs) = find_kept xs

  -- The key of a peer that was built.
  pub key_of :
      (p : WireguardPeerParsed) (attrs : WireguardPeer)
      → build p ≡ ok attrs
      → (key : Bytes) × (find_public_key attrs ≡ some (WireguardPeerAttribute.public_key key))
  key_of p attrs h =
      let b = built p attrs h in
      let (key, e, d) = holds_public p attrs b in
      (
        key,
        sym (find_kept attrs)
            ∙ (ap find_public_key (parted p attrs b).0 ∙ finds_key p attrs b key e),
      )

  -- A peer that `build` accepts, that has allowed IPs and that is not to be removed is split into
  -- chunks: the first holds all attributes but the allowed IPs, the others the public key alone
  -- and an allowed IP at least, and all chunks together hold the allowed IPs, each once and in
  -- their order.
  pub peer_chunks-IsSplit :
      (p : WireguardPeerParsed) (attrs : WireguardPeer) (ips : List WireguardIpAddress)
      → build p ≡ ok attrs
      → p.allowed_ips ≡ some ips
      → removes p.flags ≡ false
      → (chunks : List WireguardPeer) × (peer_chunks p ≡ ok chunks) × IsSplit attrs chunks
  unfolding split_parts
  peer_chunks-IsSplit p attrs ips h e r =
      let b = built p attrs h in
      let (key, holds) = key_of p attrs h in
      let (chunks, split, are) =
        split_state (without_ips attrs) key (map ip_attributes ips) (find_kept attrs ∙ holds) in
      let all : ips_of attrs ≡ map ip_attributes ips = (parted p attrs b).1 ∙ rw e refl in
      (
        chunks,
        after_build p attrs b h ∙ rw (e, r) split,
        record { key = key; holds_key = holds; chunked = rw all are },
      )

  split_removed :
      (state : List WireguardPeerAttribute) (o : Option (List WireguardAllowedIp))
      → split_parts (record { state_attributes = state; allowed_ips = o; remove_me = true })
        ≡ ok (state ∷ [])
  unfolding split_parts
  split_removed state none = refl
  split_removed state (some ips) = refl

  -- A peer that is to be removed, or that has no allowed IPs to set, is a single chunk with all
  -- its attributes but the allowed IPs, so that no later chunk creates the peer again.
  pub peer_chunks_single :
      (p : WireguardPeerParsed) (attrs : WireguardPeer)
      → build p ≡ ok attrs
      → (p.allowed_ips ≡ none) ⊎ (removes p.flags ≡ true)
      → peer_chunks p ≡ ok (without_ips attrs ∷ [])
  unfolding split_parts
  peer_chunks_single p attrs h (inl e) = after_build p attrs (built p attrs h) h ∙ rw e refl
  peer_chunks_single p attrs h (inr r) =
      after_build p attrs (built p attrs h) h ∙ rw r (split_removed _ _)

  pub peer_cases :
      (p : WireguardPeerParsed)
      → (p.allowed_ips ≡ none)
        ⊎ (removes p.flags ≡ true)
        ⊎ ((ips : List WireguardIpAddress) × (p.allowed_ips ≡ some ips) × (removes p.flags ≡ false))
  peer_cases p = elim (Option-cases p.allowed_ips) [
    | inl no_ips ↦ inl no_ips
    | inr (ips, e) ↦ elim (Bool-cases (removes p.flags)) [
      | inl yes_removes ↦ inr (inl yes_removes)
      | inr keeps ↦ inr (inr (ips, e, keeps))
    ]
  ]

  pub chunks_of_built :
      (p : WireguardPeerParsed) (attrs : WireguardPeer)
      → build p ≡ ok attrs
      → (chunks : List WireguardPeer) × (peer_chunks p ≡ ok chunks)
  chunks_of_built p attrs h = elim (peer_cases p) [
    | inl no_ips ↦ (_, peer_chunks_single p attrs h (inl no_ips))
    | inr (inl removed) ↦ (_, peer_chunks_single p attrs h (inr removed))
    | inr (inr (ips, e, keeps)) ↦
        let (chunks, made, split) = peer_chunks-IsSplit p attrs ips h e keeps in (chunks, made)
  ]

  unbuilt : (p : WireguardPeerParsed) (e : WireguardError) → build p ≡ err e → peer_chunks p ≡ err e
  unfolding peer_chunks
  unbuilt p e h = rw h refl

  -- Splitting a peer fails exactly when building it fails, with the same error: the error of
  -- `peer_chunks` on a missing public key is never raised.
  pub peer_chunks-eq-err_iff :
      (p : WireguardPeerParsed) (e : WireguardError) → (peer_chunks p ≡ err e) ↔ (build p ≡ err e)
  peer_chunks-eq-err_iff p e = (
    λ h. elim (Result-cases (build p)) [
      | inl (attrs, made) ↦ let (chunks, split) = chunks_of_built p attrs made in cc (h, split)
      | inr (e', failed) ↦ cc (h, failed, unbuilt p e' failed)
    ],
    unbuilt p e,
  )
