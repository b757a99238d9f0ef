-- ===== src/Split/Distinct.antt =====
-- The kinds of attributes in the chunks of src/parsed.rs.
use nl_wireguard.Base.{
  ℕ, suc, ◌≡◌, refl, sym, ◌∙◌, inl, inr, Option, none, some, String, List, [], ◌∷◌, All, arith,
}
use nl_wireguard.Base.Ranks.{NoRepeats, Rises, Rises-append, Rises-NoRepeats, one-Rises}
use nl_wireguard.Packet.{Bytes, WireguardPeerAttribute, WireguardPeer}
use nl_wireguard.Crates.{Crates}
use nl_wireguard.Error.{ok, ok_of_bind}
use nl_wireguard.Key.{decode_key}
use nl_wireguard.Peer.{
  WireguardPeerParsed, build, pushed, key_attribute, attributes_after_keys, attributes_after_ips,
}
use nl_wireguard.Peer.Built.{built}
use nl_wireguard.Split.{peer_chunks}
use nl_wireguard.Split.Chunks.{without_ips, IsContinuation}
use nl_wireguard.Split.Parts.{parted}
use nl_wireguard.Split.Peers.{peer_cases, peer_chunks_single, peer_chunks-IsSplit}

-- The place of an attribute in a chunk.
abbrev pub place : WireguardPeerAttribute → ℕ
place (WireguardPeerAttribute.endpoint v) = 0
place (WireguardPeerAttribute.public_key v) = 1
place (WireguardPeerAttribute.preshared_key v) = 2
place (WireguardPeerAttribute.persistent_keepalive v) = 3
place (WireguardPeerAttribute.last_handshake v) = 4
place (WireguardPeerAttribute.rx_bytes v) = 5
place (WireguardPeerAttribute.tx_bytes v) = 6
place (WireguardPeerAttribute.protocol_version v) = 7
place (WireguardPeerAttribute.flags v) = 8
place (WireguardPeerAttribute.allowed_ips ips) = 9
place (WireguardPeerAttribute.other kind value) = 10

abbrev pub IsDistinctPeer : WireguardPeer → Type 0
IsDistinctPeer = NoRepeats place

pushed-Rises {κ} :
    {A : Type κ} (n : ℕ) (make : A → WireguardPeerAttribute) (o : Option A)
    → ((a : A) → place (make a) ≡ n)
    → Rises place n (suc n) (pushed make o)
pushed-Rises n make none h = omega arith
pushed-Rises n make (some a) h = one-Rises place n (make a) (h a)

module _ ⦃c : Crates⦄ where
  key-Rises :
      (n : ℕ) (name : String) (make : Bytes → WireguardPeerAttribute) (o : Option String)
      (attrs : List WireguardPeerAttribute)
      → ((key : Bytes) → place (make key) ≡ n)
      → key_attribute name make o ≡ ok attrs
      → Rises place n (suc n) attrs
  unfolding key_attribute
  key-Rises n name make none attrs h e = let made : [] ≡ attrs = cc e in rw (← made) (omega arith)
  key-Rises n name make (some v) attrs h e =
      let (key, d, r) = ok_of_bind (decode_key name v) _ e in
      let made : (make key ∷ []) ≡ attrs = cc r in
      rw (← made) (one-Rises place n (make key) (h key))

  after_keys-Rises : (p : WireguardPeerParsed) → Rises place 3 7 (attributes_after_keys p)
  unfolding attributes_after_keys
  after_keys-Rises p =
      Rises-append place 3 4 7 _ _ (pushed-Rises 3 _ p.persistent_keepalive (λ v. refl)) (
        Rises-append place 4 5 7 _ _ (pushed-Rises 4 _ p.last_handshake (λ v. refl)) (
          Rises-append place 5 6 7 _ _ (pushed-Rises 5 _ p.rx_bytes (λ v. refl))
            (pushed-Rises 6 _ p.tx_bytes (λ v. refl))))

  after_ips-Rises : (p : WireguardPeerParsed) → Rises place 7 9 (attributes_after_ips p)
  unfolding attributes_after_ips
  after_ips-Rises p =
      Rises-append place 7 8 9 _ _ (pushed-Rises 7 _ p.protocol_version (λ v. refl))
        (pushed-Rises 8 _ p.flags (λ v. refl))

  module _ (p : WireguardPeerParsed) (attrs : WireguardPeer) (h : build p ≡ ok attrs) where
    state-Rises : Rises place 0 9 (without_ips attrs)
    state-Rises =
        let b = built p attrs h in
        rw (parted p attrs b).0 (
          Rises-append place 0 1 9 _ _
            (pushed-Rises 0 WireguardPeerAttribute.endpoint p.endpoint (λ v. refl))
            (Rises-append place 1 2 9 b.public _
              (key-Rises 1 _ _ _ b.public (λ v. refl) b.made_public)
              (Rises-append place 2 3 9 b.preshared _
                (key-Rises 2 _ _ _ b.preshared (λ v. refl) b.made_preshared)
                (Rises-append place 3 7 9 _ _ (after_keys-Rises p) (after_ips-Rises p)))))

  continuations-IsDistinctPeer :
      (key : Bytes) (chunks : List WireguardPeer)
      → All (IsContinuation key) chunks
      → All IsDistinctPeer chunks
  continuations-IsDistinctPeer key [] h = tt
  continuations-IsDistinctPeer key (chunk ∷ chunks) h = (
    rw h.0.shape (
        Rises-NoRepeats place 1 10
          (WireguardPeerAttribute.public_key key
            ∷ WireguardPeerAttribute.allowed_ips h.0.batch
            ∷ [])
          (omega arith, (omega arith, omega arith))),
    continuations-IsDistinctPeer key chunks h.1,
  )

  pub chunks-IsDistinctPeer :
      (p : WireguardPeerParsed) (chunks : List WireguardPeer)
      → peer_chunks p ≡ ok chunks
      → All IsDistinctPeer chunks
  unfolding peer_chunks
  chunks-IsDistinctPeer p chunks h =
      let (attrs, made, r) = ok_of_bind (build p) _ h in
      let rises = state-Rises p attrs made in
      let alone : ok (without_ips attrs ∷ []) ≡ ok chunks → All IsDistinctPeer chunks = λ e.
        let same : (without_ips attrs ∷ []) ≡ chunks = cc e in
        rw (← same) (Rises-NoRepeats place 0 9 (without_ips attrs) rises, tt) in
      elim (peer_cases p) [
        | inl no_ips ↦ alone (sym (peer_chunks_single p attrs made (inl no_ips)) ∙ h)
        | inr (inl removed) ↦ alone (sym (peer_chunks_single p attrs made (inr removed)) ∙ h)
        | inr (inr (ips, has, keeps)) ↦
            let (parts, split, is) = peer_chunks-IsSplit p attrs ips made has keeps in
            let same : parts ≡ chunks = cc (split, h) in
            let are = is.chunked in
            rw (← same, are.shape)
              (
                Rises-NoRepeats place 0 10 _ (
                    Rises-append place 0 9 10 (without_ips attrs) _ rises (
                      one-Rises place 9 (WireguardPeerAttribute.allowed_ips are.first_batch) refl)),
                continuations-IsDistinctPeer is.key are.more are.continuations,
              )
      ]
