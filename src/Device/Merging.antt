-- ===== src/Device/Merging.antt =====
-- `merge_continuation` and `push_peer` of src/parsed.rs on a peer and its continuation.
use nl_wireguard.Base.{
  ◌≡◌, refl, ap, sym, ◌∙◌, String, true, false, Option, none, some, List, [], ◌∷◌, append_assoc,
  inl, inr, Bool-cases, or_keep,
}
use nl_wireguard.Base.Text.{eq_iff}
use nl_wireguard.Peer.{WireguardPeerParsed, merge_continuation, extend}
use nl_wireguard.Device.{same_key, push_peer}

or_keep_assoc {ℓ} :
    {A : Type ℓ} (x y z : Option A) → or_keep (or_keep x y) z ≡ or_keep x (or_keep y z)
or_keep_assoc none y z = refl
or_keep_assoc (some a) y z = refl

extend_assoc {ℓ} :
    {A : Type ℓ} (x y z : Option (List A)) → extend (extend x y) z ≡ extend x (extend y z)
extend_assoc x y none = refl
extend_assoc x none (some zs) = refl
extend_assoc none (some ys) (some zs) = refl
extend_assoc (some xs) (some ys) (some zs) = ap some (append_assoc xs ys zs)

merge_assoc :
    (p q r : WireguardPeerParsed)
    → merge_continuation (merge_continuation p q) r ≡ merge_continuation p (merge_continuation q r)
unfolding merge_continuation
merge_assoc p q r = cc (
  or_keep_assoc p.endpoint q.endpoint r.endpoint,
  or_keep_assoc p.public_key q.public_key r.public_key,
  or_keep_assoc p.preshared_key q.preshared_key r.preshared_key,
  or_keep_assoc p.persistent_keepalive q.persistent_keepalive r.persistent_keepalive,
  or_keep_assoc p.last_handshake q.last_handshake r.last_handshake,
  or_keep_assoc p.rx_bytes q.rx_bytes r.rx_bytes,
  or_keep_assoc p.tx_bytes q.tx_bytes r.tx_bytes,
  extend_assoc p.allowed_ips q.allowed_ips r.allowed_ips,
  or_keep_assoc p.protocol_version q.protocol_version r.protocol_version,
  extend_assoc p.flags q.flags r.flags,
)

-- Keys that are the same to `push_peer`, in the key that merging keeps.
same_key-some :
    (k l : Option String) → same_key k l ≡ true → (key : String) × (k ≡ some key) × (l ≡ some key)
unfolding same_key
same_key-some none l h = cc h
same_key-some (some k) none h = cc h
same_key-some (some k) (some l) h = (k, refl, ap some (sym ((eq_iff k l).0 h)))

same_key_of : (key : String) → same_key (some key) (some key) ≡ true
unfolding same_key
same_key_of key = (eq_iff key key).1 refl

pushed_shape :
    (x : WireguardPeerParsed) (xs : List WireguardPeerParsed) (q : WireguardPeerParsed)
    → (y : WireguardPeerParsed) × (ys : List WireguardPeerParsed) × (push_peer (x ∷ xs) q ≡ y ∷ ys)
unfolding push_peer
pushed_shape x [] q = elim (Bool-cases (same_key x.public_key q.public_key)) [
  | inl same ↦ (merge_continuation x q, [], rw same refl)
  | inr other ↦ (x, q ∷ [], rw other refl)
]
pushed_shape x (next ∷ xs) q = (x, push_peer (next ∷ xs) q, refl)

-- Only the end of the peers is looked at.
push_behind :
    (first : WireguardPeerParsed) (x : WireguardPeerParsed) (xs : List WireguardPeerParsed)
    (q r : WireguardPeerParsed)
    → push_peer (first ∷ push_peer (x ∷ xs) q) r ≡ first ∷ push_peer (push_peer (x ∷ xs) q) r
push_behind first x xs q r =
    let (y, ys, shape) = pushed_shape x xs q in rw shape (unfold push_peer in refl)

module _ (q r : WireguardPeerParsed) (key : String) (q_key : q.public_key ≡ some key)
    (r_key : r.public_key ≡ some key) where
  abbrev pub both : WireguardPeerParsed
  both = merge_continuation q r

  both_key : both.public_key ≡ some key
  unfolding merge_continuation
  both_key = rw q_key refl

  merged_key :
      (last : WireguardPeerParsed)
      → same_key last.public_key q.public_key ≡ true
      → (merge_continuation last q).public_key ≡ some key
  unfolding merge_continuation
  merged_key last same =
      let (k, is_last, is_q) = same_key-some last.public_key q.public_key same in
      rw is_last (cc (is_q, q_key))

  -- A peer and its continuation, pushed one after the other, are pushed as one.
  pub push_both :
      (before : List WireguardPeerParsed) → push_peer (push_peer before q) r ≡ push_peer before both
  unfolding push_peer
  push_both [] = rw (q_key, r_key, same_key_of key) refl
  push_both (last ∷ []) = elim (Bool-cases (same_key last.public_key q.public_key)) [
    | inl same ↦
        let merged : same_key (merge_continuation last q).public_key r.public_key ≡ true =
          rw (merged_key last same, r_key) (same_key_of key) in
        let whole : same_key last.public_key both.public_key ≡ true = rw (both_key, ← q_key) same in
        rw (same, whole) (rw merged (ap (λ p. p ∷ []) (merge_assoc last q r)))
    | inr other ↦
        let whole : same_key last.public_key both.public_key ≡ false =
          rw (both_key, ← q_key) other in
        let next : same_key q.public_key r.public_key ≡ true =
          rw (q_key, r_key) (same_key_of key) in
        rw (other, whole) (rw next refl)
  ]
  push_both (first ∷ next ∷ before) =
      push_behind first next before q r ∙ ap (λ ps. first ∷ ps) (push_both (next ∷ before))
