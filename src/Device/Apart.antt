-- ===== src/Device/Apart.antt =====
-- The peers that `From<Vec<WireguardMessage>>` of src/parsed.rs reports for any messages.
use mathlib.Core.List.{foldl, foldl-append}
use mathlib.Core.Option
use nl_wireguard.Base.{
  ◌≡◌, refl, ap, sym, ◌∙◌, inl, inr, true, false, Option, none, some, List, [], ◌∷◌, ◌++◌,
  concat_map, append_assoc, append-nil, Bool-cases, flatten_option, arith,
}
use nl_wireguard.Packet.{WireguardPeer, WireguardAttribute, WireguardMessage}
use nl_wireguard.Crates.{Crates}
use nl_wireguard.AllowedIp.{WireguardIpAddress}
use nl_wireguard.Peer.{WireguardPeerParsed, parse_peer, merge_continuation, extend}
use nl_wireguard.Device.{
  WireguardParsed, default_device, same_key, push_peer, push_parsed, extend_attribute,
  extend_message, parse_messages,
}

-- No two neighbours have the same public key.
abbrev pub AreApart : List WireguardPeerParsed → Type 0
AreApart [] = Unit
AreApart (p ∷ []) = Unit
AreApart (p ∷ q ∷ ps) = (same_key p.public_key q.public_key ≡ false) × AreApart (q ∷ ps)

abbrev pub ips_of_peer : WireguardPeerParsed → List WireguardIpAddress
ips_of_peer p = flatten_option p.allowed_ips

merged_key :
    (last peer : WireguardPeerParsed)
    → same_key last.public_key peer.public_key ≡ true
    → (merge_continuation last peer).public_key ≡ last.public_key
unfolding same_key merge_continuation
merged_key last peer h = ground arith

push-AreApart :
    (ps : List WireguardPeerParsed) (peer : WireguardPeerParsed)
    → AreApart ps
    → AreApart (push_peer ps peer)
unfolding push_peer
push-AreApart [] peer h = tt
push-AreApart (last ∷ []) peer h = elim (Bool-cases (same_key last.public_key peer.public_key)) [
  | inl same ↦ rw (same, push_peer) tt
  | inr other ↦ rw (other, push_peer) (other, tt)
]
push-AreApart (p ∷ last ∷ []) peer h =
    elim (Bool-cases (same_key last.public_key peer.public_key)) [
      | inl same ↦
          rw (same, push_peer) (ap (same_key p.public_key) (merged_key last peer same) ∙ h.0, tt)
      | inr other ↦ rw (other, push_peer) (h.0, (other, tt))
    ]
push-AreApart (p ∷ q ∷ r ∷ ps) peer h = (h.0, push-AreApart (q ∷ r ∷ ps) peer h.1)

flatten-extend {ℓ} :
    {A : Type ℓ} (old more : Option (List A))
    → flatten_option (extend old more) ≡ flatten_option old ++ flatten_option more
flatten-extend none none = refl
flatten-extend none (some ys) = refl
flatten-extend (some xs) none = sym (append-nil xs)
flatten-extend (some xs) (some ys) = refl

merged_ips :
    (last peer : WireguardPeerParsed)
    → ips_of_peer (merge_continuation last peer) ≡ ips_of_peer last ++ ips_of_peer peer
unfolding merge_continuation
merged_ips last peer = flatten-extend last.allowed_ips peer.allowed_ips

push_keeps_ips :
    (ps : List WireguardPeerParsed) (peer : WireguardPeerParsed)
    → concat_map ips_of_peer (push_peer ps peer) ≡ concat_map ips_of_peer ps ++ ips_of_peer peer
unfolding push_peer
push_keeps_ips [] peer = append-nil (ips_of_peer peer)
push_keeps_ips (last ∷ []) peer = elim (Bool-cases (same_key last.public_key peer.public_key)) [
  | inl same ↦ rw (same, push_peer) (simp (merged_ips last peer, append-nil))
  | inr other ↦ rw (other, push_peer) (simp append-nil)
]
push_keeps_ips (p ∷ q ∷ ps) peer = simp (push_keeps_ips (q ∷ ps) peer, append_assoc)

pub or_empty {ℓ} : {A : Type ℓ} (o : Option (List A)) → Option.get_or o [] ≡ flatten_option o
or_empty none = refl
or_empty (some xs) = refl

module _ ⦃c : Crates⦄ where
  abbrev pub peers_of : WireguardAttribute → List WireguardPeer
  peers_of (WireguardAttribute.peers ps) = ps
  peers_of (WireguardAttribute.if_name v) = []
  peers_of (WireguardAttribute.if_index v) = []
  peers_of (WireguardAttribute.private_key v) = []
  peers_of (WireguardAttribute.public_key v) = []
  peers_of (WireguardAttribute.listen_port v) = []
  peers_of (WireguardAttribute.fwmark v) = []
  peers_of (WireguardAttribute.flags v) = []
  peers_of (WireguardAttribute.other kind v) = []

  pushed-AreApart :
      (before : List WireguardPeerParsed) (ps : List WireguardPeer)
      → AreApart before
      → AreApart (foldl push_parsed before ps)
  unfolding push_parsed
  pushed-AreApart before [] h = h
  pushed-AreApart before (p ∷ ps) h =
      pushed-AreApart (push_peer before (parse_peer p)) ps (push-AreApart before (parse_peer p) h)

  abbrev pub parsed_ips : WireguardPeer → List WireguardIpAddress
  parsed_ips p = ips_of_peer (parse_peer p)

  pushed_keeps_ips :
      (before : List WireguardPeerParsed) (ps : List WireguardPeer)
      → concat_map ips_of_peer (foldl push_parsed before ps)
        ≡ concat_map ips_of_peer before ++ concat_map parsed_ips ps
  unfolding push_parsed
  pushed_keeps_ips before [] = sym (append-nil _)
  pushed_keeps_ips before (p ∷ ps) =
      pushed_keeps_ips (push_peer before (parse_peer p)) ps
      ∙ (ap (λ xs. xs ++ concat_map parsed_ips ps) (push_keeps_ips before (parse_peer p))
          ∙ append_assoc (concat_map ips_of_peer before) (parsed_ips p) (concat_map parsed_ips ps))

  abbrev reported_peers : WireguardParsed → List WireguardPeerParsed
  reported_peers d = flatten_option d.peers

  attribute_peers :
      (ret : WireguardParsed) (a : WireguardAttribute)
      → reported_peers (extend_attribute ret a)
        ≡ foldl push_parsed (reported_peers ret) (peers_of a)
  unfolding extend_attribute
  attribute_peers ret (WireguardAttribute.peers ps) =
      ap (λ before. foldl push_parsed before ps) (or_empty ret.peers)
  attribute_peers ret (WireguardAttribute.if_name v) = refl
  attribute_peers ret (WireguardAttribute.if_index v) = refl
  attribute_peers ret (WireguardAttribute.private_key v) = refl
  attribute_peers ret (WireguardAttribute.public_key v) = refl
  attribute_peers ret (WireguardAttribute.listen_port v) = refl
  attribute_peers ret (WireguardAttribute.fwmark v) = refl
  attribute_peers ret (WireguardAttribute.flags v) = refl
  attribute_peers ret (WireguardAttribute.other kind v) = refl

  attributes_peers :
      (ret : WireguardParsed) (attrs : List WireguardAttribute)
      → reported_peers (foldl extend_attribute ret attrs)
        ≡ foldl push_parsed (reported_peers ret) (concat_map peers_of attrs)
  attributes_peers ret [] = refl
  attributes_peers ret (a ∷ attrs) =
      attributes_peers (extend_attribute ret a) attrs
      ∙ (ap (λ before. foldl push_parsed before (concat_map peers_of attrs)) (attribute_peers ret a)
          ∙ sym (
              foldl-append push_parsed (reported_peers ret) (peers_of a)
                (concat_map peers_of attrs)))

  -- The peers of a message, in the order of its attributes.
  abbrev pub peers_in : WireguardMessage → List WireguardPeer
  peers_in m = concat_map peers_of m.attributes

  messages_peers :
      (ret : WireguardParsed) (ms : List WireguardMessage)
      → reported_peers (foldl extend_message ret ms)
        ≡ foldl push_parsed (reported_peers ret) (concat_map peers_in ms)
  unfolding extend_message
  messages_peers ret [] = refl
  messages_peers ret (m ∷ ms) =
      messages_peers (extend_message ret m) ms
      ∙ (ap (λ before. foldl push_parsed before (concat_map peers_in ms))
            (attributes_peers ret m.attributes)
          ∙ sym
              (foldl-append push_parsed (reported_peers ret) (peers_in m) (concat_map peers_in ms)))

  -- Whatever messages are parsed, no two neighbours among the peers that are reported have the
  -- same public key: what one dump reports of a peer in a row is one peer.
  pub parse_messages-AreApart :
      (ms : List WireguardMessage) → AreApart (flatten_option (parse_messages ms).peers)
  unfolding parse_messages
  parse_messages-AreApart ms =
      rw (messages_peers default_device ms) (pushed-AreApart [] (concat_map peers_in ms) tt)

  -- Coalescing loses, adds and moves no allowed IP: those of all peers that are reported are those
  -- of all peers in all messages, each parsed by itself, in the same order.
  pub parse_messages_keeps_ips :
      (ms : List WireguardMessage)
      → concat_map ips_of_peer (flatten_option (parse_messages ms).peers)
        ≡ concat_map parsed_ips (concat_map peers_in ms)
  unfolding parse_messages
  parse_messages_keeps_ips ms =
      ap (concat_map ips_of_peer) (messages_peers default_device ms)
      ∙ pushed_keeps_ips [] (concat_map peers_in ms)
