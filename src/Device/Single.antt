-- ===== src/Device/Single.antt =====
-- `From<WireguardMessage>` and `From<Vec<WireguardMessage>>` of src/parsed.rs on one message.
use mathlib.Core.List.{foldl}
use mathlib.Core.Option
use nl_wireguard.Base.{
  ◌≡◌, refl, ap, sym, ◌∙◌, Bool, true, false, Option, none, some, List, [], ◌∷◌, ◌++◌, map,
  append_assoc, append-nil,
}
use nl_wireguard.Packet.{WireguardPeer, WireguardAttribute, WireguardMessage}
use nl_wireguard.Crates.{Crates}
use nl_wireguard.Flags.{parse_device_flags}
use nl_wireguard.Peer.{WireguardPeerParsed, parse_peer, extend}
use nl_wireguard.Device.{
  WireguardParsed, default_device, push_parsed, add_attribute, parse_message, extend_attribute,
  extend_message, parse_messages,
}
use nl_wireguard.Device.Apart.{AreApart}
use nl_wireguard.Device.Coalesce.{StartsNew, push_new}

next_is_new :
    (before : List WireguardPeerParsed) (q : WireguardPeerParsed) (after : List WireguardPeerParsed)
    → AreApart (before ++ q ∷ after)
    → StartsNew q.public_key before
next_is_new [] q after h = tt
next_is_new (last ∷ []) q after h = h.0
next_is_new (p ∷ next ∷ before) q after h = next_is_new (next ∷ before) q after h.1

module _ ⦃c : Crates⦄ where
  pushed_apart :
      (before : List WireguardPeerParsed) (ps : List WireguardPeer)
      → AreApart (before ++ map parse_peer ps)
      → foldl push_parsed before ps ≡ before ++ map parse_peer ps
  unfolding push_parsed
  pushed_apart before [] h = sym (append-nil before)
  pushed_apart before (p ∷ ps) h =
      let assoc = append_assoc before (parse_peer p ∷ []) (map parse_peer ps) in
      let new =
        push_new before (parse_peer p) (next_is_new before (parse_peer p) (map parse_peer ps) h) in
      ap (λ qs. foldl push_parsed qs ps) new
      ∙ (pushed_apart (before ++ parse_peer p ∷ []) ps (rw assoc h) ∙ assoc)

  -- Peers and flags occur once at most, given whether they have occurred before, and no two
  -- neighbours among the peers have the same public key.
  abbrev pub OccurOnce : (peers_seen flags_seen : Bool) → List WireguardAttribute → Type 0
  OccurOnce p f [] = Unit
  OccurOnce p f (WireguardAttribute.peers ps ∷ attrs) =
      (p ≡ false) × AreApart (map parse_peer ps) × OccurOnce true f attrs
  OccurOnce p f (WireguardAttribute.flags bits ∷ attrs) = (f ≡ false) × OccurOnce p true attrs
  OccurOnce p f (_ ∷ attrs) = OccurOnce p f attrs

  -- What has not occurred is not set.
  abbrev Unset {ℓ} : {A : Type ℓ} → Bool → Option A → Type ℓ
  Unset seen o = seen ≡ false → o ≡ none

  seen_before {ℓ} : {A : Type ℓ} (o : Option A) → Unset true o
  seen_before o h = cc h

  fold_same :
      (p f : Bool) (d : WireguardParsed) (attrs : List WireguardAttribute)
      → Unset p d.peers
      → Unset f d.flags
      → OccurOnce p f attrs
      → foldl extend_attribute d attrs ≡ foldl add_attribute d attrs
  unfolding extend_attribute add_attribute
  fold_same p f d [] no_peers no_flags h = refl
  fold_same p f d (WireguardAttribute.peers ps ∷ attrs) no_peers no_flags (new, apart, later) =
      let unset : Option.get_or d.peers [] ≡ [] = ap (λ o. Option.get_or o []) (no_peers new) in
      let here : foldl push_parsed (Option.get_or d.peers []) ps ≡ map parse_peer ps =
        ap (λ qs. foldl push_parsed qs ps) unset ∙ pushed_apart [] ps apart in
      ap (λ qs. foldl extend_attribute (record d { peers = some qs }) attrs) here
      ∙ fold_same true f (record d { peers = some (map parse_peer ps) }) attrs
          (seen_before (some (map parse_peer ps))) no_flags later
  fold_same p f d (WireguardAttribute.flags bits ∷ attrs) no_peers no_flags (new, later) =
      ap
        (λ o.
          foldl extend_attribute (record d { flags = extend o (some (parse_device_flags bits)) })
            attrs)
        (no_flags new)
      ∙ fold_same p true (record d { flags = some (parse_device_flags bits) }) attrs no_peers
          (seen_before (some (parse_device_flags bits))) later
  fold_same p f d (WireguardAttribute.if_name v ∷ attrs) no_peers no_flags h =
      fold_same p f (record d { iface_name = some v }) attrs no_peers no_flags h
  fold_same p f d (WireguardAttribute.if_index v ∷ attrs) no_peers no_flags h =
      fold_same p f (record d { iface_index = some v }) attrs no_peers no_flags h
  fold_same p f d (WireguardAttribute.private_key v ∷ attrs) no_peers no_flags h =
      fold_same p f (record d { private_key = some (c.encode v) }) attrs no_peers no_flags h
  fold_same p f d (WireguardAttribute.public_key v ∷ attrs) no_peers no_flags h =
      fold_same p f (record d { public_key = some (c.encode v) }) attrs no_peers no_flags h
  fold_same p f d (WireguardAttribute.listen_port v ∷ attrs) no_peers no_flags h =
      fold_same p f (record d { listen_port = some v }) attrs no_peers no_flags h
  fold_same p f d (WireguardAttribute.fwmark v ∷ attrs) no_peers no_flags h =
      fold_same p f (record d { fwmark = some v }) attrs no_peers no_flags h
  fold_same p f d (WireguardAttribute.other kind v ∷ attrs) no_peers no_flags h =
      fold_same p f d attrs no_peers no_flags h

  -- The two ways to parse agree on one message, in any order of its attributes, in which there are
  -- at most one attribute of peers and one of flags and no two neighbours among the peers have the
  -- same public key.
  pub parse_messages_single :
      (m : WireguardMessage)
      → OccurOnce false false m.attributes
      → parse_messages (m ∷ []) ≡ parse_message m
  unfolding parse_messages parse_message extend_message
  parse_messages_single m h =
      fold_same false false default_device m.attributes (λ _. refl) (λ _. refl) h
