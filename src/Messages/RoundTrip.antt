-- ===== src/Messages/RoundTrip.antt =====
-- Parsing the messages of a configuration together (`parse_messages`).
use mathlib.Core.List.{foldl, foldl-append}
use mathlib.Core.Option
use nl_wireguard.Base.{
  ◌≤◌, ◌≡◌, refl, ap, sym, ◌∙◌, inl, inr, Bool-cases, false, Option, none, some, String, List, [],
  ◌∷◌, ◌++◌, map, All, length, append_assoc, append-nil, arith,
}
use nl_wireguard.Packet.{WireguardCmd, WireguardPeer, WireguardAttribute, WireguardMessage}
use nl_wireguard.Crates.{Crates, Base64Laws}
use nl_wireguard.Error.{Result-cases, ok, ok_of_bind}
use nl_wireguard.Peer.{WireguardPeerParsed, build}
use nl_wireguard.Peer.Parsing.{IsDuration}
use nl_wireguard.Split.{peer_chunks}
use nl_wireguard.Split.Parts.{removes}
use nl_wireguard.Split.Peers.{peer_chunks-eq-err_iff}
use nl_wireguard.Device.{
  WireguardParsed, default_device, same_key, push_parsed, extend_attribute, extend_message,
  parse_messages, device_attributes, iface_attribute,
}
use nl_wireguard.Device.Apart.{AreApart}
use nl_wireguard.Device.Coalesce.{StartsNew, reported, push_peer-peer_chunks}
use nl_wireguard.Device.RoundTrip.{reported_device, device_back, iface_again}
use nl_wireguard.Messages.{build_messages}
use nl_wireguard.Messages.Groups.{all_chunks, messages_for, with_peers, concat}
use nl_wireguard.Messages.Total.{build_messages_total}

-- The first of these peers has another key than what is in front of it.
abbrev HeadNew : List WireguardPeerParsed → List WireguardPeerParsed → Type 0
HeadNew before [] = Unit
HeadNew before (p ∷ ps) = StartsNew p.public_key before

StartsNew-append :
    (key : Option String) (before : List WireguardPeerParsed) (last : WireguardPeerParsed)
    → same_key last.public_key key ≡ false
    → StartsNew key (before ++ last ∷ [])
StartsNew-append key [] last h = h
StartsNew-append key (p ∷ []) last h = h
StartsNew-append key (p ∷ q ∷ before) last h = StartsNew-append key (q ∷ before) last h

module _ ⦃c : Crates⦄ where
  next_new :
      (before ps : List WireguardPeerParsed) (p : WireguardPeerParsed)
      → AreApart (p ∷ ps)
      → HeadNew (before ++ reported p ∷ []) ps
  next_new before [] p h = tt
  next_new before (q ∷ ps) p h =
      StartsNew-append q.public_key before (reported p) (elim (Bool-cases (removes p.flags)) [
        | inl removed ↦ rw removed h.0
        | inr keeps ↦ rw keeps h.0
      ])

  rest_apart :
      (p : WireguardPeerParsed) (ps : List WireguardPeerParsed) → AreApart (p ∷ ps) → AreApart ps
  rest_apart p [] h = tt
  rest_apart p (q ∷ ps) h = h.1

  module _ (base64 : Base64Laws c) where
    push_peers :
        (before ps : List WireguardPeerParsed) (chunks : List WireguardPeer)
        → All (λ p. IsDuration p.last_handshake) ps
        → AreApart ps
        → HeadNew before ps
        → all_chunks ps ≡ ok chunks
        → foldl push_parsed before chunks ≡ before ++ map reported ps
    unfolding all_chunks
    push_peers before [] chunks valid apart new h =
        let made : [] ≡ chunks = cc h in rw (← made) (sym (append-nil before))
    push_peers before (p ∷ ps) chunks valid apart new h = elim (Result-cases (build p)) [
      | inr (e, failed) ↦ cc ((rw ((peer_chunks-eq-err_iff p e).1 failed, all_chunks) at h))
      | inl (attrs, built) ↦
          let (here, split, h1) = ok_of_bind (peer_chunks p) _ h in
          let (more, later, h2) = ok_of_bind (all_chunks ps) _ h1 in
          let made : (here ++ more) ≡ chunks = cc h2 in
          let first = push_peer-peer_chunks base64 before p attrs here valid.0 built new split in
          let rest =
            push_peers (before ++ reported p ∷ []) ps more valid.1 (rest_apart p ps apart)
              (next_new before ps p apart) later in
          ap (foldl push_parsed before) (sym made)
          ∙ (foldl-append push_parsed before here more
              ∙ (ap (λ xs. foldl push_parsed xs more) first
                  ∙ (rest ∙ append_assoc before (reported p ∷ []) (map reported ps))))
    ]

  -- A message in front of whose peers the attributes lead to the reported device.
  extend_group :
      (self ret : WireguardParsed) (cmd : WireguardCmd) (front : List WireguardAttribute)
      (group : List WireguardPeer) (peers : Option (List WireguardPeerParsed))
      → foldl extend_attribute ret front ≡ reported_device self peers
      → extend_message ret (with_peers cmd front group)
        ≡ reported_device self (some (foldl push_parsed (Option.get_or peers []) group))
  unfolding extend_message extend_attribute
  extend_group self ret cmd front group peers h =
      foldl-append extend_attribute ret front (WireguardAttribute.peers group ∷ [])
      ∙ ap (λ s. extend_attribute s (WireguardAttribute.peers group)) h

  extend_later :
      (self : WireguardParsed) (cmd : WireguardCmd) (iface : WireguardAttribute)
      (groups : List (List WireguardPeer)) (peers : List WireguardPeerParsed)
      → iface_attribute self ≡ ok iface
      → foldl extend_message
          (reported_device self (some peers))
          (map (with_peers cmd (iface ∷ [])) groups)
        ≡ reported_device self (some (foldl push_parsed peers (concat groups)))
  extend_later self cmd iface [] peers h = refl
  extend_later self cmd iface (group ∷ groups) peers h =
      ap (λ s. foldl extend_message s (map (with_peers cmd (iface ∷ [])) groups))
        (extend_group self (reported_device self (some peers)) cmd (iface ∷ []) group (some peers)
          (iface_again self iface (some peers) h))
      ∙ (extend_later self cmd iface groups (foldl push_parsed peers group) h
          ∙ ap (λ ps. reported_device self (some ps))
              (sym (foldl-append push_parsed peers group (concat groups))))

  parse_groups :
      (base64 : Base64Laws c) (self : WireguardParsed) (cmd : WireguardCmd)
      (device : List WireguardAttribute) (iface : WireguardAttribute)
      (groups : List (List WireguardPeer))
      → device_attributes self ≡ ok device
      → iface_attribute self ≡ ok iface
      → 1 ≤ length groups
      → parse_messages (messages_for cmd device iface groups)
        ≡ reported_device self (some (foldl push_parsed [] (concat groups)))
  unfolding parse_messages
  parse_groups base64 self cmd device iface [] device_ok iface_ok h = absurd (omega arith)
  parse_groups base64 self cmd device iface (group ∷ groups) device_ok iface_ok h =
      ap (λ s. foldl extend_message s (map (with_peers cmd (iface ∷ [])) groups))
        (extend_group self default_device cmd device group none
          (device_back base64 self device device_ok))
      ∙ (extend_later self cmd iface groups (foldl push_parsed [] group) iface_ok
          ∙ ap (λ ps. reported_device self (some ps))
              (sym (foldl-append push_parsed [] group (concat groups))))

  -- Nothing is in front of the first peer.
  starts : (peers : List WireguardPeerParsed) → HeadNew [] peers
  starts [] = tt
  starts (p ∷ ps) = tt

  -- A configuration with peers, of which no two neighbours have the same key, is the same again
  -- once the messages that it is built into are parsed together, except that it lacks the index of
  -- an interface that has a name, the allowed IPs of a peer that is to be removed, a preshared key
  -- of zeros and a handshake at time zero or after 2^63 seconds, and that flags come in the order
  -- of their bit sets. It is assumed that base64 keeps bytes and accepts only the text that it
  -- writes, and that last handshakes are durations.
  pub parse_messages-build_messages :
      (base64 : Base64Laws c) (self : WireguardParsed) (cmd : WireguardCmd)
      (peers : List WireguardPeerParsed) (device : List WireguardAttribute)
      (chunks : List WireguardPeer)
      → self.peers ≡ some peers
      → device_attributes self ≡ ok device
      → all_chunks peers ≡ ok chunks
      → All (λ p. IsDuration p.last_handshake) peers
      → AreApart peers
      → (messages : List WireguardMessage) × (build_messages self cmd ≡ ok messages)
        × (parse_messages messages ≡ reported_device self (some (map reported peers)))
  unfolding parse_messages
  parse_messages-build_messages base64 self cmd peers device chunks has device_ok split valid
        apart =
      let (iface, iface_ok, f) =
        build_messages_total self cmd peers device chunks has device_ok split in
      (
        messages_for cmd device iface f.groups,
        f.messages,
        parse_groups base64 self cmd device iface f.groups device_ok iface_ok f.not_empty
            ∙ ap (λ ps. reported_device self (some ps))
                (ap (foldl push_parsed []) f.content
                  ∙ push_peers base64 [] peers chunks valid apart (starts peers) split),
      )
