-- ===== src/Debug/Hidden.antt =====
-- What the `Debug` output of a configuration depends on.
use mathlib.Core.Option
use nl_wireguard.Base.{◌≡◌, refl, ap, ◌↔◌, String, Option, none, some, List, map, is_some}
use nl_wireguard.Peer.{WireguardPeerParsed}
use nl_wireguard.Device.{WireguardParsed}
use nl_wireguard.Redact.Secrecy.{Same, map-Same}
use nl_wireguard.Debug.{Derived, hide, peer_view, fmt_peer, parsed_view, fmt_parsed}

-- Both keys are there, or neither is.
abbrev pub SamePresence : Option String → Option String → Type 0
SamePresence key other = is_some key ≡ is_some other

-- The peers agree but for the text of the preshared keys.
pub record SamePeer (p q : WireguardPeerParsed) : Type 0 where
  pub rest : (record p { preshared_key = none }) ≡ (record q { preshared_key = none })
  pub presence : SamePresence p.preshared_key q.preshared_key

abbrev pub SamePeers :
    Option (List WireguardPeerParsed) → Option (List WireguardPeerParsed) → Type 0
SamePeers none none = Unit
SamePeers (some ps) (some qs) = Same SamePeer ps qs
SamePeers _ _ = ⊥

-- The configurations agree but for the text of the private key and of the preshared keys.
pub record SameParsed (a b : WireguardParsed) : Type 0 where
  pub rest :
      (record a { private_key = none; peers = none })
      ≡ (record b { private_key = none; peers = none })
  pub presence : SamePresence a.private_key b.private_key
  pub peers : SamePeers a.peers b.peers

hide_same : (key other : Option String) → SamePresence key other → hide key ≡ hide other
unfolding hide
hide_same key other h = rw h refl

hide_presence : (key other : Option String) → hide key ≡ hide other → SamePresence key other
unfolding hide
hide_presence none none h = refl
hide_presence none (some other) h = cc h
hide_presence (some key) none h = cc h
hide_presence (some key) (some other) h = refl

peer_view_same : (p q : WireguardPeerParsed) → SamePeer p q → peer_view p ≡ peer_view q
unfolding peer_view
peer_view_same p q h = cc (h.rest, hide_same p.preshared_key q.preshared_key h.presence)

-- The view of a peer hides the text of the preshared key and nothing else: two peers have the same
-- view exactly if they agree in every other field and either both have a preshared key or neither.
pub peer_view_iff : (p q : WireguardPeerParsed) → (peer_view p ≡ peer_view q) ↔ SamePeer p q
unfolding peer_view
peer_view_iff p q = (
  λ h. record { rest = cc h; presence = hide_presence p.preshared_key q.preshared_key (cc h) },
  peer_view_same p q,
)

module _ (derived : Derived) where
  peers_same :
      (ps qs : Option (List WireguardPeerParsed))
      → SamePeers ps qs
      → Option.map (map (fmt_peer derived)) ps ≡ Option.map (map (fmt_peer derived)) qs
  unfolding fmt_peer
  peers_same none none h = refl
  peers_same none (some qs) h = elim h [ ]
  peers_same (some ps) none h = elim h [ ]
  peers_same (some ps) (some qs) h = ap some (
      map-Same SamePeer (fmt_peer derived) (λ p q s. ap derived.fmt_peer (peer_view_same p q s)) ps
        qs h)

  -- The `Debug` output of a configuration does not depend on the text of its private key or of the
  -- preshared keys of its peers: two configurations that agree in everything else, and in which
  -- keys are there, are formatted alike, whatever the derived formatting does with its view.
  pub fmt_parsed_same :
      (a b : WireguardParsed) → SameParsed a b → fmt_parsed derived a ≡ fmt_parsed derived b
  unfolding fmt_parsed parsed_view
  fmt_parsed_same a b h = ap derived.fmt_parsed (
      cc (
        h.rest,
        hide_same a.private_key b.private_key h.presence,
        peers_same a.peers b.peers h.peers,
      ))
