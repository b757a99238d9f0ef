-- ===== src/Split/Parsed.antt =====
-- What `parse_peer` makes of the chunks of a peer.
use mathlib.Core.List.{foldl, foldl-append}
use nl_wireguard.Base.{◌≡◌, refl, ap, sym, ◌∙◌, Option, none, some, List, [], ◌∷◌, ◌++◌, inl, inr}
use nl_wireguard.Packet.{Bytes, WireguardAllowedIp, WireguardPeerAttribute, WireguardPeer}
use nl_wireguard.Crates.{Crates, Base64Laws}
use nl_wireguard.Error.{ok, Result-cases}
use nl_wireguard.Key.Laws.{decoded_of_ok}
use nl_wireguard.AllowedIp.{WireguardIpAddress, try_from}
use nl_wireguard.Peer.{
  WireguardPeerParsed, default_peer, add_attribute, parse_peer, parse_allowed_ips, build,
}
use nl_wireguard.Peer.Built.{built, holds_public}
use nl_wireguard.Split.{find_public_key}
use nl_wireguard.Split.Chunks.{without_ips}
use nl_wireguard.Split.Parts.{parted, finds_key}
use nl_wireguard.Split.Peers.{find_kept}

-- The peer with these allowed IPs.
abbrev pub with_ips : Option (List WireguardIpAddress) → WireguardPeerParsed → WireguardPeerParsed
with_ips ips p = record p { allowed_ips = ips }

module _ ⦃c : Crates⦄ where
  skip_ips :
      (o : Option (List WireguardIpAddress)) (s : WireguardPeerParsed) (xs : WireguardPeer)
      → foldl add_attribute (with_ips o s) (without_ips xs) ≡ with_ips o (foldl add_attribute s xs)
  unfolding add_attribute
  skip_ips o s [] = refl
  skip_ips o s (WireguardPeerAttribute.allowed_ips ips ∷ xs) =
      skip_ips o (add_attribute s (WireguardPeerAttribute.allowed_ips ips)) xs
  skip_ips o s (x ∷ xs) = skip_ips o (add_attribute s x) xs

  -- The first chunk is the peer with the allowed IPs of the chunk.
  pub parse_first :
      (attrs : WireguardPeer) (batch : List WireguardAllowedIp)
      → parse_peer (without_ips attrs ++ WireguardPeerAttribute.allowed_ips batch ∷ [])
        ≡ with_ips (some (parse_allowed_ips batch)) (parse_peer attrs)
  unfolding parse_peer add_attribute
  parse_first attrs batch =
      foldl-append add_attribute default_peer (without_ips attrs)
        (WireguardPeerAttribute.allowed_ips batch ∷ [])
      ∙ ap (with_ips (some (parse_allowed_ips batch))) (skip_ips none default_peer attrs)

  pub parse_state :
      (attrs : WireguardPeer) → parse_peer (without_ips attrs) ≡ with_ips none (parse_peer attrs)
  unfolding parse_peer
  parse_state attrs = skip_ips none default_peer attrs

  -- A continuation is a peer with a key and allowed IPs alone.
  pub parse_continuation :
      (key : Bytes) (batch : List WireguardAllowedIp)
      → parse_peer
          (WireguardPeerAttribute.public_key key ∷ WireguardPeerAttribute.allowed_ips batch ∷ [])
        ≡ record default_peer {
          public_key = some (c.encode key);
          allowed_ips = some (parse_allowed_ips batch);
        }
  unfolding parse_peer add_attribute
  parse_continuation key batch = refl

  pub parse_allowed_ips-append :
      (xs ys : List WireguardAllowedIp)
      → parse_allowed_ips (xs ++ ys) ≡ parse_allowed_ips xs ++ parse_allowed_ips ys
  unfolding parse_allowed_ips
  parse_allowed_ips-append [] ys = refl
  parse_allowed_ips-append (x ∷ xs) ys = elim (Result-cases (try_from x)) [
    | inl (ip, parsed) ↦
        rw (parsed, parse_allowed_ips) (ap (λ ips. ip ∷ ips) (parse_allowed_ips-append xs ys))
    | inr (e, failed) ↦ rw (failed, parse_allowed_ips) (parse_allowed_ips-append xs ys)
  ]

  -- The key in the attributes is the key of the peer.
  pub encoded_key :
      Base64Laws c
      → (p : WireguardPeerParsed) (attrs : WireguardPeer) (key : Bytes) → build p ≡ ok attrs
      → find_public_key attrs ≡ some (WireguardPeerAttribute.public_key key)
      → p.public_key ≡ some (c.encode key)
  encoded_key base64 p attrs key h finds =
      let b = built p attrs h in
      let (key', e, d) = holds_public p attrs b in
      let found : find_public_key attrs ≡ some (WireguardPeerAttribute.public_key key') =
        sym (find_kept attrs)
        ∙ (ap find_public_key (parted p attrs b).0 ∙ finds_key p attrs b key' e) in
      let text = base64.encode-decode b.key key' (decoded_of_ok "peer.public_key" b.key key' d).0 in
      cc (finds, found, text, b.holds_key)
