-- ===== src/Split/Created.antt =====
-- A device that is sent the chunks of a peer which it does not hold.
use mathlib.Core.List.{foldl}
use mathlib.Core.Path.{subst}
use nl_wireguard.Base.{◌≡◌, refl, sym, false, some, List, [], ◌∷◌, All}
use nl_wireguard.Packet.{Bytes, WireguardPeerAttribute, WireguardPeer}
use nl_wireguard.Crates.{Crates}
use nl_wireguard.Error.{ok}
use nl_wireguard.AllowedIp.{WireguardIpAddress}
use nl_wireguard.Peer.{WireguardPeerParsed, build}
use nl_wireguard.Split.{peer_chunks, find_public_key}
use nl_wireguard.Split.Chunks.{IsContinuation}
use nl_wireguard.Split.Parts.{removes}
use nl_wireguard.Split.Peers.{peer_chunks-IsSplit}

abbrev pub IsFlagless : WireguardPeerAttribute → Type 0
IsFlagless (WireguardPeerAttribute.flags bits) = ⊥
IsFlagless _ = Unit

-- A device that adds each peer that it is told of by its public key and without flags.
pub record Adding (S : Type 0) : Type 1 where
  pub set_peer : S → WireguardPeer → S
  pub Holds : S → Bytes → Type 0
  pub adds :
      (s : S) (attrs : WireguardPeer) (key : Bytes)
      → find_public_key attrs ≡ some (WireguardPeerAttribute.public_key key)
      → All IsFlagless attrs
      → Holds (set_peer s attrs) key

module _ {S : Type 0} (device : Adding S) where
  continuation_adds :
      (s : S) (key : Bytes) (chunk : WireguardPeer)
      → IsContinuation key chunk
      → device.Holds (device.set_peer s chunk) key
  unfolding find_public_key
  continuation_adds s key chunk is = rw is.shape (
      device.adds s
        (WireguardPeerAttribute.public_key key ∷ WireguardPeerAttribute.allowed_ips is.batch ∷ [])
        key refl (tt, (tt, tt)))

  last_adds :
      (s : S) (key : Bytes) (chunk : WireguardPeer) (more : List WireguardPeer)
      → All (IsContinuation key) (chunk ∷ more)
      → device.Holds (foldl device.set_peer s (chunk ∷ more)) key
  last_adds s key chunk [] h = continuation_adds s key chunk h.0
  last_adds s key chunk (next ∷ more) h = last_adds (device.set_peer s chunk) key next more h.1

  module _ ⦃c : Crates⦄ where
    -- A peer that is not to be removed and of which `peer_chunks` makes several chunks is held by
    -- the device afterwards, whatever its other flags are and whether or not the device held it
    -- before: a continuation carries no flags, so a peer that is flagged to be updated only is
    -- created by it. The device is one that adds a peer unless flags come with its key.
    pub split_peer_is_created :
        (s : S) (p : WireguardPeerParsed) (attrs : WireguardPeer) (ips : List WireguardIpAddress)
        (first second : WireguardPeer) (more : List WireguardPeer)
        → build p ≡ ok attrs
        → p.allowed_ips ≡ some ips
        → removes p.flags ≡ false
        → peer_chunks p ≡ ok (first ∷ second ∷ more)
        → (key : Bytes) × (find_public_key attrs ≡ some (WireguardPeerAttribute.public_key key))
          × device.Holds (foldl device.set_peer s (first ∷ second ∷ more)) key
    split_peer_is_created s p attrs ips first second more h has keeps split =
        let (chunks, made, is) = peer_chunks-IsSplit p attrs ips h has keeps in
        let tail : (second ∷ more) ≡ is.chunked.more = cc (made, split, is.chunked.shape) in
        let later : All (IsContinuation is.key) (second ∷ more) =
          subst (All (IsContinuation is.key)) (sym tail) is.chunked.continuations in
        (is.key, is.holds_key, last_adds (device.set_peer s first) is.key second more later)
