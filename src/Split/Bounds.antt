-- ===== src/Split/Bounds.antt =====
-- The length of the chunks of a peer.
use mathlib.Core.Option
use nl_wireguard.Base.{
  ◌+◌, ◌≤◌, ◌≡◌, sym, ◌∙◌, Bool, true, false, Option, none, some, List, [], ◌∷◌, ◌++◌, map, arith,
  All, sum_by, flatten_option,
}
use nl_wireguard.Packet.{Bytes, WireguardAllowedIp, WireguardPeerAttribute, WireguardPeer}
use nl_wireguard.Crates.{Crates, LengthLaws}
use nl_wireguard.Error.{ok}
use nl_wireguard.AllowedIp.{ip_attributes}
use nl_wireguard.Peer.{WireguardPeerParsed, build}
use nl_wireguard.Peer.Built.{built}
use nl_wireguard.Split.{
  find_public_key, split_parts, split_ips, ip_chunks, peer_chunks, max_nla_value_len,
}
use nl_wireguard.Split.Chunks.{
  ips_of, without_ips, ip_chunks_bounds, chunk_length, HasRoom, FitsNla, key_len, state_len,
}
use nl_wireguard.Split.Parts.{removes, parted}
use nl_wireguard.Split.Peers.{after_build, find_kept, key_of}

module _ ⦃c : Crates⦄ where
  key-le-state :
      (xs : List WireguardPeerAttribute) (key : Bytes)
      → find_public_key xs ≡ some (WireguardPeerAttribute.public_key key)
      → c.attr_buffer_len (WireguardPeerAttribute.public_key key) ≤ sum_by c.attr_buffer_len xs
  unfolding find_public_key
  key-le-state [] key h = cc
  key-le-state (WireguardPeerAttribute.public_key other ∷ xs) key h =
      let same : WireguardPeerAttribute.public_key other ≡ WireguardPeerAttribute.public_key key =
        cc h in
      rw (← same) (omega arith)
  key-le-state (x ∷ xs) key h = omega (arith, key-le-state xs key h)

  room_later :
      (xs : List WireguardPeerAttribute) (key : Bytes) (ips : List WireguardAllowedIp)
      → find_public_key xs ≡ some (WireguardPeerAttribute.public_key key)
      → All (HasRoom (state_len xs)) ips
      → All (HasRoom (key_len key)) ips
  room_later xs key [] h room = tt
  room_later xs key (ip ∷ ips) h room =
      let shorter = key-le-state xs key h in (omega (arith, room.0), room_later xs key ips h room.1)

  module _ (lengths : LengthLaws c) where
    split_ips_bounds :
        (state : List WireguardPeerAttribute) (key : Bytes) (ips : List WireguardAllowedIp)
        (chunks : List WireguardPeer)
        → find_public_key state ≡ some (WireguardPeerAttribute.public_key key)
        → split_ips state ips ≡ ok chunks
        → state_len state + c.nla_header_size ≤ max_nla_value_len
        → All (HasRoom (state_len state)) ips
        → All FitsNla chunks
    unfolding split_ips
    split_ips_bounds state key [] chunks k h fits room =
        let made : ((state ++ WireguardPeerAttribute.allowed_ips [] ∷ []) ∷ []) ≡ chunks = cc h in
        rw (← made) (omega (arith, chunk_length lengths state []), tt)
    split_ips_bounds state key (ip ∷ ips) chunks k h fits room =
        let made : ip_chunks state (WireguardPeerAttribute.public_key key) (ip ∷ ips) ≡ chunks =
          cc ((rw (k, split_ips) at h)) in
        rw (← made)
          (ip_chunks_bounds lengths state key ip ips room (room_later state key (ip ∷ ips) k room))

    state_bound :
        (state : List WireguardPeerAttribute) (chunks : List WireguardPeer)
        → ok (state ∷ []) ≡ ok chunks
        → state_len state + c.nla_header_size ≤ max_nla_value_len
        → All FitsNla chunks
    state_bound state chunks h fits =
        let made : (state ∷ []) ≡ chunks = cc h in
        rw (← made) (omega (arith, lengths.peer_length state), tt)

    parts_bounds :
        (state : List WireguardPeerAttribute) (key : Bytes) (o : Option (List WireguardAllowedIp))
        (r : Bool) (chunks : List WireguardPeer)
        → find_public_key state ≡ some (WireguardPeerAttribute.public_key key)
        → split_parts (record { state_attributes = state; allowed_ips = o; remove_me = r })
          ≡ ok chunks
        → state_len state + c.nla_header_size ≤ max_nla_value_len
        → All (HasRoom (state_len state)) (flatten_option o)
        → All FitsNla chunks
    unfolding split_parts
    parts_bounds state key none r chunks k h fits room = state_bound state chunks h fits
    parts_bounds state key (some ips) true chunks k h fits room = state_bound state chunks h fits
    parts_bounds state key (some ips) false chunks k h fits room =
        split_ips_bounds state key ips chunks k h fits room

    -- Every chunk of a peer fits into one netlink attribute, the alignment included, if the
    -- state of the peer does and each of its allowed IPs fits behind that state. It is assumed
    -- that the length of a peer and of its allowed IPs is a header and the sum of the parts.
    pub peer_chunks_bounds :
        (p : WireguardPeerParsed) (attrs : WireguardPeer) (chunks : List WireguardPeer)
        → build p ≡ ok attrs
        → peer_chunks p ≡ ok chunks
        → state_len (without_ips attrs) + c.nla_header_size ≤ max_nla_value_len
        → All (HasRoom (state_len (without_ips attrs))) (ips_of attrs)
        → All FitsNla chunks
    peer_chunks_bounds p attrs chunks h made fits room =
        let b = built p attrs h in
        let (key, holds) = key_of p attrs h in
        parts_bounds (without_ips attrs) key (Option.map (map ip_attributes) p.allowed_ips)
          (removes p.flags) chunks (find_kept attrs ∙ holds) (sym (after_build p attrs b h) ∙ made)
          fits (rw (← (parted p attrs b).1) room)
