-- ===== src/Tests/Updating.antt =====
-- A peer that is to be updated only, and that is split.
use mathlib.Core.List.{foldl}
use nl_wireguard.Base.{
  ◌≡◌, refl, ◌⊎◌, inl, Bool, true, false, Option, some, List, [], ◌∷◌, ◌++◌, All, if◌then◌else◌,
}
use nl_wireguard.Packet.{Bytes, WireguardPeerAttribute, WireguardPeer}
use nl_wireguard.Error.{ok}
use nl_wireguard.Key.{decode_key}
use nl_wireguard.AllowedIp.{ip_attributes, validate}
use nl_wireguard.Samples.{sample}
use nl_wireguard.Samples.Encoding.{encode, decode}
use nl_wireguard.Samples.FlagSets.{collect}
use nl_wireguard.Flags.{WireguardParsedPeerFlags, build_peer_flags, peer_flag_bits}
use nl_wireguard.Peer.{WireguardPeerParsed, validate_all}
use nl_wireguard.Peer
use nl_wireguard.Split.{peer_chunks, find_public_key}
use nl_wireguard.Split.Created.{Adding, IsFlagless, split_peer_is_created}
use nl_wireguard.Tests.{peer, peer_attributes, public, keepalive, ips, ip}

-- The sample peer, to be updated only.
abbrev only_updated : WireguardPeerParsed
only_updated = record peer { flags = some (WireguardParsedPeerFlags.update_only ∷ []) }

abbrev update_flags : WireguardPeerAttribute
update_flags = WireguardPeerAttribute.flags 4

abbrev updated_attributes : WireguardPeer
updated_attributes = peer_attributes ++ update_flags ∷ []

updated_builds : Peer.build only_updated ≡ ok updated_attributes
unfolding Peer.build Peer.build_holding decode_key encode decode validate_all validate
    build_peer_flags collect peer_flag_bits
updated_builds = refl

abbrev first_chunk : WireguardPeer
first_chunk = public ∷ keepalive ∷ update_flags ∷ ips (1 ∷ []) ∷ []

abbrev second_chunk : WireguardPeer
second_chunk = public ∷ ips (2 ∷ 3 ∷ []) ∷ []

updated_splits : peer_chunks only_updated ≡ ok (first_chunk ∷ second_chunk ∷ [])
unfolding peer_chunks Peer.build Peer.build_holding decode_key encode decode validate_all validate
    find_public_key ip_attributes build_peer_flags collect peer_flag_bits
updated_splits = refl

abbrev HoldsSome : List (Option WireguardPeerAttribute) → Option WireguardPeerAttribute → Type 0
HoldsSome [] key = ⊥
HoldsSome (held ∷ more) key = (held ≡ key) ⊎ HoldsSome more key

abbrev flagless : WireguardPeer → Bool
flagless [] = true
flagless (WireguardPeerAttribute.flags bits ∷ attrs) = false
flagless (attr ∷ attrs) = flagless attrs

all_flagless : (attrs : WireguardPeer) → All IsFlagless attrs → flagless attrs ≡ true
all_flagless [] h = refl
all_flagless (WireguardPeerAttribute.flags bits ∷ attrs) h = absurd h.0
all_flagless (attr ∷ attrs) h = all_flagless attrs h.1

holding_adds :
    (s : List (Option WireguardPeerAttribute)) (attrs : WireguardPeer) (key : Bytes)
    → find_public_key attrs ≡ some (WireguardPeerAttribute.public_key key)
    → All IsFlagless attrs
    → HoldsSome
        (if flagless attrs then find_public_key attrs ∷ s else s)
        (some (WireguardPeerAttribute.public_key key))
holding_adds s attrs key found plain = rw (all_flagless attrs plain) (inl found)

-- A device that holds the keys of the peers that came without flags.
abbrev holding : Adding (List (Option WireguardPeerAttribute))
holding = record {
  set_peer = λ s attrs. if flagless attrs then find_public_key attrs ∷ s else s;
  Holds = λ s key. HoldsSome s (some (WireguardPeerAttribute.public_key key));
  adds = λ s attrs key found plain. holding_adds s attrs key found plain;
}

split_peer_is_created_example :
    (key : Bytes) × (find_public_key updated_attributes
      ≡ some (WireguardPeerAttribute.public_key key))
    × holding.Holds (foldl holding.set_peer [] (first_chunk ∷ second_chunk ∷ [])) key
unfolding build_peer_flags collect peer_flag_bits
split_peer_is_created_example =
    split_peer_is_created holding [] only_updated updated_attributes (ip 1 ∷ ip 2 ∷ ip 3 ∷ [])
      first_chunk second_chunk [] updated_builds refl refl updated_splits
