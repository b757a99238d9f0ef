-- ===== src/Tests/Building.antt =====
-- The theorems on building, splitting and sending at the sample configuration.
use mathlib.Core.List.{foldl}
use nl_wireguard.Base.{All, ◌≡◌, ◌≤◌, ◌↔◌, refl, List, [], ◌∷◌, ◌++◌, map, inl, inr, arith, length}
use nl_wireguard.Packet.{
  WireguardCmd, WireguardPeerAttribute, WireguardPeer, WireguardAttribute, WireguardMessage,
  WireguardAllowedIp,
}
use nl_wireguard.Error.{ok}
use nl_wireguard.AllowedIp.{ip_attributes, try_from, add_part, whole}
use nl_wireguard.Samples.{sample, sample-Base64Laws, sample-FlagLaws}
use nl_wireguard.Samples.FlagSets.{collect}
use nl_wireguard.Samples.Table.{Table, tabular}
use nl_wireguard.Flags.{build_peer_flags, peer_flag_bits}
use nl_wireguard.Peer.{remove, parse_peer, add_attribute, parse_preshared_key}
use nl_wireguard.Peer
use nl_wireguard.Peer.Reported.{build-parse_peer}
use nl_wireguard.Split.While.{Runs, while_lem, all_continuations, Ended}
use nl_wireguard.Device.{iface_attribute}
use nl_wireguard.Messages.{build_messages}
use nl_wireguard.Messages.Groups.{messages_for, groups_of, with_peers}
use nl_wireguard.Messages.Distinct.{IsDistinct, build_messages-IsDistinct}
use nl_wireguard.Messages.Fewest.{build_messages_greedy, build_messages_fewest}
use nl_wireguard.Messages.Accepted.{IsBuildable, build_messages_iff}
use nl_wireguard.Messages.Applied.{unsplit_peers, apply, build_messages_refines}
use nl_wireguard.Handle.{Kernel, replied, set}
use nl_wireguard.Handle.Steps.{Accepted, request_of}
use nl_wireguard.Handle.Sending.{set_iff}
use nl_wireguard.Handle.Applied.{set_applies}
use nl_wireguard.Tests.{
  device, device_front, device_chunks, device_builds, device_splits, peer, removed, peer_attributes,
  peer_builds, removed_builds, public, other_public, ip, key_text, copies,
}
use nl_wireguard.Tests.Handling.{acknowledged, device_messages, device_messages_built}

build_messages_greedy_example :
    (iface : WireguardAttribute) × (iface_attribute device ≡ ok iface)
    × (build_messages device WireguardCmd.set_device
        ≡ ok (messages_for WireguardCmd.set_device device_front iface (groups_of device_chunks)))
build_messages_greedy_example =
    build_messages_greedy device WireguardCmd.set_device (peer ∷ removed ∷ []) device_front
      device_chunks refl device_builds device_splits

-- One message for each chunk.
abbrev singles : List (List WireguardPeer)
singles = map (λ chunk. chunk ∷ []) device_chunks

build_messages_fewest_example :
    (messages : List WireguardMessage) × (build_messages device WireguardCmd.set_device
      ≡ ok messages)
    × (length messages ≤ length singles)
build_messages_fewest_example =
    build_messages_fewest device WireguardCmd.set_device (peer ∷ removed ∷ []) device_front
      device_chunks singles refl device_builds device_splits refl
      (inl (omega arith), (inl (omega arith), (inl (omega arith), tt))) (omega arith)

build_messages_iff_example :
    ((messages : List WireguardMessage) × (build_messages device WireguardCmd.set_device
        ≡ ok messages))
    ↔ IsBuildable device
build_messages_iff_example = build_messages_iff device WireguardCmd.set_device

abbrev removal_attributes : WireguardPeer
removal_attributes = other_public ∷ WireguardPeerAttribute.flags 1 ∷ []

abbrev whole_peers : List WireguardPeer
whole_peers = peer_attributes ∷ removal_attributes ∷ []

whole_built : unsplit_peers (peer ∷ removed ∷ []) ≡ ok whole_peers
unfolding unsplit_peers remove build_peer_flags collect peer_flag_bits
whole_built = rw (peer_builds, removed_builds, unsplit_peers) refl

-- The device holds the peer that is to be removed.
abbrev one_peer : Table
one_peer = record {
  properties = [];
  entries = (record { key = copies 32 2; settings = []; allowed_ips = [] }) ∷ [];
}

build_messages_refines_example :
    (messages : List WireguardMessage) × (build_messages device WireguardCmd.set_device
      ≡ ok messages)
    × (foldl (apply tabular) one_peer messages
        ≡ apply tabular one_peer (with_peers WireguardCmd.set_device device_front whole_peers))
unfolding remove
build_messages_refines_example =
    build_messages_refines tabular device WireguardCmd.set_device (peer ∷ removed ∷ []) device_front
      whole_peers one_peer refl device_builds whole_built (inr (inr refl), (inl refl, tt))

abbrev three_ips : List WireguardAllowedIp
three_ips = map (λ n. ip_attributes (ip n)) (1 ∷ 2 ∷ 3 ∷ [])

while_lem_example :
    (Runs public three_ips [] 2 (all_continuations public three_ips)
      ↔ Ended public three_ips [] 2 (all_continuations public three_ips))
    × (length (all_continuations public three_ips) ≤ length three_ips)
while_lem_example = while_lem public three_ips [] 2 (all_continuations public three_ips)

build-parse_peer_example :
    (again : WireguardPeer) × (Peer.build (parse_peer peer_attributes) ≡ ok again)
    × (parse_peer again ≡ parse_peer peer_attributes)
unfolding parse_peer add_attribute try_from add_part whole ip_attributes
build-parse_peer_example =
    build-parse_peer sample-FlagLaws sample-Base64Laws peer_attributes key_text refl
      (refl, (tt, ((omega arith, (omega arith, (omega arith, tt))), tt)))

-- A kernel that takes everything.
abbrev takes_all : Kernel
takes_all _ = replied (acknowledged ∷ [])

takes_all_parts : Accepted takes_all [] device_messages
takes_all_parts = (refl, (refl, (refl, tt)))

set_applies_example :
    (messages : List WireguardMessage) × ((set takes_all device []).1
      ≡ [] ++ map (request_of takes_all) messages)
    × (foldl (apply tabular) one_peer messages
        ≡ apply tabular one_peer (with_peers WireguardCmd.set_device device_front whole_peers))
unfolding remove
set_applies_example =
    set_applies takes_all tabular device (peer ∷ removed ∷ []) device_front whole_peers one_peer []
      refl device_builds whole_built (inr (inr refl), (inl refl, tt))
      ((set_iff takes_all device [] device_messages device_messages_built).1 takes_all_parts)

build_messages-IsDistinct_example : All IsDistinct device_messages
build_messages-IsDistinct_example =
    build_messages-IsDistinct device WireguardCmd.set_device device_messages device_messages_built
