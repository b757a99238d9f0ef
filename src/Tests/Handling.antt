-- ===== src/Tests/Handling.antt =====
-- The theorems on messages, errors and the handle at the sample configuration.
use nl_wireguard.Base.{
  ℕ, ◌≡◌, ◌⊎◌, ◌↔◌, refl, List, [], ◌∷◌, ◌++◌, some, none, map, All, concat_map, arith,
}
use nl_wireguard.Base.Text.{contains_nul}
use nl_wireguard.Base.Int.{negsuc}
use nl_wireguard.Packet.{
  IpAddr, WireguardCmd, WireguardPeerAttribute, WireguardPeer, WireguardAttribute, WireguardMessage,
  NetlinkPayload, NetlinkMessage,
}
use nl_wireguard.Error.{ok}
use nl_wireguard.AllowedIp.{WireguardIpAddress, ip_attributes}
use nl_wireguard.Flags.{WireguardParsedAllowedIpFlags}
use nl_wireguard.Redact.{redact_message}
use nl_wireguard.Redact.Secrecy.{IsRedacted, SameButKeys}
use nl_wireguard.Redact.Guarantees.{IsUntouched, redact_message_lem}
use nl_wireguard.Samples.Encoding.{encode, decode-encode}
use nl_wireguard.Samples.{sample, sample-Base64Laws, sample-LengthLaws}
use nl_wireguard.Peer.{WireguardPeerParsed, validate_all, default_peer, remove, parse_peer}
use nl_wireguard.Peer
use nl_wireguard.Device
use nl_wireguard.Device.Coalesce.{reported, push_peer-peer_chunks}
use nl_wireguard.Device.RoundTrip.{reported_device}
use nl_wireguard.Messages.RoundTrip.{parse_messages-build_messages}
use mathlib.Core.List.{foldl}
use nl_wireguard.Device.{
  push_parsed, parse_messages, same_key, WireguardParsed, default_device, iface_attribute,
  device_attributes, parse_messages,
}
use nl_wireguard.Messages.{build_messages}
use nl_wireguard.Messages
use nl_wireguard.Handle.Safety.{SafeOption, handle-IsSafe}
use nl_wireguard.Device.Interface.{IsNamed, IsIndexed, iface_attribute_iff}
use nl_wireguard.Messages.Bounds.{FitsPeer, FitsAttribute, build_messages_bounds}
use nl_wireguard.Peer.Accepted.{IsKey, IsAcceptable, build_iff}
use nl_wireguard.Handle.Removal.{removal, remove_peer_lem}
use nl_wireguard.Handle.{
  set_flags, remove_peer, get_by_name, Reply, received, replied, Kernel, parse_nl_msg_stream,
  request_for, set,
}
use nl_wireguard.Handle.Stream.{IsSafe, carried, messages_of, error_count, parse_nl_msg_stream_lem}
use nl_wireguard.Handle.Steps.{IsAccepted, Completed, Stopped}
use nl_wireguard.Handle.Sending.{set_lem}
use nl_wireguard.Tests.{
  copies, key_bytes, key_text, peer, keepalive, public, ips, peer_attributes, chunks, peer_builds,
  peer_splits, other_public, removed, removed_builds, removed_splits, device, device_front,
  device_chunks, device_builds, device_splits,
}

abbrev pub with_key : ℕ → NetlinkMessage
with_key byte = request_for 5 (record {
  cmd = WireguardCmd.set_device;
  attributes = WireguardAttribute.private_key (copies 32 byte) ∷ device_front;
})

abbrev ends_dump : NetlinkMessage
ends_dump = record {
  header = sample.default_header;
  payload = NetlinkPayload.done (record { code = negsuc 18; extended_ack = 1 ∷ 2 ∷ [] });
}

redact_message_lem_example :
    IsRedacted (redact_message ends_dump).payload
    × SameButKeys ends_dump (redact_message ends_dump)
    × IsUntouched ends_dump.payload (redact_message ends_dump).payload
redact_message_lem_example = redact_message_lem ends_dump

abbrev pub acknowledged : Reply
acknowledged = received (record {
  header = sample.default_header;
  payload = NetlinkPayload.error (record { code = none; header = [] });
})

abbrev pub failed : Reply
failed = received (record {
  header = sample.default_header;
  payload = NetlinkPayload.error (record { code = some (negsuc 0); header = [] });
})

parse_nl_msg_stream_example :
    All IsSafe
      (parse_nl_msg_stream (with_key 7) (received (with_key 9) ∷ acknowledged ∷ failed ∷ []))
    × (messages_of
          (parse_nl_msg_stream (with_key 7) (received (with_key 9) ∷ acknowledged ∷ failed ∷ []))
        ≡ concat_map carried (received (with_key 9) ∷ acknowledged ∷ failed ∷ []))
    × (error_count
          (parse_nl_msg_stream (with_key 7) (received (with_key 9) ∷ acknowledged ∷ failed ∷ []))
        ≡ 1)
parse_nl_msg_stream_example =
    parse_nl_msg_stream_lem (with_key 7) (received (with_key 9) ∷ acknowledged ∷ failed ∷ [])

-- A kernel that takes the first request and refuses the second.
abbrev takes_one : Kernel
takes_one (first ∷ []) = replied (acknowledged ∷ [])
takes_one _ = replied (failed ∷ [])

abbrev pub message : List WireguardAttribute → List WireguardPeer → WireguardMessage
message front peers = record {
  cmd = WireguardCmd.set_device;
  attributes = front ++ WireguardAttribute.peers peers ∷ [];
}

abbrev pub device_messages : List WireguardMessage
device_messages =
    message device_front ((public ∷ keepalive ∷ ips (1 ∷ 2 ∷ []) ∷ []) ∷ [])
    ∷ message (WireguardAttribute.if_name "wg0" ∷ []) ((public ∷ ips (3 ∷ []) ∷ []) ∷ [])
    ∷ message (WireguardAttribute.if_name "wg0" ∷ [])
        ((other_public ∷ WireguardPeerAttribute.flags 1 ∷ []) ∷ [])
    ∷ []

pub device_messages_built : build_messages device WireguardCmd.set_device ≡ ok device_messages
unfolding build_messages Messages.finish Messages.add_peers Messages.add_chunks Messages.add_chunk
    Messages.flush ip_attributes Device.build_message Device.leading_attributes device_attributes
    iface_attribute contains_nul Device.key_attribute
device_messages_built = rw (peer_splits, removed_splits) refl

set_lem_example :
    Completed takes_one [] device_messages (set takes_one device [])
    ⊎ Stopped takes_one 3 0 [] device_messages (set takes_one device [])
set_lem_example = set_lem takes_one device [] device_messages device_messages_built

push_peer-peer_chunks_example : foldl push_parsed [] chunks ≡ reported peer ∷ []
push_peer-peer_chunks_example =
    push_peer-peer_chunks sample-Base64Laws [] peer peer_attributes chunks tt peer_builds tt
      peer_splits

parse_messages-build_messages_example :
    (messages : List WireguardMessage) × (build_messages device WireguardCmd.set_device
      ≡ ok messages)
    × (parse_messages messages ≡ reported_device device (some (map reported (peer ∷ removed ∷ []))))
unfolding same_key encode remove
parse_messages-build_messages_example =
    parse_messages-build_messages sample-Base64Laws device WireguardCmd.set_device
      (peer ∷ removed ∷ []) device_front device_chunks refl device_builds device_splits
      (tt, (tt, tt)) (refl, tt)

handle-IsSafe_example :
    IsSafe (set takes_one device []).0
    × IsSafe (remove_peer takes_one "wg0" key_text []).0
    × SafeOption (get_by_name takes_one "wg0" []).0
handle-IsSafe_example = handle-IsSafe takes_one device "wg0" key_text []

iface_attribute_iff_example : (iface_attribute device ≡ ok (WireguardAttribute.if_name "wg0")) ↔ (
    IsNamed device (WireguardAttribute.if_name "wg0")
    ⊎ IsIndexed device (WireguardAttribute.if_name "wg0"))
iface_attribute_iff_example = iface_attribute_iff device (WireguardAttribute.if_name "wg0")

peer_fits : FitsPeer peer
unfolding ip_attributes
peer_fits = record {
  attrs = peer_attributes;
  builds = peer_builds;
  state_fits = omega arith;
  ips_fit = (omega arith, (omega arith, (omega arith, tt)));
}

removed_fits : FitsPeer removed
removed_fits = record {
  attrs = other_public ∷ WireguardPeerAttribute.flags 1 ∷ [];
  builds = removed_builds;
  state_fits = omega arith;
  ips_fit = tt;
}

build_messages_bounds_example :
    (messages : List WireguardMessage) × (build_messages device WireguardCmd.set_device
      ≡ ok messages)
    × All (λ m. All FitsAttribute m.attributes) messages
build_messages_bounds_example =
    build_messages_bounds sample-LengthLaws (omega arith) device WireguardCmd.set_device
      (peer ∷ removed ∷ []) device_front device_chunks refl device_builds device_splits
      (peer_fits, (removed_fits, tt))

build_iff_example : ((attrs : WireguardPeer) × (Peer.build peer ≡ ok attrs)) ↔ IsAcceptable peer
build_iff_example = build_iff peer

abbrev sample_key : IsKey key_text
sample_key = record { bytes = key_bytes; decodes = decode-encode key_bytes; is_long = refl }

remove_peer_example :
    ((remove_peer takes_one "wg0" key_text []).1
      ≡ request_for set_flags (removal "wg0" key_bytes) ∷ [])
    × (((remove_peer takes_one "wg0" key_text []).0 ≡ ok tt)
        ↔ IsAccepted (takes_one (request_for set_flags (removal "wg0" key_bytes) ∷ [])))
unfolding contains_nul
remove_peer_example = remove_peer_lem takes_one "wg0" key_text sample_key [] (omega arith) refl

abbrev listed_ip : WireguardIpAddress
listed_ip = record {
  ip_addr = IpAddr.v4 167772160;
  prefix_length = 8;
  flags = some (WireguardParsedAllowedIpFlags.remove_me ∷ []);
}
