-- ===== src/Tests.antt =====
-- Sample inputs, tests by evaluation, and each theorem at an input that meets its hypotheses.
mod Handling
mod Building
mod Reading
mod Hiding
mod Updating
mod Secrecy
mod Showing
mod Cutting
use nl_wireguard.Base.{
  ℕ, zero, suc, ◌≡◌, ◌≢◌, ◌⊎◌, ◌↔◌, refl, List, [], ◌∷◌, ◌++◌, some, none, inl, String, map, All,
  concat_map, arith,
}
use nl_wireguard.Base.Text.{contains_nul}
use nl_wireguard.Base.Int.{negsuc}
use nl_wireguard.Packet.{
  Bytes, IpAddr, WireguardCmd, WireguardPeerAttribute, WireguardPeer, WireguardAttribute,
  WireguardMessage, NetlinkPayload, NetlinkMessage,
}
use nl_wireguard.Error.{ok, err, ErrorKind, WireguardError}
use nl_wireguard.AllowedIp.{WireguardIpAddress, validate, ip_attributes, try_from}
use nl_wireguard.AllowedIp.RoundTrip.{try_from-ip_attributes}
use nl_wireguard.Flags.{
  build_device_flags, parse_device_flags, build_peer_flags, parse_peer_flags, peer_flag_bits,
  build_ip_flags, parse_ip_flags,
}
use nl_wireguard.Flags.Lossless.{flags_lossless}
use nl_wireguard.Redact.{redact_message}
use nl_wireguard.Redact.Secrecy.{IsRedacted, SameButKeys, SamePayload, SameAttribute}
use nl_wireguard.Redact.Guarantees.{redact_message_lem}
use nl_wireguard.Samples.Encoding.{encode, decode, decode-encode}
use nl_wireguard.Samples.FlagSets.{collect}
use nl_wireguard.Samples.{sample, sample-Base64Laws, sample-LengthLaws, sample-FlagLaws}
use nl_wireguard.Key.{decode_key}
use nl_wireguard.Peer.{WireguardPeerParsed, validate_all, default_peer, remove, parse_peer}
use nl_wireguard.Peer
use nl_wireguard.Peer.Parsing.{normal_peer}
use nl_wireguard.Peer.RoundTrip.{parse_peer-build}
use nl_wireguard.Split.{find_public_key, peer_chunks, take_allowed_ips_batch}
use nl_wireguard.Split.Batch.{IsBatch, take_allowed_ips_batch_lem}
use nl_wireguard.Split.Chunks.{FitsNla}
use nl_wireguard.Split.Peers.{
  IsSplit, peer_chunks-IsSplit, peer_chunks_single, peer_chunks-eq-err_iff,
}
use nl_wireguard.Split.Bounds.{peer_chunks_bounds}
use nl_wireguard.Device
use nl_wireguard.Device.Coalesce.{reported, push_peer-peer_chunks}
use nl_wireguard.Device.RoundTrip.{reported_device}
use nl_wireguard.Messages.RoundTrip.{parse_messages-build_messages}
use mathlib.Core.List.{foldl}
use nl_wireguard.Device.{
  push_parsed, parse_messages, same_key, WireguardParsed, default_device, iface_attribute,
  device_attributes, parse_messages,
}
use nl_wireguard.Messages.{build_messages}
use nl_wireguard.Messages
use nl_wireguard.Messages.Groups.{all_chunks, Finished}
use nl_wireguard.Messages.Total.{build_messages_total, build_lem}
use nl_wireguard.Handle.Safety.{SafeOption, handle-IsSafe}
use nl_wireguard.Device.Interface.{IsNamed, IsIndexed, iface_attribute_iff}
use nl_wireguard.Messages.Bounds.{FitsPeer, FitsAttribute, build_messages_bounds}
use nl_wireguard.Handle.Dump.{dump_request}
use nl_wireguard.Peer.Accepted.{IsKey, IsAcceptable, build_iff}
use nl_wireguard.Handle.Removal.{removal, remove_peer_lem}
use nl_wireguard.Handle.{
  set_flags, remove_peer, get_by_name, Reply, received, replied, Kernel, parse_nl_msg_stream,
  request_for, set,
}
use nl_wireguard.Handle.Stream.{IsSafe, carried, messages_of, error_count, parse_nl_msg_stream_lem}
use nl_wireguard.Handle.Steps.{IsAccepted, Completed, Stopped, Accepted}
use nl_wireguard.Handle.Sending.{set_lem}

abbrev copies : ℕ → ℕ → Bytes
copies zero byte = []
copies (suc n) byte = byte ∷ copies n byte

abbrev key_bytes : Bytes
key_bytes = copies 32 1

abbrev key_text : String
key_text = encode key_bytes

abbrev ip : ℕ → WireguardIpAddress
ip n = record { prefix_length = 24; ip_addr = IpAddr.v4 n; flags = none }

abbrev peer : WireguardPeerParsed
peer = record default_peer {
  public_key = some key_text;
  persistent_keepalive = some 25;
  allowed_ips = some (ip 1 ∷ ip 2 ∷ ip 3 ∷ []);
}

abbrev keepalive : WireguardPeerAttribute
keepalive = WireguardPeerAttribute.persistent_keepalive 25

abbrev public : WireguardPeerAttribute
public = WireguardPeerAttribute.public_key key_bytes

abbrev ips : List ℕ → WireguardPeerAttribute
ips ns = WireguardPeerAttribute.allowed_ips (map (λ n. ip_attributes (ip n)) ns)

abbrev peer_attributes : WireguardPeer
peer_attributes = public ∷ keepalive ∷ ips (1 ∷ 2 ∷ 3 ∷ []) ∷ []

abbrev chunks : List WireguardPeer
chunks = (public ∷ keepalive ∷ ips (1 ∷ 2 ∷ []) ∷ []) ∷ (public ∷ ips (3 ∷ []) ∷ []) ∷ []

peer_builds : Peer.build peer ≡ ok peer_attributes
unfolding Peer.build Peer.build_holding decode_key encode decode validate_all validate
peer_builds = refl

peer_splits : peer_chunks peer ≡ ok chunks
unfolding peer_chunks Peer.build Peer.build_holding decode_key encode decode validate_all validate
    find_public_key ip_attributes
peer_splits = refl

peer_chunks-IsSplit_example :
    (made : List WireguardPeer) × (peer_chunks peer ≡ ok made) × IsSplit peer_attributes made
peer_chunks-IsSplit_example =
    peer_chunks-IsSplit peer peer_attributes (ip 1 ∷ ip 2 ∷ ip 3 ∷ []) peer_builds refl refl

peer_chunks_bounds_example : All FitsNla chunks
unfolding ip_attributes
peer_chunks_bounds_example =
    peer_chunks_bounds sample-LengthLaws peer peer_attributes chunks peer_builds peer_splits
      (omega arith) (omega arith, (omega arith, (omega arith, tt)))

parse_peer-build_example : parse_peer peer_attributes ≡ normal_peer peer
parse_peer-build_example = parse_peer-build sample-Base64Laws peer tt peer_attributes peer_builds

take_allowed_ips_batch_example :
    IsBatch 100
      (ip_attributes (ip 1) ∷ ip_attributes (ip 2) ∷ [])
      (ip_attributes (ip 1) ∷ [])
      (ip_attributes (ip 2) ∷ [])
unfolding take_allowed_ips_batch ip_attributes
take_allowed_ips_batch_example =
    take_allowed_ips_batch_lem (ip_attributes (ip 1)) (ip_attributes (ip 2) ∷ []) 100

abbrev other_public : WireguardPeerAttribute
other_public = WireguardPeerAttribute.public_key (copies 32 2)

abbrev removed : WireguardPeerParsed
removed = remove (encode (copies 32 2))

removed_builds : Peer.build removed ≡ ok (other_public ∷ WireguardPeerAttribute.flags 1 ∷ [])
unfolding remove Peer.build Peer.build_holding decode_key encode decode build_peer_flags collect
    peer_flag_bits
removed_builds = refl

removed_splits :
    peer_chunks removed ≡ ok ((other_public ∷ WireguardPeerAttribute.flags 1 ∷ []) ∷ [])
unfolding remove
removed_splits =
    peer_chunks_single removed (other_public ∷ WireguardPeerAttribute.flags 1 ∷ []) removed_builds
      (inl refl)

flags_lossless_example :
    (build_device_flags (parse_device_flags 6) ≡ 6)
    × (build_peer_flags (parse_peer_flags 6) ≡ 6)
    × (build_ip_flags (parse_ip_flags 6) ≡ 6)
flags_lossless_example = flags_lossless sample-FlagLaws 6

abbrev no_key : WireguardError
no_key = record {
  kind = ErrorKind.invalid_input;
  msg = "Peer is missing `public_key` which the kernel requires";
  netlink_msg = none;
}

peer_chunks-eq-err_iff_example :
    (peer_chunks default_peer ≡ err no_key) ↔ (Peer.build default_peer ≡ err no_key)
peer_chunks-eq-err_iff_example = peer_chunks-eq-err_iff default_peer no_key

abbrev device : WireguardParsed
device = record default_device {
  iface_name = some "wg0";
  listen_port = some 51820;
  peers = some (peer ∷ removed ∷ []);
}

abbrev device_front : List WireguardAttribute
device_front = WireguardAttribute.if_name "wg0" ∷ WireguardAttribute.listen_port 51820 ∷ []

abbrev device_chunks : List WireguardPeer
device_chunks = chunks ++ (other_public ∷ WireguardPeerAttribute.flags 1 ∷ []) ∷ []

device_builds : device_attributes device ≡ ok device_front
unfolding device_attributes iface_attribute contains_nul Device.key_attribute
device_builds = refl

device_splits : all_chunks (peer ∷ removed ∷ []) ≡ ok device_chunks
unfolding all_chunks
device_splits = rw (peer_splits, removed_splits) refl

build_messages_total_example :
    (iface : WireguardAttribute) × (iface_attribute device ≡ ok iface)
    × Finished device WireguardCmd.set_device device_front iface device_chunks
        (build_messages device WireguardCmd.set_device)
build_messages_total_example =
    build_messages_total device WireguardCmd.set_device (peer ∷ removed ∷ []) device_front
      device_chunks refl device_builds device_splits

abbrev front_only : WireguardMessage
front_only = record {
  cmd = WireguardCmd.get_device;
  attributes = WireguardAttribute.if_name "wg0" ∷ [];
}

build_lem_example :
    (Messages.build (record default_device { iface_name = some "wg0" }) WireguardCmd.get_device
      ≢ none)
    × ((Messages.build (record default_device { iface_name = some "wg0" }) WireguardCmd.get_device
          ≡ some (ok front_only))
        ↔ (build_messages
              (record default_device { iface_name = some "wg0" })
              WireguardCmd.get_device
            ≡ ok (front_only ∷ [])))
build_lem_example =
    build_lem (record default_device { iface_name = some "wg0" }) WireguardCmd.get_device front_only
