-- ===== src/Tests/Showing.antt =====
-- The theorems on the example programs at kernels that answer them.
use nl_wireguard.Base.{◌≡◌, refl, inl, inr, none, false, some, List, [], ◌∷◌, ◌++◌, map, arith}
use nl_wireguard.Base.Int.{pos}
use nl_wireguard.Base.Text.{◌+++◌, contains_nul}
use mathlib.Core.Option
use nl_wireguard.Packet.{
  SocketAddr, WireguardCmd, WireguardPeerAttribute, WireguardAttribute, WireguardMessage,
  DoneMessage,
}
use nl_wireguard.Crates.{Crates, Base64Laws}
use nl_wireguard.Error.{ok}
use nl_wireguard.Samples
use nl_wireguard.Samples.Encoding.{encode}
use nl_wireguard.Samples.FlagSets.{collect}
use nl_wireguard.Samples.Keyed.{
  keyed_encode, keyed_decode, keyed_decode-keyed_encode, keyed_encode-keyed_decode, keyed_decode_of,
  there,
}
use nl_wireguard.AllowedIp.{ip_attributes, validate}
use nl_wireguard.Flags.{build_device_flags, device_flag_bits, build_peer_flags, peer_flag_bits}
use nl_wireguard.Peer.{
  build, build_holding, key_attribute, allowed_ips_attribute, attributes_after_keys,
  attributes_after_ips, validate_all,
}
use nl_wireguard.Peer.Accepted.{IsKey, key_accepted}
use nl_wireguard.Split.{
  peer_chunks, sort_attribute, split_parts, split_ips, ip_chunks, find_public_key,
  take_allowed_ips_batch, batch_count, continuation_chunks,
}
use nl_wireguard.Device
use nl_wireguard.Device.{iface_attribute, device_attributes, parse_messages}
use nl_wireguard.Device.Coalesce.{reported}
use nl_wireguard.Device.RoundTrip.{reported_device}
use nl_wireguard.Messages.{build_messages}
use nl_wireguard.Messages.Groups.{all_chunks, groups_of, pack}
use nl_wireguard.Messages.Loops.{build_messages_groups}
use nl_wireguard.Debug.{Derived}
use nl_wireguard.Handle.{Kernel, replied}
use nl_wireguard.Connection.{acknowledgement, dump}
use nl_wireguard.Handle.Dump.{dump_request}
use nl_wireguard.Examples.{
  Exit, config_peer_key, config_public_key, config_private_key, any_ipv4, any_ipv6, peer_config,
  config, set_wireguard, get_wireguard_info,
}
use nl_wireguard.Examples.Runs.{dump_exit, set_exit, set_wireguard_lem, get_wireguard_info_lem}
use nl_wireguard.Tests.{copies}
use nl_wireguard.Tests.Reading.{plain_genetlink, report_part, no_device, ends_badly}

-- The three keys of the example are 32 bytes each.
instance abbrev keyed : Crates
keyed = record Samples.sample {
  encode =
      keyed_encode config_peer_key config_public_key config_private_key (copies 32 1) (copies 32 2)
        (copies 32 3);
  decode =
      keyed_decode config_peer_key config_public_key config_private_key (copies 32 1) (copies 32 2)
        (copies 32 3);
  nla_alignto = 4;
}

keyed-Base64Laws : Base64Laws keyed
keyed-Base64Laws = record {
  decode-encode =
      keyed_decode-keyed_encode config_peer_key config_public_key config_private_key (copies 32 1)
        (copies 32 2) (copies 32 3);
  encode-decode =
      keyed_encode-keyed_decode config_peer_key config_public_key config_private_key (copies 32 1)
        (copies 32 2) (copies 32 3);
}

config_peer_key-IsKey : IsKey config_peer_key
unfolding there encode
config_peer_key-IsKey = record {
  bytes = copies 32 1;
  decodes =
      keyed_decode_of config_peer_key config_public_key config_private_key (copies 32 1)
        (copies 32 2) (copies 32 3) config_peer_key (copies 32 1) refl;
  is_long = refl;
}

config_public_key-IsKey : IsKey config_public_key
unfolding there encode
config_public_key-IsKey = record {
  bytes = copies 32 2;
  decodes =
      keyed_decode_of config_peer_key config_public_key config_private_key (copies 32 1)
        (copies 32 2) (copies 32 3) config_public_key (copies 32 2) refl;
  is_long = refl;
}

config_private_key-IsKey : IsKey config_private_key
unfolding there encode
config_private_key-IsKey = record {
  bytes = copies 32 3;
  decodes =
      keyed_decode_of config_peer_key config_public_key config_private_key (copies 32 1)
        (copies 32 2) (copies 32 3) config_private_key (copies 32 3) refl;
  is_long = refl;
}

abbrev public : WireguardPeerAttribute
public = WireguardPeerAttribute.public_key config_peer_key-IsKey.bytes

abbrev endpoint : WireguardPeerAttribute
endpoint = WireguardPeerAttribute.endpoint (SocketAddr.v4 168430081 51820)

abbrev both_ips : WireguardPeerAttribute
both_ips = WireguardPeerAttribute.allowed_ips (map ip_attributes (any_ipv4 ∷ any_ipv6 ∷ []))

abbrev peer_flags : WireguardPeerAttribute
peer_flags = WireguardPeerAttribute.flags 2

peer_built : build peer_config ≡ ok (endpoint ∷ public ∷ both_ips ∷ peer_flags ∷ [])
unfolding build build_holding key_attribute allowed_ips_attribute attributes_after_keys
    attributes_after_ips validate_all validate build_peer_flags peer_flag_bits collect
peer_built = rw (key_accepted "peer.public_key" config_peer_key config_peer_key-IsKey) refl

peer_split :
    all_chunks (peer_config ∷ []) ≡ ok ((endpoint ∷ public ∷ peer_flags ∷ both_ips ∷ []) ∷ [])
unfolding all_chunks peer_chunks sort_attribute split_parts split_ips ip_chunks find_public_key
    take_allowed_ips_batch batch_count continuation_chunks ip_attributes
peer_split = rw peer_built refl

abbrev front : List WireguardAttribute
front =
    WireguardAttribute.if_name "wg0"
    ∷ WireguardAttribute.public_key config_public_key-IsKey.bytes
    ∷ WireguardAttribute.private_key config_private_key-IsKey.bytes
    ∷ WireguardAttribute.listen_port 51820
    ∷ WireguardAttribute.fwmark 0
    ∷ WireguardAttribute.flags 1
    ∷ []

named : iface_attribute (config "wg0") ≡ ok (WireguardAttribute.if_name "wg0")
unfolding iface_attribute contains_nul
named = refl

front_built : device_attributes (config "wg0") ≡ ok front
unfolding device_attributes Device.key_attribute build_device_flags device_flag_bits collect
front_built =
    rw
      (
        named,
        key_accepted "public_key" config_public_key config_public_key-IsKey,
        key_accepted "private_key" config_private_key config_private_key-IsKey,
      )
      refl

abbrev only_message : WireguardMessage
only_message = record {
  cmd = WireguardCmd.set_device;
  attributes =
      front
      ++ WireguardAttribute.peers ((endpoint ∷ public ∷ peer_flags ∷ both_ips ∷ []) ∷ []) ∷ [];
}

message_built : build_messages (config "wg0") WireguardCmd.set_device ≡ ok (only_message ∷ [])
unfolding groups_of pack
message_built =
    build_messages_groups (config "wg0") WireguardCmd.set_device front
      (WireguardAttribute.if_name "wg0") (peer_config ∷ []) refl front_built named
      ((endpoint ∷ public ∷ peer_flags ∷ both_ips ∷ []) ∷ []) peer_split

abbrev ended_well : DoneMessage
ended_well = record { code = pos 0; extended_ack = [] }

-- A kernel that acknowledges the first request and answers the next ones with a dump.
abbrev takes_and_reports : Kernel
takes_and_reports (first ∷ []) = replied (acknowledgement keyed.default_header (1 ∷ 2 ∷ []) ∷ [])
takes_and_reports _ = replied (dump (report_part ∷ []) keyed.default_header ended_well)

-- A formatting that shows the name and the private key of its view.
abbrev shows_view : Derived
shows_view = record {
  fmt_peer = λ view alternate. "peer";
  fmt_parsed = λ view alternate.
      Option.get_or view.iface_name "no name" +++ Option.get_or view.private_key "no key";
}

set_wireguard_example :
    (parse_messages (only_message ∷ [])
      ≡ reported_device (config "wg0") (some (reported peer_config ∷ [])))
    × (set_wireguard shows_view plain_genetlink
          (inr (false, takes_and_reports, tt))
          ("set_wireguard" ∷ "wg0" ∷ [])
        ≡ set_exit shows_view "wg0" only_message none (report_part ∷ []) ended_well)
unfolding contains_nul
set_wireguard_example =
    set_wireguard_lem shows_view plain_genetlink keyed-Base64Laws config_peer_key-IsKey
      config_public_key-IsKey config_private_key-IsKey false takes_and_reports tt "set_wireguard"
      "wg0" [] only_message keyed.default_header (1 ∷ 2 ∷ []) none (report_part ∷ [])
      keyed.default_header ended_well (omega arith) refl message_built refl refl

get_wireguard_info_example :
    (get_wireguard_info shows_view plain_genetlink
        (inr (false, ends_badly, tt))
        ("get_wireguard_info" ∷ [])
      ≡ (Exit.usage "Usage: get_wireguard_info <ifname>", []))
    × (get_wireguard_info shows_view {Receiver = Unit} plain_genetlink
          (inl "no socket")
          ("get_wireguard_info" ∷ "wg0" ∷ [])
        ≡ (Exit.panicked, []))
    × (get_wireguard_info shows_view plain_genetlink
          (inr (false, ends_badly, tt))
          ("get_wireguard_info" ∷ "wg0" ∷ [])
        ≡ (dump_exit shows_view "" (report_part ∷ []) no_device, dump_request "wg0" ∷ []))
unfolding contains_nul
get_wireguard_info_example =
    get_wireguard_info_lem shows_view plain_genetlink "no socket" false ends_badly tt
      "get_wireguard_info" "wg0" [] (report_part ∷ []) keyed.default_header no_device (omega arith)
      refl refl
