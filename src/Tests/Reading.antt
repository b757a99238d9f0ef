-- ===== src/Tests/Reading.antt =====
-- The theorems on dumps and on connections at sample replies.
use nl_wireguard.Base.{
  ◌≡◌, refl, ap, ◌∙◌, inr, Bool, true, false, List, [], ◌∷◌, some, none, concat_map, arith,
  if◌then◌else◌, flatten_option,
}
use nl_wireguard.Base.Int.{negsuc}
use nl_wireguard.Base.Text.{contains_nul}
use nl_wireguard.Packet.{
  WireguardCmd, WireguardMessage, WireguardAttribute, NetlinkPayload, NetlinkHeader, DoneMessage,
}
use nl_wireguard.Error.{ok}
use nl_wireguard.Samples.{sample, sample-Base64Laws}
use nl_wireguard.AllowedIp.{ip_attributes, try_from, add_part, whole}
use nl_wireguard.Peer.{parse_peer, add_attribute}
use nl_wireguard.Messages.{build_messages}
use nl_wireguard.Messages.Again.{IsPeer, build_messages-parse_messages}
use nl_wireguard.Device.Single.{parse_messages_single}
use nl_wireguard.Device.{parse_message, parse_messages, extend_message, extend_attribute}
use nl_wireguard.Device.Apart.{
  AreApart, parse_messages-AreApart, ips_of_peer, parsed_ips, peers_in, parse_messages_keeps_ips,
}
use nl_wireguard.Handle.{
  Kernel, Outcome, refused, replied, Reply, received, undecodable, get_by_name,
}
use nl_wireguard.Handle.Dump.{dump_request, dump_result, get_by_name_outcome}
use nl_wireguard.Connection.{Genetlink, Part, part_reply, dump, new, new_connection}
use nl_wireguard.Connection.Dumps.{ended, get_by_name-new_connection}
use nl_wireguard.Tests.{key_text, peer_attributes, device_front}
use nl_wireguard.Tests.Handling.{message, device_messages, with_key, failed}

parse_messages-AreApart_example : AreApart (flatten_option (parse_messages device_messages).peers)
parse_messages-AreApart_example = parse_messages-AreApart device_messages

parse_messages_keeps_ips_example :
    concat_map ips_of_peer (flatten_option (parse_messages device_messages).peers)
    ≡ concat_map parsed_ips (concat_map peers_in device_messages)
parse_messages_keeps_ips_example = parse_messages_keeps_ips device_messages

-- A kernel that reports one message and then fails.
abbrev fails_late : Kernel
fails_late _ = replied (received (with_key 9) ∷ failed ∷ [])

get_by_name_outcome_example :
    get_by_name fails_late "wg0" []
    ≡ (some (dump_result "wg0" (fails_late (dump_request "wg0" ∷ []))), dump_request "wg0" ∷ [])
unfolding contains_nul
get_by_name_outcome_example = get_by_name_outcome fails_late "wg0" [] (omega arith) refl

-- What of a reply the stream of a request yields, if the messages that end dumps are forwarded or
-- not.
abbrev yielded : Bool → Reply → List Reply
yielded forward (received msg) = elim msg.payload [
  | NetlinkPayload.done done ↦ if forward then received msg ∷ [] else []
  | NetlinkPayload.error e ↦ elim e.code [ none ↦ [] | some code ↦ received msg ∷ [] ]
  | _ ↦ received msg ∷ []
]
yielded forward (undecodable e) = undecodable e ∷ []

abbrev passed : Bool → Outcome → Outcome
passed forward (refused e) = refused e
passed forward (replied replies) = replied (concat_map (yielded forward) replies)

pub dump_passed :
    (parts : List Part) (header : NetlinkHeader) (done : DoneMessage)
    → concat_map (yielded true) (dump parts header done) ≡ dump parts header done
dump_passed [] header done = refl
dump_passed (part ∷ parts) header done =
    ap (λ more. part_reply part ∷ more) (dump_passed parts header done)

-- A connection is whether it forwards the messages that end a dump, a handle is its kernel.
abbrev pub plain_genetlink : Genetlink Bool Kernel
plain_genetlink = record {
  set_forward_done = λ conn forward. forward;
  answers = λ kernel. kernel;
  passes_on = λ conn kernel requests. passed conn (kernel requests);
  forwards = λ conn kernel sent parts header done answered.
      ap (passed true) answered ∙ ap replied (dump_passed parts header done);
  acknowledges = λ conn kernel sent header echo answered. ap (passed conn) answered;
  rejects = λ conn kernel sent header echo code answered. ap (passed conn) answered;
}

-- A message of a dump: the index and the name of the interface and its port.
abbrev pub report_part : Part
report_part =
    let message : WireguardMessage = record {
      cmd = WireguardCmd.get_device;
      attributes =
          WireguardAttribute.if_index 7
          ∷ WireguardAttribute.if_name "wg0"
          ∷ WireguardAttribute.listen_port 51820
          ∷ [];
    } in
    record {
      header = sample.default_header;
      genl = record { header = sample.genl_header message; payload = message };
    }

-- The end of a dump that failed.
abbrev pub no_device : DoneMessage
no_device = record { code = negsuc 18; extended_ack = 1 ∷ [] }

abbrev pub ends_badly : Kernel
ends_badly _ = replied (dump (report_part ∷ []) sample.default_header no_device)

get_by_name-new_connection_example :
    get_by_name (plain_genetlink.passes_on true ends_badly) "wg0" []
    ≡ (some (ended "wg0" (report_part ∷ []) no_device), dump_request "wg0" ∷ [])
unfolding new_connection contains_nul new
get_by_name-new_connection_example =
    get_by_name-new_connection plain_genetlink (inr (false, ends_badly, tt)) true
      (record { handle = ends_badly }) tt "wg0" [] (report_part ∷ []) sample.default_header
      no_device refl (omega arith) refl refl

abbrev report : List WireguardMessage
report = message device_front (peer_attributes ∷ []) ∷ []

peer_attributes-IsPeer : IsPeer peer_attributes
unfolding parse_peer add_attribute try_from add_part whole ip_attributes
peer_attributes-IsPeer = record {
  key = key_text;
  has_key = refl;
  valid = (refl, (tt, ((omega arith, (omega arith, (omega arith, tt))), tt)));
}

build_messages-parse_messages_example :
    (again : List WireguardMessage) × (build_messages
        (parse_messages report)
        WireguardCmd.set_device
      ≡ ok again)
unfolding contains_nul parse_messages extend_message extend_attribute
build_messages-parse_messages_example =
    build_messages-parse_messages sample-Base64Laws report WireguardCmd.set_device "wg0"
      (((omega arith, refl), (tt, ((peer_attributes-IsPeer, tt), tt))), tt) refl

parse_messages_single_example :
    parse_messages report ≡ parse_message (message device_front (peer_attributes ∷ []))
parse_messages_single_example =
    parse_messages_single (message device_front (peer_attributes ∷ [])) (refl, tt, tt)
