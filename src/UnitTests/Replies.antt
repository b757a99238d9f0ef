-- ===== src/UnitTests/Replies.antt =====
-- The unit tests of src/handle.rs on replies.
use mathlib.Core.List.{filter_map}
use nl_wireguard.Base.{
  ◌≡◌, refl, Bool, true, false, ◌&&◌, String, none, some, List, [], ◌∷◌, map, if◌then◌else◌,
}
use nl_wireguard.Base.Int.{ℤ, pos, negsuc, is_zero}
use nl_wireguard.Base.Text.{contains, contains_behind}
use nl_wireguard.Packet.{
  Bytes, WireguardCmd, WireguardPeerAttribute, WireguardAttribute, WireguardMessage, NetlinkPayload,
  NetlinkMessage,
}
use nl_wireguard.Crates.{Crates}
use nl_wireguard.Error.{ErrorKind, Result, err, error_new}
use nl_wireguard.Redact.{
  redact_message, redact_payload, redact_attributes, redact_attribute, redact_peer_attribute,
}
use nl_wireguard.Handle.{
  received, netlink_message, parse_nl_msg_stream, parse_reply, parse_payload, netlink_error_message,
}
use nl_wireguard.UnitTests.{is_ok, fails_with, same_kind, filled}
use nl_wireguard.UnitTests.Redaction.{stored_in, keeps_public_key_only}

module _ ⦃c : Crates⦄ where
  abbrev inner_message : NetlinkMessage
  inner_message = netlink_message (record { cmd = WireguardCmd.get_device; attributes = [] })

  abbrev with_default_header : NetlinkPayload → NetlinkMessage
  with_default_header payload = record { header = c.default_header; payload = payload }

  abbrev acknowledgement : NetlinkMessage
  acknowledgement = with_default_header (NetlinkPayload.error (record { code = none; header = [] }))

  abbrev done : ℤ → NetlinkMessage
  done code = with_default_header (NetlinkPayload.done (record { code = code; extended_ack = [] }))

  abbrev parse_replies_with : NetlinkMessage → List NetlinkMessage → List (Result WireguardMessage)
  parse_replies_with request replies = parse_nl_msg_stream request (map received replies)

  abbrev parse_replies : List NetlinkMessage → List (Result WireguardMessage)
  parse_replies = parse_replies_with inner_message

  abbrev one_is_ok : List (Result WireguardMessage) → Bool
  one_is_ok (reply ∷ []) = is_ok reply
  one_is_ok _ = false

  abbrev one_fails_with : ErrorKind → List (Result WireguardMessage) → Bool
  one_fails_with kind (reply ∷ []) = fails_with kind reply
  one_fails_with kind _ = false

  abbrev acknowledgement_and_done_are_not_errors : Bool
  acknowledgement_and_done_are_not_errors =
      one_is_ok (parse_replies (inner_message ∷ done (pos 0) ∷ acknowledgement ∷ []))

  acknowledgement_and_done_pass : acknowledgement_and_done_are_not_errors ≡ true
  unfolding parse_nl_msg_stream parse_reply parse_payload filter_map
  acknowledgement_and_done_pass = refl

  abbrev overrun_is_reported : Bool
  overrun_is_reported =
      one_fails_with ErrorKind.bug
        (parse_replies (with_default_header (NetlinkPayload.overrun []) ∷ []))

  overrun_is_reported_passes : overrun_is_reported ≡ true
  unfolding parse_nl_msg_stream parse_reply parse_payload filter_map error_new
  overrun_is_reported_passes = refl

  -- No error code is zero.
  abbrev error_reply : ℤ → NetlinkMessage
  error_reply code = with_default_header (
      NetlinkPayload.error
        (record { code = if is_zero code then none else some code; header = [] }))

  -- One error of this kind, whose message holds the text.
  abbrev one_reports : ErrorKind → String → List (Result WireguardMessage) → Bool
  one_reports kind text (err e ∷ []) = same_kind e.kind kind && contains e.msg text
  one_reports kind text _ = false

  abbrev netlink_error_is_reported : Bool
  netlink_error_is_reported =
      one_reports ErrorKind.netlink_error "Invalid argument"
        (parse_replies (error_reply (negsuc 21) ∷ []))

  netlink_error_is_reported_passes :
      contains (c.show_os_error (pos 22)) "Invalid argument" ≡ true
      → netlink_error_is_reported ≡ true
  unfolding parse_nl_msg_stream parse_reply parse_payload filter_map error_new netlink_error_message
  netlink_error_is_reported_passes described =
      contains_behind "Netlink error: " (c.show_os_error (pos 22)) "Invalid argument" described

  abbrev dump_error_is_reported : Bool
  dump_error_is_reported =
      one_reports ErrorKind.netlink_error "No such device" (parse_replies (done (negsuc 18) ∷ []))

  dump_error_is_reported_passes :
      contains (c.show_os_error (pos 19)) "No such device" ≡ true → dump_error_is_reported ≡ true
  unfolding parse_nl_msg_stream parse_reply parse_payload filter_map error_new
  dump_error_is_reported_passes described =
      contains_behind "Netlink dump failed: " (c.show_os_error (pos 19)) "No such device" described

  -- The keys are filled with 0x7b, 0x11 and 0x5a.
  abbrev set_request : WireguardMessage
  set_request = record {
    cmd = WireguardCmd.set_device;
    attributes =
        WireguardAttribute.if_name "wg0"
        ∷ WireguardAttribute.private_key (filled 123 32)
        ∷ WireguardAttribute.peers (
            (WireguardPeerAttribute.public_key (filled 17 32)
              ∷ WireguardPeerAttribute.preshared_key (filled 90 32)
              ∷ [])
            ∷ [])
        ∷ [];
  }

  -- The reply that refuses the request, with the bytes of its echo.
  abbrev refusal : Bytes → NetlinkMessage
  refusal echoed =
      with_default_header
        (NetlinkPayload.error (record { code = some (negsuc 12); header = echoed }))

  -- The attached request holds both keys, as zeros, and the public key as it was.
  abbrev stored_without_keys : List (Result WireguardMessage) → Bool
  stored_without_keys (err e ∷ _) = stored_in e.netlink_msg keeps_public_key_only
  stored_without_keys _ = false

  -- The test but for the two assertions on the `Debug` rendering of the error.
  abbrev error_does_not_report_keys : Bytes → Bool
  error_does_not_report_keys echoed =
      let replies = parse_replies_with (netlink_message set_request) (refusal echoed ∷ []) in
      one_reports ErrorKind.netlink_error "Permission denied" replies && stored_without_keys replies

  error_does_not_report_keys_passes :
      (echoed : Bytes)
      → contains (c.show_os_error (pos 13)) "Permission denied" ≡ true
      → error_does_not_report_keys echoed ≡ true
  unfolding parse_nl_msg_stream parse_reply parse_payload filter_map error_new netlink_error_message
      redact_message redact_payload redact_attributes redact_attribute redact_peer_attribute
  error_does_not_report_keys_passes echoed described =
      cc
        (contains_behind "Netlink error: " (c.show_os_error (pos 13)) "Permission denied" described)
