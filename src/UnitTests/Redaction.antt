-- ===== src/UnitTests/Redaction.antt =====
-- The unit tests of src/redact.rs and src/error.rs.
use mathlib.Core.List.{foldl}
use nl_wireguard.Base.{
  ◌≡◌, refl, Bool, true, false, ◌&&◌, Option, some, none, List, [], ◌∷◌, is_empty,
}
use nl_wireguard.Base.Int.{negsuc}
use nl_wireguard.Packet.{
  Bytes, WireguardCmd, WireguardPeerAttribute, WireguardAttribute, WireguardMessage, NetlinkPayload,
  NetlinkMessage,
}
use nl_wireguard.Crates.{Crates}
use nl_wireguard.Redact.{
  redact_message, redact_payload, redact_attributes, redact_attribute, redact_peer_attribute,
}
use nl_wireguard.Error.{ErrorKind, error_new}
use nl_wireguard.Handle.{netlink_message}
use nl_wireguard.UnitTests.{filled, same_bytes}

-- The keys are filled with 0x7b, 0x11 and 0x5a.
abbrev request_message : WireguardMessage
request_message = record {
  cmd = WireguardCmd.set_device;
  attributes =
      WireguardAttribute.if_name "wg0"
      ∷ WireguardAttribute.private_key (filled 123 32)
      ∷ WireguardAttribute.peers (
          (WireguardPeerAttribute.public_key (filled 17 32)
            ∷ WireguardPeerAttribute.preshared_key (filled 90 32)
            ∷ [])
          ∷ [])
      ∷ [];
}

-- The same message, as src/redact.rs builds it.
abbrev unredacted_request : WireguardMessage
unredacted_request = record {
  cmd = WireguardCmd.set_device;
  attributes =
      WireguardAttribute.if_name "wg0"
      ∷ WireguardAttribute.private_key (filled 123 32)
      ∷ WireguardAttribute.peers (
          (WireguardPeerAttribute.public_key (filled 17 32)
            ∷ WireguardPeerAttribute.preshared_key (filled 90 32)
            ∷ [])
          ∷ [])
      ∷ [];
}

-- What the walks of three tests over the attributes note, of which each uses a part: whether a
-- private key and a preshared key were found, whether all of them were zeros, and whether
-- every public key was the one of the request.
record Seen : Type 0 where
  has_private : Bool
  has_preshared : Bool
  zeroed : Bool
  public_kept : Bool

abbrev is_zeroed : Bytes → Bool
is_zeroed key = same_bytes key (filled 0 32)

abbrev see_peer_attribute : Seen → WireguardPeerAttribute → Seen
see_peer_attribute s (WireguardPeerAttribute.preshared_key key) = record s {
  has_preshared = true;
  zeroed = s.zeroed && is_zeroed key;
}
see_peer_attribute s (WireguardPeerAttribute.public_key key) = record s {
  public_kept = s.public_kept && same_bytes key (filled 17 32);
}
see_peer_attribute s _ = s

abbrev see_attribute : Seen → WireguardAttribute → Seen
see_attribute s (WireguardAttribute.private_key key) = record s {
  has_private = true;
  zeroed = s.zeroed && is_zeroed key;
}
see_attribute s (WireguardAttribute.peers peers) = foldl (foldl see_peer_attribute) s peers
see_attribute s _ = s

abbrev assert_redacted : List WireguardAttribute → Seen
assert_redacted =
    foldl see_attribute
      (record { has_private = false; has_preshared = false; zeroed = true; public_kept = true })

abbrev zeroed_payload : NetlinkPayload → Bool
zeroed_payload (NetlinkPayload.inner_message genl_msg) =
    (assert_redacted genl_msg.payload.attributes).zeroed
zeroed_payload _ = false

-- Both keys are found and all are zeros.
abbrev redacted_payload : NetlinkPayload → Bool
redacted_payload (NetlinkPayload.inner_message genl_msg) =
    let seen = assert_redacted genl_msg.payload.attributes in
    seen.has_private && (seen.has_preshared && seen.zeroed)
redacted_payload _ = false

-- And the public key is still there.
abbrev pub keeps_public_key_only : NetlinkPayload → Bool
keeps_public_key_only (NetlinkPayload.inner_message genl_msg) =
    let seen = assert_redacted genl_msg.payload.attributes in
    (seen.has_private && (seen.has_preshared && seen.zeroed)) && seen.public_kept
keeps_public_key_only _ = false

-- The raw copy of the request is gone.
abbrev dropped_payload : NetlinkPayload → Bool
dropped_payload (NetlinkPayload.error err_msg) = is_empty err_msg.header
dropped_payload _ = false

abbrev pub stored_in : Option NetlinkMessage → (NetlinkPayload → Bool) → Bool
stored_in none test = false
stored_in (some msg) test = test msg.payload

module _ ⦃c : Crates⦄ where
  abbrev keys_of_a_request_are_zeroed : Bool
  keys_of_a_request_are_zeroed =
      zeroed_payload (redact_message (netlink_message unredacted_request)).payload

  keys_of_a_request_are_zeroed_passes : keys_of_a_request_are_zeroed ≡ true
  unfolding redact_message redact_payload redact_attributes redact_attribute redact_peer_attribute
  keys_of_a_request_are_zeroed_passes = refl

  abbrev echoed_request_is_dropped : Bool
  echoed_request_is_dropped =
      dropped_payload
        (redact_message (record {
          header = c.default_header;
          payload = NetlinkPayload.error (record { code = none; header = filled 123 64 });
        })).payload

  echoed_request_is_dropped_passes : echoed_request_is_dropped ≡ true
  unfolding redact_message redact_payload
  echoed_request_is_dropped_passes = refl

  abbrev keys_are_redacted_from_request_messages : Bool
  keys_are_redacted_from_request_messages =
      stored_in
        (error_new ErrorKind.netlink_error "test"
          (some (netlink_message request_message))).netlink_msg
        redacted_payload

  keys_are_redacted_passes : keys_are_redacted_from_request_messages ≡ true
  unfolding error_new redact_message redact_payload redact_attributes redact_attribute
      redact_peer_attribute
  keys_are_redacted_passes = refl

  -- The test but for the two assertions on the `Debug` rendering of the error; `raw` is the copy of
  -- the request.
  abbrev echoed_requests_are_dropped : Bytes → Bool
  echoed_requests_are_dropped raw =
      stored_in
        (error_new ErrorKind.netlink_error "test" (
          some (record {
            header = c.default_header;
            payload = NetlinkPayload.error (record { code = some (negsuc 21); header = raw });
          }))).netlink_msg
        dropped_payload

  echoed_requests_are_dropped_passes : (raw : Bytes) → echoed_requests_are_dropped raw ≡ true
  unfolding error_new redact_message redact_payload
  echoed_requests_are_dropped_passes raw = refl
