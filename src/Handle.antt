-- ===== src/Handle.antt =====
-- src/handle.rs: requests to the kernel and the interpretation of its replies. The genetlink
-- handle and the kernel behind it are a function from the requests so far, the current one last,
-- to what comes back; a stream of replies is the list of what it yields. A method returns its
-- result and the requests so far.
pub mod Stream
pub mod Steps
pub mod Sending
pub mod Building
pub mod Safety
pub mod Dump
pub mod Removal
pub mod Applied
use Prim.Native.Nat.{bit_or}
use mathlib.Core.List.{filter_map}
use nl_wireguard.Base.{
  ℕ, suc, ◌+◌, String, Option, none, some, List, [], ◌∷◌, ◌++◌, if◌then◌else◌, ltb, is_empty,
  length,
}
use nl_wireguard.Base.Int.{ℤ, is_zero, neg_i32}
use nl_wireguard.Base.Text.{◌+++◌, show}
use nl_wireguard.Packet.{
  WireguardCmd, WireguardMessage, ErrorMessage, NetlinkPayload, NetlinkHeader, NetlinkMessage,
}
use nl_wireguard.Crates.{Crates}
use nl_wireguard.Error.{ErrorKind, WireguardError, Result, ok, err, error_new, ◌>>=◌}
use nl_wireguard.Peer.{remove}
use nl_wireguard.Device.{WireguardParsed, default_device, parse_messages}
use nl_wireguard.Messages.{build_messages, build}

-- An item of the stream of the genetlink handle: a message, or the rendering of its decode error.
pub data Reply : Type 0 where
  received : NetlinkMessage → Reply
  undecodable : String → Reply

-- The outcome of a request: the rendering of the error with which it failed, or its replies.
pub data Outcome : Type 0 where
  refused : String → Outcome
  replied : List Reply → Outcome

abbrev pub Kernel : Type 0
Kernel = List NetlinkMessage → Outcome

unfoldable pub payload_type : NetlinkPayload → String
payload_type (NetlinkPayload.done done) = "Done"
payload_type (NetlinkPayload.error e) = "Error"
payload_type NetlinkPayload.noop = "Noop"
payload_type (NetlinkPayload.overrun bytes) = "Overrun"
payload_type (NetlinkPayload.inner_message genl) = "InnerMessage"
payload_type (NetlinkPayload.other kind) = "Unknown"

-- The `while let` loop of `set`: the first error of a stream.
unfoldable pub first_error {ℓ} : {A : Type ℓ} → List (Result A) → Option WireguardError
first_error [] = none
first_error (ok a ∷ replies) = first_error replies
first_error (err e ∷ replies) = some e

-- The `while let` loop of `get_by_name`: `msgs.push(reply?)`.
unfoldable pub collect_ok {ℓ} : {A : Type ℓ} → List (Result A) → Result (List A)
collect_ok [] = ok []
collect_ok (reply ∷ replies) = do msg ← reply; msgs ← collect_ok replies; ok (msg ∷ msgs)

-- The error of `set` for the part at `index` of `total`.
unfoldable pub part_error : ℕ → ℕ → WireguardError → WireguardError
part_error total index e =
    error_new e.kind
      (if ltb 1 total
        then "Failed to apply part "
          +++ show (index + 1)
          +++ "/"
          +++ show total
          +++ " of the configuration: "
          +++ e.msg
        else e.msg)
      e.netlink_msg

module _ ⦃c : Crates⦄ where
  unfoldable pub netlink_error_message : ErrorMessage → String
  netlink_error_message e = elim e.code [
    | some code ↦ "Netlink error: " +++ c.show_os_error (neg_i32 code)
    | none ↦ "Netlink error: no error code"
  ]

  -- The arms of `parse_nl_msg_stream` for a message with this header and payload.
  unfoldable pub parse_payload :
      NetlinkMessage → NetlinkHeader → NetlinkPayload → Option (Result WireguardMessage)
  parse_payload nl_msg header (NetlinkPayload.inner_message genl) = some (ok genl.payload)
  parse_payload nl_msg header (NetlinkPayload.error e) = elim e.code [
    | none ↦ none
    | some code ↦
        some (err (error_new ErrorKind.netlink_error (netlink_error_message e) (some nl_msg)))
  ]
  parse_payload nl_msg header (NetlinkPayload.done done) =
      if is_zero done.code
      then none
      else some (
          err (
            error_new ErrorKind.netlink_error
              ("Netlink dump failed: " +++ c.show_os_error (neg_i32 done.code)) (some nl_msg)))
  parse_payload nl_msg header NetlinkPayload.noop = none
  parse_payload nl_msg header (NetlinkPayload.overrun bytes) =
      some
        (err (error_new ErrorKind.bug "Netlink message overrun, messages were lost" (some nl_msg)))
  parse_payload nl_msg header payload = some (
      err (
        error_new ErrorKind.bug ("Unexpected NetlinkPayload type: " +++ payload_type payload)
          (some (record { header = header; payload = payload }))))

  unfoldable pub parse_reply : NetlinkMessage → Reply → Option (Result WireguardMessage)
  unfolding parse_payload
  parse_reply nl_msg (received msg) = parse_payload nl_msg msg.header msg.payload
  parse_reply nl_msg (undecodable e) =
      some (err (error_new ErrorKind.decode_error ("netlink decode error: " +++ e) (some nl_msg)))

  unfoldable pub parse_nl_msg_stream : NetlinkMessage → List Reply → List (Result WireguardMessage)
  unfolding parse_reply
  parse_nl_msg_stream nl_msg = filter_map (parse_reply nl_msg)

  -- `NetlinkMessage::from(GenlMessage::from_payload(message))`
  abbrev pub netlink_message : WireguardMessage → NetlinkMessage
  netlink_message message = record {
    header = c.default_header;
    payload =
        NetlinkPayload.inner_message (record { header = c.genl_header message; payload = message });
  }

  -- The request for `message`, with these header flags.
  abbrev pub request_for : ℕ → WireguardMessage → NetlinkMessage
  request_for nl_header_flags message = record (netlink_message message) {
    header = record c.default_header { flags = nl_header_flags };
  }

  -- `NLM_F_REQUEST | NLM_F_ACK`
  abbrev pub set_flags : ℕ
  set_flags = bit_or c.nlm_f_request c.nlm_f_ack

  module _ (kernel : Kernel) where
    unfoldable pub request :
        ℕ
        → WireguardMessage
        → List NetlinkMessage
        → Result (List (Result WireguardMessage)) × List NetlinkMessage
    request nl_header_flags message sent =
        let nl_msg = request_for nl_header_flags message in
        let sent' = sent ++ nl_msg ∷ [] in
        (
          elim (kernel sent') [
            | refused e ↦
                err (
                  error_new ErrorKind.netlink_error ("Netlink request failed: " +++ e)
                    (some nl_msg))
            | replied replies ↦ ok (parse_nl_msg_stream nl_msg replies)
          ],
          sent',
        )

    -- The loop of `set` over the messages from `index` on.
    unfoldable pub send_parts :
        ℕ
        → ℕ
        → List WireguardMessage
        → List NetlinkMessage
        → Result (Unit {0}) × List NetlinkMessage
    send_parts total index [] sent = (ok tt, sent)
    send_parts total index (msg ∷ msgs) sent =
        let (reply, sent') = request set_flags msg sent in
        let rest = send_parts total (suc index) msgs sent' in
        elim reply [
          | err e ↦ (err e, sent')
          | ok stream ↦ elim (first_error stream) [
            | some e ↦ (err (part_error total index e), sent')
            | none ↦ rest
          ]
        ]

    unfoldable pub set :
        WireguardParsed → List NetlinkMessage → Result (Unit {0}) × List NetlinkMessage
    set parsed sent = elim (build_messages parsed WireguardCmd.set_device) [
      | err e ↦ (err e, sent)
      | ok messages ↦ send_parts (length messages) 0 messages sent
    ]

    unfoldable pub remove_peer :
        String → String → List NetlinkMessage → Result (Unit {0}) × List NetlinkMessage
    remove_peer iface_name public_key = set (record default_device {
      iface_name = some iface_name;
      peers = some (remove public_key ∷ []);
    })

    -- What `get_by_name` makes of its collected replies.
    unfoldable pub parse_dump : WireguardMessage → List WireguardMessage → Result WireguardParsed
    parse_dump msg msgs =
        if is_empty msgs
        then err (
            error_new ErrorKind.bug "Got no reply from kernel for request"
              (some (netlink_message msg)))
        else ok (parse_messages msgs)

    -- `get_by_name`; `none` is a panic of `build`.
    unfoldable pub get_by_name :
        String → List NetlinkMessage → Option (Result WireguardParsed) × List NetlinkMessage
    unfolding parse_dump
    get_by_name iface_name sent =
        elim (build (record default_device { iface_name = some iface_name })
          WireguardCmd.get_device) [
            | none ↦ (none, sent)
            | some (err e) ↦ (some (err e), sent)
            | some (ok msg) ↦
                let flags = bit_or (bit_or c.nlm_f_request c.nlm_f_ack) c.nlm_f_dump in
                let (reply, sent') = request flags msg sent in
                (some (do stream ← reply; msgs ← collect_ok stream; parse_dump msg msgs), sent')
          ]
