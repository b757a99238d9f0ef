-- ===== src/Examples/Runs.antt =====
-- The programs of examples/ against a kernel that answers them.
use mathlib.Core.List.{filter_map}
use nl_wireguard.Base.{
  ◌<◌, ◌≡◌, refl, ap, ◌∙◌, inl, inr, true, false, Bool-cases, Option, none, String, some, List, [],
  ◌∷◌, ◌++◌, map, if◌then◌else◌,
}
use nl_wireguard.Base.Int.{ℤ, is_zero}
use nl_wireguard.Base.Text.{◌+++◌, len, contains_nul}
use nl_wireguard.Packet.{
  Bytes, WireguardCmd, WireguardMessage, NetlinkHeader, NetlinkMessage, DoneMessage,
}
use nl_wireguard.Crates.{Crates, Base64Laws}
use nl_wireguard.Error.{ErrorKind, WireguardError, ok, err, error_new}
use nl_wireguard.Peer.Accepted.{IsKey}
use nl_wireguard.Device.{ifnamsiz, parse_messages}
use nl_wireguard.Device.Coalesce.{reported}
use nl_wireguard.Device.RoundTrip.{reported_device}
use nl_wireguard.Messages.{build_messages}
use nl_wireguard.Debug.{Derived, fmt_parsed}
use nl_wireguard.Handle.{
  Kernel, Reply, replied, set, send_parts, request, request_for, set_flags, first_error,
  parse_reply, parse_payload, parse_nl_msg_stream, get_by_name, part_error, netlink_error_message,
}
use nl_wireguard.Handle.Dump.{dump_request}
use nl_wireguard.Connection.{Genetlink, Part, dump, acknowledgement, rejection, new_connection, new}
use nl_wireguard.Connection.Dumps.{message_of, ended, get_by_name-new_connection}
use nl_wireguard.Examples.{
  Exit, config_peer_key, config_public_key, config_private_key, peer_config, config, shown,
  set_and_show, set_wireguard, get_wireguard_info,
}
use nl_wireguard.Examples.Config.{message_parsed}

module _ ⦃c : Crates⦄ where
  module _ (derived : Derived) where
    -- The reply to a request that changes the device.
    abbrev pub verdict : NetlinkHeader → Bytes → Option ℤ → Reply
    verdict header echo none = acknowledgement header echo
    verdict header echo (some code) = rejection header echo code

    -- How a program ends that shows a dump of these messages, ended by this message.
    abbrev pub dump_exit : String → List Part → DoneMessage → Exit
    dump_exit prefix [] done = Exit.panicked
    dump_exit prefix (part ∷ parts) done =
        if is_zero done.code
        then Exit.printed
            (prefix +++ fmt_parsed derived (parse_messages (map message_of (part ∷ parts))) false)
        else Exit.panicked

    -- How `set_wireguard` ends and what it sent, once the kernel acknowledged its message, or
    -- rejected it with this code.
    abbrev pub set_exit :
        String → WireguardMessage → Option ℤ → List Part → DoneMessage → Exit × List NetlinkMessage
    set_exit name message none parts done = (
      dump_exit "Applied config " parts done,
      request_for set_flags message ∷ dump_request name ∷ [],
    )
    set_exit name message (some code) parts done =
        (Exit.panicked, request_for set_flags message ∷ [])

    shown-ended :
        (prefix name : String) (parts : List Part) (done : DoneMessage) (sent : List NetlinkMessage)
        → shown derived prefix (some (ended name parts done), sent)
          ≡ (dump_exit prefix parts done, sent)
    shown-ended prefix name [] done sent = elim (Bool-cases (is_zero done.code)) [
      | inl fine ↦ rw (ended, fine) refl
      | inr failed ↦ rw (ended, failed) refl
    ]
    shown-ended prefix name (part ∷ parts) done sent = elim (Bool-cases (is_zero done.code)) [
      | inl fine ↦ rw (ended, fine) refl
      | inr failed ↦ rw (ended, failed) refl
    ]

    module _ {Connection GenetlinkHandle : Type 0}
        (genetlink : Genetlink Connection GenetlinkHandle) where
      -- The kernel that the programs talk to over a connection that opened.
      abbrev reached : Connection → GenetlinkHandle → Kernel
      reached conn handle = genetlink.passes_on (genetlink.set_forward_done conn true) handle

      shown-get_by_name :
          (conn : Connection) (handle : GenetlinkHandle) (prefix name : String)
          (sent : List NetlinkMessage) (parts : List Part) (header : NetlinkHeader)
          (done : DoneMessage)
          → len name < ifnamsiz
          → contains_nul name ≡ false
          → genetlink.answers handle (sent ++ dump_request name ∷ [])
            ≡ replied (dump parts header done)
          → shown derived prefix (get_by_name (reached conn handle) name sent)
            ≡ (dump_exit prefix parts done, sent ++ dump_request name ∷ [])
      unfolding new_connection new
      shown-get_by_name conn handle prefix name sent parts header done short plain answered =
          ap (shown derived prefix) (
            get_by_name-new_connection genetlink (inr (conn, handle, tt {0}))
              (genetlink.set_forward_done conn true) (record { handle = handle }) tt name sent parts
              header done refl short plain answered)
          ∙ shown-ended prefix name parts done (sent ++ dump_request name ∷ [])

      -- The four ways of `get_wireguard_info`. Without an argument it shows its usage, and it
      -- panics if the connection does not open; both send nothing. Else, for a name that an
      -- interface can have and a kernel that answers the dump request with messages and one that
      -- ends the dump, it sends that one request, and it prints the configuration that all
      -- messages make together, its keys hidden as `Debug` hides them, if there is a message and
      -- the dump ended with code 0; it panics otherwise. It is assumed that a connection told to
      -- forward the message that ends a dump yields the messages of the dump and that one.
      pub get_wireguard_info_lem :
          {Receiver : Type 0} (failed : String) (conn : Connection) (handle : GenetlinkHandle)
          (receiver : Receiver) (program name : String) (argv : List String) (parts : List Part)
          (header : NetlinkHeader) (done : DoneMessage)
          → len name < ifnamsiz
          → contains_nul name ≡ false
          → genetlink.answers handle (dump_request name ∷ []) ≡ replied (dump parts header done)
          → (get_wireguard_info derived genetlink (inr (conn, handle, receiver)) (program ∷ [])
              ≡ (Exit.usage "Usage: get_wireguard_info <ifname>", []))
            × (get_wireguard_info derived {Receiver = Receiver} genetlink
                  (inl failed)
                  (program ∷ name ∷ argv)
                ≡ (Exit.panicked, []))
            × (get_wireguard_info derived genetlink
                  (inr (conn, handle, receiver))
                  (program ∷ name ∷ argv)
                ≡ (dump_exit "" parts done, dump_request name ∷ []))
      unfolding get_wireguard_info new_connection new
      get_wireguard_info_lem failed conn handle receiver program name argv parts header done short
            plain answered =
          (
            refl,
            refl,
            shown-get_by_name conn handle "" name [] parts header done short plain answered,
          )

      module _ (conn : Connection) (handle : GenetlinkHandle) (name : String)
          (message : WireguardMessage)
          (built : build_messages (config name) WireguardCmd.set_device ≡ ok (message ∷ [])) where
        config_taken :
            (header : NetlinkHeader) (echo : Bytes)
            → genetlink.answers handle (request_for set_flags message ∷ [])
              ≡ replied (acknowledgement header echo ∷ [])
            → set (reached conn handle) (config name) []
              ≡ (ok tt, request_for set_flags message ∷ [])
        unfolding set send_parts request first_error parse_nl_msg_stream filter_map
        config_taken header echo answered =
            let passed =
              genetlink.acknowledges (genetlink.set_forward_done conn true) handle
                (request_for set_flags message ∷ []) header echo answered in
            rw (set, built, send_parts, request, passed) refl

        config_rejected :
            (header : NetlinkHeader) (echo : Bytes) (code : ℤ)
            → genetlink.answers handle (request_for set_flags message ∷ [])
              ≡ replied (rejection header echo code ∷ [])
            → (e : WireguardError) × (set (reached conn handle) (config name) []
                ≡ (err e, request_for set_flags message ∷ []))
        unfolding set send_parts request first_error parse_nl_msg_stream filter_map parse_reply
            parse_payload
        config_rejected header echo code answered =
            let passed =
              genetlink.rejects (genetlink.set_forward_done conn true) handle
                (request_for set_flags message ∷ []) header echo code answered in
            (
              part_error 1 0 (
                  error_new ErrorKind.netlink_error
                    (netlink_error_message (record { code = some code; header = echo }))
                    (some (request_for set_flags message))),
              rw (set, built, send_parts, request, passed) refl,
            )

        set_and_show_lem :
            (header : NetlinkHeader) (echo : Bytes) (code : Option ℤ) (parts : List Part)
            (end_header : NetlinkHeader) (done : DoneMessage)
            → len name < ifnamsiz
            → contains_nul name ≡ false
            → genetlink.answers handle (request_for set_flags message ∷ [])
              ≡ replied (verdict header echo code ∷ [])
            → genetlink.answers handle (request_for set_flags message ∷ dump_request name ∷ [])
              ≡ replied (dump parts end_header done)
            → set_and_show derived (reached conn handle) name
              ≡ set_exit name message code parts done
        set_and_show_lem header echo none parts end_header done short plain first second =
            let taken = config_taken header echo first in
            let shows =
              shown-get_by_name conn handle "Applied config " name
                (request_for set_flags message ∷ []) parts end_header done short plain second in
            rw (set_and_show, ap (λ r. r.0) taken, ap (λ r. r.1) taken) shows
        set_and_show_lem header echo (some code) parts end_header done short plain first second =
            let (e, rejected) = config_rejected header echo code first in
            rw (set_and_show, ap (λ r. r.0) rejected, ap (λ r. r.1) rejected) refl

    module _ {Connection GenetlinkHandle Receiver : Type 0}
        (genetlink : Genetlink Connection GenetlinkHandle) where
      -- What `set_wireguard` sends and shows. It is given the name of an interface, its three keys
      -- are base64 of as many bytes as a key has, and its configuration needs one message. Then
      -- this message is read back as the configuration, its flags in the order of their bit sets.
      -- On a connection that opens, to a kernel that acknowledges the message or rejects it with
      -- some code, and that answers a dump request behind it with messages and one that ends the
      -- dump, the program ends as `set_exit` has it: after a rejection it panics and has sent
      -- nothing but that message; else it has sent a dump request too, and it prints the
      -- configuration that the dump's messages make together, or panics if there is none or the
      -- dump ended with a code other than 0. It is assumed that base64 keeps bytes and accepts only
      -- the text that it writes, that the stream of a request yields the error of a rejection and
      -- nothing for an acknowledgement, and that a connection told to forward the message that ends
      -- a dump yields the messages of the dump and that one.
      pub set_wireguard_lem :
          (base64 : Base64Laws c) (peer_key : IsKey config_peer_key)
          (public : IsKey config_public_key) (private : IsKey config_private_key)
          (conn : Connection) (handle : GenetlinkHandle) (receiver : Receiver)
          (program name : String) (argv : List String) (message : WireguardMessage)
          (header : NetlinkHeader) (echo : Bytes) (code : Option ℤ) (parts : List Part)
          (end_header : NetlinkHeader) (done : DoneMessage)
          → len name < ifnamsiz
          → contains_nul name ≡ false
          → build_messages (config name) WireguardCmd.set_device ≡ ok (message ∷ [])
          → genetlink.answers handle (request_for set_flags message ∷ [])
            ≡ replied (verdict header echo code ∷ [])
          → genetlink.answers handle (request_for set_flags message ∷ dump_request name ∷ [])
            ≡ replied (dump parts end_header done)
          → (parse_messages (message ∷ [])
              ≡ reported_device (config name) (some (reported peer_config ∷ [])))
            × (set_wireguard derived genetlink
                  (inr (conn, handle, receiver))
                  (program ∷ name ∷ argv)
                ≡ set_exit name message code parts done)
      unfolding set_wireguard new_connection new
      set_wireguard_lem base64 peer_key public private conn handle receiver program name argv
            message header echo code parts end_header done short plain built first second =
          (
            message_parsed base64 peer_key public private name message short plain built,
            set_and_show_lem genetlink conn handle name message built header echo code parts
                end_header done short plain first second,
          )
