-- ===== src/Connection/Dumps.antt =====
-- Dumps over a connection of src/connection.rs.
use mathlib.Core.List.{filter_map}
use nl_wireguard.Base.{
  ◌<◌, ◌≡◌, refl, ap, ◌∙◌, ◌⊎◌, inl, inr, Bool-cases, true, false, none, some, String, List, [],
  ◌∷◌, ◌++◌, map, concat_map, if◌then◌else◌,
}
use nl_wireguard.Base.Int.{is_zero, neg_i32}
use nl_wireguard.Base.Text.{◌+++◌, len, contains_nul}
use nl_wireguard.Packet.{WireguardMessage, DoneMessage, NetlinkHeader, NetlinkMessage}
use nl_wireguard.Crates.{Crates}
use nl_wireguard.Error.{ErrorKind, WireguardError, Result, err, error_new}
use nl_wireguard.Device.{WireguardParsed, ifnamsiz}
use nl_wireguard.Handle.{
  Outcome, replied, first_error, parse_reply, parse_payload, parse_nl_msg_stream, get_by_name,
}
use nl_wireguard.Handle.Stream.{carried}
use nl_wireguard.Handle.Dump.{dump_request, dump_of, dump_result, get_by_name_outcome}
use nl_wireguard.Connection.{Genetlink, Part, dump, WireguardHandle, new_connection}

abbrev pub message_of : Part → WireguardMessage
message_of part = part.genl.payload

dump_carries :
    (parts : List Part) (header : NetlinkHeader) (done : DoneMessage)
    → concat_map carried (dump parts header done) ≡ map message_of parts
dump_carries [] header done = refl
dump_carries (part ∷ parts) header done =
    ap (λ more. message_of part ∷ more) (dump_carries parts header done)

module _ ⦃c : Crates⦄ where
  -- The error for a dump of the interface `name` that failed.
  abbrev pub dump_error : String → DoneMessage → WireguardError
  dump_error name done =
      error_new ErrorKind.netlink_error
        ("Netlink dump failed: " +++ c.show_os_error (neg_i32 done.code)) (some (dump_request name))

  -- What a dump of these messages is, ended by this message.
  abbrev pub ended : String → List Part → DoneMessage → Result WireguardParsed
  ended name parts done =
      if is_zero done.code then dump_of name (map message_of parts) else err (dump_error name done)

  dump_fails :
      (name : String) (parts : List Part) (header : NetlinkHeader) (done : DoneMessage)
      → first_error (parse_nl_msg_stream (dump_request name) (dump parts header done))
        ≡ (if is_zero done.code then none else some (dump_error name done))
  unfolding parse_nl_msg_stream first_error filter_map parse_reply parse_payload
  dump_fails name [] header done = elim (Bool-cases (is_zero done.code)) [
    | inl fine ↦ rw fine refl
    | inr failed ↦ rw failed refl
  ]
  dump_fails name (part ∷ parts) header done = dump_fails name parts header done

  dump_result-dump :
      (name : String) (parts : List Part) (header : NetlinkHeader) (done : DoneMessage)
      → dump_result name (replied (dump parts header done)) ≡ ended name parts done
  dump_result-dump name parts header done = elim (Bool-cases (is_zero done.code)) [
    | inl fine ↦ rw (dump_result, dump_fails, fine, dump_carries) refl
    | inr failed ↦ rw (dump_result, dump_fails, failed) refl
  ]

  pub dump_forwarded :
      {Connection GenetlinkHandle Receiver : Type 0}
      (genetlink : Genetlink Connection GenetlinkHandle)
      (opened : String ⊎ (Connection × GenetlinkHandle × Receiver)) (conn : Connection)
      (handle : WireguardHandle GenetlinkHandle) (messages : Receiver) (sent : List NetlinkMessage)
      (parts : List Part) (header : NetlinkHeader) (done : DoneMessage)
      → new_connection genetlink opened ≡ inr (conn, handle, messages)
      → genetlink.answers handle.handle sent ≡ replied (dump parts header done)
      → genetlink.passes_on conn handle.handle sent ≡ replied (dump parts header done)
  unfolding new_connection
  dump_forwarded genetlink (inl e) conn handle messages sent parts header done h answered = cc h
  dump_forwarded genetlink (inr (conn0, handle0, messages0)) conn handle messages sent parts header
        done h answered =
      let same_handle : handle0 ≡ handle.handle = cc h in
      let same_conn : genetlink.set_forward_done conn0 true ≡ conn = cc h in
      rw (← same_conn) (genetlink.forwards conn0 handle.handle sent parts header done answered)

  -- A dump over a connection that `new_connection` returns is neither cut short nor taken for
  -- whole when it failed. For a name that an interface can have, and a kernel that answers the dump
  -- request with messages and one that ends the dump, `get_by_name` sends that one request; it
  -- returns the error of the dump if the code that ends it is not 0, whatever messages came before,
  -- else the error about a missing reply if there was no message, else the configuration that the
  -- messages make together. It is assumed that a connection told to forward the message that ends
  -- a dump yields the messages of the dump and that one.
  pub get_by_name-new_connection :
      {Connection GenetlinkHandle Receiver : Type 0}
      (genetlink : Genetlink Connection GenetlinkHandle)
      (opened : String ⊎ (Connection × GenetlinkHandle × Receiver)) (conn : Connection)
      (handle : WireguardHandle GenetlinkHandle) (messages : Receiver) (name : String)
      (sent : List NetlinkMessage) (parts : List Part) (header : NetlinkHeader) (done : DoneMessage)
      → new_connection genetlink opened ≡ inr (conn, handle, messages)
      → len name < ifnamsiz
      → contains_nul name ≡ false
      → genetlink.answers handle.handle (sent ++ dump_request name ∷ [])
        ≡ replied (dump parts header done)
      → get_by_name (genetlink.passes_on conn handle.handle) name sent
        ≡ (some (ended name parts done), sent ++ dump_request name ∷ [])
  get_by_name-new_connection genetlink opened conn handle messages name sent parts header done new
        short plain answered =
      let kernel = genetlink.passes_on conn handle.handle in
      let forwarded =
        dump_forwarded genetlink opened conn handle messages (sent ++ dump_request name ∷ []) parts
          header done new answered in
      get_by_name_outcome kernel name sent short plain
      ∙ ap (λ (o : Outcome). (some (dump_result name o), sent ++ dump_request name ∷ [])) forwarded
      ∙ ap (λ r. (some r, sent ++ dump_request name ∷ [])) (dump_result-dump name parts header done)
