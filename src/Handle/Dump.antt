-- ===== src/Handle/Dump.antt =====
-- What `get_by_name` makes of the replies to its dump request.
use Prim.Native.Nat.{bit_or}
use nl_wireguard.Base.{
  ◌<◌, ◌≡◌, refl, inl, inr, false, Option-cases, none, some, String, List, [], ◌∷◌, ◌++◌,
  concat_map, arith,
}
use nl_wireguard.Base.Text.{◌+++◌, len, contains_nul}
use nl_wireguard.Packet.{WireguardCmd, WireguardAttribute, WireguardMessage, NetlinkMessage}
use nl_wireguard.Crates.{Crates}
use nl_wireguard.Error.{ErrorKind, WireguardError, Result, ok, err, error_new}
use nl_wireguard.Device
use nl_wireguard.Device.{
  WireguardParsed, default_device, ifnamsiz, iface_attribute, device_attributes, leading_attributes,
  build_message, parse_messages,
}
use nl_wireguard.Device.Interface.{iface_made}
use nl_wireguard.Messages.{build, single_message, build_messages, finish, add_peers}
use nl_wireguard.Handle.{
  Kernel, Outcome, refused, replied, first_error, collect_ok, parse_nl_msg_stream, request,
  request_for, netlink_message, parse_dump, get_by_name,
}
use nl_wireguard.Handle.Steps.{no_error}
use nl_wireguard.Handle.Stream.{carried, messages_of, error_count, parse_nl_msg_stream_lem}

collect_messages :
    (rs : List (Result WireguardMessage)) → error_count rs ≡ 0 → collect_ok rs ≡ ok (messages_of rs)
unfolding collect_ok
collect_messages [] h = refl
collect_messages (ok m ∷ rs) h = rw (collect_messages rs h) refl
collect_messages (err e ∷ rs) h = absurd (omega arith)

collect_failure :
    (rs : List (Result WireguardMessage)) (e : WireguardError)
    → first_error rs ≡ some e
    → collect_ok rs ≡ err e
unfolding collect_ok first_error
collect_failure [] e h = cc h
collect_failure (ok m ∷ rs) e h = rw (collect_failure rs e h) refl
collect_failure (err x ∷ rs) e h = cc h

abbrev named : String → WireguardParsed
named name = record default_device { iface_name = some name }

-- The message that asks for the interface `name`.
abbrev pub query : String → WireguardMessage
query name = record {
  cmd = WireguardCmd.get_device;
  attributes = WireguardAttribute.if_name name ∷ [];
}

module _ ⦃c : Crates⦄ where
  -- The dump request for the interface `name`.
  abbrev pub dump_request : String → NetlinkMessage
  dump_request name =
      request_for (bit_or (bit_or c.nlm_f_request c.nlm_f_ack) c.nlm_f_dump) (query name)

  query_attributes :
      (name : String)
      → iface_attribute (named name) ≡ ok (WireguardAttribute.if_name name)
      → device_attributes (named name) ≡ ok (WireguardAttribute.if_name name ∷ [])
  unfolding device_attributes Device.key_attribute
  query_attributes name h = rw h refl

  query_built :
      (name : String)
      → len name < ifnamsiz
      → contains_nul name ≡ false
      → build (named name) WireguardCmd.get_device ≡ some (ok (query name))
  unfolding build single_message build_messages finish add_peers build_message leading_attributes
  query_built name short plain =
      let iface = iface_made (named name) (WireguardAttribute.if_name name) (
        inl (record { name = name; has_name = refl; short = short; plain = plain; made = refl })) in
      rw (query_attributes name iface) refl

  -- What a dump is that carried these messages and reported no failure.
  abbrev pub dump_of : String → List WireguardMessage → Result WireguardParsed
  dump_of name [] = err (
      error_new ErrorKind.bug "Got no reply from kernel for request"
        (some (netlink_message (query name))))
  dump_of name (m ∷ ms) = ok (parse_messages (m ∷ ms))

  -- The outcome that the code promises for an outcome of the request.
  abbrev pub dump_result : String → Outcome → Result WireguardParsed
  dump_result name (refused e) = err (
      error_new ErrorKind.netlink_error ("Netlink request failed: " +++ e)
        (some (dump_request name)))
  dump_result name (replied replies) =
      elim (first_error (parse_nl_msg_stream (dump_request name) replies)) [
        | some e ↦ err e
        | none ↦ dump_of name (concat_map carried replies)
      ]

  dumped :
      (kernel : Kernel) (name : String) (ms : List WireguardMessage)
      → parse_dump kernel (query name) ms ≡ dump_of name ms
  unfolding parse_dump
  dumped kernel name [] = refl
  dumped kernel name (m ∷ ms) = refl

  dump_when :
      (kernel : Kernel) (name : String) (sent : List NetlinkMessage) (o : Outcome)
      → build (named name) WireguardCmd.get_device ≡ some (ok (query name))
      → kernel (sent ++ dump_request name ∷ []) ≡ o
      → get_by_name kernel name sent ≡ (some (dump_result name o), sent ++ dump_request name ∷ [])
  unfolding get_by_name request
  dump_when kernel name sent (refused e) built answered =
      rw (built, get_by_name, answered, request) refl
  dump_when kernel name sent (replied replies) built answered =
      let (safe, messages, errors) = parse_nl_msg_stream_lem (dump_request name) replies in
      let stream = parse_nl_msg_stream (dump_request name) replies in
      elim (Option-cases (first_error stream)) [
        | inr (e, failed) ↦
            rw
              (
                built,
                get_by_name,
                answered,
                request,
                collect_failure stream e failed,
                dump_result,
                failed,
              )
              refl
        | inl fine ↦
            rw
              (
                built,
                get_by_name,
                answered,
                request,
                collect_messages stream (no_error stream fine),
                dump_result,
                fine,
                messages,
                dumped kernel,
              )
              refl
      ]

  -- `get_by_name` for a name that an interface can have sends one dump request, and its result is
  -- that of the request: the error of a request that could not be sent, else the first error among
  -- the replies, else the error about a missing reply if no reply carries a message, else the
  -- configuration that all carried messages make together.
  pub get_by_name_outcome :
      (kernel : Kernel) (name : String) (sent : List NetlinkMessage)
      → len name < ifnamsiz
      → contains_nul name ≡ false
      → get_by_name kernel name sent ≡ (
        some (dump_result name (kernel (sent ++ dump_request name ∷ []))),
        sent ++ dump_request name ∷ [],
      )
  get_by_name_outcome kernel name sent short plain =
      dump_when kernel name sent (kernel (sent ++ dump_request name ∷ []))
        (query_built name short plain) refl
