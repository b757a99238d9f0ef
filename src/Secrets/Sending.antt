-- ===== src/Secrets/Sending.antt =====
-- `set` of src/handle.rs at configurations that agree but for their keys.
use mathlib.Core.List.{filter_map}
use mathlib.Core.Option
use nl_wireguard.Base.{
  ℕ, suc, ◌≡◌, refl, ap, sym, ◌∙◌, Option, none, some, or_keep, Option-cases, inl, inr, List, [],
  ◌∷◌, ◌++◌, map, map-append, length, length-map, String, Bool-cases,
}
use nl_wireguard.Base.Int.{is_zero}
use nl_wireguard.Base.Text.{◌+++◌}
use nl_wireguard.Packet.{
  WireguardCmd, WireguardMessage, NetlinkPayload, NetlinkHeader, NetlinkMessage,
}
use nl_wireguard.Crates.{Crates, LengthLaws, KeyLaws}
use nl_wireguard.Error.{ErrorKind, WireguardError, Result, ok, err, error_new, Result-cases}
use nl_wireguard.Redact.{redact_payload, redact_message}
use nl_wireguard.Redact.Guarantees.{redact_message_lem, redact_message_same}
use nl_wireguard.Device.{WireguardParsed}
use nl_wireguard.Messages.{build_messages}
use nl_wireguard.Handle.{
  Reply, received, undecodable, Outcome, refused, replied, Kernel, first_error, part_error,
  netlink_error_message, parse_payload, parse_reply, parse_nl_msg_stream, request_for, set_flags,
  request, send_parts, set,
}
use nl_wireguard.Handle.Steps.{Outcome-cases}
use nl_wireguard.Secrets.{mask_message, mask_reply, mask_outcome, AlikeParsed}
use nl_wireguard.Secrets.Building.{build_messages_alike}

-- What the kernel answers does not show keys, but where it repeats them: in the messages of its
-- replies, in the echo of a request, or in the bytes of an overrun.
abbrev pub IsDiscreet : Kernel → Type 0
IsDiscreet kernel =
    (sent others : List NetlinkMessage)
    → map redact_message sent ≡ map redact_message others
    → mask_outcome (kernel sent) ≡ mask_outcome (kernel others)

redact_twice : (m : NetlinkMessage) → redact_message (redact_message m) ≡ redact_message m
redact_twice m = sym (redact_message_same m (redact_message m) (redact_message_lem m).1)

error_alike :
    (kind : ErrorKind) (msg : String) (m : NetlinkMessage)
    → error_new kind msg (some (redact_message m)) ≡ error_new kind msg (some m)
unfolding error_new
error_alike kind msg m = cc (redact_twice m)

module _ ⦃c : Crates⦄ where
  -- A reply and the request, both without their keys, give the same error or none.
  reply_error : Option (Result WireguardMessage) → Option WireguardError
  reply_error none = none
  reply_error (some (ok m)) = none
  reply_error (some (err e)) = some e

  payload_masked :
      (nl_msg : NetlinkMessage) (header : NetlinkHeader) (payload : NetlinkPayload)
      → reply_error (parse_payload (redact_message nl_msg) header (redact_payload payload))
        ≡ reply_error (parse_payload nl_msg header payload)
  unfolding parse_payload redact_payload reply_error netlink_error_message
  payload_masked nl_msg header (NetlinkPayload.inner_message genl) = refl
  payload_masked nl_msg header (NetlinkPayload.error e) = elim (Option-cases e.code) [
    | inl absent ↦ rw (absent, parse_payload) refl
    | inr (code, there) ↦
        rw (there, parse_payload) (ap some (error_alike ErrorKind.netlink_error _ nl_msg))
  ]
  payload_masked nl_msg header (NetlinkPayload.done done) = elim (Bool-cases (is_zero done.code)) [
    | inl zero_code ↦ rw zero_code refl
    | inr failed ↦ rw failed (ap some (error_alike ErrorKind.netlink_error _ nl_msg))
  ]
  payload_masked nl_msg header NetlinkPayload.noop = refl
  payload_masked nl_msg header (NetlinkPayload.overrun bytes) =
      ap some (error_alike ErrorKind.bug _ nl_msg)
  payload_masked nl_msg header (NetlinkPayload.other kind) = refl

  reply_masked :
      (nl_msg : NetlinkMessage) (reply : Reply)
      → reply_error (parse_reply (redact_message nl_msg) (mask_reply reply))
        ≡ reply_error (parse_reply nl_msg reply)
  unfolding parse_reply redact_message reply_error
  reply_masked nl_msg (received m) = payload_masked nl_msg m.header m.payload
  reply_masked nl_msg (undecodable e) = ap some (error_alike ErrorKind.decode_error _ nl_msg)

  -- The first error of a stream, reply by reply.
  first_of : NetlinkMessage → List Reply → Option WireguardError
  first_of nl_msg [] = none
  first_of nl_msg (reply ∷ replies) =
      or_keep (reply_error (parse_reply nl_msg reply)) (first_of nl_msg replies)

  first_of_lem :
      (nl_msg : NetlinkMessage) (replies : List Reply)
      → first_error (parse_nl_msg_stream nl_msg replies) ≡ first_of nl_msg replies
  unfolding parse_nl_msg_stream first_error first_of reply_error filter_map
  first_of_lem nl_msg [] = refl
  first_of_lem nl_msg (reply ∷ replies) =
      let later = first_of_lem nl_msg replies in
      elim (Option-cases (parse_reply nl_msg reply)) [
        | inl skipped ↦ rw (skipped, first_of) later
        | inr (r, parsed) ↦ elim (Result-cases r) [
          | inl (m, is_ok) ↦ rw (parsed, is_ok, first_of) later
          | inr (e, is_err) ↦ rw (parsed, is_err, first_of) refl
        ]
      ]

  first_masked :
      (nl_msg : NetlinkMessage) (replies : List Reply)
      → first_of (redact_message nl_msg) (map mask_reply replies) ≡ first_of nl_msg replies
  unfolding first_of
  first_masked nl_msg [] = refl
  first_masked nl_msg (reply ∷ replies) =
      rw (first_of, reply_masked nl_msg reply, first_masked nl_msg replies) refl

  -- The error of a part with this outcome, if there is one.
  part_failure : (total index : ℕ) → NetlinkMessage → Outcome → Option WireguardError
  part_failure total index nl_msg (refused e) =
      some (error_new ErrorKind.netlink_error ("Netlink request failed: " +++ e) (some nl_msg))
  part_failure total index nl_msg (replied replies) =
      Option.map (part_error total index) (first_of nl_msg replies)

  failure_masked :
      (total index : ℕ) (nl_msg : NetlinkMessage) (outcome : Outcome)
      → part_failure total index (redact_message nl_msg) (mask_outcome outcome)
        ≡ part_failure total index nl_msg outcome
  unfolding part_failure
  failure_masked total index nl_msg (refused e) =
      ap some (error_alike ErrorKind.netlink_error _ nl_msg)
  failure_masked total index nl_msg (replied replies) =
      ap (Option.map (part_error total index)) (first_masked nl_msg replies)

  failure_alike :
      (total index : ℕ) (m n : NetlinkMessage) (outcome other : Outcome)
      → redact_message m ≡ redact_message n
      → mask_outcome outcome ≡ mask_outcome other
      → part_failure total index m outcome ≡ part_failure total index n other
  failure_alike total index m n outcome other e f =
      sym (failure_masked total index m outcome) ∙ (cc (e, f) ∙ failure_masked total index n other)

  same_length :
      (ms ns : List WireguardMessage)
      → map mask_message ms ≡ map mask_message ns
      → length ms ≡ length ns
  same_length ms ns e =
      sym (length-map mask_message ms) ∙ (ap length e ∙ length-map mask_message ns)

  request_alike :
      KeyLaws c
      → (m n : WireguardMessage) → mask_message m ≡ mask_message n
      → redact_message (request_for set_flags m) ≡ redact_message (request_for set_flags n)
  unfolding redact_message redact_payload
  request_alike keys m n e = cc (e, keys.genl_header_of_cmd m n (cc e))

  module _ (kernel : Kernel) where
    -- One round of the loop of `set`.
    round :
        (total index : ℕ) (m : WireguardMessage) (ms : List WireguardMessage)
        (sent : List NetlinkMessage)
        → let nl_msg = request_for set_flags m in
          let sent' = sent ++ nl_msg ∷ [] in
          send_parts kernel total index (m ∷ ms) sent
          ≡ elim (part_failure total index nl_msg (kernel sent')) [
            | some e ↦ (err e, sent')
            | none ↦ send_parts kernel total (suc index) ms sent'
          ]
    unfolding send_parts request part_failure
    round total index m ms sent =
        let nl_msg = request_for set_flags m in
        elim (Outcome-cases (kernel (sent ++ nl_msg ∷ []))) [
          | inl (e, h) ↦ rw h refl
          | inr (replies, h) ↦ elim (Option-cases (first_of nl_msg replies)) [
            | inl no_error ↦ rw (h, first_of_lem nl_msg replies, no_error) refl
            | inr (e, failed) ↦ rw (h, first_of_lem nl_msg replies, failed) refl
          ]
        ]

    -- The two runs return the same, and what they sent is the same but for keys.
    abbrev pub Alike : {A : Type 0} → (r s : A × List NetlinkMessage) → Type 0
    Alike r s = (r.0 ≡ s.0) × (map redact_message r.1 ≡ map redact_message s.1)

    parts-Alike :
        KeyLaws c
        → IsDiscreet kernel
        → (total index : ℕ) (ms ns : List WireguardMessage) (sent others : List NetlinkMessage)
        → map mask_message ms ≡ map mask_message ns
        → map redact_message sent ≡ map redact_message others
        → Alike (send_parts kernel total index ms sent) (send_parts kernel total index ns others)
    unfolding send_parts
    parts-Alike keys discreet total index [] [] sent others e s = (refl, s)
    parts-Alike keys discreet total index [] (n ∷ ns) sent others e s = cc e
    parts-Alike keys discreet total index (m ∷ ms) [] sent others e s = cc e
    parts-Alike keys discreet total index (m ∷ ms) (n ∷ ns) sent others e s =
        let left = request_for set_flags m in
        let right = request_for set_flags n in
        let same_request = request_alike keys m n (cc e) in
        let same_sent : map redact_message (sent ++ left ∷ [])
            ≡ map redact_message (others ++ right ∷ []) =
          cc (
            s,
            same_request,
            map-append redact_message sent (left ∷ []),
            map-append redact_message others (right ∷ []),
          ) in
        let same_failure =
          failure_alike total index left right (kernel (sent ++ left ∷ []))
            (kernel (others ++ right ∷ [])) same_request (discreet _ _ same_sent) in
        let later =
          parts-Alike keys discreet total (suc index) ms ns (sent ++ left ∷ [])
            (others ++ right ∷ []) (cc e) same_sent in
        rw (round total index m ms sent, round total index n ns others, same_failure)
          (elim (Option-cases (part_failure total index right (kernel (others ++ right ∷ [])))) [
            | inl accepted ↦ rw accepted later
            | inr (error, failed) ↦ rw failed (refl, same_sent)
          ])

    -- The keys of a configuration stay out of what `set` returns. Take two configurations that
    -- agree but for the private key and the preshared keys, where each key of one and its
    -- counterpart decode to equally many bytes or are rejected in the same words, and a kernel
    -- whose answers depend on keys only where they repeat them: in messages, in the echo of a
    -- request or in the bytes of an overrun. Then `set` returns the same for both, success or error, and the
    -- requests that it sent are as many and the same but for the keys. It is assumed that the
    -- length of a preshared key's attribute and the header of a message do not depend on keys,
    -- and that the length of a peer is made up of its attributes'.
    pub set_alike :
        LengthLaws c
        → KeyLaws c
        → IsDiscreet kernel
        → (a b : WireguardParsed) → AlikeParsed a b
        → (sent : List NetlinkMessage)
        → ((set kernel a sent).0 ≡ (set kernel b sent).0)
          × (map redact_message (set kernel a sent).1 ≡ map redact_message (set kernel b sent).1)
    unfolding set
    set_alike lengths keys discreet a b h sent =
        let same = build_messages_alike lengths keys a b WireguardCmd.set_device h in
        let left = build_messages a WireguardCmd.set_device in
        let right = build_messages b WireguardCmd.set_device in
        elim (Result-cases left) [
          | inl (ms, e) ↦ elim (Result-cases right) [
            | inl (ns, f) ↦
                let masked : map mask_message ms ≡ map mask_message ns = cc (rw (e, f) at same) in
                rw (set, e, f, same_length ms ns masked)
                  (parts-Alike keys discreet (length ns) 0 ms ns sent sent masked refl)
            | inr (error, f) ↦ absurd (cc (rw (e, f) at same))
          ]
          | inr (error, e) ↦ elim (Result-cases right) [
            | inl (ns, f) ↦ absurd (cc (rw (e, f) at same))
            | inr (other, f) ↦ rw (set, e, f) (cc (rw (e, f) at same), refl)
          ]
        ]
