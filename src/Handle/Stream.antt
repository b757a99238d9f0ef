-- ===== src/Handle/Stream.antt =====
-- What the stream of replies yields: the messages of the kernel, and errors without secrets.
use mathlib.Core.Option
use mathlib.Core.List.{filter_map, filter_map-cons-none, filter_map-cons-some}
use nl_wireguard.Base.{
  ◌≡◌, refl, ap, Bool, Option, none, some, List, [], ◌∷◌, All, arith, Bool-cases, concat_map, ◌++◌,
  ◌∙◌, All-append, Option-cases, inl, inr, ℕ, suc, ◌+◌, true, false, not, is_some, list_of,
  if◌then◌else◌,
}
use nl_wireguard.Base.Int.{is_zero}
use nl_wireguard.Packet.{WireguardMessage, NetlinkPayload, NetlinkHeader, NetlinkMessage}
use nl_wireguard.Crates.{Crates}
use nl_wireguard.Error.{Result, ok, err, error_new}
use nl_wireguard.Redact.{redact_message}
use nl_wireguard.Redact.Secrecy.{IsRedacted}
use nl_wireguard.Redact.Guarantees.{redact_message_lem}
use nl_wireguard.Handle.{
  Reply, received, undecodable, parse_payload, parse_reply, parse_nl_msg_stream,
}

-- The message that an error keeps, if any, is redacted.
abbrev pub IsSafeMessage : Option NetlinkMessage → Type 0
IsSafeMessage none = Unit
IsSafeMessage (some m) = IsRedacted m.payload

abbrev pub IsSafe {ℓ} : {A : Type ℓ} → Result A → Type 0
IsSafe (ok a) = Unit
IsSafe (err e) = IsSafeMessage e.netlink_msg

pub redacted-IsSafe : (msg : Option NetlinkMessage) → IsSafeMessage (Option.map redact_message msg)
redacted-IsSafe none = tt
redacted-IsSafe (some m) = (redact_message_lem m).0

-- The messages that a reply carries.
abbrev pub carried : Reply → List WireguardMessage
carried (received msg) = elim msg.payload [
  | NetlinkPayload.inner_message genl ↦ genl.payload ∷ []
  | _ ↦ []
]
carried (undecodable e) = []

-- A reply that reports a failure: neither a message of the kernel, nor an acknowledgement, nor
-- the end of a dump with code 0, nor a no-op.
abbrev pub fails_with : NetlinkPayload → Bool
fails_with (NetlinkPayload.inner_message genl) = false
fails_with (NetlinkPayload.error e) = is_some e.code
fails_with (NetlinkPayload.done done) = not (is_zero done.code)
fails_with NetlinkPayload.noop = false
fails_with (NetlinkPayload.overrun bytes) = true
fails_with (NetlinkPayload.other kind) = true

abbrev pub reports_failure : Reply → Bool
reports_failure (received msg) = fails_with msg.payload
reports_failure (undecodable e) = true

-- The messages and the errors of a stream.
abbrev pub messages_of : List (Result WireguardMessage) → List WireguardMessage
messages_of [] = []
messages_of (ok m ∷ rs) = m ∷ messages_of rs
messages_of (err e ∷ rs) = messages_of rs

abbrev pub error_count : List (Result WireguardMessage) → ℕ
error_count [] = 0
error_count (ok m ∷ rs) = error_count rs
error_count (err e ∷ rs) = suc (error_count rs)

abbrev pub failure_count : List Reply → ℕ
failure_count [] = 0
failure_count (r ∷ rs) = (if reports_failure r then 1 else 0) + failure_count rs

-- What one reply adds to the stream.
abbrev item : Option (Result WireguardMessage) → List (Result WireguardMessage)
item = list_of

messages_of-append :
    (xs ys : List (Result WireguardMessage))
    → messages_of (xs ++ ys) ≡ messages_of xs ++ messages_of ys
messages_of-append [] ys = refl
messages_of-append (ok m ∷ xs) ys = ap (λ ms. m ∷ ms) (messages_of-append xs ys)
messages_of-append (err e ∷ xs) ys = messages_of-append xs ys

error_count-append :
    (xs ys : List (Result WireguardMessage))
    → error_count (xs ++ ys) ≡ error_count xs + error_count ys
error_count-append [] ys = omega arith
error_count-append (ok m ∷ xs) ys = error_count-append xs ys
error_count-append (err e ∷ xs) ys = omega (arith, error_count-append xs ys)

module _ ⦃c : Crates⦄ (nl_msg : NetlinkMessage) where
  record IsItem (reply : Reply) (r : Option (Result WireguardMessage)) : Type 0 where
    safe : All IsSafe (item r)
    messages : messages_of (item r) ≡ carried reply
    errors : error_count (item r) ≡ (if reports_failure reply then 1 else 0)

  payload-IsItem :
      (header : NetlinkHeader) (payload : NetlinkPayload)
      → IsItem
          (received (record { header = header; payload = payload }))
          (parse_payload nl_msg header payload)
  unfolding parse_payload error_new
  payload-IsItem header (NetlinkPayload.inner_message genl) = record {
    safe = (tt, tt);
    messages = refl;
    errors = refl;
  }
  payload-IsItem header (NetlinkPayload.error e) = elim (Option-cases e.code) [
    | inl absent ↦ record {
      safe = rw absent tt;
      messages = rw absent refl;
      errors = rw absent refl;
    }
    | inr (code, there) ↦ record {
      safe = rw there (redacted-IsSafe (some nl_msg), tt);
      messages = rw there refl;
      errors = rw there refl;
    }
  ]
  payload-IsItem header (NetlinkPayload.done done) = elim (Bool-cases (is_zero done.code)) [
    | inl zero_code ↦ record {
      safe = rw zero_code tt;
      messages = rw zero_code refl;
      errors = rw zero_code refl;
    }
    | inr failed ↦ record {
      safe = rw failed (redacted-IsSafe (some nl_msg), tt);
      messages = rw failed refl;
      errors = rw failed refl;
    }
  ]
  payload-IsItem header NetlinkPayload.noop = record { safe = tt; messages = refl; errors = refl }
  payload-IsItem header (NetlinkPayload.overrun bytes) = record {
    safe = (redacted-IsSafe (some nl_msg), tt);
    messages = refl;
    errors = refl;
  }
  payload-IsItem header (NetlinkPayload.other kind) = record {
    safe = (
      redacted-IsSafe (some (record { header = header; payload = NetlinkPayload.other kind })),
      tt,
    );
    messages = refl;
    errors = refl;
  }

  reply-IsItem : (reply : Reply) → IsItem reply (parse_reply nl_msg reply)
  unfolding parse_reply error_new
  reply-IsItem (received msg) = payload-IsItem msg.header msg.payload
  reply-IsItem (undecodable e) = record {
    safe = (redacted-IsSafe (some nl_msg), tt);
    messages = refl;
    errors = refl;
  }

  stream_cons :
      (reply : Reply) (replies : List Reply)
      → parse_nl_msg_stream nl_msg (reply ∷ replies)
        ≡ item (parse_reply nl_msg reply) ++ parse_nl_msg_stream nl_msg replies
  unfolding parse_nl_msg_stream
  stream_cons reply replies = elim (Option-cases (parse_reply nl_msg reply)) [
    | inl skipped ↦
        filter_map-cons-none (parse_reply nl_msg) reply replies skipped ∙ rw skipped refl
    | inr (r, kept) ↦ filter_map-cons-some (parse_reply nl_msg) reply replies kept ∙ rw kept refl
  ]

  -- A stream yields exactly the messages that its replies carry, in their order, and an error for
  -- each reply that reports a failure and for no other; the message that an error keeps has no
  -- private or preshared key but zeros, no copy of a request and no bytes of an overrun.
  pub parse_nl_msg_stream_lem :
      (replies : List Reply)
      → All IsSafe (parse_nl_msg_stream nl_msg replies)
        × (messages_of (parse_nl_msg_stream nl_msg replies) ≡ concat_map carried replies)
        × (error_count (parse_nl_msg_stream nl_msg replies) ≡ failure_count replies)
  unfolding parse_nl_msg_stream filter_map
  parse_nl_msg_stream_lem [] = (tt, refl, refl)
  parse_nl_msg_stream_lem (reply ∷ replies) =
      let (safe, messages, errors) = parse_nl_msg_stream_lem replies in
      let here = reply-IsItem reply in
      let first = item (parse_reply nl_msg reply) in
      let rest = parse_nl_msg_stream nl_msg replies in
      (
        rw stream_cons (All-append IsSafe first rest here.safe safe),
        ap messages_of (stream_cons reply replies)
            ∙ (messages_of-append first rest ∙ cc (here.messages, messages)),
        ap error_count (stream_cons reply replies)
            ∙ (error_count-append first rest ∙ cc (here.errors, errors)),
      )
