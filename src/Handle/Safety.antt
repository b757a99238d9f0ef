-- ===== src/Handle/Safety.antt =====
-- What the errors of the handle's methods keep of a message.
use Prim.Native.Nat.{bit_or}
use nl_wireguard.Base.{
  ℕ, suc, ◌≡◌, refl, Option, none, some, String, List, [], ◌∷◌, ◌++◌, All, inl, inr, Option-cases,
  length, lt→ltb, arith,
}
use nl_wireguard.Packet.{WireguardCmd, WireguardMessage, NetlinkMessage}
use nl_wireguard.Crates.{Crates}
use nl_wireguard.Error.{WireguardError, Result, ok, err, error_new, ◌>>=◌, Result-cases}
use nl_wireguard.Device.{WireguardParsed, default_device}
use nl_wireguard.Messages.{build, single_message, build_messages}
use nl_wireguard.Handle.{
  Kernel, Outcome, refused, replied, first_error, collect_ok, part_error, parse_nl_msg_stream,
  request, send_parts, set, remove_peer, parse_dump, get_by_name, request_for, set_flags,
  netlink_message,
}
use nl_wireguard.Handle.Stream.{IsSafe, IsSafeMessage, redacted-IsSafe, parse_nl_msg_stream_lem}
use nl_wireguard.Handle.Building.{bind-IsSafe, build_messages-IsSafe}

-- The result of a method that did not panic is safe.
abbrev pub SafeOption {ℓ} : {A : Type ℓ} → Option (Result A) → Type 0
SafeOption none = Unit
SafeOption (some r) = IsSafe r

collect_ok-IsSafe {ℓ} : {A : Type ℓ} (rs : List (Result A)) → All IsSafe rs → IsSafe (collect_ok rs)
unfolding collect_ok
collect_ok-IsSafe [] h = tt
collect_ok-IsSafe (r ∷ rs) h =
    bind-IsSafe r _ h.0
      (λ msg. bind-IsSafe (collect_ok rs) _ (collect_ok-IsSafe rs h.1) (λ msgs. tt))

-- The redaction of an error's message, whatever it was.
part_error-IsSafe :
    (total index : ℕ) (e : WireguardError) → IsSafeMessage (part_error total index e).netlink_msg
unfolding part_error error_new
part_error-IsSafe total index e = redacted-IsSafe e.netlink_msg

single-IsSafe : (r : Result (List WireguardMessage)) → IsSafe r → SafeOption (single_message r)
unfolding single_message error_new
single-IsSafe (err e) h = h
single-IsSafe (ok []) h = tt
single-IsSafe (ok (m ∷ [])) h = tt
single-IsSafe (ok (m ∷ n ∷ ms)) h = rw (lt→ltb 1 (length (m ∷ n ∷ ms)) (omega arith)) tt

module _ ⦃c : Crates⦄ (kernel : Kernel) where
  outcome-IsSafe :
      (flags : ℕ) (message : WireguardMessage) (sent : List NetlinkMessage) (o : Outcome)
      → kernel (sent ++ request_for flags message ∷ []) ≡ o
      → IsSafe (request kernel flags message sent).0
  unfolding request error_new
  outcome-IsSafe flags message sent (refused e) h =
      rw (h, request) (redacted-IsSafe (some (request_for flags message)))
  outcome-IsSafe flags message sent (replied replies) h = rw (h, request) tt

  request-IsSafe :
      (flags : ℕ) (message : WireguardMessage) (sent : List NetlinkMessage)
      → IsSafe (request kernel flags message sent).0
  request-IsSafe flags message sent =
      outcome-IsSafe flags message sent (kernel (sent ++ request_for flags message ∷ [])) refl

  send_parts-IsSafe :
      (total index : ℕ) (ms : List WireguardMessage) (sent : List NetlinkMessage)
      → IsSafe (send_parts kernel total index ms sent).0
  unfolding send_parts request
  send_parts-IsSafe total index [] sent = tt
  send_parts-IsSafe total index (m ∷ ms) sent =
      let safe = request-IsSafe set_flags m sent in
      let later = send_parts-IsSafe total (suc index) ms (request kernel set_flags m sent).1 in
      elim (Result-cases (request kernel set_flags m sent).0) [
        | inr (e, failed) ↦ rw failed (rw failed at safe)
        | inl (stream, replied_to) ↦ elim (Option-cases (first_error stream)) [
          | inl fine ↦ rw (replied_to, fine, send_parts) later
          | inr (e, reported) ↦
              rw (replied_to, reported, send_parts) (part_error-IsSafe total index e)
        ]
      ]

  set-IsSafe :
      (parsed : WireguardParsed) (sent : List NetlinkMessage) → IsSafe (set kernel parsed sent).0
  unfolding set
  set-IsSafe parsed sent =
      let safe = build_messages-IsSafe parsed WireguardCmd.set_device in
      elim (Result-cases (build_messages parsed WireguardCmd.set_device)) [
        | inr (e, failed) ↦ rw (failed, set) (rw failed at safe)
        | inl (ms, built) ↦ rw (built, set) (send_parts-IsSafe (length ms) 0 ms sent)
      ]

  dump-IsSafe :
      (msg : WireguardMessage) (msgs : List WireguardMessage) → IsSafe (parse_dump kernel msg msgs)
  unfolding parse_dump error_new
  dump-IsSafe msg [] = redacted-IsSafe (some (netlink_message msg))
  dump-IsSafe msg (m ∷ msgs) = tt

  stream-IsSafe :
      (flags : ℕ) (message : WireguardMessage) (sent : List NetlinkMessage) (o : Outcome)
      → kernel (sent ++ request_for flags message ∷ []) ≡ o
      → (stream : List (Result WireguardMessage))
      → (request kernel flags message sent).0 ≡ ok stream
      → All IsSafe stream
  unfolding request
  stream-IsSafe flags message sent (refused e) h stream made = cc ((rw (h, request) at made))
  stream-IsSafe flags message sent (replied replies) h stream made =
      let same : parse_nl_msg_stream (request_for flags message) replies ≡ stream =
        cc ((rw (h, request) at made)) in
      rw (← same) (parse_nl_msg_stream_lem (request_for flags message) replies).0

  -- The flags of a dump request.
  abbrev dump_flags : ℕ
  dump_flags = bit_or (bit_or c.nlm_f_request c.nlm_f_ack) c.nlm_f_dump

  replies-IsSafe :
      (msg : WireguardMessage) (sent : List NetlinkMessage)
      → IsSafe (
          (request kernel dump_flags msg sent).0 >>= λ stream.
          collect_ok stream >>= λ msgs. parse_dump kernel msg msgs)
  replies-IsSafe msg sent =
      let safe = request-IsSafe dump_flags msg sent in
      elim (Result-cases (request kernel dump_flags msg sent).0) [
        | inr (e, failed) ↦ rw failed (rw failed at safe)
        | inl (stream, made) ↦
            let all = stream-IsSafe dump_flags msg sent _ refl stream made in
            rw made (
              bind-IsSafe (collect_ok stream) (parse_dump kernel msg) (collect_ok-IsSafe stream all)
                (dump-IsSafe msg))
      ]

  get_when :
      (name : String) (sent : List NetlinkMessage) (o : Option (Result WireguardMessage))
      → build (record default_device { iface_name = some name }) WireguardCmd.get_device ≡ o
      → SafeOption o
      → SafeOption (get_by_name kernel name sent).0
  unfolding get_by_name
  get_when name sent none h safe = rw (h, get_by_name) tt
  get_when name sent (some (err e)) h safe = rw (h, get_by_name) safe
  get_when name sent (some (ok msg)) h safe = rw (h, get_by_name) (replies-IsSafe msg sent)

  get_by_name-IsSafe :
      (name : String) (sent : List NetlinkMessage) → SafeOption (get_by_name kernel name sent).0
  unfolding build
  get_by_name-IsSafe name sent = get_when name sent _ refl (
      single-IsSafe
        (build_messages (record default_device { iface_name = some name }) WireguardCmd.get_device)
        (build_messages-IsSafe _ WireguardCmd.get_device))

  -- Whatever the kernel replies, an error that `set`, `remove_peer` or `get_by_name` returns keeps
  -- no message with a private or preshared key other than zeros, no copy of a
  -- request that the kernel sent back, and no bytes of an overrun.
  pub handle-IsSafe :
      (parsed : WireguardParsed) (iface_name public_key : String) (sent : List NetlinkMessage)
      → IsSafe (set kernel parsed sent).0
        × IsSafe (remove_peer kernel iface_name public_key sent).0
        × SafeOption (get_by_name kernel iface_name sent).0
  unfolding remove_peer
  handle-IsSafe parsed iface_name public_key sent =
      (set-IsSafe parsed sent, set-IsSafe _ sent, get_by_name-IsSafe iface_name sent)
