-- ===== src/Handle/Sending.antt =====
-- The order in which `set` sends the parts of a configuration, and where it stops.
use nl_wireguard.Base.{
  ℕ, suc, ◌≡◌, refl, sym, ◌⊎◌, ◌↔◌, inl, inr, Option-cases, List, [], ◌∷◌, ◌++◌, map, append-nil,
  append_assoc, length,
}
use mathlib.Core.Path.{subst}
use nl_wireguard.Packet.{WireguardCmd, WireguardMessage, NetlinkMessage}
use nl_wireguard.Crates.{Crates}
use nl_wireguard.Error.{Result, ok}
use nl_wireguard.Device.{WireguardParsed}
use nl_wireguard.Messages.{build_messages}
use nl_wireguard.Handle.{Kernel, first_error, parse_nl_msg_stream, send_parts, set}
use nl_wireguard.Handle.Steps.{
  IsAccepted, Outcome-cases, Accepted, Completed, Stopped, request_of, step_refused, step_failed,
  step_accepted, kernel-IsAccepted, completes, stops_later,
}

module _ ⦃c : Crates⦄ (kernel : Kernel) where
  pub send_parts_lem :
      (total index : ℕ) (ms : List WireguardMessage) (sent : List NetlinkMessage)
      → Completed kernel sent ms (send_parts kernel total index ms sent)
        ⊎ Stopped kernel total index sent ms (send_parts kernel total index ms sent)
  send_parts_lem total index [] sent =
      inl (
        unfold send_parts in
        record { success = refl; accepted = tt; trace = sym (append-nil sent) })
  send_parts_lem total index (m ∷ ms) sent =
      let later = send_parts_lem total (suc index) ms (sent ++ request_of kernel m ∷ []) in
      elim (Outcome-cases (kernel (sent ++ request_of kernel m ∷ []))) [
        | inl (e, h) ↦ inr (step_refused kernel total index m ms sent e h)
        | inr (replies, h) ↦
            elim (Option-cases (first_error (parse_nl_msg_stream (request_of kernel m) replies))) [
              | inr (e, f) ↦ inr (step_failed kernel total index m ms sent replies e h f)
              | inl f ↦
                  let a = kernel-IsAccepted kernel total index m ms sent replies h f in
                  rw (step_accepted kernel total index m ms sent replies h f) (elim later [
                    | inl all_sent ↦ inl (completes kernel total index m ms sent _ a all_sent)
                    | inr stopped ↦ inr (stops_later kernel total index m ms sent _ a stopped)
                  ])
            ]
      ]

  -- `set` on a configuration that can be built either sends all messages of the configuration, in
  -- their order, and succeeds since the kernel accepted each one; or it fails with the messages
  -- in front of one accepted, that one sent and not accepted, and no later one sent. A message is
  -- accepted if the request succeeds and no reply reports a failure. The error is that of the
  -- request that could not be sent, or the first error among the replies, which names the number of
  -- the part if there are several.
  pub set_lem :
      (parsed : WireguardParsed) (sent : List NetlinkMessage) (ms : List WireguardMessage)
      → build_messages parsed WireguardCmd.set_device ≡ ok ms
      → Completed kernel sent ms (set kernel parsed sent)
        ⊎ Stopped kernel (length ms) 0 sent ms (set kernel parsed sent)
  unfolding set
  set_lem parsed sent ms h = rw (h, set) (send_parts_lem (length ms) 0 ms sent)

  -- If the messages are accepted one after the other, so is each of them.
  part-IsAccepted :
      (sent : List NetlinkMessage) (before : List WireguardMessage) (m : WireguardMessage)
      (after : List WireguardMessage)
      → Accepted kernel sent (before ++ m ∷ after)
      → IsAccepted (kernel (sent ++ map (request_of kernel) (before ++ m ∷ [])))
  part-IsAccepted sent [] m after h = h.0
  part-IsAccepted sent (x ∷ before) m after h =
      subst (λ (xs : List NetlinkMessage). IsAccepted (kernel xs))
        (append_assoc sent (request_of kernel x ∷ []) (map (request_of kernel) (before ++ m ∷ [])))
        (part-IsAccepted (sent ++ request_of kernel x ∷ []) before m after h.1)

  succeeds :
      (total index : ℕ) (ms : List WireguardMessage) (sent : List NetlinkMessage)
      (r : Result (Unit {0}) × List NetlinkMessage)
      → Completed kernel sent ms r ⊎ Stopped kernel total index sent ms r
      → (r.0 ≡ ok tt) ↔ Accepted kernel sent ms
  succeeds total index ms sent r (inl c) = (λ _. c.accepted, λ _. c.success)
  succeeds total index ms sent r (inr s) = (
    λ success. cc (success, s.failure),
    λ all. absurd (
        s.rejected (
          part-IsAccepted sent s.before s.failed s.after
            (subst (Accepted kernel sent) s.parts all))),
  )

  -- `set` on a configuration that can be built succeeds exactly if the kernel accepts each message
  -- of the configuration, sent one after the other: it never gives up on messages that the kernel
  -- would take, and never reports a success that the kernel refused.
  pub set_iff :
      (parsed : WireguardParsed) (sent : List NetlinkMessage) (ms : List WireguardMessage)
      → build_messages parsed WireguardCmd.set_device ≡ ok ms
      → ((set kernel parsed sent).0 ≡ ok tt) ↔ Accepted kernel sent ms
  set_iff parsed sent ms h =
      succeeds (length ms) 0 ms sent (set kernel parsed sent) (set_lem parsed sent ms h)
