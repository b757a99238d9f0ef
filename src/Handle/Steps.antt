-- ===== src/Handle/Steps.antt =====
-- One round of the loop of `set` in src/handle.rs, and what it adds to the rounds after it.
use nl_wireguard.Base.{
  ℕ, suc, ◌≡◌, refl, ap, sym, ◌∙◌, ◌⊎◌, ◌+◌, inl, inr, none, some, List, String, [], ◌∷◌, ◌++◌, map,
  arith, append_assoc, length,
}
use mathlib.Core.Path.{subst}
use nl_wireguard.Packet.{WireguardMessage, NetlinkMessage}
use nl_wireguard.Base.Text.{◌+++◌}
use nl_wireguard.Crates.{Crates}
use nl_wireguard.Error.{ErrorKind, error_new, WireguardError, Result, ok, err}
use nl_wireguard.Handle.{
  Reply, Outcome, refused, replied, Kernel, first_error, request, request_for, set_flags,
  parse_nl_msg_stream, send_parts, part_error,
}
use nl_wireguard.Handle.Stream.{error_count, failure_count, parse_nl_msg_stream_lem}

-- The kernel took the request and reported no failure.
abbrev pub IsAccepted : Outcome → Type 0
IsAccepted (refused e) = ⊥
IsAccepted (replied replies) = failure_count replies ≡ 0

pub no_error : (rs : List (Result WireguardMessage)) → first_error rs ≡ none → error_count rs ≡ 0
unfolding first_error
no_error [] h = refl
no_error (ok m ∷ rs) h = no_error rs h
no_error (err e ∷ rs) h = cc h

pub some_error :
    (rs : List (Result WireguardMessage)) (e : WireguardError)
    → first_error rs ≡ some e
    → ¬ (error_count rs ≡ 0)
unfolding first_error
some_error [] e h = cc h
some_error (ok m ∷ rs) e h = some_error rs e h
some_error (err e' ∷ rs) e h = λ z. absurd (omega arith)

pub Outcome-cases :
    (o : Outcome)
    → ((e : String) × (o ≡ refused e)) ⊎ ((replies : List Reply) × (o ≡ replied replies))
Outcome-cases (refused e) = inl (e, refl)
Outcome-cases (replied replies) = inr (replies, refl)

module _ ⦃c : Crates⦄ (kernel : Kernel) where
  abbrev pub request_of : WireguardMessage → NetlinkMessage
  request_of = request_for set_flags

  -- The kernel accepts these messages, one after the other, after the requests `sent`.
  abbrev pub Accepted : List NetlinkMessage → List WireguardMessage → Type 0
  Accepted sent [] = Unit
  Accepted sent (m ∷ ms) =
      IsAccepted (kernel (sent ++ request_of m ∷ [])) × Accepted (sent ++ request_of m ∷ []) ms

  -- The error that `set` returns for this outcome of the part with the number `part`.
  abbrev pub Reports : (total part : ℕ) → NetlinkMessage → WireguardError → Outcome → Type 0
  Reports total part nl_msg error (refused e) =
      error ≡ error_new ErrorKind.netlink_error ("Netlink request failed: " +++ e) (some nl_msg)
  Reports total part nl_msg error (replied replies) =
      (e : WireguardError) × (first_error (parse_nl_msg_stream nl_msg replies) ≡ some e)
      × (error ≡ part_error total part e)

  -- All parts were sent in their order and accepted.
  pub record Completed (sent : List NetlinkMessage) (ms : List WireguardMessage)
      (result : Result (Unit {0}) × List NetlinkMessage) : Type 0 where
    pub success : result.0 ≡ ok tt
    pub accepted : Accepted sent ms
    pub trace : result.1 ≡ sent ++ map request_of ms

  -- One part was not accepted: those in front of it were, and none behind it was sent.
  pub record Stopped (total index : ℕ) (sent : List NetlinkMessage) (ms : List WireguardMessage)
      (result : Result (Unit {0}) × List NetlinkMessage) : Type 0 where
    pub error : WireguardError
    pub failure : result.0 ≡ err error
    pub before : List WireguardMessage
    pub failed : WireguardMessage
    pub after : List WireguardMessage
    pub parts : ms ≡ before ++ failed ∷ after
    pub accepted : Accepted sent before
    pub trace : result.1 ≡ sent ++ map request_of (before ++ failed ∷ [])
    pub rejected : ¬ IsAccepted (kernel (sent ++ map request_of (before ++ failed ∷ [])))
    pub reason :
        Reports total
          (index + length before)
          (request_of failed)
          error
          (kernel (sent ++ map request_of (before ++ failed ∷ [])))

  module _ (total index : ℕ) (m : WireguardMessage) (ms : List WireguardMessage)
      (sent : List NetlinkMessage) where
    pub step_refused :
        (e : String)
        → kernel (sent ++ request_of m ∷ []) ≡ refused e
        → Stopped total index sent (m ∷ ms) (send_parts kernel total index (m ∷ ms) sent)
    unfolding send_parts request
    step_refused e h = record {
      error =
          error_new ErrorKind.netlink_error ("Netlink request failed: " +++ e)
            (some (request_of m));
      failure = rw h refl;
      before = [];
      failed = m;
      after = ms;
      parts = refl;
      accepted = tt;
      trace = rw h refl;
      rejected = rw h (λ x. x);
      reason = rw h refl;
    }

    pub step_failed :
        (replies : List Reply) (e : WireguardError)
        → kernel (sent ++ request_of m ∷ []) ≡ replied replies
        → first_error (parse_nl_msg_stream (request_of m) replies) ≡ some e
        → Stopped total index sent (m ∷ ms) (send_parts kernel total index (m ∷ ms) sent)
    unfolding send_parts request
    step_failed replies e h f = record {
      error = part_error total index e;
      failure = rw (h, f) refl;
      before = [];
      failed = m;
      after = ms;
      parts = refl;
      accepted = tt;
      trace = rw (h, f) refl;
      rejected = rw h (λ z.
          some_error (parse_nl_msg_stream (request_of m) replies) e f
            ((parse_nl_msg_stream_lem (request_of m) replies).2 ∙ z));
      reason = rw h (e, f, ap (λ (i : ℕ). part_error total i e) (omega arith));
    }

    pub step_accepted :
        (replies : List Reply)
        → kernel (sent ++ request_of m ∷ []) ≡ replied replies
        → first_error (parse_nl_msg_stream (request_of m) replies) ≡ none
        → send_parts kernel total index (m ∷ ms) sent
          ≡ send_parts kernel total (suc index) ms (sent ++ request_of m ∷ [])
    unfolding send_parts request
    step_accepted replies h f = rw (h, f) refl

    pub kernel-IsAccepted :
        (replies : List Reply)
        → kernel (sent ++ request_of m ∷ []) ≡ replied replies
        → first_error (parse_nl_msg_stream (request_of m) replies) ≡ none
        → IsAccepted (kernel (sent ++ request_of m ∷ []))
    kernel-IsAccepted replies h f = rw h (
        sym (parse_nl_msg_stream_lem (request_of m) replies).2
        ∙ no_error (parse_nl_msg_stream (request_of m) replies) f)

    -- One more accepted part in front.
    pub completes :
        (r : Result (Unit {0}) × List NetlinkMessage)
        → IsAccepted (kernel (sent ++ request_of m ∷ []))
        → Completed (sent ++ request_of m ∷ []) ms r
        → Completed sent (m ∷ ms) r
    completes r a h = record {
      success = h.success;
      accepted = (a, h.accepted);
      trace = h.trace ∙ append_assoc sent (request_of m ∷ []) (map request_of ms);
    }

    pub stops_later :
        (r : Result (Unit {0}) × List NetlinkMessage)
        → IsAccepted (kernel (sent ++ request_of m ∷ []))
        → Stopped total (suc index) (sent ++ request_of m ∷ []) ms r
        → Stopped total index sent (m ∷ ms) r
    stops_later r a h =
        let assoc =
          append_assoc sent (request_of m ∷ []) (map request_of (h.before ++ h.failed ∷ [])) in
        record {
          error = h.error;
          failure = h.failure;
          before = m ∷ h.before;
          failed = h.failed;
          after = h.after;
          parts = ap (λ xs. m ∷ xs) h.parts;
          accepted = (a, h.accepted);
          trace = h.trace ∙ assoc;
          rejected =
              subst (λ (xs : List NetlinkMessage). ¬ IsAccepted (kernel xs)) assoc h.rejected;
          reason =
              subst
                (λ (i : ℕ).
                  Reports total i (request_of h.failed) h.error
                    (kernel (sent ++ map request_of (m ∷ (h.before ++ h.failed ∷ [])))))
                (omega arith)
                (subst
                  (λ (xs : List NetlinkMessage).
                    Reports total (suc index + length h.before) (request_of h.failed) h.error
                      (kernel xs))
                  assoc h.reason);
        }
