-- ===== src/Split/While.antt =====
-- The `while` loop of `peer_chunks` in src/parsed.rs as a relation between its states.
use nl_wireguard.Base.{
  ℕ, zero, suc, ◌+◌, ◌≤◌, ◌<◌, ◌≡◌, ◌↔◌, refl, ap, sym, ◌∙◌, List, [], ◌∷◌, ◌++◌, length, arith,
  append-nil, append_assoc,
}
use nl_wireguard.Packet.{WireguardAllowedIp, WireguardPeerAttribute, WireguardPeer}
use nl_wireguard.Crates.{Crates}
use nl_wireguard.Split.{take_allowed_ips_batch, continuation_chunks}
use nl_wireguard.Split.Batch.{take_allowed_ips_batch_lem}
use nl_wireguard.Split.Chunks.{shorter}

module _ ⦃c : Crates⦄ (key_attr : WireguardPeerAttribute) where
  -- `continuation_len`
  abbrev pub continuation_len : ℕ
  continuation_len = c.nla_header_size + c.attr_buffer_len key_attr

  -- The batch of one round, and the allowed IPs left.
  abbrev pub taken : List WireguardAllowedIp → List WireguardAllowedIp × List WireguardAllowedIp
  taken ips = take_allowed_ips_batch ips continuation_len

  -- The loop runs from these allowed IPs and chunks for a number of rounds and ends with the last
  -- chunks.
  pub data Runs
      : List WireguardAllowedIp → List WireguardPeer → ℕ → List WireguardPeer → Type 0 where
    exit : (chunks last : List WireguardPeer) → last ≡ chunks → Runs [] chunks zero last
    round :
        (ip : WireguardAllowedIp) (ips : List WireguardAllowedIp) (chunks : List WireguardPeer)
        (n : ℕ) (last : List WireguardPeer)
        → Runs
            (taken (ip ∷ ips)).1
            (chunks
              ++ (key_attr ∷ WireguardPeerAttribute.allowed_ips (taken (ip ∷ ips)).0 ∷ []) ∷ [])
            n
            last
        → Runs (ip ∷ ips) chunks (suc n) last

  less_left :
      (ip : WireguardAllowedIp) (ips : List WireguardAllowedIp)
      → length (taken (ip ∷ ips)).1 < length (ip ∷ ips)
  less_left ip ips =
      shorter continuation_len (ip ∷ ips) (taken (ip ∷ ips)).0 (taken (ip ∷ ips)).1
        (take_allowed_ips_batch_lem ip ips continuation_len)

  -- More fuel than allowed IPs changes nothing.
  fuel_enough :
      (f g : ℕ) (ips : List WireguardAllowedIp)
      → length ips ≤ f
      → length ips ≤ g
      → continuation_chunks f key_attr ips ≡ continuation_chunks g key_attr ips
  unfolding continuation_chunks
  fuel_enough zero zero ips h k = refl
  fuel_enough zero (suc g) [] h k = refl
  fuel_enough zero (suc g) (ip ∷ ips) h k = absurd (omega arith)
  fuel_enough (suc f) zero [] h k = refl
  fuel_enough (suc f) zero (ip ∷ ips) h k = absurd (omega arith)
  fuel_enough (suc f) (suc g) [] h k = refl
  fuel_enough (suc f) (suc g) (ip ∷ ips) h k =
      let less = less_left ip ips in
      ap (λ more. (key_attr ∷ WireguardPeerAttribute.allowed_ips (taken (ip ∷ ips)).0 ∷ []) ∷ more)
        (fuel_enough f g (taken (ip ∷ ips)).1 (omega arith) (omega arith))

  abbrev pub all_continuations : List WireguardAllowedIp → List WireguardPeer
  all_continuations ips = continuation_chunks (length ips) key_attr ips

  -- One round, in terms of what the rest of the loop adds.
  one_round :
      (ip : WireguardAllowedIp) (ips : List WireguardAllowedIp)
      → all_continuations (ip ∷ ips)
        ≡ (key_attr ∷ WireguardPeerAttribute.allowed_ips (taken (ip ∷ ips)).0 ∷ [])
          ∷ all_continuations (taken (ip ∷ ips)).1
  unfolding continuation_chunks
  one_round ip ips =
      let less = less_left ip ips in
      ap (λ more. (key_attr ∷ WireguardPeerAttribute.allowed_ips (taken (ip ∷ ips)).0 ∷ []) ∷ more)
        (fuel_enough (length ips) (length (taken (ip ∷ ips)).1) (taken (ip ∷ ips)).1 (omega arith)
          (omega arith))

  abbrev pub Ended : List WireguardAllowedIp → List WireguardPeer → ℕ → List WireguardPeer → Type 0
  Ended ips chunks n last =
      (last ≡ chunks ++ all_continuations ips) × (n ≡ length (all_continuations ips))

  ends :
      {ips : List WireguardAllowedIp} {chunks : List WireguardPeer} {n : ℕ}
      {last : List WireguardPeer}
      → Runs ips chunks n last
      → Ended ips chunks n last
  unfolding continuation_chunks
  ends (exit chunks last same) = (same ∙ sym (append-nil chunks), refl)
  ends (round ip ips chunks n last run) =
      let (done, count) = ends run in
      (
        done ∙ (append_assoc chunks _ _ ∙ ap (λ more. chunks ++ more) (sym (one_round ip ips))),
        ap suc count ∙ ap length (sym (one_round ip ips)),
      )

  count_le :
      (f : ℕ) (ips : List WireguardAllowedIp) → length (continuation_chunks f key_attr ips) ≤ f
  unfolding continuation_chunks
  count_le zero ips = omega arith
  count_le (suc f) [] = omega arith
  count_le (suc f) (ip ∷ ips) = omega (arith, count_le f (taken (ip ∷ ips)).1)

  runs :
      (f : ℕ) (ips : List WireguardAllowedIp) (chunks : List WireguardPeer)
      → length ips ≤ f
      → Runs ips chunks
          (length (continuation_chunks f key_attr ips))
          (chunks ++ continuation_chunks f key_attr ips)
  unfolding continuation_chunks
  runs zero [] chunks h = exit chunks _ (append-nil chunks)
  runs zero (ip ∷ ips) chunks h = absurd (omega arith)
  runs (suc f) [] chunks h = exit chunks _ (append-nil chunks)
  runs (suc f) (ip ∷ ips) chunks h =
      let less = less_left ip ips in
      round ip ips chunks _ _ (
        rw
          (← append_assoc chunks
            ((key_attr ∷ WireguardPeerAttribute.allowed_ips (taken (ip ∷ ips)).0 ∷ []) ∷ [])
            (continuation_chunks f key_attr (taken (ip ∷ ips)).1))
          (runs f (taken (ip ∷ ips)).1 _ (omega arith)))

  -- The `while` loop of `peer_chunks` ends from every state, and with one result: it runs from any
  -- allowed IPs and chunks for `n` rounds to `last` exactly if `last` is these chunks followed by
  -- those of `continuation_chunks`, on as much fuel as there are allowed IPs, and `n` is how many
  -- these are, which is never more than there are allowed IPs.
  pub while_lem :
      (ips : List WireguardAllowedIp) (chunks : List WireguardPeer) (n : ℕ)
      (last : List WireguardPeer)
      → (Runs ips chunks n last ↔ Ended ips chunks n last)
        × (length (all_continuations ips) ≤ length ips)
  while_lem ips chunks n last = (
    (ends, λ (done, count). rw (done, count) (runs (length ips) ips chunks (omega arith))),
    count_le (length ips) ips,
  )
