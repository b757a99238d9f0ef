-- ===== src/Split/Batch.antt =====
-- `take_allowed_ips_batch` of src/parsed.rs: what a batch is and what it leaves.
use nl_wireguard.Base.{
  ℕ, suc, ◌+◌, ◌≤◌, ◌<◌, ◌≡◌, refl, ap, Bool, true, false, ◌⊎◌, inl, inr, List, [], ◌∷◌, ◌++◌,
  if◌then◌else◌, ltb, length, sum_by, take, drop, arith, take-append-drop, Bool-cases, ltb→lt,
  ltb→le, lt→ltb,
}
use native.Mathlib.Nat.{add_assoc}
use nl_wireguard.Packet.{WireguardAllowedIp}
use nl_wireguard.Crates.{Crates}
use nl_wireguard.Split.{max_nla_value_len, batch_count, take_allowed_ips_batch}

module _ ⦃c : Crates⦄ where
  -- The number of allowed IPs that still fit behind `len` bytes, one at least if `must` says so.
  fitting : Bool → ℕ → List WireguardAllowedIp → ℕ
  fitting must len [] = 0
  fitting true len (ip ∷ ips) = suc (fitting false (len + c.ip_buffer_len ip) ips)
  fitting false len (ip ∷ ips) =
      if ltb max_nla_value_len (len + c.ip_buffer_len ip)
      then 0
      else suc (fitting false (len + c.ip_buffer_len ip) ips)

  count_later :
      (len count : ℕ) (ips : List WireguardAllowedIp)
      → 0 < count
      → batch_count len count ips ≡ count + fitting false len ips
  unfolding batch_count fitting
  count_later len count [] h = omega arith
  count_later len count (ip ∷ ips) h =
      ground (arith, count_later (len + c.ip_buffer_len ip) (count + 1) ips)

  count_first :
      (len : ℕ) (ips : List WireguardAllowedIp) → batch_count len 0 ips ≡ fitting true len ips
  unfolding batch_count fitting
  count_first len [] = refl
  count_first len (ip ∷ ips) = ground (arith, count_later (len + c.ip_buffer_len ip) (0 + 1) ips)

  -- What was taken fits, if what is there already does.
  fitting_bound :
      (len : ℕ) (ips : List WireguardAllowedIp)
      → len ≤ max_nla_value_len
      → len + sum_by c.ip_buffer_len (take (fitting false len ips) ips) ≤ max_nla_value_len
  unfolding fitting
  fitting_bound len [] h = omega arith
  fitting_bound len (ip ∷ ips) h =
      elim (Bool-cases (ltb max_nla_value_len (len + c.ip_buffer_len ip))) [
        | inl over ↦ rw over (omega arith)
        | inr fits ↦
            rw fits (omega (arith, fitting_bound (len + c.ip_buffer_len ip) ips (ltb→le _ _ fits)))
      ]

  -- Nothing more fits behind too many bytes.
  fitting_none :
      (len : ℕ) (ips : List WireguardAllowedIp)
      → max_nla_value_len < len
      → fitting false len ips ≡ 0
  unfolding fitting
  fitting_none len [] h = refl
  fitting_none len (ip ∷ ips) h =
      rw (lt→ltb max_nla_value_len (len + c.ip_buffer_len ip) (omega arith)) refl

  -- The next allowed IP, if there is one, does not fit behind `len` bytes.
  abbrev pub Stops : ℕ → List WireguardAllowedIp → Type 0
  Stops len [] = Unit
  Stops len (ip ∷ ips) = max_nla_value_len < len + c.ip_buffer_len ip

  fitting-Stops :
      (len : ℕ) (ips : List WireguardAllowedIp)
      → Stops
          (len + sum_by c.ip_buffer_len (take (fitting false len ips) ips))
          (drop (fitting false len ips) ips)
  unfolding fitting
  fitting-Stops len [] = tt
  fitting-Stops len (ip ∷ ips) =
      elim (Bool-cases (ltb max_nla_value_len (len + c.ip_buffer_len ip))) [
        | inl over ↦ let h = ltb→lt _ _ over in rw over (omega arith)
        | inr fits ↦ rw fits (
            rw (← add_assoc len (c.ip_buffer_len ip) _)
              (fitting-Stops (len + c.ip_buffer_len ip) ips))
      ]

  -- What a batch of `ips` behind `prefix_len` bytes is, and what it leaves.
  pub record IsBatch (prefix_len : ℕ) (ips batch rest : List WireguardAllowedIp) : Type 0 where
    pub whole : batch ++ rest ≡ ips
    pub some_taken : 1 ≤ length batch
    pub fits :
        (length batch ≡ 1)
        ⊎ (prefix_len + c.nla_header_size + sum_by c.ip_buffer_len batch ≤ max_nla_value_len)
    pub stops : Stops (prefix_len + c.nla_header_size + sum_by c.ip_buffer_len batch) rest

  fits_or_single :
      (len : ℕ) (ips : List WireguardAllowedIp)
      → (length (take (fitting false len ips) ips) ≡ 0)
        ⊎ (len + sum_by c.ip_buffer_len (take (fitting false len ips) ips) ≤ max_nla_value_len)
  fits_or_single len ips = elim (Bool-cases (ltb max_nla_value_len len)) [
    | inl over ↦ inl (rw (fitting_none len ips (ltb→lt _ _ over)) refl)
    | inr fits ↦ inr (fitting_bound len ips (ltb→le _ _ fits))
  ]

  -- A batch taken from a list that is not empty is not empty, is a prefix of the list whose rest
  -- is left, stays within the limit of one attribute unless it is a single address, and is as
  -- long as it can be: the next address would pass the limit.
  pub take_allowed_ips_batch_lem :
      (ip : WireguardAllowedIp) (ips : List WireguardAllowedIp) (prefix_len : ℕ)
      → let (batch, rest) = take_allowed_ips_batch (ip ∷ ips) prefix_len in
        IsBatch prefix_len (ip ∷ ips) batch rest
  unfolding take_allowed_ips_batch fitting
  take_allowed_ips_batch_lem ip ips prefix_len =
      let len = prefix_len + c.nla_header_size in
      let n = fitting false (len + c.ip_buffer_len ip) ips in
      rw (count_first len (ip ∷ ips)) (record {
        whole = take-append-drop (suc n) (ip ∷ ips);
        some_taken = omega arith;
        fits = elim (fits_or_single (len + c.ip_buffer_len ip) ips) [
          | inl single ↦ inl (ap suc single)
          | inr fits ↦ inr (omega arith)
        ];
        stops =
            rw (← add_assoc len (c.ip_buffer_len ip) _)
              (fitting-Stops (len + c.ip_buffer_len ip) ips);
      })
