-- ===== src/Samples/Keyed.antt =====
-- A stand-in for the other crates in which three given texts are keys: the sample encoding, with
-- each of the texts exchanged for what it gives some key.
use nl_wireguard.Base.{◌≡◌, refl, ap, sym, ◌∙◌, Bool-cases, inl, inr, String, if◌then◌else◌}
use nl_wireguard.Base.Text.{str_eq, eq_iff}
use nl_wireguard.Packet.{Bytes}
use nl_wireguard.Crates.{Decoded, decoded}
use nl_wireguard.Samples.Encoding.{encode, decode, decode-encode, encode-decode}

-- The two texts are exchanged.
swap : String → String → String → String
swap a b s = if str_eq s a then b else if str_eq s b then a else s

swap_twice : (a b s : String) → swap a b (swap a b s) ≡ s
unfolding swap
swap_twice a b s = elim (Bool-cases (str_eq s a)) [
  | inl is_a ↦
      let same : s ≡ a = (eq_iff s a).0 is_a in
      elim (Bool-cases (str_eq b a)) [
        | inl equal ↦ let both : b ≡ a = (eq_iff b a).0 equal in rw (is_a, equal) (both ∙ sym same)
        | inr other ↦ rw (is_a, other, (eq_iff b b).1 refl) (sym same)
      ]
  | inr not_a ↦ elim (Bool-cases (str_eq s b)) [
    | inl is_b ↦
        let same : s ≡ b = (eq_iff s b).0 is_b in rw (not_a, is_b, (eq_iff a a).1 refl) (sym same)
    | inr not_b ↦ rw (not_a, not_b, not_a, not_b) refl
  ]
]

-- Each text with the key that it is to stand for.
module _ (first second third : String) (k1 k2 k3 : Bytes) where
  unfoldable pub there : String → String
  unfolding swap
  there s = swap first (encode k1) (swap second (encode k2) (swap third (encode k3) s))

  back : String → String
  back s = swap third (encode k3) (swap second (encode k2) (swap first (encode k1) s))

  there-back : (s : String) → there (back s) ≡ s
  unfolding there back
  there-back s =
      ap (λ t. swap first (encode k1) (swap second (encode k2) t))
        (swap_twice third (encode k3) (swap second (encode k2) (swap first (encode k1) s)))
      ∙ (ap (swap first (encode k1)) (swap_twice second (encode k2) (swap first (encode k1) s))
          ∙ swap_twice first (encode k1) s)

  back-there : (s : String) → back (there s) ≡ s
  unfolding there back
  back-there s =
      ap (λ t. swap third (encode k3) (swap second (encode k2) t))
        (swap_twice first (encode k1) (swap second (encode k2) (swap third (encode k3) s)))
      ∙ (ap (swap third (encode k3)) (swap_twice second (encode k2) (swap third (encode k3) s))
          ∙ swap_twice third (encode k3) s)

  pub keyed_encode : Bytes → String
  unfolding back
  keyed_encode bytes = back (encode bytes)

  pub keyed_decode : String → Decoded
  unfolding there
  keyed_decode s = decode (there s)

  pub keyed_decode-keyed_encode :
      (bytes : Bytes) → keyed_decode (keyed_encode bytes) ≡ decoded bytes
  unfolding keyed_decode keyed_encode
  keyed_decode-keyed_encode bytes = ap decode (there-back (encode bytes)) ∙ decode-encode bytes

  pub keyed_encode-keyed_decode :
      (s : String) (bytes : Bytes) → keyed_decode s ≡ decoded bytes → keyed_encode bytes ≡ s
  unfolding keyed_decode keyed_encode
  keyed_encode-keyed_decode s bytes h = ap back (encode-decode (there s) bytes h) ∙ back-there s

  pub keyed_decode_of :
      (s : String) (bytes : Bytes) → there s ≡ encode bytes → keyed_decode s ≡ decoded bytes
  unfolding keyed_decode
  keyed_decode_of s bytes h = ap decode h ∙ decode-encode bytes
