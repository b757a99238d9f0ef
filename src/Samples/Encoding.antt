-- ===== src/Samples/Encoding.antt =====
-- A text encoding of byte strings: each byte in unary.
use Prim.Native.Char.{Char, code}
use text.Mathlib.TextEquality.{Char-path}
use nl_wireguard.Base.{
  ℕ, zero, suc, ◌+◌, ◌≡◌, refl, ap, ◌∙◌, sym, String, [], ◌∷◌, ◌==◌, ==→eq, if◌then◌else◌, arith,
  inl, inr, Bool-cases,
}
use nl_wireguard.Packet.{Bytes}
use nl_wireguard.Crates.{Decoded, decoded, invalid}

tick : Char
tick = "a"

end : Char
end = "b"

-- `n` ticks and an end mark, in front of `s`
marks : ℕ → String → String
marks zero s = String.◌∷◌ end s
marks (suc n) s = String.◌∷◌ tick (marks n s)

unfoldable pub encode : Bytes → String
unfolding marks tick end
encode [] = ""
encode (n ∷ bytes) = marks n (encode bytes)

prepend : ℕ → Decoded → Decoded
prepend n (decoded bytes) = decoded (n ∷ bytes)
prepend n (invalid e) = invalid e

-- `n` ticks have been read.
decode_from : ℕ → String → Decoded
unfolding prepend
decode_from n String.[] = if n == 0 then decoded [] else invalid "truncated"
decode_from n (String.◌∷◌ ch s) =
    let further = decode_from (suc n) s in
    let next = prepend n (decode_from 0 s) in
    if code ch == 97 then further else if code ch == 98 then next else invalid "no such symbol"

unfoldable pub decode : String → Decoded
unfolding decode_from
decode = decode_from 0

decode_marks :
    (k n : ℕ) (s : String) → decode_from k (marks n s) ≡ prepend (k + n) (decode_from 0 s)
unfolding decode_from marks tick end
decode_marks k zero s = ap (λ (m : ℕ). prepend m (decode_from 0 s)) (omega arith)
decode_marks k (suc n) s =
    decode_marks (suc k) n s ∙ ap (λ (m : ℕ). prepend m (decode_from 0 s)) (omega arith)

pub decode-encode : (bytes : Bytes) → decode (encode bytes) ≡ decoded bytes
unfolding decode encode
decode-encode [] = refl
decode-encode (n ∷ bytes) =
    decode_marks 0 n (encode bytes)
    ∙ (ap (prepend (0 + n)) (decode-encode bytes)
        ∙ ap (λ (m : ℕ). decoded (m ∷ bytes)) (omega arith))

-- `n` ticks in front of `s`
ticks : ℕ → String → String
ticks zero s = s
ticks (suc n) s = ticks n (String.◌∷◌ tick s)

ticks-marks : (n m : ℕ) (s : String) → ticks n (marks m s) ≡ marks (n + m) s
unfolding ticks marks
ticks-marks zero m s = ap (λ (k : ℕ). marks k s) (omega arith)
ticks-marks (suc n) m s = ticks-marks n (suc m) s ∙ ap (λ (k : ℕ). marks k s) (omega arith)

prepend-eq-decoded :
    (k : ℕ) (d : Decoded) {bytes : Bytes}
    → prepend k d ≡ decoded bytes
    → (rest : Bytes) × (d ≡ decoded rest) × ((k ∷ rest) ≡ bytes)
unfolding prepend
prepend-eq-decoded k (decoded rest) h = (rest, refl, cc h)
prepend-eq-decoded k (invalid e) h = cc

encode_ticks :
    (k : ℕ) (s : String) (bytes : Bytes)
    → decode_from k s ≡ decoded bytes
    → encode bytes ≡ ticks k s
unfolding decode_from encode ticks marks tick end
encode_ticks zero String.[] bytes h = let made : [] ≡ bytes = cc h in rw (← made) refl
encode_ticks (suc k) String.[] bytes h = ground arith
encode_ticks k (String.◌∷◌ ch s) bytes h = elim (Bool-cases (code ch == 97)) [
  | inl is_tick ↦
      let same : ch ≡ tick = Char-path ch tick (==→eq _ _ is_tick) in
      encode_ticks (suc k) s bytes (rw is_tick at h)
      ∙ ap (λ (x : Char). ticks k (String.◌∷◌ x s)) (sym same)
  | inr other ↦ elim (Bool-cases (code ch == 98)) [
    | inl is_end ↦
        let same : ch ≡ end = Char-path ch end (==→eq _ _ is_end) in
        let (rest, read, made) = prepend-eq-decoded k (decode_from 0 s) (rw (other, is_end) at h) in
        ap encode (sym made)
        ∙ (ap (marks k) (encode_ticks 0 s rest read)
            ∙ (ap (λ (m : ℕ). marks m s) (omega arith)
                ∙ (sym (ticks-marks k 0 s)
                    ∙ ap (λ (x : Char). ticks k (String.◌∷◌ x s)) (sym same))))
    | inr bad ↦ cc ((rw (other, bad) at h))
  ]
]

pub encode-decode : (s : String) (bytes : Bytes) → decode s ≡ decoded bytes → encode bytes ≡ s
unfolding decode ticks
encode-decode s bytes h = encode_ticks 0 s bytes h
