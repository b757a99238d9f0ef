-- ===== src/Messages/Packing.antt =====
-- The groups into which chunks are packed: what they hold, and that there are no fewer.
use nl_wireguard.Base.{
  ℕ, suc, ◌+◌, ◌≤◌, ◌≡◌, refl, ap, ◌∙◌, ◌⊎◌, inl, inr, true, false, List, [], ◌∷◌, ◌++◌, arith, All,
  length, sum_by, sum_by-append, ltb, ltb→le, append_assoc, Bool-cases,
}
use nl_wireguard.Packet.{WireguardPeer}
use nl_wireguard.Crates.{Crates}
use nl_wireguard.Split.{max_nla_value_len}
use nl_wireguard.Messages.Groups.{concat, IsGroup, pack, passes, groups_of}

module _ ⦃c : Crates⦄ where
  pack_content :
      (y : WireguardPeer) (ys xs : List WireguardPeer) → concat (pack y ys xs) ≡ (y ∷ ys) ++ xs
  unfolding pack
  pack_content y ys [] = refl
  pack_content y ys (x ∷ xs) = elim (Bool-cases (passes y ys x)) [
    | inl over ↦ rw (over, pack) (ap (λ zs. (y ∷ ys) ++ zs) (pack_content x [] xs))
    | inr fits ↦
        rw (fits, pack) (pack_content y (ys ++ x ∷ []) xs ∙ append_assoc (y ∷ ys) (x ∷ []) xs)
  ]

  pub groups_content : (chunks : List WireguardPeer) → concat (groups_of chunks) ≡ chunks
  unfolding groups_of
  groups_content [] = refl
  groups_content (x ∷ xs) = pack_content x [] xs

  pack_bounded :
      (y : WireguardPeer) (ys xs : List WireguardPeer)
      → IsGroup (y ∷ ys)
      → All IsGroup (pack y ys xs)
  unfolding pack
  pack_bounded y ys [] h = (h, tt)
  pack_bounded y ys (x ∷ xs) h = elim (Bool-cases (passes y ys x)) [
    | inl over ↦ rw (over, pack) (h, pack_bounded x [] xs (omega arith, inl refl))
    | inr fits ↦
        let room = ltb→le _ _ fits in
        let total = sum_by-append c.peer_buffer_len ys (x ∷ []) in
        rw (fits, pack) (pack_bounded y (ys ++ x ∷ []) xs (omega arith, inr (omega arith)))
  ]

  pub groups_bounded :
      (chunks : List WireguardPeer) → All IsGroup (groups_of chunks) ⊎ (groups_of chunks ≡ [] ∷ [])
  unfolding groups_of
  groups_bounded [] = inr refl
  groups_bounded (x ∷ xs) = inl (pack_bounded x [] xs (omega arith, inl refl))

  pack_not_empty : (y : WireguardPeer) (ys xs : List WireguardPeer) → 1 ≤ length (pack y ys xs)
  unfolding pack
  pack_not_empty y ys [] = omega arith
  pack_not_empty y ys (x ∷ xs) = elim (Bool-cases (passes y ys x)) [
    | inl over ↦ rw (over, pack) (omega arith)
    | inr fits ↦ rw (fits, pack) (pack_not_empty y (ys ++ x ∷ []) xs)
  ]

  pub groups_not_empty : (chunks : List WireguardPeer) → 1 ≤ length (groups_of chunks)
  unfolding groups_of
  groups_not_empty [] = omega arith
  groups_not_empty (x ∷ xs) = pack_not_empty x [] xs

  -- The number of groups that the chunks need after an open group of `n` bytes, that one included.
  count_from : ℕ → List WireguardPeer → ℕ
  count_from n [] = 1
  count_from n (x ∷ xs) = elim (ltb max_nla_value_len (n + c.peer_buffer_len x)) [
    | true ↦ suc (count_from (c.peer_buffer_len x) xs)
    | false ↦ count_from (n + c.peer_buffer_len x) xs
  ]

  count : List WireguardPeer → ℕ
  unfolding count_from
  count [] = 0
  count (x ∷ xs) = count_from (c.peer_buffer_len x) xs

  length-pack :
      (y : WireguardPeer) (ys xs : List WireguardPeer)
      → length (pack y ys xs) ≡ count_from (sum_by c.peer_buffer_len (y ∷ ys)) xs
  unfolding pack count_from
  length-pack y ys [] = refl
  length-pack y ys (x ∷ xs) = elim (Bool-cases (passes y ys x)) [
    | inl over ↦
        let n : sum_by c.peer_buffer_len (x ∷ []) ≡ c.peer_buffer_len x = omega arith in
        rw (over, pack, count_from) (rw (← n) (ap suc (length-pack x [] xs)))
    | inr fits ↦
        let n : sum_by c.peer_buffer_len (y ∷ (ys ++ x ∷ []))
            ≡ sum_by c.peer_buffer_len (y ∷ ys) + c.peer_buffer_len x =
          omega (arith, sum_by-append c.peer_buffer_len ys (x ∷ [])) in
        rw (fits, pack, count_from)
          (length-pack y (ys ++ x ∷ []) xs ∙ ap (λ (k : ℕ). count_from k xs) n)
  ]

  -- Less in the open group needs no more groups, and whatever is in it needs one group more at most.
  count_light :
      (xs : List WireguardPeer)
      → ((m n : ℕ) → m ≤ n → count_from m xs ≤ count_from n xs)
        × ((m n : ℕ) → count_from n xs ≤ 1 + count_from m xs)
  unfolding count_from
  count_light [] = (λ m n h. omega arith, λ m n. omega arith)
  count_light (x ∷ xs) =
      let (light, one_more) = count_light xs in
      let l = c.peer_buffer_len x in
      (
        λ m n h. ground (arith, light (m + l) (n + l), one_more l (m + l)),
        λ m n. ground (arith, light l (m + l), one_more (m + l) (n + l), one_more l (n + l)),
      )

  count_next : (n : ℕ) (zs : List WireguardPeer) → count_from n zs ≤ 1 + count zs
  unfolding count_from count
  count_next n [] = omega arith
  count_next n (z ∷ zs) =
      ground (arith, (count_light zs).1 (c.peer_buffer_len z) (n + c.peer_buffer_len z))

  -- What still fits into the open group needs no further group.
  count_fitting :
      (n : ℕ) (f zs : List WireguardPeer)
      → n + sum_by c.peer_buffer_len f ≤ max_nla_value_len
      → count_from n (f ++ zs) ≤ 1 + count zs
  unfolding count_from
  count_fitting n [] zs h = count_next n zs
  count_fitting n (x ∷ f) zs h = ground (arith, count_fitting (n + c.peer_buffer_len x) f zs)

  -- A group that may be one message: within the limit, or a single chunk.
  abbrev pub MayBeGroup : List WireguardPeer → Type 0
  MayBeGroup group = (length group ≤ 1) ⊎ (sum_by c.peer_buffer_len group ≤ max_nla_value_len)

  count_group :
      (group zs : List WireguardPeer) → MayBeGroup group → count (group ++ zs) ≤ 1 + count zs
  unfolding count
  count_group [] zs h = omega arith
  count_group (x ∷ []) zs h = count_next (c.peer_buffer_len x) zs
  count_group (x ∷ y ∷ group) zs (inl h) = absurd (omega arith)
  count_group (x ∷ y ∷ group) zs (inr h) =
      count_fitting (c.peer_buffer_len x) (y ∷ group) zs (omega arith)

  count_groups :
      (gs : List (List WireguardPeer)) → All MayBeGroup gs → count (concat gs) ≤ length gs
  unfolding count
  count_groups [] h = omega arith
  count_groups (g ∷ gs) h = omega (arith, count_group g (concat gs) h.0, count_groups gs h.1)

  length-groups_of :
      (x : WireguardPeer) (xs : List WireguardPeer) → length (groups_of (x ∷ xs)) ≡ count (x ∷ xs)
  unfolding groups_of count
  length-groups_of x xs = length-pack x [] xs ∙ ap (λ (n : ℕ). count_from n xs) (omega arith)

  pub groups_of_fewest :
      (chunks : List WireguardPeer) (gs : List (List WireguardPeer))
      → concat gs ≡ chunks
      → All MayBeGroup gs
      → 1 ≤ length gs
      → length (groups_of chunks) ≤ length gs
  unfolding groups_of
  groups_of_fewest [] gs h may one = omega arith
  groups_of_fewest (x ∷ xs) gs h may one =
      let bound : count (x ∷ xs) ≤ length gs = rw h at (count_groups gs may) in
      omega (arith, length-groups_of x xs)
