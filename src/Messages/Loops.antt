-- ===== src/Messages/Loops.antt =====
-- The loops of `build_messages` and the packing of `Groups` into messages.
use nl_wireguard.Base.{
  ℕ, ◌+◌, ◌≡◌, refl, ap, sym, ◌∙◌, inl, inr, Bool, true, false, some, List, [], ◌∷◌, ◌++◌, arith,
  sum_by, sum_by-append, is_empty, ltb, append_assoc, Bool-cases, flatten_option,
}
use nl_wireguard.Packet.{WireguardCmd, WireguardPeer, WireguardAttribute}
use nl_wireguard.Crates.{Crates}
use nl_wireguard.Error.{ok, ok_of_bind, ◌>>=◌, Result-cases}
use nl_wireguard.Peer.{WireguardPeerParsed}
use nl_wireguard.Split.{peer_chunks, max_nla_value_len}
use nl_wireguard.Device.{
  WireguardParsed, build_message, leading_attributes, device_attributes, iface_attribute,
}
use nl_wireguard.Messages.{
  Builder, no_messages, flush, add_chunk, add_chunks, add_peers, finish, build_messages,
}
use nl_wireguard.Messages.Groups.{
  all_chunks, Finished, messages_for, messages_for-append, with_peers, leading, pack, passes,
  groups_of,
}
use nl_wireguard.Messages.Packing.{groups_content, groups_bounded, groups_not_empty}

module _ ⦃c : Crates⦄ where
  -- The outer loop runs the inner one over the chunks of all peers.
  add_chunks-append :
      (self : WireguardParsed) (cmd : WireguardCmd) (b : Builder) (xs ys : List WireguardPeer)
      → add_chunks self cmd b (xs ++ ys)
        ≡ (add_chunks self cmd b xs >>= λ b'. add_chunks self cmd b' ys)
  unfolding add_chunks
  add_chunks-append self cmd b [] ys = refl
  add_chunks-append self cmd b (x ∷ xs) ys = elim (Result-cases (add_chunk self cmd b x)) [
    | inl (b', added) ↦ rw (added, add_chunks) (add_chunks-append self cmd b' xs ys)
    | inr (e, failed) ↦ rw (failed, add_chunks) refl
  ]

  pub add_peers_flat :
      (self : WireguardParsed) (cmd : WireguardCmd) (b : Builder) (ps : List WireguardPeerParsed)
      (chunks : List WireguardPeer)
      → all_chunks ps ≡ ok chunks
      → add_peers self cmd b ps ≡ add_chunks self cmd b chunks
  unfolding add_peers all_chunks
  add_peers_flat self cmd b [] chunks h =
      let made : [] ≡ chunks = cc h in rw (← made, add_chunks) refl
  add_peers_flat self cmd b (p ∷ ps) chunks h =
      let (here, split, h1) = ok_of_bind (peer_chunks p) _ h in
      let (more, later, h2) = ok_of_bind (all_chunks ps) _ h1 in
      let made : (here ++ more) ≡ chunks = cc h2 in
      elim (Result-cases (add_chunks self cmd b here)) [
        | inl (b', added) ↦
            rw (split, added, add_peers)
              (add_peers_flat self cmd b' ps more later
                ∙ rw (← made) (sym (add_chunks-append self cmd b here more ∙ rw added refl)))
        | inr (e, failed) ↦
            rw (split, failed, add_peers)
              (rw (← made) (sym (add_chunks-append self cmd b here more ∙ rw failed refl)))
      ]

  module _ (self : WireguardParsed) (cmd : WireguardCmd) (device : List WireguardAttribute)
      (iface : WireguardAttribute) (peers : List WireguardPeerParsed)
      (has_peers : self.peers ≡ some peers) (device_ok : device_attributes self ≡ ok device)
      (iface_ok : iface_attribute self ≡ ok iface) where
    build_message_ok :
        (first : Bool) (group : List WireguardPeer)
        → build_message self cmd first group
          ≡ ok (with_peers cmd (leading first device iface) group)
    unfolding build_message leading_attributes
    build_message_ok true group = rw (device_ok, has_peers) refl
    build_message_ok false group = rw (iface_ok, has_peers) refl

    -- The messages of these groups, and an open group of `n` bytes.
    abbrev opened : List (List WireguardPeer) → WireguardPeer → List WireguardPeer → ℕ → Builder
    opened groups y ys n = record {
      messages = messages_for cmd device iface groups;
      peers = y ∷ ys;
      peers_len = n;
    }

    closes :
        (groups : List (List WireguardPeer)) (y : WireguardPeer) (ys : List WireguardPeer) (n : ℕ)
        (x : WireguardPeer)
        → ltb max_nla_value_len (n + c.peer_buffer_len x) ≡ true
        → add_chunk self cmd (opened groups y ys n) x
          ≡ ok (opened (groups ++ (y ∷ ys) ∷ []) x [] (0 + c.peer_buffer_len x))
    unfolding add_chunk flush
    closes groups y ys n x over =
        rw
          (
            over,
            build_message_ok (is_empty (messages_for cmd device iface groups)) (y ∷ ys),
            messages_for-append cmd device iface groups (y ∷ ys),
          )
          refl

    stays :
        (groups : List (List WireguardPeer)) (y : WireguardPeer) (ys : List WireguardPeer) (n : ℕ)
        (x : WireguardPeer)
        → ltb max_nla_value_len (n + c.peer_buffer_len x) ≡ false
        → add_chunk self cmd (opened groups y ys n) x
          ≡ ok (opened groups y (ys ++ x ∷ []) (n + c.peer_buffer_len x))
    unfolding add_chunk flush
    stays groups y ys n x fits = rw fits refl

    -- The inner loop from an open group on, and what follows it.
    pack_messages :
        (groups : List (List WireguardPeer)) (y : WireguardPeer) (ys : List WireguardPeer) (n : ℕ)
        (xs : List WireguardPeer)
        → n ≡ sum_by c.peer_buffer_len (y ∷ ys)
        → (add_chunks self cmd (opened groups y ys n) xs >>= finish self cmd)
          ≡ ok (messages_for cmd device iface (groups ++ pack y ys xs))
    unfolding add_chunks finish pack
    pack_messages groups y ys n [] e =
        rw (build_message_ok (is_empty (messages_for cmd device iface groups)) (y ∷ ys))
          (ap ok (sym (messages_for-append cmd device iface groups (y ∷ ys))))
    pack_messages groups y ys n (x ∷ xs) e =
        elim (Bool-cases (ltb max_nla_value_len (n + c.peer_buffer_len x))) [
          | inl over ↦
              let later =
                pack_messages (groups ++ (y ∷ ys) ∷ []) x [] (0 + c.peer_buffer_len x) xs
                  (omega arith) in
              let pass : passes y ys x ≡ true = rw (← e) over in
              rw (closes groups y ys n x over, add_chunks)
                (later
                  ∙ ap (λ gs. ok (messages_for cmd device iface gs))
                      (append_assoc groups ((y ∷ ys) ∷ []) (pack x [] xs) ∙ rw (pass, pack) refl))
          | inr fits ↦
              let later =
                pack_messages groups y (ys ++ x ∷ []) (n + c.peer_buffer_len x) xs
                  (omega (arith, sum_by-append c.peer_buffer_len ys (x ∷ []))) in
              let pass : passes y ys x ≡ false = rw (← e) fits in
              rw (stays groups y ys n x fits, add_chunks)
                (later
                  ∙ ap (λ gs. ok (messages_for cmd device iface (groups ++ gs)))
                      (rw (pass, pack) refl))
        ]

    -- The loops and what follows them, from the start.
    chunk_messages :
        (chunks : List WireguardPeer)
        → (add_chunks self cmd no_messages chunks >>= finish self cmd)
          ≡ ok (messages_for cmd device iface (groups_of chunks))
    unfolding add_chunks add_chunk flush finish groups_of
    chunk_messages [] = rw (build_message_ok true []) refl
    chunk_messages (x ∷ xs) = pack_messages [] x [] (0 + c.peer_buffer_len x) xs (omega arith)

    pub build_messages_groups :
        (chunks : List WireguardPeer)
        → all_chunks peers ≡ ok chunks
        → build_messages self cmd ≡ ok (messages_for cmd device iface (groups_of chunks))
    unfolding build_messages
    build_messages_groups chunks split =
        ap (λ o. add_peers self cmd no_messages (flatten_option o) >>= finish self cmd) has_peers
        ∙ (ap (λ r. r >>= finish self cmd) (add_peers_flat self cmd no_messages peers chunks split)
            ∙ chunk_messages chunks)

    pub build_messages_ok :
        (chunks : List WireguardPeer)
        → all_chunks peers ≡ ok chunks
        → Finished self cmd device iface chunks (build_messages self cmd)
    build_messages_ok chunks split = record {
      groups = groups_of chunks;
      messages = build_messages_groups chunks split;
      content = groups_content chunks;
      bounded = groups_bounded chunks;
      not_empty = groups_not_empty chunks;
    }
