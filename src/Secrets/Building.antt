-- ===== src/Secrets/Building.antt =====
-- `build_messages` of src/parsed.rs at configurations that agree but for their keys.
use nl_wireguard.Base.{
  ℕ, ◌+◌, ◌≡◌, refl, ap, ◌∙◌, Bool, true, false, not, ◌&&◌, ◌||◌, ltb, Option, none, some, String,
  List, [], ◌∷◌, map, map-append, sum_by, is_empty, is_some, flatten_option, arith,
}
use nl_wireguard.Packet.{WireguardCmd, WireguardPeer, WireguardAttribute}
use nl_wireguard.Crates.{Crates, LengthLaws, KeyLaws}
use nl_wireguard.Error.{ok}
use nl_wireguard.Redact.{fill_zero, redact_attribute}
use nl_wireguard.Redact.Secrecy.{Same}
use nl_wireguard.Key.{decode_key}
use nl_wireguard.Peer.{WireguardPeerParsed}
use nl_wireguard.Split.{peer_chunks, max_nla_value_len}
use nl_wireguard.Device.{
  WireguardParsed, iface_attribute, key_attribute, device_attributes, leading_attributes,
  build_message,
}
use nl_wireguard.Messages.{
  Builder, no_messages, flush, add_chunk, add_chunks, add_peers, finish, build_messages,
}
use nl_wireguard.Secrets.{mask_peer, mask_message, SameKey, AlikePeer, AlikePeers, AlikeParsed}
use nl_wireguard.Secrets.Chains.{
  map_result, chain, chain_same, branch, map_behind, map_before, same_empty,
}
use nl_wireguard.Secrets.Peers.{decode_key_alike}
use nl_wireguard.Secrets.Splitting.{sum_masked, peer_chunks_alike}

abbrev mask_attributes : List WireguardAttribute → List WireguardAttribute
mask_attributes = map redact_attribute

abbrev mask_builder : Builder → Builder
mask_builder b = record {
  messages = map mask_message b.messages;
  peers = map mask_peer b.peers;
  peers_len = b.peers_len;
}

module _ ⦃c : Crates⦄ where
  private_alike :
      (prop_name : String) (key other : Option String)
      → SameKey key other
      → map_result mask_attributes (key_attribute prop_name WireguardAttribute.private_key key)
        ≡ map_result mask_attributes (key_attribute prop_name WireguardAttribute.private_key other)
  unfolding key_attribute redact_attribute
  private_alike prop_name none none h = refl
  private_alike prop_name none (some other) h = absurd h
  private_alike prop_name (some key) none h = absurd h
  private_alike prop_name (some key) (some other) h =
      chain fill_zero mask_attributes (decode_key prop_name key) (decode_key prop_name other) _ _
        (decode_key_alike prop_name key other h) (λ x y e. cc e)

  length_alike :
      (lengths : LengthLaws c) (keys : KeyLaws c) (peer other : WireguardPeer)
      → mask_peer peer ≡ mask_peer other
      → c.peer_buffer_len peer ≡ c.peer_buffer_len other
  length_alike lengths keys peer other h =
      let sums : sum_by c.attr_buffer_len (mask_peer peer)
          ≡ sum_by c.attr_buffer_len (mask_peer other) =
        ap (sum_by c.attr_buffer_len) h in
      omega (
        arith,
        sums,
        lengths.peer_length peer,
        lengths.peer_length other,
        sum_masked keys peer,
        sum_masked keys other,
      )

  module _ (self : WireguardParsed) (key other : Option String)
      (ps qs : Option (List WireguardPeerParsed)) (h : SameKey key other)
      (there : is_some ps ≡ is_some qs) where
    abbrev left : WireguardParsed
    left = record self { private_key = key; peers = ps }

    abbrev right : WireguardParsed
    right = record self { private_key = other; peers = qs }

    device_alike :
        map_result mask_attributes (device_attributes left)
        ≡ map_result mask_attributes (device_attributes right)
    unfolding device_attributes iface_attribute
    device_alike = chain_same mask_attributes (iface_attribute left) _ _ (λ iface.
        chain_same mask_attributes (key_attribute _ _ self.public_key) _ _ (λ public.
          chain mask_attributes mask_attributes (key_attribute _ _ key) (key_attribute _ _ other) _
            _ (private_alike _ key other h)
            (λ x y same. ap ok (
              map_behind redact_attribute (iface ∷ []) _ _ (
                map_behind redact_attribute public _ _ (map_before redact_attribute x y _ same))))))

    leading_alike :
        (first : Bool)
        → map_result mask_attributes (leading_attributes left first)
          ≡ map_result mask_attributes (leading_attributes right first)
    unfolding leading_attributes iface_attribute
    leading_alike true = device_alike
    leading_alike false = refl

    message_alike :
        (cmd : WireguardCmd) (first : Bool) (peers more : List WireguardPeer)
        → map mask_peer peers ≡ map mask_peer more
        → map_result mask_message (build_message left cmd first peers)
          ≡ map_result mask_message (build_message right cmd first more)
    unfolding build_message redact_attribute
    message_alike cmd first peers more e =
        chain mask_attributes mask_message (leading_attributes left first)
          (leading_attributes right first) _ _ (leading_alike first)
          (λ x y same.
            ap (λ attributes. ok (record { cmd = cmd; attributes = attributes }))
              (branch mask_attributes (is_some ps) (is_some qs) _ _ _ _ there
                (map_before redact_attribute x y _ same ∙ map_behind redact_attribute y _ _ (cc e))
                same))

    module _ (cmd : WireguardCmd) where
      finish_alike :
          (b d : Builder)
          → mask_builder b ≡ mask_builder d
          → map_result (map mask_message) (finish left cmd b)
            ≡ map_result (map mask_message) (finish right cmd d)
      unfolding finish
      finish_alike b d e =
          let no_peers = same_empty mask_peer b.peers d.peers (cc e) in
          let empty = same_empty mask_message b.messages d.messages (cc e) in
          branch (map_result (map mask_message)) (not (is_empty b.peers) || is_empty b.messages)
            (not (is_empty d.peers) || is_empty d.messages) _ _ _ _ (cc (no_peers, empty))
            (rw empty (
              chain mask_message (map mask_message)
                (build_message left cmd (is_empty d.messages) b.peers)
                (build_message right cmd (is_empty d.messages) d.peers) _ _
                (message_alike cmd (is_empty d.messages) b.peers d.peers (cc e))
                (λ x y same. cc (
                  e,
                  same,
                  map-append mask_message b.messages (x ∷ []),
                  map-append mask_message d.messages (y ∷ []),
                ))))
            (cc e)

      flush_alike :
          (n : ℕ) (b d : Builder)
          → mask_builder b ≡ mask_builder d
          → map_result mask_builder (flush left cmd b n)
            ≡ map_result mask_builder (flush right cmd d n)
      unfolding flush
      flush_alike n b d e =
          let no_peers = same_empty mask_peer b.peers d.peers (cc e) in
          let empty = same_empty mask_message b.messages d.messages (cc e) in
          branch (map_result mask_builder)
            (not (is_empty b.peers) && ltb max_nla_value_len (b.peers_len + n))
            (not (is_empty d.peers) && ltb max_nla_value_len (d.peers_len + n)) _ _ _ _
            (cc (no_peers, e))
            (rw empty (
              chain mask_message mask_builder (build_message left cmd (is_empty d.messages) b.peers)
                (build_message right cmd (is_empty d.messages) d.peers) _ _
                (message_alike cmd (is_empty d.messages) b.peers d.peers (cc e))
                (λ x y same. cc (
                  e,
                  same,
                  map-append mask_message b.messages (x ∷ []),
                  map-append mask_message d.messages (y ∷ []),
                ))))
            (cc e)

      module _ (lengths : LengthLaws c) (keys : KeyLaws c) where
        chunk_alike :
            (b d : Builder) (chunk other_chunk : WireguardPeer)
            → mask_builder b ≡ mask_builder d
            → mask_peer chunk ≡ mask_peer other_chunk
            → map_result mask_builder (add_chunk left cmd b chunk)
              ≡ map_result mask_builder (add_chunk right cmd d other_chunk)
        unfolding add_chunk
        chunk_alike b d chunk other_chunk e f =
            let same_length : c.peer_buffer_len chunk ≡ c.peer_buffer_len other_chunk =
              length_alike lengths keys chunk other_chunk f in
            chain mask_builder mask_builder (flush left cmd b (c.peer_buffer_len chunk))
              (flush right cmd d (c.peer_buffer_len other_chunk)) _ _
              (rw same_length (flush_alike (c.peer_buffer_len other_chunk) b d e))
              (λ x y same. cc (
                same,
                f,
                same_length,
                map-append mask_peer x.peers (chunk ∷ []),
                map-append mask_peer y.peers (other_chunk ∷ []),
              ))

        chunks_alike :
            (b d : Builder) (chunks others : List WireguardPeer)
            → mask_builder b ≡ mask_builder d
            → map mask_peer chunks ≡ map mask_peer others
            → map_result mask_builder (add_chunks left cmd b chunks)
              ≡ map_result mask_builder (add_chunks right cmd d others)
        unfolding add_chunks
        chunks_alike b d [] [] e f = cc e
        chunks_alike b d [] (y ∷ ys) e f = cc f
        chunks_alike b d (x ∷ xs) [] e f = cc f
        chunks_alike b d (x ∷ xs) (y ∷ ys) e f =
            chain mask_builder mask_builder (add_chunk left cmd b x) (add_chunk right cmd d y) _ _
              (chunk_alike b d x y e (cc f)) (λ b' d' same. chunks_alike b' d' xs ys same (cc f))

        peers_alike :
            (b d : Builder) (peers others : List WireguardPeerParsed)
            → mask_builder b ≡ mask_builder d
            → Same AlikePeer peers others
            → map_result mask_builder (add_peers left cmd b peers)
              ≡ map_result mask_builder (add_peers right cmd d others)
        unfolding add_peers
        peers_alike b d [] [] e f = cc e
        peers_alike b d [] (y ∷ ys) e f = absurd f
        peers_alike b d (x ∷ xs) [] e f = absurd f
        peers_alike b d (x ∷ xs) (y ∷ ys) e f =
            chain (map mask_peer) mask_builder (peer_chunks x) (peer_chunks y) _ _
              (peer_chunks_alike keys x y f.0)
              (λ chunks others same.
                chain mask_builder mask_builder (add_chunks left cmd b chunks)
                  (add_chunks right cmd d others) _ _ (chunks_alike b d chunks others e same)
                  (λ b' d' later. peers_alike b' d' xs ys later f.1))

        with_keys_alike :
            Same AlikePeer (flatten_option ps) (flatten_option qs)
            → map_result (map mask_message) (build_messages left cmd)
              ≡ map_result (map mask_message) (build_messages right cmd)
        unfolding build_messages
        with_keys_alike s =
            chain mask_builder (map mask_message)
              (add_peers left cmd no_messages (flatten_option ps))
              (add_peers right cmd no_messages (flatten_option qs)) _ _
              (peers_alike no_messages no_messages _ _ refl s) finish_alike

  some_alike :
      (ps qs : Option (List WireguardPeerParsed)) → AlikePeers ps qs → is_some ps ≡ is_some qs
  some_alike none none h = refl
  some_alike none (some qs) h = absurd h
  some_alike (some ps) none h = absurd h
  some_alike (some ps) (some qs) h = refl

  lists_alike :
      (ps qs : Option (List WireguardPeerParsed))
      → AlikePeers ps qs
      → Same AlikePeer (flatten_option ps) (flatten_option qs)
  lists_alike none none h = tt
  lists_alike none (some qs) h = absurd h
  lists_alike (some ps) none h = absurd h
  lists_alike (some ps) (some qs) h = h

  -- Configurations that agree but for their keys are built into messages that agree but for
  -- their keys, or rejected with the same error.
  pub build_messages_alike :
      (lengths : LengthLaws c) (keys : KeyLaws c) (a b : WireguardParsed) (cmd : WireguardCmd)
      → AlikeParsed a b
      → map_result (map mask_message) (build_messages a cmd)
        ≡ map_result (map mask_message) (build_messages b cmd)
  build_messages_alike lengths keys a b cmd h =
      let same : a ≡ record b { private_key = a.private_key; peers = a.peers } =
        ap (λ (r : WireguardParsed). record r { private_key = a.private_key; peers = a.peers })
          h.rest in
      ap (λ (r : WireguardParsed). map_result (map mask_message) (build_messages r cmd)) same
      ∙ with_keys_alike b a.private_key b.private_key a.peers b.peers h.key
          (some_alike a.peers b.peers h.peers) cmd lengths keys
          (lists_alike a.peers b.peers h.peers)
