-- ===== src/Messages/Supported.antt =====
-- What the loops of `build_messages` need: device attributes, once there is a message.
use nl_wireguard.Base.{
  ℕ, ◌+◌, ◌≡◌, inl, inr, ◌⊎◌, true, List, [], ◌∷◌, is_empty, Bool-cases, ltb, arith, not, ◌&&◌,
  ◌||◌,
}
use nl_wireguard.Packet.{WireguardCmd, WireguardPeer, WireguardAttribute, WireguardMessage}
use nl_wireguard.Crates.{Crates}
use nl_wireguard.Error.{ok, ok_of_bind}
use nl_wireguard.Peer.{WireguardPeerParsed}
use nl_wireguard.Split.{peer_chunks, max_nla_value_len}
use nl_wireguard.Device.{WireguardParsed, build_message, leading_attributes, device_attributes}
use nl_wireguard.Messages.{Builder, flush, add_chunk, add_chunks, add_peers, finish}

module _ ⦃c : Crates⦄ where
  module _ (self : WireguardParsed) (cmd : WireguardCmd) where
    -- As long as no message is there, nothing has been built; the first message that is built has
    -- the device attributes.
    unfoldable pub Supported : Builder → Type 0
    Supported b =
        (is_empty b.messages ≡ true)
        ⊎ ((device : List WireguardAttribute) × (device_attributes self ≡ ok device))

    first_built :
        (b : Builder) (message : WireguardMessage)
        → Supported b
        → build_message self cmd (is_empty b.messages) b.peers ≡ ok message
        → (device : List WireguardAttribute) × (device_attributes self ≡ ok device)
    unfolding build_message leading_attributes Supported
    first_built b message (inr device) h = device
    first_built b message (inl e) h =
        let (device, made, r) = ok_of_bind (leading_attributes self true) _ (rw e at h) in
        (device, made)

    flush-Supported :
        (b : Builder) (chunk_len : ℕ) (next : Builder)
        → Supported b
        → flush self cmd b chunk_len ≡ ok next
        → Supported next
    unfolding flush Supported
    flush-Supported b chunk_len next s h =
        elim (Bool-cases
          (not (is_empty b.peers) && ltb max_nla_value_len (b.peers_len + chunk_len))) [
            | inl over ↦
                let (message, made, r) =
                  ok_of_bind (build_message self cmd (is_empty b.messages) b.peers) _
                    (rw (over, flush) at h) in
                inr (first_built b message s made)
            | inr fits ↦ let same : b ≡ next = cc ((rw (fits, flush) at h)) in rw (← same) s
          ]

    chunk-Supported :
        (b : Builder) (chunk : WireguardPeer) (next : Builder)
        → Supported b
        → add_chunk self cmd b chunk ≡ ok next
        → Supported next
    unfolding add_chunk Supported
    chunk-Supported b chunk next s h =
        let (flushed, made, r) = ok_of_bind (flush self cmd b (c.peer_buffer_len chunk)) _ h in
        let same : flushed.messages ≡ next.messages = cc r in
        rw (← same) (flush-Supported b (c.peer_buffer_len chunk) flushed s made)

    chunks-Supported :
        (b : Builder) (chunks : List WireguardPeer) (next : Builder)
        → Supported b
        → add_chunks self cmd b chunks ≡ ok next
        → Supported next
    unfolding add_chunks
    chunks-Supported b [] next s h = let same : b ≡ next = cc h in rw (← same) s
    chunks-Supported b (chunk ∷ chunks) next s h =
        let (b', added, r) = ok_of_bind (add_chunk self cmd b chunk) _ h in
        chunks-Supported b' chunks next (chunk-Supported b chunk b' s added) r

    pub peers-Supported :
        (b : Builder) (ps : List WireguardPeerParsed) (next : Builder)
        → Supported b
        → add_peers self cmd b ps ≡ ok next
        → Supported next
    unfolding add_peers
    peers-Supported b [] next s h = let same : b ≡ next = cc h in rw (← same) s
    peers-Supported b (p ∷ ps) next s h =
        let (chunks, split, h1) = ok_of_bind (peer_chunks p) _ h in
        let (b', added, h2) = ok_of_bind (add_chunks self cmd b chunks) _ h1 in
        peers-Supported b' ps next (chunks-Supported b chunks b' s added) h2

    pub finish-Supported :
        (b : Builder) (messages : List WireguardMessage)
        → Supported b
        → finish self cmd b ≡ ok messages
        → (device : List WireguardAttribute) × (device_attributes self ≡ ok device)
    unfolding finish Supported
    finish-Supported b messages (inr device) h = device
    finish-Supported b messages (inl e) h =
        elim (Bool-cases (not (is_empty b.peers) || is_empty b.messages)) [
          | inl last ↦
              let (message, made, r) =
                ok_of_bind (build_message self cmd (is_empty b.messages) b.peers) _
                  (rw (last, finish) at h) in
              first_built b message (inl e) made
          | inr complete ↦ absurd (ground (arith, e, complete))
        ]
