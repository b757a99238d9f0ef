-- ===== src/Device/Cuts/Reading.antt =====
-- What `From<Vec<WireguardMessage>>` of src/parsed.rs reads from a dump that was cut.
use mathlib.Core.List.{foldl, foldl-append}
use mathlib.Core.Option
use nl_wireguard.Base.{◌≡◌, refl, ap, sym, ◌∙◌, some, List, [], ◌∷◌, ◌++◌}
use nl_wireguard.Packet.{
  Bytes, WireguardAllowedIp, WireguardPeerAttribute, WireguardPeer, WireguardAttribute,
  WireguardMessage,
}
use nl_wireguard.Crates.{Crates}
use nl_wireguard.Peer.{
  WireguardPeerParsed, default_peer, parse_peer, add_attribute, parse_allowed_ips,
  merge_continuation,
}
use nl_wireguard.Device.{
  WireguardParsed, default_device, push_peer, push_parsed, extend_attribute, extend_message,
  parse_messages,
}
use nl_wireguard.Split.Parsed.{with_ips, parse_continuation, parse_allowed_ips-append}
use nl_wireguard.Device.Coalesce.{merge_ips}
use nl_wireguard.Device.Merging.{push_both}
use nl_wireguard.Device.Cuts.{
  HasKey, first_part, continuation, CutsAttributes, between, within, Cut, inside, apart, Cuts,
  uncut, cut,
}

module _ ⦃c : Crates⦄ where
  -- The allowed IPs come last, whatever they are.
  parse_first_part :
      (attrs : WireguardPeer) (ips : List WireguardAllowedIp)
      → parse_peer (first_part attrs ips)
        ≡ with_ips (some (parse_allowed_ips ips)) (parse_peer attrs)
  unfolding parse_peer add_attribute
  parse_first_part attrs ips =
      foldl-append add_attribute default_peer attrs (WireguardPeerAttribute.allowed_ips ips ∷ [])

  with_more :
      (attrs : WireguardPeer) (key : Bytes) (xs ys : List WireguardAllowedIp)
      → HasKey attrs key
      → merge_continuation (parse_peer (first_part attrs xs)) (parse_peer (continuation key ys))
        ≡ parse_peer (first_part attrs (xs ++ ys))
  with_more attrs key xs ys h =
      let merged =
        merge_ips (parse_peer attrs) (c.encode key) (parse_allowed_ips xs) (parse_allowed_ips ys)
          h in
      rw
        (
          parse_first_part attrs xs,
          parse_first_part attrs (xs ++ ys),
          parse_continuation key ys,
          parse_allowed_ips-append xs ys,
        )
        merged

  first_key :
      (attrs : WireguardPeer) (key : Bytes) (xs : List WireguardAllowedIp)
      → HasKey attrs key
      → HasKey (first_part attrs xs) key
  first_key attrs key xs h = rw (parse_first_part attrs xs) h

  continuation_key : (key : Bytes) (ys : List WireguardAllowedIp) → HasKey (continuation key ys) key
  unfolding parse_peer add_attribute
  continuation_key key ys = refl

  -- What a cut does to the configuration that has been read so far.
  pushed_within :
      (before : List WireguardPeerParsed) (attrs : WireguardPeer) (key : Bytes)
      (xs ys : List WireguardAllowedIp)
      → HasKey attrs key
      → push_parsed (push_parsed before (first_part attrs xs)) (continuation key ys)
        ≡ push_parsed before (first_part attrs (xs ++ ys))
  unfolding push_parsed
  pushed_within before attrs key xs ys h =
      push_both (parse_peer (first_part attrs xs)) (parse_peer (continuation key ys)) (c.encode key)
        (first_key attrs key xs h) (continuation_key key ys) before
      ∙ ap (push_peer before) (with_more attrs key xs ys h)

  -- Peers that are read one after the other, whatever was read before.
  peers_between :
      (d : WireguardParsed) (ps qs : List WireguardPeer)
      → extend_attribute
          (extend_attribute d (WireguardAttribute.peers ps))
          (WireguardAttribute.peers qs)
        ≡ extend_attribute d (WireguardAttribute.peers (ps ++ qs))
  unfolding extend_attribute
  peers_between d ps qs =
      ap (λ (peers : List WireguardPeerParsed). record d { peers = some peers })
        (sym (foldl-append push_parsed (Option.get_or d.peers []) ps qs))

  peers_within :
      (before : List WireguardPeerParsed) (ps : List WireguardPeer) (attrs : WireguardPeer)
      (key : Bytes) (xs ys : List WireguardAllowedIp) (qs : List WireguardPeer)
      → HasKey attrs key
      → foldl push_parsed before (ps ++ first_part attrs (xs ++ ys) ∷ qs)
        ≡ foldl push_parsed before (ps ++ first_part attrs xs ∷ continuation key ys ∷ qs)
  peers_within before ps attrs key xs ys qs h =
      foldl-append push_parsed before ps (first_part attrs (xs ++ ys) ∷ qs)
      ∙ (ap (λ peers. foldl push_parsed peers qs)
            (sym (pushed_within (foldl push_parsed before ps) attrs key xs ys h))
          ∙ sym
              (foldl-append push_parsed before ps (first_part attrs xs ∷ continuation key ys ∷ qs)))

  attributes_same :
      {attrs parts : List WireguardAttribute} (d : WireguardParsed)
      → CutsAttributes attrs parts
      → foldl extend_attribute d attrs ≡ foldl extend_attribute d parts
  attributes_same d (between front ps qs back) =
      foldl-append extend_attribute d front (WireguardAttribute.peers (ps ++ qs) ∷ back)
      ∙ (ap (λ e. foldl extend_attribute e back)
            (sym (peers_between (foldl extend_attribute d front) ps qs))
          ∙ sym (
              foldl-append extend_attribute d front
                (WireguardAttribute.peers ps ∷ WireguardAttribute.peers qs ∷ back)))
  attributes_same d (within front ps attrs key xs ys qs back h) =
      let e = foldl extend_attribute d front in
      let whole = WireguardAttribute.peers (ps ++ first_part attrs (xs ++ ys) ∷ qs) in
      let parted =
        WireguardAttribute.peers (ps ++ first_part attrs xs ∷ continuation key ys ∷ qs) in
      let same : extend_attribute e whole ≡ extend_attribute e parted =
        unfold extend_attribute in
        ap (λ (peers : List WireguardPeerParsed). record e { peers = some peers })
          (peers_within (Option.get_or e.peers []) ps attrs key xs ys qs h) in
      foldl-append extend_attribute d front (whole ∷ back)
      ∙ (ap (λ f. foldl extend_attribute f back) same
          ∙ sym (foldl-append extend_attribute d front (parted ∷ back)))

  messages_same :
      {ms ns : List WireguardMessage} (d : WireguardParsed)
      → Cut ms ns
      → foldl extend_message d ms ≡ foldl extend_message d ns
  unfolding extend_message
  messages_same d (inside before after cmd attrs parts h) =
      let e = foldl extend_message d before in
      foldl-append extend_message d before ((record { cmd = cmd; attributes = attrs }) ∷ after)
      ∙ (ap (λ f. foldl extend_message f after) (attributes_same e h)
          ∙ sym (
              foldl-append extend_message d before
                ((record { cmd = cmd; attributes = parts }) ∷ after)))
  messages_same d (apart before after cmd attrs more) =
      let e = foldl extend_message d before in
      foldl-append extend_message d before
        ((record { cmd = cmd; attributes = attrs ++ more }) ∷ after)
      ∙ (ap (λ f. foldl extend_message f after) (foldl-append extend_attribute e attrs more)
          ∙ sym (
              foldl-append extend_message d before (
                (record { cmd = cmd; attributes = attrs })
                ∷ (record { cmd = cmd; attributes = more })
                ∷ after)))

  -- However the kernel cuts a dump into messages, the same configuration is read from it: cuts
  -- between two attributes of a message, between two peers, and within the allowed IPs of a peer,
  -- whose public key the next part repeats, one after the other and in any number, change nothing.
  -- The allowed IPs that are cut are the last attribute of their peer.
  pub parse_messages-Cuts :
      {ms ns : List WireguardMessage} → Cuts ms ns → parse_messages ms ≡ parse_messages ns
  unfolding parse_messages
  parse_messages-Cuts uncut = refl
  parse_messages-Cuts (cut step later) =
      messages_same default_device step ∙ parse_messages-Cuts later
