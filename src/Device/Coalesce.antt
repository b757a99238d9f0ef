-- ===== src/Device/Coalesce.antt =====
-- `push_peer` of src/parsed.rs on the chunks of a split peer.
use mathlib.Core.List.{foldl}
use mathlib.Core.Option
use nl_wireguard.Base.{
  ◌≡◌, refl, ap, sym, ◌∙◌, true, false, Option, none, some, List, [], ◌∷◌, ◌++◌, concat_map,
  append_assoc, append-nil, inl, inr, ◌⊎◌, if◌then◌else◌, Bool-cases, map, All, String,
  flatten_option,
}
use nl_wireguard.Base.Text.{eq_iff}
use nl_wireguard.Packet.{Bytes, WireguardPeerAttribute, WireguardPeer}
use nl_wireguard.Crates.{Crates, Base64Laws}
use nl_wireguard.Error.{ok}
use nl_wireguard.AllowedIp.{WireguardIpAddress, ip_attributes}
use nl_wireguard.AllowedIp.RoundTrip.{normal_ip}
use nl_wireguard.Peer.{
  WireguardPeerParsed, default_peer, parse_peer, parse_allowed_ips, build, merge_continuation,
  extend,
}
use nl_wireguard.Peer.Built.{built}
use nl_wireguard.Peer.Parsing.{normal_peer, IsDuration, or_keep-none, valid_ips}
use nl_wireguard.Peer.RoundTrip.{parse_peer-build}
use nl_wireguard.Split.{peer_chunks}
use nl_wireguard.Split.Chunks.{ips_of, without_ips, IsContinuation}
use nl_wireguard.Split.Parts.{parted, removes}
use nl_wireguard.Split.Peers.{peer_chunks-IsSplit, peer_chunks_single, peer_cases}
use nl_wireguard.Split.Parsed.{
  with_ips, parse_first, parse_state, parse_continuation, parse_allowed_ips-append, encoded_key,
}
use nl_wireguard.Device.{same_key, push_peer, push_parsed}

-- The last of these peers, if there is one, has another key.
abbrev pub StartsNew : Option String → List WireguardPeerParsed → Type 0
StartsNew key [] = Unit
StartsNew key (last ∷ []) = same_key last.public_key key ≡ false
StartsNew key (first ∷ next ∷ peers) = StartsNew key (next ∷ peers)

pub push_new :
    (before : List WireguardPeerParsed) (peer : WireguardPeerParsed)
    → StartsNew peer.public_key before
    → push_peer before peer ≡ before ++ peer ∷ []
unfolding push_peer
push_new [] peer h = refl
push_new (last ∷ []) peer h = rw h refl
push_new (first ∷ next ∷ before) peer h = ap (λ ps. first ∷ ps) (push_new (next ∷ before) peer h)

push_same :
    (before : List WireguardPeerParsed) (last peer : WireguardPeerParsed)
    → same_key last.public_key peer.public_key ≡ true
    → push_peer (before ++ last ∷ []) peer ≡ before ++ merge_continuation last peer ∷ []
unfolding push_peer
push_same [] last peer h = rw h refl
push_same (first ∷ []) last peer h = ap (λ ps. first ∷ ps) (push_same [] last peer h)
push_same (first ∷ next ∷ before) last peer h =
    ap (λ ps. first ∷ ps) (push_same (next ∷ before) last peer h)

same_key_refl : (key : String) → same_key (some key) (some key) ≡ true
unfolding same_key
same_key_refl key = (eq_iff key key).1 refl

pub extend-none {ℓ} : {A : Type ℓ} (o : Option (List A)) → extend o none ≡ o
extend-none none = refl
extend-none (some xs) = refl

-- A key and allowed IPs alone add the allowed IPs.
pub merge_ips :
    (s : WireguardPeerParsed) (key : String) (xs more : List WireguardIpAddress)
    → s.public_key ≡ some key
    → merge_continuation
        (with_ips (some xs) s)
        (record default_peer { public_key = some key; allowed_ips = some more })
      ≡ with_ips (some (xs ++ more)) s
unfolding merge_continuation
merge_ips s key xs more h = cc (
  h,
  or_keep-none s.endpoint,
  or_keep-none s.preshared_key,
  or_keep-none s.persistent_keepalive,
  or_keep-none s.last_handshake,
  or_keep-none s.rx_bytes,
  or_keep-none s.tx_bytes,
  or_keep-none s.protocol_version,
  extend-none s.flags,
)

module _ ⦃c : Crates⦄ where
  -- The peer that parsing reports: without allowed IPs if it is to be removed.
  abbrev pub reported : WireguardPeerParsed → WireguardPeerParsed
  reported p = if removes p.flags then with_ips none (normal_peer p) else normal_peer p

  reported_alone :
      (p : WireguardPeerParsed) → p.allowed_ips ≡ none → with_ips none (normal_peer p) ≡ reported p
  reported_alone p h = elim (Bool-cases (removes p.flags)) [
    | inl removed ↦ rw removed refl
    | inr keeps ↦ rw (keeps, h) refl
  ]

  -- Continuations of the last peer extend its allowed IPs.
  push_continuations :
      (before : List WireguardPeerParsed) (s : WireguardPeerParsed) (key : Bytes)
      (xs : List WireguardIpAddress) (more : List WireguardPeer)
      → s.public_key ≡ some (c.encode key)
      → All (IsContinuation key) more
      → foldl push_parsed (before ++ with_ips (some xs) s ∷ []) more
        ≡ before ++ with_ips (some (xs ++ parse_allowed_ips (concat_map ips_of more))) s ∷ []
  unfolding push_parsed parse_allowed_ips
  push_continuations before s key xs [] h shapes = rw (append-nil xs) refl
  push_continuations before s key xs (chunk ∷ more) h (here, later) =
      let parsed = ap parse_peer here.shape ∙ parse_continuation key here.batch in
      let pushed =
        push_same before (with_ips (some xs) s)
          (record default_peer {
            public_key = some (c.encode key);
            allowed_ips = some (parse_allowed_ips here.batch);
          })
          (rw h (same_key_refl (c.encode key))) in
      let merged = merge_ips s (c.encode key) xs (parse_allowed_ips here.batch) h in
      let rest =
        push_continuations before s key (xs ++ parse_allowed_ips here.batch) more h later in
      let step : push_parsed (before ++ with_ips (some xs) s ∷ []) chunk
          ≡ before ++ with_ips (some (xs ++ parse_allowed_ips here.batch)) s ∷ [] =
        ap (push_peer (before ++ with_ips (some xs) s ∷ [])) parsed
        ∙ (pushed ∙ ap (λ p. before ++ p ∷ []) merged) in
      let ips : concat_map ips_of (chunk ∷ more) ≡ here.batch ++ concat_map ips_of more =
        ap (λ ch. ips_of ch ++ concat_map ips_of more) here.shape
        ∙ ap (λ b. b ++ concat_map ips_of more) (append-nil here.batch) in
      ap (λ ps. foldl push_parsed ps more) step
      ∙ (rest
          ∙ ap (λ ys. before ++ with_ips (some ys) s ∷ [])
              (append_assoc xs (parse_allowed_ips here.batch)
                  (parse_allowed_ips (concat_map ips_of more))
                ∙ ap (λ ys. xs ++ ys)
                    (sym (
                      ap parse_allowed_ips ips
                      ∙ parse_allowed_ips-append here.batch (concat_map ips_of more)))))

  push_split :
      (base64 : Base64Laws c) (before : List WireguardPeerParsed) (p : WireguardPeerParsed)
      (attrs : WireguardPeer) (ips : List WireguardIpAddress) (chunks : List WireguardPeer)
      → IsDuration p.last_handshake
      → build p ≡ ok attrs
      → p.allowed_ips ≡ some ips
      → removes p.flags ≡ false
      → StartsNew p.public_key before
      → peer_chunks p ≡ ok chunks
      → foldl push_parsed before chunks ≡ before ++ normal_peer p ∷ []
  unfolding push_parsed
  push_split base64 before p attrs ips chunks valid h has keeps new split =
      let (chunks', split', is) = peer_chunks-IsSplit p attrs ips h has keeps in
      let same : chunks' ≡ chunks = cc (split', split) in
      let are = is.chunked in
      let batch = are.first_batch in
      let parsed = parse_peer-build base64 p valid attrs h in
      let first : parse_peer (without_ips attrs ++ WireguardPeerAttribute.allowed_ips batch ∷ [])
          ≡ with_ips (some (parse_allowed_ips batch)) (normal_peer p) =
        parse_first attrs batch ∙ ap (with_ips (some (parse_allowed_ips batch))) parsed in
      let rest =
        push_continuations before (normal_peer p) is.key (parse_allowed_ips batch) are.more
          (encoded_key base64 p attrs is.key h is.holds_key) are.continuations in
      let all_ips : parse_allowed_ips batch ++ parse_allowed_ips (concat_map ips_of are.more)
          ≡ map normal_ip ips =
        sym (parse_allowed_ips-append batch (concat_map ips_of are.more))
        ∙ (ap parse_allowed_ips (
              are.all_ips
              ∙ ((parted p attrs (built p attrs h)).1
                  ∙ ap (λ o. flatten_option (Option.map (map ip_attributes) o)) has))
            ∙ valid_ips ips) in
      ap (foldl push_parsed before) (sym same ∙ are.shape)
      ∙ (ap (λ q. foldl push_parsed (push_peer before q) are.more) first
          ∙ (ap (λ ps. foldl push_parsed ps are.more)
                (push_new before (with_ips (some (parse_allowed_ips batch)) (normal_peer p)) new)
              ∙ (rest
                  ∙ ap (λ o. before ++ with_ips o (normal_peer p) ∷ [])
                      (ap some all_ips ∙ sym (ap (Option.map (map normal_ip)) has)))))

  push_single :
      (base64 : Base64Laws c) (before : List WireguardPeerParsed) (p : WireguardPeerParsed)
      (attrs : WireguardPeer) (chunks : List WireguardPeer)
      → IsDuration p.last_handshake
      → build p ≡ ok attrs
      → (p.allowed_ips ≡ none) ⊎ (removes p.flags ≡ true)
      → StartsNew p.public_key before
      → peer_chunks p ≡ ok chunks
      → foldl push_parsed before chunks ≡ before ++ with_ips none (normal_peer p) ∷ []
  unfolding push_parsed
  push_single base64 before p attrs chunks valid h alone new split =
      let same : (without_ips attrs ∷ []) ≡ chunks =
        cc (peer_chunks_single p attrs h alone, split) in
      let parsed =
        parse_state attrs ∙ ap (with_ips none) (parse_peer-build base64 p valid attrs h) in
      ap (foldl push_parsed before) (sym same)
      ∙ (ap (push_peer before) parsed ∙ push_new before (with_ips none (normal_peer p)) new)

  -- The chunks of a peer, parsed and pushed one after the other onto peers of which the last has
  -- another key, are that one peer again, as `reported` has it: with all its allowed IPs in their
  -- order, or with none if the peer is to be removed. It is assumed that base64 keeps bytes and
  -- accepts only the text that it writes, and that the last handshake is a duration.
  pub push_peer-peer_chunks :
      (base64 : Base64Laws c) (before : List WireguardPeerParsed) (p : WireguardPeerParsed)
      (attrs : WireguardPeer) (chunks : List WireguardPeer)
      → IsDuration p.last_handshake
      → build p ≡ ok attrs
      → StartsNew p.public_key before
      → peer_chunks p ≡ ok chunks
      → foldl push_parsed before chunks ≡ before ++ reported p ∷ []
  push_peer-peer_chunks base64 before p attrs chunks valid h new split = elim (peer_cases p) [
    | inl no_ips ↦
        push_single base64 before p attrs chunks valid h (inl no_ips) new split
        ∙ ap (λ q. before ++ q ∷ []) (reported_alone p no_ips)
    | inr (inl removed) ↦
        push_single base64 before p attrs chunks valid h (inr removed) new split
        ∙ ap (λ q. before ++ q ∷ []) (rw removed refl)
    | inr (inr (ips, has, keeps)) ↦
        push_split base64 before p attrs ips chunks valid h has keeps new split
        ∙ ap (λ q. before ++ q ∷ []) (rw keeps refl)
  ]
