-- ===== src/Handle/Building.antt =====
-- What the errors of building a configuration keep of a message.
use nl_wireguard.Base.{
  ℕ, ◌+◌, ◌≡◌, refl, ◌⊎◌, ltb, leb, ◌==◌, flatten_option, Bool, true, false, Option, none, some,
  String, List, [], ◌∷◌, ◌++◌, if◌then◌else◌, is_empty, Bool-cases, inl, inr, not, ◌&&◌, ◌||◌,
  Option-cases, length,
}
use nl_wireguard.Base.Text.{len, contains_nul}
use nl_wireguard.Packet.{
  Bytes, WireguardCmd, WireguardPeer, WireguardAttribute, WireguardPeerAttribute, WireguardMessage,
}
use nl_wireguard.Crates.{Crates, Decoded, decoded, invalid}
use nl_wireguard.Error.{Result, ok, err, error_new, ◌>>=◌, Result-cases}
use nl_wireguard.Key.{decode_key}
use nl_wireguard.AllowedIp.{WireguardIpAddress, validate, max_prefix_length}
use nl_wireguard.Peer.{WireguardPeerParsed, validate_all, allowed_ips_attribute, build_holding}
use nl_wireguard.Peer
use nl_wireguard.Split.{peer_chunks, max_nla_value_len}
use nl_wireguard.Split.Peers.{peer_chunks-eq-err_iff}
use nl_wireguard.Device
use nl_wireguard.Device.{
  WireguardParsed, ifnamsiz, iface_attribute, device_attributes, leading_attributes, build_message,
}
use nl_wireguard.Messages.{
  Builder, no_messages, flush, add_chunk, add_chunks, add_peers, finish, build_messages,
}
use nl_wireguard.Handle.Stream.{IsSafe}

pub bind-IsSafe {κ μ} :
    {T : Type κ} {U : Type μ} (r : Result T) (next : T → Result U)
    → IsSafe r
    → ((value : T) → IsSafe (next value))
    → IsSafe (r >>= next)
bind-IsSafe (ok value) next h k = k value
bind-IsSafe (err e) next h k = h

pub if-IsSafe {κ} :
    {T : Type κ} (b : Bool) (x y : Result T) → IsSafe x → IsSafe y → IsSafe (if b then x else y)
if-IsSafe true x y h k = h
if-IsSafe false x y h k = k

pub Decoded-cases :
    (d : Decoded) → ((bytes : Bytes) × (d ≡ decoded bytes)) ⊎ ((e : String) × (d ≡ invalid e))
Decoded-cases (decoded bytes) = inl (bytes, refl)
Decoded-cases (invalid e) = inr (e, refl)

module _ ⦃c : Crates⦄ where
  decode_key-IsSafe : (prop_name s : String) → IsSafe (decode_key prop_name s)
  unfolding decode_key error_new
  decode_key-IsSafe prop_name s = elim (Decoded-cases (c.decode s)) [
    | inl (bytes, e) ↦ elim (Bool-cases (length bytes == c.wg_key_len)) [
      | inl fits ↦ rw (e, fits, decode_key) tt
      | inr other ↦ rw (e, other, decode_key) tt
    ]
    | inr (text, e) ↦ rw (e, decode_key) tt
  ]

  peer_key-IsSafe :
      (prop_name : String) (make : Bytes → WireguardPeerAttribute) (o : Option String)
      → IsSafe (Peer.key_attribute prop_name make o)
  unfolding Peer.key_attribute
  peer_key-IsSafe prop_name make none = tt
  peer_key-IsSafe prop_name make (some v) =
      bind-IsSafe (decode_key prop_name v) _ (decode_key-IsSafe prop_name v) (λ key. tt)

  validate-IsSafe : (ip : WireguardIpAddress) → IsSafe (validate ip)
  unfolding validate error_new
  validate-IsSafe ip = elim (Bool-cases (ltb (max_prefix_length ip.ip_addr) ip.prefix_length)) [
    | inl long ↦ rw (long, validate) tt
    | inr fits ↦ rw (fits, validate) tt
  ]

  validate_all-IsSafe : (ips : List WireguardIpAddress) → IsSafe (validate_all ips)
  unfolding validate_all
  validate_all-IsSafe [] = tt
  validate_all-IsSafe (ip ∷ ips) =
      bind-IsSafe (validate ip) _ (validate-IsSafe ip) (λ u. validate_all-IsSafe ips)

  ips-IsSafe : (o : Option (List WireguardIpAddress)) → IsSafe (allowed_ips_attribute o)
  unfolding allowed_ips_attribute
  ips-IsSafe none = tt
  ips-IsSafe (some ips) = bind-IsSafe (validate_all ips) _ (validate_all-IsSafe ips) (λ u. tt)

  build_holding-IsSafe : (p : WireguardPeerParsed) (v : String) → IsSafe (build_holding p v)
  unfolding build_holding
  build_holding-IsSafe p v =
      bind-IsSafe (Peer.key_attribute _ _ _) _ (peer_key-IsSafe _ _ _) (λ public.
        bind-IsSafe (Peer.key_attribute _ _ _) _ (peer_key-IsSafe _ _ _)
          (λ preshared. bind-IsSafe (allowed_ips_attribute _) _ (ips-IsSafe _) (λ ips. tt)))

  peer_build-IsSafe : (p : WireguardPeerParsed) → IsSafe (Peer.build p)
  unfolding Peer.build error_new
  peer_build-IsSafe p = elim (Option-cases p.public_key) [
    | inl absent ↦ rw (absent, Peer.build) tt
    | inr (v, there) ↦ rw (there, Peer.build) (build_holding-IsSafe p v)
  ]

  peer_chunks-IsSafe : (p : WireguardPeerParsed) → IsSafe (peer_chunks p)
  peer_chunks-IsSafe p = elim (Result-cases (peer_chunks p)) [
    | inl (chunks, e) ↦ rw e tt
    | inr (error, e) ↦ rw e (rw ((peer_chunks-eq-err_iff p error).0 e) at (peer_build-IsSafe p))
  ]

  iface-IsSafe : (self : WireguardParsed) → IsSafe (iface_attribute self)
  unfolding iface_attribute error_new
  iface-IsSafe self = elim (Option-cases self.iface_name) [
    | inr (name, e) ↦ elim (Bool-cases (leb ifnamsiz (len name))) [
      | inl long ↦ rw (e, long, iface_attribute) tt
      | inr short ↦ elim (Bool-cases (contains_nul name)) [
        | inl nul ↦ rw (e, short, nul, iface_attribute) tt
        | inr plain ↦ rw (e, short, plain, iface_attribute) tt
      ]
    ]
    | inl no_name ↦ elim (Option-cases self.iface_index) [
      | inl no_index ↦ rw (no_name, no_index, iface_attribute) tt
      | inr (index, e) ↦ rw (no_name, e, iface_attribute) tt
    ]
  ]

  device_key-IsSafe :
      (prop_name : String) (make : Bytes → WireguardAttribute) (o : Option String)
      → IsSafe (Device.key_attribute prop_name make o)
  unfolding Device.key_attribute
  device_key-IsSafe prop_name make none = tt
  device_key-IsSafe prop_name make (some v) =
      bind-IsSafe (decode_key prop_name v) _ (decode_key-IsSafe prop_name v) (λ key. tt)

  device-IsSafe : (self : WireguardParsed) → IsSafe (device_attributes self)
  unfolding device_attributes
  device-IsSafe self = bind-IsSafe (iface_attribute self) _ (iface-IsSafe self) (λ iface.
      bind-IsSafe (Device.key_attribute _ _ _) _ (device_key-IsSafe _ _ _) (λ public.
        bind-IsSafe (Device.key_attribute _ _ _) _ (device_key-IsSafe _ _ _) (λ private. tt)))

  leading-IsSafe : (self : WireguardParsed) (first : Bool) → IsSafe (leading_attributes self first)
  unfolding leading_attributes
  leading-IsSafe self true = device-IsSafe self
  leading-IsSafe self false = bind-IsSafe (iface_attribute self) _ (iface-IsSafe self) (λ iface. tt)

  module _ (self : WireguardParsed) (cmd : WireguardCmd) where
    message-IsSafe :
        (first : Bool) (peers : List WireguardPeer) → IsSafe (build_message self cmd first peers)
    unfolding build_message
    message-IsSafe first peers =
        bind-IsSafe (leading_attributes self first) _ (leading-IsSafe self first) (λ attributes. tt)

    flush-IsSafe : (b : Builder) (n : ℕ) → IsSafe (flush self cmd b n)
    unfolding flush
    flush-IsSafe b n =
        let close : WireguardMessage → Result Builder = λ message.
          ok (record { messages = b.messages ++ message ∷ []; peers = []; peers_len = 0 }) in
        if-IsSafe (not (is_empty b.peers) && ltb max_nla_value_len (b.peers_len + n))
          (build_message self cmd (is_empty b.messages) b.peers >>= close) (ok b)
          (bind-IsSafe (build_message self cmd (is_empty b.messages) b.peers) close
            (message-IsSafe _ _) (λ message. tt))
          tt

    add_chunks-IsSafe :
        (b : Builder) (chunks : List WireguardPeer) → IsSafe (add_chunks self cmd b chunks)
    unfolding add_chunks add_chunk
    add_chunks-IsSafe b [] = tt
    add_chunks-IsSafe b (chunk ∷ chunks) =
        bind-IsSafe (add_chunk self cmd b chunk) _
          (bind-IsSafe (flush self cmd b (c.peer_buffer_len chunk)) _ (flush-IsSafe b _) (λ b'. tt))
          (λ b'. add_chunks-IsSafe b' chunks)

    add_peers-IsSafe :
        (b : Builder) (peers : List WireguardPeerParsed) → IsSafe (add_peers self cmd b peers)
    unfolding add_peers
    add_peers-IsSafe b [] = tt
    add_peers-IsSafe b (p ∷ peers) = bind-IsSafe (peer_chunks p) _ (peer_chunks-IsSafe p) (λ chunks.
        bind-IsSafe (add_chunks self cmd b chunks) _ (add_chunks-IsSafe b chunks)
          (λ b'. add_peers-IsSafe b' peers))

    finish-IsSafe : (b : Builder) → IsSafe (finish self cmd b)
    unfolding finish
    finish-IsSafe b =
        let push : WireguardMessage → Result (List WireguardMessage) =
          λ message. ok (b.messages ++ message ∷ []) in
        if-IsSafe (not (is_empty b.peers) || is_empty b.messages)
          (build_message self cmd (is_empty b.messages) b.peers >>= push) (ok b.messages)
          (bind-IsSafe (build_message self cmd (is_empty b.messages) b.peers) push
            (message-IsSafe _ _) (λ message. tt))
          tt

    pub build_messages-IsSafe : IsSafe (build_messages self cmd)
    unfolding build_messages
    build_messages-IsSafe =
        bind-IsSafe (add_peers self cmd no_messages (flatten_option self.peers)) _
          (add_peers-IsSafe _ _) finish-IsSafe
