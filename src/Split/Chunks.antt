-- ===== src/Split/Chunks.antt =====
-- The chunks of a peer that has allowed IPs: what they carry and how long they are.
use nl_wireguard.Base.{
  ℕ, zero, suc, ◌+◌, ◌≤◌, ◌<◌, ◌≡◌, refl, ap, inl, inr, List, [], ◌∷◌, ◌++◌, length, sum_by, arith,
  All, All-left, All-right, concat_map, length-append, sum_by-append, append-nil,
}
use nl_wireguard.Packet.{Bytes, WireguardAllowedIp, WireguardPeerAttribute, WireguardPeer}
use nl_wireguard.Crates.{Crates, LengthLaws}
use nl_wireguard.Split.{max_nla_value_len, take_allowed_ips_batch, continuation_chunks, ip_chunks}
use nl_wireguard.Split.Batch.{IsBatch, take_allowed_ips_batch_lem}

abbrev attr_ips : WireguardPeerAttribute → List WireguardAllowedIp
attr_ips (WireguardPeerAttribute.allowed_ips ips) = ips
attr_ips _ = []

-- The allowed IPs of a peer.
abbrev pub ips_of : WireguardPeer → List WireguardAllowedIp
ips_of = concat_map attr_ips

abbrev keep_state : WireguardPeerAttribute → List WireguardPeerAttribute
keep_state (WireguardPeerAttribute.allowed_ips ips) = []
keep_state attr = attr ∷ []

-- The attributes of a peer but its allowed IPs.
abbrev pub without_ips : WireguardPeer → List WireguardPeerAttribute
without_ips = concat_map keep_state

-- A chunk that repeats nothing but the key, and carries an allowed IP at least.
pub record IsContinuation (key : Bytes) (chunk : WireguardPeer) : Type 0 where
  pub batch : List WireguardAllowedIp
  pub shape :
      chunk ≡ WireguardPeerAttribute.public_key key ∷ WireguardPeerAttribute.allowed_ips batch ∷ []
  pub some_taken : 1 ≤ length batch

module _ ⦃c : Crates⦄ where
  pub shorter :
      (n : ℕ) (ips batch rest : List WireguardAllowedIp)
      → IsBatch n ips batch rest
      → length rest < length ips
  shorter n ips batch rest b =
      let total = length-append batch rest in
      let same = ap length b.whole in omega (arith, b.some_taken)

  -- The loop ends with no allowed IP left if its fuel is their number.
  continuation_ips :
      (fuel : ℕ) (key : Bytes) (ips : List WireguardAllowedIp)
      → length ips ≤ fuel
      → concat_map ips_of (continuation_chunks fuel (WireguardPeerAttribute.public_key key) ips)
        ≡ ips
  unfolding continuation_chunks
  continuation_ips zero key [] h = refl
  continuation_ips zero key (ip ∷ ips) h = absurd (omega arith)
  continuation_ips (suc fuel) key [] h = refl
  continuation_ips (suc fuel) key (ip ∷ ips) h =
      let n = c.nla_header_size + c.attr_buffer_len (WireguardPeerAttribute.public_key key) in
      let (batch, rest) = take_allowed_ips_batch (ip ∷ ips) n in
      let b = take_allowed_ips_batch_lem ip ips n in
      let less = shorter n (ip ∷ ips) batch rest b in
      let ih = continuation_ips fuel key rest (omega arith) in simp (append-nil, ih) b.whole

  continuation_chunks-IsContinuation :
      (fuel : ℕ) (key : Bytes) (ips : List WireguardAllowedIp)
      → All
          (IsContinuation key)
          (continuation_chunks fuel (WireguardPeerAttribute.public_key key) ips)
  unfolding continuation_chunks
  continuation_chunks-IsContinuation zero key ips = tt
  continuation_chunks-IsContinuation (suc fuel) key [] = tt
  continuation_chunks-IsContinuation (suc fuel) key (ip ∷ ips) =
      let n = c.nla_header_size + c.attr_buffer_len (WireguardPeerAttribute.public_key key) in
      (
        record {
          batch = (take_allowed_ips_batch (ip ∷ ips) n).0;
          shape = refl;
          some_taken = (take_allowed_ips_batch_lem ip ips n).some_taken;
        },
        continuation_chunks-IsContinuation fuel key (take_allowed_ips_batch (ip ∷ ips) n).1,
      )

  -- An address that fits behind `n` bytes.
  abbrev pub HasRoom : ℕ → WireguardAllowedIp → Type 0
  HasRoom n ip = n + c.nla_header_size + c.ip_buffer_len ip ≤ max_nla_value_len

  batch_bound :
      (n : ℕ) (ips batch rest : List WireguardAllowedIp)
      → IsBatch n ips batch rest
      → All (HasRoom n) batch
      → n + c.nla_header_size + sum_by c.ip_buffer_len batch ≤ max_nla_value_len
  batch_bound n ips [] rest b room = absurd (omega (arith, b.some_taken))
  batch_bound n ips (x ∷ []) rest b room = omega (arith, room.0)
  batch_bound n ips (x ∷ y ∷ batch) rest b room = elim b.fits [
    | inl single ↦ absurd (omega arith)
    | inr fits ↦ fits
  ]

  -- The two halves of what has room.
  room_taken :
      (n m : ℕ) (ips batch rest : List WireguardAllowedIp)
      → IsBatch n ips batch rest
      → All (HasRoom m) ips
      → All (HasRoom m) batch × All (HasRoom m) rest
  room_taken n m ips batch rest b room =
      let parts : All (HasRoom m) (batch ++ rest) = rw b.whole room in
      (All-left (HasRoom m) batch rest parts, All-right (HasRoom m) batch rest parts)

  abbrev pub FitsNla : WireguardPeer → Type 0
  FitsNla chunk = c.peer_buffer_len chunk ≤ max_nla_value_len

  abbrev pub key_len : Bytes → ℕ
  key_len key = c.nla_header_size + c.attr_buffer_len (WireguardPeerAttribute.public_key key)

  abbrev pub state_len : List WireguardPeerAttribute → ℕ
  state_len state = c.nla_header_size + sum_by c.attr_buffer_len state

  module _ (lengths : LengthLaws c) where
    -- the length of a chunk whose last attribute is `batch`
    pub chunk_length :
        (state : List WireguardPeerAttribute) (batch : List WireguardAllowedIp)
        → c.peer_buffer_len (state ++ WireguardPeerAttribute.allowed_ips batch ∷ [])
          ≡ state_len state + c.nla_header_size + sum_by c.ip_buffer_len batch
    chunk_length state batch = omega (
      arith,
      lengths.peer_length (state ++ WireguardPeerAttribute.allowed_ips batch ∷ []),
      lengths.ips_length batch,
      sum_by-append c.attr_buffer_len state (WireguardPeerAttribute.allowed_ips batch ∷ []),
    )

    continuation_bounds :
        (fuel : ℕ) (key : Bytes) (ips : List WireguardAllowedIp)
        → All (HasRoom (key_len key)) ips
        → All FitsNla (continuation_chunks fuel (WireguardPeerAttribute.public_key key) ips)
    unfolding continuation_chunks
    continuation_bounds zero key ips room = tt
    continuation_bounds (suc fuel) key [] room = tt
    continuation_bounds (suc fuel) key (ip ∷ ips) room =
        let (batch, rest) = take_allowed_ips_batch (ip ∷ ips) (key_len key) in
        let b = take_allowed_ips_batch_lem ip ips (key_len key) in
        let (taken, left) = room_taken (key_len key) (key_len key) (ip ∷ ips) batch rest b room in
        let bound = batch_bound (key_len key) (ip ∷ ips) batch rest b taken in
        let long = chunk_length (WireguardPeerAttribute.public_key key ∷ []) batch in
        (omega arith, continuation_bounds fuel key rest left)

    pub ip_chunks_bounds :
        (state : List WireguardPeerAttribute) (key : Bytes) (ip : WireguardAllowedIp)
        (ips : List WireguardAllowedIp)
        → All (HasRoom (state_len state)) (ip ∷ ips)
        → All (HasRoom (key_len key)) (ip ∷ ips)
        → All FitsNla (ip_chunks state (WireguardPeerAttribute.public_key key) (ip ∷ ips))
    unfolding ip_chunks
    ip_chunks_bounds state key ip ips room room_later =
        let n = state_len state in
        let (batch, rest) = take_allowed_ips_batch (ip ∷ ips) n in
        let b = take_allowed_ips_batch_lem ip ips n in
        let (taken, left) = room_taken n n (ip ∷ ips) batch rest b room in
        let (taken', left') = room_taken n (key_len key) (ip ∷ ips) batch rest b room_later in
        let bound = batch_bound n (ip ∷ ips) batch rest b taken in
        let long = chunk_length state batch in
        (omega arith, continuation_bounds (length rest) key rest left')

  -- The first chunk holds the state, and all chunks together the allowed IPs in their order.
  pub record AreChunks (state : List WireguardPeerAttribute) (key : Bytes)
      (ips : List WireguardAllowedIp) (chunks : List WireguardPeer) : Type 0 where
    pub first_batch : List WireguardAllowedIp
    pub more : List WireguardPeer
    pub shape : chunks ≡ (state ++ WireguardPeerAttribute.allowed_ips first_batch ∷ []) ∷ more
    pub continuations : All (IsContinuation key) more
    pub all_ips : first_batch ++ concat_map ips_of more ≡ ips

  pub ip_chunks-AreChunks :
      (state : List WireguardPeerAttribute) (key : Bytes) (ip : WireguardAllowedIp)
      (ips : List WireguardAllowedIp)
      → AreChunks state key
          (ip ∷ ips)
          (ip_chunks state (WireguardPeerAttribute.public_key key) (ip ∷ ips))
  unfolding ip_chunks
  ip_chunks-AreChunks state key ip ips =
      let n = state_len state in
      let (batch, rest) = take_allowed_ips_batch (ip ∷ ips) n in
      let b = take_allowed_ips_batch_lem ip ips n in
      record {
        first_batch = batch;
        more = continuation_chunks (length rest) (WireguardPeerAttribute.public_key key) rest;
        shape = refl;
        continuations = continuation_chunks-IsContinuation (length rest) key rest;
        all_ips = rw (continuation_ips (length rest) key rest (omega arith)) b.whole;
      }
