-- ===== src/UnitTests/Large/Parts.antt =====
-- The messages for groups of a large peer's chunks, as the tests look at them.
use nl_wireguard.Base.{
  ℕ, suc, ◌+◌, ◌≤◌, ◌≡◌, refl, ap, true, false, all, List, [], ◌∷◌, map, length, length-map, sum_by,
  concat_map, append-nil, All, arith, leb, ◌==◌, length-append, sum_by-append,
}
use nl_wireguard.Packet.{Bytes, WireguardCmd, WireguardPeer, WireguardAttribute, WireguardMessage}
use nl_wireguard.Crates.{Crates}
use nl_wireguard.Flags.{WireguardParsedDeviceFlags, build_device_flags}
use nl_wireguard.Split.Chunks.{IsContinuation}
use nl_wireguard.Messages.Groups.{concat, with_peers, messages_for, IsGroup}
use nl_wireguard.Messages.Bounds.{FitsAttribute}
use nl_wireguard.UnitTests.Large.{peers_of, ip_count, allowed_ip_count, are_parts, is_key_or_ips}
use nl_wireguard.UnitTests.Large.Sizes.{large_device}

le→leb : (a b : ℕ) → a ≤ b → leb a b ≡ true
le→leb a b h = ground arith

not_zero : (n : ℕ) → (suc n == 0) ≡ false
not_zero n = ground arith

pub messages_for-length :
    (cmd : WireguardCmd) (device : List WireguardAttribute) (iface : WireguardAttribute)
    (groups : List (List WireguardPeer))
    → length (messages_for cmd device iface groups) ≡ length groups
messages_for-length cmd device iface [] = refl
messages_for-length cmd device iface (group ∷ groups) =
    ap suc (length-map (with_peers cmd (iface ∷ [])) groups)

module _ ⦃c : Crates⦄ where
  abbrev pub name : WireguardAttribute
  name = WireguardAttribute.if_name "wg0"

  -- The messages for these groups, with this private key in the first.
  abbrev pub parts : Bytes → List (List WireguardPeer) → List WireguardMessage
  parts private = messages_for WireguardCmd.set_device (large_device private) name

  later_peers :
      (groups : List (List WireguardPeer))
      → concat_map peers_of (map (with_peers WireguardCmd.set_device (name ∷ [])) groups)
        ≡ concat groups
  later_peers [] = refl
  later_peers (group ∷ groups) = cc (append-nil group, later_peers groups)

  pub parts_peers :
      (private : Bytes) (groups : List (List WireguardPeer))
      → concat_map peers_of (parts private groups) ≡ concat groups
  parts_peers private [] = refl
  parts_peers private (group ∷ groups) = cc (append-nil group, later_peers groups)

  pub sum_of_peers :
      (messages : List WireguardMessage)
      → sum_by allowed_ip_count messages ≡ sum_by (sum_by ip_count) (concat_map peers_of messages)
  sum_of_peers [] = refl
  sum_of_peers (m ∷ messages) = omega (
    arith,
    sum_of_peers messages,
    sum_by-append (sum_by ip_count) (peers_of m) (concat_map peers_of messages),
  )

  pub groups_nonempty :
      (groups : List (List WireguardPeer))
      → All IsGroup groups
      → length groups ≤ length (concat groups)
  groups_nonempty [] h = omega arith
  groups_nonempty (group ∷ groups) h =
      omega (arith, h.0.0, groups_nonempty groups h.1, length-append group (concat groups))

  pub continuations_repeat :
      (key : Bytes) (chunks : List WireguardPeer)
      → All (IsContinuation key) chunks
      → all (all is_key_or_ips) chunks ≡ true
  continuations_repeat key [] h = refl
  continuations_repeat key (chunk ∷ chunks) h =
      rw (h.0.shape, continuations_repeat key chunks h.1) refl

  -- The length of an attribute of the device: that of its peers, and short ones else.
  pub record BufferLaws (buffer_len : WireguardAttribute → ℕ) : Type 0 where
    pub peers_length :
        (peers : List WireguardPeer)
        → buffer_len (WireguardAttribute.peers peers)
          ≡ c.nla_header_size + sum_by c.peer_buffer_len peers
    pub name_short : buffer_len name ≤ 65535
    pub key_short : (key : Bytes) → buffer_len (WireguardAttribute.private_key key) ≤ 65535
    pub flags_short : (flags : ℕ) → buffer_len (WireguardAttribute.flags flags) ≤ 65535

  module _ (buffer_len : WireguardAttribute → ℕ) (laws : BufferLaws buffer_len) where
    peers_short :
        (group : List WireguardPeer)
        → FitsAttribute (WireguardAttribute.peers group)
        → leb (buffer_len (WireguardAttribute.peers group)) 65535 ≡ true
    peers_short group h = le→leb _ _ (omega (arith, laws.peers_length group))

    later_parts :
        (index : ℕ) (groups : List (List WireguardPeer))
        → All
            (λ m. All FitsAttribute m.attributes)
            (map (with_peers WireguardCmd.set_device (name ∷ [])) groups)
        → are_parts buffer_len
            (suc index)
            (map (with_peers WireguardCmd.set_device (name ∷ [])) groups)
          ≡ true
    later_parts index [] h = refl
    later_parts index (group ∷ groups) h =
        rw
          (
            le→leb _ _ laws.name_short,
            peers_short group h.0.1.0,
            not_zero index,
            later_parts (suc index) groups h.1,
          )
          refl

    pub all_parts :
        (private : Bytes) (groups : List (List WireguardPeer))
        → All (λ m. All FitsAttribute m.attributes) (parts private groups)
        → are_parts buffer_len 0 (parts private groups) ≡ true
    all_parts private [] h = refl
    all_parts private (group ∷ groups) h =
        rw
          (
            le→leb _ _ laws.name_short,
            le→leb _ _ (laws.key_short private),
            le→leb _ _ (
                laws.flags_short
                  (build_device_flags (WireguardParsedDeviceFlags.replace_peers ∷ []))),
            peers_short group h.0.1.1.1.0,
            later_parts 0 groups h.1,
          )
          refl
