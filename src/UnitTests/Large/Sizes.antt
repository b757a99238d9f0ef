-- ===== src/UnitTests/Large/Sizes.antt =====
-- The peer with many allowed IPs: how it is built and split, and how long it is.
use nl_wireguard.Base.{
  ℕ, zero, suc, ◌+◌, ◌*◌, ◌≤◌, ◌≡◌, refl, ap, ◌∙◌, List, [], ◌∷◌, map, length, sum_by,
  sum_by-append, length-append, length-map, concat_map, append-nil, All, arith,
}
use nl_wireguard.Base.Text.{contains_nul}
use nl_wireguard.Packet.{
  Bytes, WireguardAllowedIp, WireguardPeerAttribute, WireguardPeer, WireguardAttribute,
}
use nl_wireguard.Crates.{Crates, LengthLaws}
use nl_wireguard.Error.{ok}
use nl_wireguard.AllowedIp.{ip_attributes}
use nl_wireguard.Flags.{WireguardParsedDeviceFlags, build_device_flags}
use nl_wireguard.Peer.{
  build, build_holding, key_attribute, allowed_ips_attribute, validate_all, attributes_after_keys,
  attributes_after_ips,
}
use nl_wireguard.Peer.Accepted.{IsKey, HasValidPrefix, key_accepted, validates}
use nl_wireguard.Device
use nl_wireguard.Device.{device_attributes, iface_attribute}
use nl_wireguard.Split.Chunks.{ips_of, HasRoom}
use nl_wireguard.Messages.Bounds.{FitsPeer}
use nl_wireguard.UnitTests.Peers.{peer_public_key}
use nl_wireguard.UnitTests.Large.{
  device_private_key, host, counted, hosts, peer_with_allowed_ips, large_config, ip_count,
}

module _ ⦃c : Crates⦄ where
  -- The lengths of the crates: those of headers and padding, of a host and of a key.
  pub record Sizes : Type 0 where
    pub header : c.nla_header_size ≡ 4
    pub align : c.nla_alignto ≡ 4
    pub host_length : (i : ℕ) → c.ip_buffer_len (ip_attributes (host i)) ≡ 28
    pub key_length : (key : Bytes) → c.attr_buffer_len (WireguardPeerAttribute.public_key key) ≡ 36

length_of_concat {ℓ κ} :
    {A : Type ℓ} {B : Type κ} (f : A → List B) (xs : List A)
    → sum_by (λ x. length (f x)) xs ≡ length (concat_map f xs)
length_of_concat f [] = refl
length_of_concat f (x ∷ xs) =
    omega (arith, length_of_concat f xs, length-append (f x) (concat_map f xs))

ips_counted : (peer : WireguardPeer) → sum_by ip_count peer ≡ length (ips_of peer)
ips_counted [] = refl
ips_counted (WireguardPeerAttribute.allowed_ips ips ∷ peer) =
    omega (arith, ips_counted peer, length-append ips (ips_of peer))
ips_counted (_ ∷ peer) = omega (arith, ips_counted peer)

-- The allowed IPs of all the peers.
pub all_counted :
    (peers : List WireguardPeer) → sum_by (sum_by ip_count) peers ≡ length (concat_map ips_of peers)
all_counted [] = refl
all_counted (peer ∷ peers) = omega (
  arith,
  ips_counted peer,
  all_counted peers,
  length-append (ips_of peer) (concat_map ips_of peers),
)

counted-length : (start n : ℕ) → length (counted start n) ≡ n
counted-length start zero = refl
counted-length start (suc n) = ap suc (counted-length (suc start) n)

module _ ⦃c : Crates⦄ (lengths : LengthLaws c) where
  attributes_long :
      (peer : WireguardPeer) → sum_by c.ip_buffer_len (ips_of peer) ≤ sum_by c.attr_buffer_len peer
  attributes_long [] = omega arith
  attributes_long (WireguardPeerAttribute.allowed_ips ips ∷ peer) = omega (
    arith,
    attributes_long peer,
    lengths.ips_length ips,
    sum_by-append c.ip_buffer_len ips (ips_of peer),
  )
  attributes_long (_ ∷ peer) = omega (arith, attributes_long peer)

  -- Peers are no shorter than their allowed IPs.
  pub peers_long :
      (peers : List WireguardPeer)
      → sum_by c.ip_buffer_len (concat_map ips_of peers) ≤ sum_by c.peer_buffer_len peers
  peers_long [] = omega arith
  peers_long (peer ∷ peers) = omega (
    arith,
    peers_long peers,
    attributes_long peer,
    lengths.peer_length peer,
    sum_by-append c.ip_buffer_len (ips_of peer) (concat_map ips_of peers),
  )

module _ ⦃c : Crates⦄ where
  abbrev pub host_ips : ℕ → List WireguardAllowedIp
  host_ips count = map ip_attributes (hosts count)

  valid_from : (start n : ℕ) → All HasValidPrefix (map host (counted start n))
  valid_from start zero = tt
  valid_from start (suc n) = (omega arith, valid_from (suc start) n)

  pub host_ips-length : (count : ℕ) → length (host_ips count) ≡ count
  unfolding hosts
  host_ips-length count =
      length-map ip_attributes (hosts count)
      ∙ (length-map host (counted 0 count) ∙ counted-length 0 count)

  module _ (sizes : Sizes) where
    sum_from :
        (start n : ℕ)
        → sum_by c.ip_buffer_len (map ip_attributes (map host (counted start n))) ≡ 28 * n
    sum_from start zero = refl
    sum_from start (suc n) = omega (arith, sizes.host_length start, sum_from (suc start) n)

    pub host_ips-sum : (count : ℕ) → sum_by c.ip_buffer_len (host_ips count) ≡ 28 * count
    unfolding hosts
    host_ips-sum count = sum_from 0 count

    room_from : (start n : ℕ) → All (HasRoom 40) (map ip_attributes (map host (counted start n)))
    room_from start zero = tt
    room_from start (suc n) =
        (omega (arith, sizes.header, sizes.align, sizes.host_length start), room_from (suc start) n)

    host_ips-room : (count : ℕ) → All (HasRoom 40) (host_ips count)
    unfolding hosts
    host_ips-room count = room_from 0 count

  module _ (key : IsKey peer_public_key) (count : ℕ) where
    abbrev pub large_attributes : WireguardPeer
    large_attributes =
        WireguardPeerAttribute.public_key key.bytes
        ∷ WireguardPeerAttribute.allowed_ips (host_ips count)
        ∷ []

    pub hosts_validate : validate_all (hosts count) ≡ ok tt
    unfolding hosts
    hosts_validate = validates (hosts count) (valid_from 0 count)

    pub large_builds : build (peer_with_allowed_ips count) ≡ ok large_attributes
    unfolding build build_holding key_attribute allowed_ips_attribute attributes_after_keys
        attributes_after_ips
    large_builds = rw (key_accepted "peer.public_key" peer_public_key key, hosts_validate) refl

    pub large-FitsPeer : Sizes → FitsPeer (peer_with_allowed_ips count)
    large-FitsPeer sizes =
        let len : c.nla_header_size
              + (c.attr_buffer_len (WireguardPeerAttribute.public_key key.bytes) + 0)
            ≡ 40 =
          omega (arith, sizes.header, sizes.key_length key.bytes) in
        record {
          attrs = large_attributes;
          builds = large_builds;
          state_fits = omega (arith, len, sizes.header, sizes.align);
          ips_fit = rw (len, append-nil (host_ips count)) (host_ips-room sizes count);
        }

  abbrev pub large_device : Bytes → List WireguardAttribute
  large_device private =
      WireguardAttribute.if_name "wg0"
      ∷ WireguardAttribute.private_key private
      ∷ WireguardAttribute.flags
          (build_device_flags (WireguardParsedDeviceFlags.replace_peers ∷ []))
      ∷ []

  pub device_builds :
      (key : IsKey device_private_key) (count : ℕ)
      → device_attributes (large_config count) ≡ ok (large_device key.bytes)
  unfolding device_attributes iface_attribute Device.key_attribute contains_nul
  device_builds key count = rw (key_accepted "private_key" device_private_key key) refl
