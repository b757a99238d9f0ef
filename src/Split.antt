-- ===== src/Split.antt =====
-- `peer_chunks` and `take_allowed_ips_batch` of src/parsed.rs: a peer whose allowed IPs do not fit
-- into one netlink attribute is split.
pub mod Batch
pub mod Chunks
pub mod While
pub mod Parts
pub mod Peers
pub mod Parsed
pub mod Bounds
pub mod Devices
pub mod Applied
pub mod Created
pub mod Distinct
use mathlib.Core.List.{foldl}
use nl_wireguard.Base.{
  ℕ, zero, suc, ◌+◌, ◌-◌, ◌^◌, Bool, true, false, ◌&&◌, Option, none, some, List, [], ◌∷◌, ◌++◌,
  if◌then◌else◌, ltb, length, sum_by, take, drop,
}
use nl_wireguard.Packet.{WireguardAllowedIp, WireguardPeerAttribute, WireguardPeer}
use nl_wireguard.Crates.{Crates}
use nl_wireguard.Error.{ErrorKind, Result, ok, err, error_new, ◌>>=◌}
use nl_wireguard.Peer.{WireguardPeerParsed, build}

-- The local variables of `peer_chunks` that its first loop fills.
pub record PeerParts : Type 0 where
  pub state_attributes : List WireguardPeerAttribute
  pub allowed_ips : Option (List WireguardAllowedIp)
  pub remove_me : Bool

abbrev pub no_parts : PeerParts
no_parts = record { state_attributes = []; allowed_ips = none; remove_me = false }

-- `state_attributes.iter().find(…)`
unfoldable pub find_public_key : List WireguardPeerAttribute → Option WireguardPeerAttribute
find_public_key [] = none
find_public_key (WireguardPeerAttribute.public_key v ∷ attrs) =
    some (WireguardPeerAttribute.public_key v)
find_public_key (attr ∷ attrs) = find_public_key attrs

module _ ⦃c : Crates⦄ where
  abbrev pub max_nla_value_len : ℕ
  max_nla_value_len = 2 ^ 16 - 1 - c.nla_header_size - (c.nla_alignto - 1)

  -- The loop of `take_allowed_ips_batch`, which counts the allowed IPs to take.
  unfoldable pub batch_count : ℕ → ℕ → List WireguardAllowedIp → ℕ
  batch_count len count [] = count
  batch_count len count (ip ∷ ips) =
      let more = batch_count (len + c.ip_buffer_len ip) (count + 1) ips in
      if ltb 0 count && ltb max_nla_value_len (len + c.ip_buffer_len ip) then count else more

  -- The batch, and what is left of `ips`.
  unfoldable pub take_allowed_ips_batch :
      List WireguardAllowedIp → ℕ → List WireguardAllowedIp × List WireguardAllowedIp
  unfolding batch_count
  take_allowed_ips_batch ips prefix_len =
      let count = batch_count (prefix_len + c.nla_header_size) 0 ips in
      (take count ips, drop count ips)

  -- One round of the first loop of `peer_chunks`.
  unfoldable pub sort_attribute : PeerParts → WireguardPeerAttribute → PeerParts
  sort_attribute parts (WireguardPeerAttribute.allowed_ips ips) = record parts {
    allowed_ips = some ips;
  }
  sort_attribute parts (WireguardPeerAttribute.flags flags) = record parts {
    state_attributes = parts.state_attributes ++ WireguardPeerAttribute.flags flags ∷ [];
    remove_me = c.peer_contains flags c.peer_remove_me;
  }
  sort_attribute parts attribute = record parts {
    state_attributes = parts.state_attributes ++ attribute ∷ [];
  }

  -- The `while` loop, for at most `fuel` rounds.
  unfoldable pub continuation_chunks :
      ℕ → WireguardPeerAttribute → List WireguardAllowedIp → List WireguardPeer
  continuation_chunks zero key_attr ips = []
  continuation_chunks (suc fuel) key_attr [] = []
  continuation_chunks (suc fuel) key_attr (ip ∷ ips) =
      let (batch, rest) =
        take_allowed_ips_batch (ip ∷ ips) (c.nla_header_size + c.attr_buffer_len key_attr) in
      (key_attr ∷ WireguardPeerAttribute.allowed_ips batch ∷ [])
      ∷ continuation_chunks fuel key_attr rest

  -- The chunks of a peer that has allowed IPs, from the first one on. Each round takes an allowed
  -- IP at least, so their number is fuel enough.
  unfoldable pub ip_chunks :
      List WireguardPeerAttribute
      → WireguardPeerAttribute
      → List WireguardAllowedIp
      → List WireguardPeer
  unfolding continuation_chunks take_allowed_ips_batch
  ip_chunks state_attributes key_attr ips =
      let state_len = c.nla_header_size + sum_by c.attr_buffer_len state_attributes in
      let (first_batch, rest) = take_allowed_ips_batch ips state_len in
      (state_attributes ++ WireguardPeerAttribute.allowed_ips first_batch ∷ [])
      ∷ continuation_chunks (length rest) key_attr rest

  unfoldable pub split_ips :
      List WireguardPeerAttribute → List WireguardAllowedIp → Result (List WireguardPeer)
  unfolding ip_chunks
  split_ips state_attributes [] =
      ok ((state_attributes ++ WireguardPeerAttribute.allowed_ips [] ∷ []) ∷ [])
  split_ips state_attributes (ip ∷ ips) = elim (find_public_key state_attributes) [
    | none ↦ err (
        error_new ErrorKind.invalid_input
          "`peer.public_key` is required for splitting a peer over several netlink messages" none)
    | some key_attr ↦ ok (ip_chunks state_attributes key_attr (ip ∷ ips))
  ]

  -- `peer_chunks` after its first loop.
  unfoldable pub split_parts : PeerParts → Result (List WireguardPeer)
  unfolding split_ips
  split_parts parts = elim parts.allowed_ips [
    | none ↦ ok (parts.state_attributes ∷ [])
    | some ips ↦
        if parts.remove_me
        then ok (parts.state_attributes ∷ [])
        else split_ips parts.state_attributes ips
  ]

  unfoldable pub peer_chunks : WireguardPeerParsed → Result (List WireguardPeer)
  unfolding split_parts sort_attribute
  peer_chunks peer = do
    attributes ← build peer
    split_parts (foldl sort_attribute no_parts attributes)
