-- ===== src/Messages/Groups.antt =====
-- The messages of groups of peers, and what holds between the rounds of `build_messages`.
use nl_wireguard.Base.{
  ◌+◌, ltb, ◌≤◌, ◌≡◌, refl, ◌⊎◌, Bool, true, false, List, [], ◌∷◌, ◌++◌, map, arith, All, length,
  sum_by, is_empty, map-append, concat_map,
}
use nl_wireguard.Packet.{WireguardCmd, WireguardPeer, WireguardAttribute, WireguardMessage}
use nl_wireguard.Crates.{Crates}
use nl_wireguard.Error.{Result, ok, ◌>>=◌}
use nl_wireguard.Peer.{WireguardPeerParsed}
use nl_wireguard.Split.{peer_chunks, max_nla_value_len}
use nl_wireguard.Device.{WireguardParsed}

-- A message with these attributes in front of its peers.
abbrev pub with_peers :
    WireguardCmd → List WireguardAttribute → List WireguardPeer → WireguardMessage
with_peers cmd attributes peers = record {
  cmd = cmd;
  attributes = attributes ++ WireguardAttribute.peers peers ∷ [];
}

-- One message for each group of peers: the device attributes in the first, the interface alone
-- in the others.
abbrev pub messages_for :
    WireguardCmd
    → List WireguardAttribute
    → WireguardAttribute
    → List (List WireguardPeer)
    → List WireguardMessage
messages_for cmd device iface [] = []
messages_for cmd device iface (group ∷ groups) =
    with_peers cmd device group ∷ map (with_peers cmd (iface ∷ [])) groups

abbrev pub leading : Bool → List WireguardAttribute → WireguardAttribute → List WireguardAttribute
leading true device iface = device
leading false device iface = iface ∷ []

pub messages_for-append :
    (cmd : WireguardCmd) (device : List WireguardAttribute) (iface : WireguardAttribute)
    (groups : List (List WireguardPeer)) (group : List WireguardPeer)
    → messages_for cmd device iface (groups ++ group ∷ [])
      ≡ messages_for cmd device iface groups
        ++ with_peers cmd
            (leading (is_empty (messages_for cmd device iface groups)) device iface)
            group
          ∷ []
messages_for-append cmd device iface [] group = refl
messages_for-append cmd device iface (first ∷ groups) group =
    cc (map-append (with_peers cmd (iface ∷ [])) groups (group ∷ []))

abbrev pub concat {ℓ} : {A : Type ℓ} → List (List A) → List A
concat = concat_map (λ xs. xs)

pub some_not_empty {ℓ} : {A : Type ℓ} (xs : List A) → 1 ≤ length xs → is_empty xs ≡ false
some_not_empty [] h = absurd (omega arith)
some_not_empty (x ∷ xs) h = refl

module _ ⦃c : Crates⦄ where
  -- The chunks of all peers, in order.
  unfoldable pub all_chunks : List WireguardPeerParsed → Result (List WireguardPeer)
  all_chunks [] = ok []
  all_chunks (peer ∷ peers) = do
    chunks ← peer_chunks peer
    more ← all_chunks peers
    ok (chunks ++ more)

  -- The peers of one message: some, and within the limit of one attribute unless it is a single
  -- chunk.
  abbrev pub IsGroup : List WireguardPeer → Type 0
  IsGroup peers =
      (1 ≤ length peers)
      × ((length peers ≡ 1) ⊎ (sum_by c.peer_buffer_len peers ≤ max_nla_value_len))

  -- The group `chunk ∷ chunks` passes the limit with one more chunk.
  abbrev pub passes : WireguardPeer → List WireguardPeer → WireguardPeer → Bool
  passes chunk chunks next =
      ltb max_nla_value_len (sum_by c.peer_buffer_len (chunk ∷ chunks) + c.peer_buffer_len next)

  -- The open group `chunk ∷ chunks` takes the next chunks for as long as they fit, and a chunk
  -- that does not fit opens the next group.
  unfoldable pub pack :
      WireguardPeer → List WireguardPeer → List WireguardPeer → List (List WireguardPeer)
  pack chunk chunks [] = (chunk ∷ chunks) ∷ []
  pack chunk chunks (next ∷ rest) = elim (passes chunk chunks next) [
    | true ↦ (chunk ∷ chunks) ∷ pack next [] rest
    | false ↦ pack chunk (chunks ++ next ∷ []) rest
  ]

  -- The groups of a list of chunks; without chunks there is one group that is empty.
  unfoldable pub groups_of : List WireguardPeer → List (List WireguardPeer)
  unfolding pack
  groups_of [] = [] ∷ []
  groups_of (chunk ∷ chunks) = pack chunk [] chunks

  module _ (self : WireguardParsed) (cmd : WireguardCmd) (device : List WireguardAttribute)
      (iface : WireguardAttribute) where
    -- The messages that `finish` returns.
    pub record Finished (done : List WireguardPeer) (r : Result (List WireguardMessage))
        : Type 0 where
      pub groups : List (List WireguardPeer)
      pub messages : r ≡ ok (messages_for cmd device iface groups)
      pub content : concat groups ≡ done
      pub bounded : All IsGroup groups ⊎ (groups ≡ [] ∷ [])
      pub not_empty : 1 ≤ length groups
