-- ===== src/Messages/Fewest.antt =====
-- The messages that `build_messages` makes of the chunks, and how many they are.
use nl_wireguard.Base.{◌≤◌, ◌≡◌, refl, some, List, [], ◌∷◌, arith, All, length, length-map}
use nl_wireguard.Packet.{WireguardCmd, WireguardPeer, WireguardAttribute, WireguardMessage}
use nl_wireguard.Crates.{Crates}
use nl_wireguard.Error.{ok}
use nl_wireguard.Peer.{WireguardPeerParsed}
use nl_wireguard.Device.{WireguardParsed, device_attributes, iface_attribute}
use nl_wireguard.Messages.{build_messages}
use nl_wireguard.Messages.Groups.{all_chunks, messages_for, with_peers, concat, groups_of}
use nl_wireguard.Messages.Packing.{groups_of_fewest, MayBeGroup}
use nl_wireguard.Messages.Loops.{build_messages_groups}
use nl_wireguard.Messages.Total.{iface_of_device}

length-messages_for :
    (cmd : WireguardCmd) (device : List WireguardAttribute) (iface : WireguardAttribute)
    (groups : List (List WireguardPeer))
    → length (messages_for cmd device iface groups) ≡ length groups
length-messages_for cmd device iface [] = refl
length-messages_for cmd device iface (g ∷ gs) =
    omega (arith, length-map (with_peers cmd (iface ∷ [])) gs)

module _ ⦃c : Crates⦄ (self : WireguardParsed) (cmd : WireguardCmd)
    (peers : List WireguardPeerParsed) (device : List WireguardAttribute)
    (chunks : List WireguardPeer) where
  -- The loops of `build_messages`, with their builder that is flushed before a chunk is added and
  -- once more at the end, are the recursion `groups_of` followed by one message for each group:
  -- for a configuration with peers whose device attributes and chunks can be built, the messages
  -- are those of the groups of all chunks.
  pub build_messages_greedy :
      self.peers ≡ some peers
      → device_attributes self ≡ ok device
      → all_chunks peers ≡ ok chunks
      → (iface : WireguardAttribute) × (iface_attribute self ≡ ok iface)
        × (build_messages self cmd ≡ ok (messages_for cmd device iface (groups_of chunks)))
  build_messages_greedy has device_ok split =
      let (iface, iface_ok) = iface_of_device self cmd device device_ok in
      (
        iface,
        iface_ok,
        build_messages_groups self cmd device iface peers has device_ok iface_ok chunks split,
      )

  -- `build_messages` needs the fewest messages: however the chunks of a configuration with peers
  -- are cut into one group or more, in their order, such that a group of several chunks stays
  -- within the limit of one attribute, there are at least as many groups as messages.
  pub build_messages_fewest :
      (groups : List (List WireguardPeer))
      → self.peers ≡ some peers
      → device_attributes self ≡ ok device
      → all_chunks peers ≡ ok chunks
      → concat groups ≡ chunks
      → All MayBeGroup groups
      → 1 ≤ length groups
      → (messages : List WireguardMessage) × (build_messages self cmd ≡ ok messages)
        × (length messages ≤ length groups)
  build_messages_fewest groups has device_ok split content may some_group =
      let (iface, iface_ok, built) = build_messages_greedy has device_ok split in
      let fewest = groups_of_fewest chunks groups content may some_group in
      (
        messages_for cmd device iface (groups_of chunks),
        built,
        omega (arith, length-messages_for cmd device iface (groups_of chunks)),
      )
