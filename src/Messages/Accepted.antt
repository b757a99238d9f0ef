-- ===== src/Messages/Accepted.antt =====
-- The configurations that `build_messages` accepts.
use nl_wireguard.Base.{
  ◌≡◌, refl, ◌∙◌, ap, ◌↔◌, inl, inr, ◌⊎◌, Option, none, some, List, [], ◌∷◌, ◌++◌, All, list_of,
  flatten_option, String, Option-cases, is_some, if◌then◌else◌,
}
use nl_wireguard.Packet.{Bytes, WireguardCmd, WireguardPeer, WireguardAttribute, WireguardMessage}
use nl_wireguard.Crates.{Crates}
use nl_wireguard.Flags.{build_device_flags}
use nl_wireguard.Error.{ok, ok_of_bind, ◌>>=◌}
use nl_wireguard.Key.{decode_key}
use nl_wireguard.Peer.{WireguardPeerParsed, build}
use nl_wireguard.Peer.Accepted.{IsKey, IsAcceptable, decode_key-IsKey, key_accepted, build_iff}
use nl_wireguard.Split.{peer_chunks}
use nl_wireguard.Split.Peers.{chunks_of_built}
use nl_wireguard.Device.{
  WireguardParsed, build_message, leading_attributes, device_attributes, iface_attribute,
  key_attribute, pushed,
}
use nl_wireguard.Device.Interface.{IsNamed, IsIndexed, iface_attribute_iff}
use nl_wireguard.Messages.{Builder, no_messages, add_chunks, add_peers, finish, build_messages}
use nl_wireguard.Messages.Groups.{all_chunks}
use nl_wireguard.Messages.Loops.{build_messages_ok}
use nl_wireguard.Messages.Total.{iface_of_device}
use nl_wireguard.Messages.Supported.{Supported, peers-Supported, finish-Supported}

module _ ⦃c : Crates⦄ where
  -- The configuration names an interface, its keys are keys, and each of its peers is acceptable.
  pub record IsBuildable (self : WireguardParsed) : Type 0 where
    pub iface : WireguardAttribute
    pub has_iface : IsNamed self iface ⊎ IsIndexed self iface
    pub valid_public : All IsKey (list_of self.public_key)
    pub valid_private : All IsKey (list_of self.private_key)
    pub valid_peers : All IsAcceptable (flatten_option self.peers)

  attribute_keys :
      (name : String) (make : Bytes → WireguardAttribute) (o : Option String)
      (attrs : List WireguardAttribute)
      → key_attribute name make o ≡ ok attrs
      → All IsKey (list_of o)
  unfolding key_attribute
  attribute_keys name make none attrs h = tt
  attribute_keys name make (some v) attrs h =
      let (bytes, e, r) = ok_of_bind (decode_key name v) _ h in
      (decode_key-IsKey name v bytes e, tt)

  keys_accepted :
      (name : String) (make : Bytes → WireguardAttribute) (o : Option String)
      → All IsKey (list_of o)
      → (attrs : List WireguardAttribute) × (key_attribute name make o ≡ ok attrs)
  unfolding key_attribute
  keys_accepted name make none h = ([], refl)
  keys_accepted name make (some v) h = (make h.0.bytes ∷ [], rw (key_accepted name v h.0) refl)

  peer_split :
      (p : WireguardPeerParsed)
      → IsAcceptable p
      → (chunks : List WireguardPeer) × (peer_chunks p ≡ ok chunks)
  peer_split p a = let (attrs, h) = (build_iff p).1 a in chunks_of_built p attrs h

  peer-IsAcceptable :
      (p : WireguardPeerParsed) (chunks : List WireguardPeer)
      → peer_chunks p ≡ ok chunks
      → IsAcceptable p
  unfolding peer_chunks
  peer-IsAcceptable p chunks h =
      let (attrs, made, r) = ok_of_bind (build p) _ h in (build_iff p).0 (attrs, made)

  pub peers_split :
      (ps : List WireguardPeerParsed)
      → All IsAcceptable ps
      → (chunks : List WireguardPeer) × (all_chunks ps ≡ ok chunks)
  unfolding all_chunks
  peers_split [] h = ([], refl)
  peers_split (p ∷ ps) h =
      let (here, made) = peer_split p h.0 in
      let (more, later) = peers_split ps h.1 in
      (here ++ more, rw (made, all_chunks) (rw later refl))

  module _ (self : WireguardParsed) (cmd : WireguardCmd) where
    peers-IsAcceptable :
        (b : Builder) (ps : List WireguardPeerParsed) (last : Builder)
        → add_peers self cmd b ps ≡ ok last
        → All IsAcceptable ps
    unfolding add_peers
    peers-IsAcceptable b [] last h = tt
    peers-IsAcceptable b (p ∷ ps) last h =
        let (chunks, split, h1) = ok_of_bind (peer_chunks p) _ h in
        let (next, added, h2) = ok_of_bind (add_chunks self cmd b chunks) _ h1 in
        (peer-IsAcceptable p chunks split, peers-IsAcceptable next ps last h2)

    pub buildable :
        (messages : List WireguardMessage)
        → build_messages self cmd ≡ ok messages
        → IsBuildable self
    unfolding build_messages device_attributes Supported
    buildable messages h =
        let (b, added, finished) =
          ok_of_bind (add_peers self cmd no_messages (flatten_option self.peers)) (finish self cmd)
            h in
        let start : Supported self cmd no_messages = inl refl in
        let (device, made) =
          finish-Supported self cmd b messages
            (peers-Supported self cmd no_messages (flatten_option self.peers) b start added)
            finished in
        let (iface, named, h1) = ok_of_bind (iface_attribute self) _ made in
        let (public, first, h2) =
          ok_of_bind (key_attribute "public_key" WireguardAttribute.public_key self.public_key) _
            h1 in
        let (private, second, h3) =
          ok_of_bind (key_attribute "private_key" WireguardAttribute.private_key self.private_key) _
            h2 in
        record {
          iface = iface;
          has_iface = (iface_attribute_iff self iface).0 named;
          valid_public = attribute_keys _ _ self.public_key public first;
          valid_private = attribute_keys _ _ self.private_key private second;
          valid_peers = peers-IsAcceptable no_messages (flatten_option self.peers) b added;
        }

    pub device_accepted :
        IsBuildable self → (device : List WireguardAttribute) × (device_attributes self ≡ ok device)
    unfolding device_attributes
    device_accepted a =
        let (public, first) =
          keys_accepted "public_key" WireguardAttribute.public_key self.public_key a.valid_public in
        let (private, second) =
          keys_accepted "private_key" WireguardAttribute.private_key self.private_key
            a.valid_private in
        (
          a.iface
              ∷ (public
                  ++ (private
                      ++ (pushed WireguardAttribute.listen_port self.listen_port
                          ++ (pushed WireguardAttribute.fwmark self.fwmark
                              ++ pushed (λ fs. WireguardAttribute.flags (build_device_flags fs))
                                  self.flags)))),
          rw ((iface_attribute_iff self a.iface).1 a.has_iface, first, second, device_attributes)
              refl,
        )

    builds_device :
        (device : List WireguardAttribute)
        → self.peers ≡ none
        → device_attributes self ≡ ok device
        → (messages : List WireguardMessage) × (build_messages self cmd ≡ ok messages)
    unfolding build_messages add_peers finish build_message leading_attributes
    builds_device device no_peers made = (
      record { cmd = cmd; attributes = device } ∷ [],
      ap (λ o. add_peers self cmd no_messages (flatten_option o) >>= finish self cmd) no_peers
          ∙ rw made (
              ap
                (λ o. ok (
                  record {
                    cmd = cmd;
                    attributes =
                        if is_some o then device ++ WireguardAttribute.peers [] ∷ [] else device;
                  }
                  ∷ []))
                no_peers),
    )

    builds :
        IsBuildable self
        → (messages : List WireguardMessage) × (build_messages self cmd ≡ ok messages)
    builds a =
        let (device, made) = device_accepted a in
        elim (Option-cases self.peers) [
          | inl no_peers ↦ builds_device device no_peers made
          | inr (peers, has) ↦
              let (chunks, split) = peers_split peers (rw has at a.valid_peers) in
              let (iface, iface_ok) = iface_of_device self cmd device made in
              (
                _,
                (build_messages_ok self cmd device iface peers has made iface_ok chunks
                    split).messages,
              )
        ]

    -- A configuration is built into messages exactly if it has a short enough name without a NUL
    -- byte, or no name and an index; its keys, if any, are base64 of as many bytes as a key has;
    -- and each of its peers has a public key, keys that are valid, and no allowed IP with a longer
    -- prefix than its address family allows.
    pub build_messages_iff :
        ((messages : List WireguardMessage) × (build_messages self cmd ≡ ok messages))
        ↔ IsBuildable self
    build_messages_iff = (λ (messages, h). buildable messages h, builds)
