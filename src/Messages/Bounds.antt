-- ===== src/Messages/Bounds.antt =====
-- The length of the peers attributes in the messages of `build_messages`.
use nl_wireguard.Base.{
  ◌+◌, ◌-◌, ◌^◌, ◌≤◌, ◌<◌, ◌≡◌, inl, inr, Option, none, some, String, List, [], ◌∷◌, ◌++◌, map, All,
  All-append, All-left, All-right, arith, sum_by,
}
use nl_wireguard.Packet.{Bytes, WireguardCmd, WireguardPeer, WireguardAttribute, WireguardMessage}
use nl_wireguard.Crates.{Crates, LengthLaws}
use nl_wireguard.Error.{ok, ok_of_bind}
use nl_wireguard.Peer.{WireguardPeerParsed, build}
use nl_wireguard.Split.{peer_chunks, max_nla_value_len}
use nl_wireguard.Split.Chunks.{FitsNla, HasRoom, state_len, without_ips, ips_of}
use nl_wireguard.Split.Bounds.{peer_chunks_bounds}
use nl_wireguard.Device.{WireguardParsed, device_attributes, iface_attribute, key_attribute, pushed}
use nl_wireguard.Device.Interface.{iface_cases}
use nl_wireguard.Key.{decode_key}
use nl_wireguard.Flags.{build_device_flags}
use nl_wireguard.Messages.{build_messages}
use nl_wireguard.Messages.Groups.{all_chunks, messages_for, with_peers, concat, IsGroup}
use nl_wireguard.Messages.Total.{build_messages_total}

module _ ⦃c : Crates⦄ where
  -- The state of the peer fits into one attribute, and each of its allowed IPs behind that state.
  pub record FitsPeer (p : WireguardPeerParsed) : Type 0 where
    pub attrs : WireguardPeer
    pub builds : build p ≡ ok attrs
    pub state_fits : state_len (without_ips attrs) + c.nla_header_size ≤ max_nla_value_len
    pub ips_fit : All (HasRoom (state_len (without_ips attrs))) (ips_of attrs)

  -- An attribute with its header and its padding is no longer than 16 bits can say.
  abbrev pub FitsAttribute : WireguardAttribute → Type 0
  FitsAttribute (WireguardAttribute.peers peers) =
      c.nla_header_size + sum_by c.peer_buffer_len peers + (c.nla_alignto - 1) < 2 ^ 16
  FitsAttribute attribute = Unit

  -- The peers of a message are within the limit.
  abbrev GroupFits : List WireguardPeer → Type 0
  GroupFits group = sum_by c.peer_buffer_len group ≤ max_nla_value_len

  group-GroupFits :
      (group : List WireguardPeer) → IsGroup group → All FitsNla group → GroupFits group
  group-GroupFits group (some_in, inr fits) each = fits
  group-GroupFits [] (some_in, inl one) each = omega arith
  group-GroupFits (x ∷ []) (some_in, inl one) each = omega (arith, each.0)
  group-GroupFits (x ∷ y ∷ xs) (some_in, inl one) each = absurd (omega arith)

  groups_fit :
      (groups : List (List WireguardPeer))
      → All IsGroup groups
      → All FitsNla (concat groups)
      → All GroupFits groups
  groups_fit [] are each = tt
  groups_fit (group ∷ groups) are each = (
    group-GroupFits group are.0 (All-left FitsNla group (concat groups) each),
    groups_fit groups are.1 (All-right FitsNla group (concat groups) each),
  )

  chunks_fit :
      LengthLaws c
      → (ps : List WireguardPeerParsed) (chunks : List WireguardPeer) → All FitsPeer ps
      → all_chunks ps ≡ ok chunks
      → All FitsNla chunks
  unfolding all_chunks
  chunks_fit lengths [] chunks fit h = let made : [] ≡ chunks = cc h in rw (← made) tt
  chunks_fit lengths (p ∷ ps) chunks fit h =
      let (here, split, h1) = ok_of_bind (peer_chunks p) _ h in
      let (more, later, h2) = ok_of_bind (all_chunks ps) _ h1 in
      let made : (here ++ more) ≡ chunks = cc h2 in
      let f = fit.0 in
      rw (← made) (
        All-append FitsNla here more
          (peer_chunks_bounds lengths p f.attrs here f.builds split f.state_fits f.ips_fit)
          (chunks_fit lengths ps more fit.1 later))

  iface_fits :
      (self : WireguardParsed) (iface : WireguardAttribute)
      → iface_attribute self ≡ ok iface
      → FitsAttribute iface
  iface_fits self iface h = elim (iface_cases self iface h) [
    | inl n ↦ rw n.made tt
    | inr i ↦ rw i.made tt
  ]

  keys_fit :
      (prop_name : String) (make : Bytes → WireguardAttribute) (o : Option String)
      (attrs : List WireguardAttribute)
      → ((key : Bytes) → FitsAttribute (make key))
      → key_attribute prop_name make o ≡ ok attrs
      → All FitsAttribute attrs
  unfolding key_attribute
  keys_fit prop_name make none attrs fits h = let made : [] ≡ attrs = cc h in rw (← made) tt
  keys_fit prop_name make (some v) attrs fits h =
      let (key, decoded_key, r) = ok_of_bind (decode_key prop_name v) _ h in
      let made : (make key ∷ []) ≡ attrs = cc r in rw (← made) (fits key, tt)

  pushed_fit {κ} :
      {A : Type κ} (make : A → WireguardAttribute) (o : Option A)
      → ((a : A) → FitsAttribute (make a))
      → All FitsAttribute (pushed make o)
  pushed_fit make none fits = tt
  pushed_fit make (some a) fits = (fits a, tt)

  device_fits :
      (self : WireguardParsed) (device : List WireguardAttribute)
      → device_attributes self ≡ ok device
      → All FitsAttribute device
  unfolding device_attributes
  device_fits self device h =
      let (iface, iface_ok, h1) = ok_of_bind (iface_attribute self) _ h in
      let (public, public_ok, h2) = ok_of_bind (key_attribute _ _ _) _ h1 in
      let (private, private_ok, h3) = ok_of_bind (key_attribute _ _ _) _ h2 in
      let flags =
        pushed_fit (λ fs. WireguardAttribute.flags (build_device_flags fs)) self.flags (λ fs. tt) in
      let marks =
        All-append FitsAttribute _ _ (pushed_fit WireguardAttribute.fwmark self.fwmark (λ v. tt))
          flags in
      let ports =
        All-append FitsAttribute _ _
          (pushed_fit WireguardAttribute.listen_port self.listen_port (λ v. tt)) marks in
      let privates =
        All-append FitsAttribute private _ (keys_fit _ _ _ private (λ key. tt) private_ok) ports in
      let all =
        All-append FitsAttribute public _ (keys_fit _ _ _ public (λ key. tt) public_ok) privates in
      let made : (iface
            ∷ (public
                ++ (private
                    ++ (pushed WireguardAttribute.listen_port self.listen_port
                        ++ (pushed WireguardAttribute.fwmark self.fwmark
                            ++ pushed (λ fs. WireguardAttribute.flags (build_device_flags fs))
                                self.flags)))))
          ≡ device =
        cc h3 in
      rw (← made) (iface_fits self iface iface_ok, all)

  module _ (room : c.nla_header_size + (c.nla_alignto - 1) < 2 ^ 16) where
    message_fits :
        (cmd : WireguardCmd) (front : List WireguardAttribute) (group : List WireguardPeer)
        → All FitsAttribute front
        → GroupFits group
        → All FitsAttribute (with_peers cmd front group).attributes
    message_fits cmd front group h fits =
        All-append FitsAttribute front (WireguardAttribute.peers group ∷ []) h (omega arith, tt)

    later_fit :
        (cmd : WireguardCmd) (iface : WireguardAttribute) (groups : List (List WireguardPeer))
        → FitsAttribute iface
        → All GroupFits groups
        → All (λ m. All FitsAttribute m.attributes) (map (with_peers cmd (iface ∷ [])) groups)
    later_fit cmd iface [] h fit = tt
    later_fit cmd iface (group ∷ groups) h fit =
        (message_fits cmd (iface ∷ []) group (h, tt) fit.0, later_fit cmd iface groups h fit.1)

    messages_fit :
        (cmd : WireguardCmd) (device : List WireguardAttribute) (iface : WireguardAttribute)
        (groups : List (List WireguardPeer))
        → All FitsAttribute device
        → FitsAttribute iface
        → All GroupFits groups
        → All (λ m. All FitsAttribute m.attributes) (messages_for cmd device iface groups)
    messages_fit cmd device iface [] front h fit = tt
    messages_fit cmd device iface (group ∷ groups) front h fit =
        (message_fits cmd device group front fit.0, later_fit cmd iface groups h fit.1)

  -- A configuration whose peers fit is built into messages of which each peers attribute, with
  -- its header and its padding, is no longer than 16 bits can say. A peer fits if its state is
  -- within the limit of one attribute and each of its allowed IPs fits behind that state. It is
  -- assumed that lengths of peers add up and that header and padding leave room at all.
  pub build_messages_bounds :
      (lengths : LengthLaws c) (room : c.nla_header_size + (c.nla_alignto - 1) < 2 ^ 16)
      (self : WireguardParsed) (cmd : WireguardCmd) (peers : List WireguardPeerParsed)
      (device : List WireguardAttribute) (chunks : List WireguardPeer)
      → self.peers ≡ some peers
      → device_attributes self ≡ ok device
      → all_chunks peers ≡ ok chunks
      → All FitsPeer peers
      → (messages : List WireguardMessage) × (build_messages self cmd ≡ ok messages)
        × All (λ m. All FitsAttribute m.attributes) messages
  build_messages_bounds lengths room self cmd peers device chunks has device_ok split fit =
      let (iface, iface_ok, f) =
        build_messages_total self cmd peers device chunks has device_ok split in
      let each = chunks_fit lengths peers chunks fit split in
      let groups_ok : All GroupFits f.groups = elim f.bounded [
        | inl bounded ↦ groups_fit f.groups bounded (rw f.content each)
        | inr empty ↦ rw empty (omega arith, tt)
      ] in
      (
        messages_for cmd device iface f.groups,
        f.messages,
        messages_fit room cmd device iface f.groups (device_fits self device device_ok)
            (iface_fits self iface iface_ok) groups_ok,
      )
