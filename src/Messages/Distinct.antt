-- ===== src/Messages/Distinct.antt =====
-- The kinds of attributes in the messages of `build_messages`.
use mathlib.Core.Path.{subst}
use nl_wireguard.Base.{
  ℕ, suc, ◌≡◌, refl, ap, sym, ◌∙◌, inl, inr, Option, none, some, Option-cases, String, List, [],
  ◌∷◌, ◌++◌, map, All, All-append, All-left, All-right, arith,
}
use nl_wireguard.Base.Ranks.{NoRepeats, Rises, Rises-append, Rises-NoRepeats, one-Rises}
use nl_wireguard.Packet.{Bytes, WireguardCmd, WireguardPeer, WireguardAttribute, WireguardMessage}
use nl_wireguard.Crates.{Crates}
use nl_wireguard.Error.{ok, ok_of_bind}
use nl_wireguard.Key.{decode_key}
use nl_wireguard.Flags.{build_device_flags}
use nl_wireguard.Peer.{WireguardPeerParsed}
use nl_wireguard.Split.{peer_chunks}
use nl_wireguard.Split.Distinct.{IsDistinctPeer, chunks-IsDistinctPeer}
use nl_wireguard.Device.{
  WireguardParsed, iface_attribute, key_attribute, pushed, device_attributes, leading_attributes,
  build_message,
}
use nl_wireguard.Device.Interface.{iface_cases}
use nl_wireguard.Messages.{build_messages, finish, add_peers}
use nl_wireguard.Messages.Groups.{all_chunks, concat, with_peers, messages_for}
use nl_wireguard.Messages.Total.{build_messages_total}
use nl_wireguard.Messages.Accepted.{buildable, device_accepted, peers_split}

-- The place of an attribute in a message; the interface is given by its name or by its index.
abbrev pub device_place : WireguardAttribute → ℕ
device_place (WireguardAttribute.if_name v) = 0
device_place (WireguardAttribute.if_index v) = 0
device_place (WireguardAttribute.public_key v) = 1
device_place (WireguardAttribute.private_key v) = 2
device_place (WireguardAttribute.listen_port v) = 3
device_place (WireguardAttribute.fwmark v) = 4
device_place (WireguardAttribute.flags v) = 5
device_place (WireguardAttribute.peers peers) = 6
device_place (WireguardAttribute.other kind value) = 7

abbrev pub HasDistinctPeers : WireguardAttribute → Type 0
HasDistinctPeers (WireguardAttribute.peers peers) = All IsDistinctPeer peers
HasDistinctPeers attribute = Unit

-- No attribute of the message, and none of a peer in it, is there twice.
abbrev pub IsDistinct : WireguardMessage → Type 0
IsDistinct m = NoRepeats device_place m.attributes × All HasDistinctPeers m.attributes

-- The attributes in front of the peers: they rise, and there are no peers among them.
abbrev IsFront : ℕ → ℕ → List WireguardAttribute → Type 0
IsFront low high attrs = Rises device_place low high attrs × All HasDistinctPeers attrs

append-IsFront :
    (low mid high : ℕ) (xs ys : List WireguardAttribute)
    → IsFront low mid xs
    → IsFront mid high ys
    → IsFront low high (xs ++ ys)
append-IsFront low mid high xs ys x y = (
  Rises-append device_place low mid high xs ys x.0 y.0,
  All-append HasDistinctPeers xs ys x.1 y.1,
)

module _ ⦃c : Crates⦄ where
  pushed-IsFront {κ} :
      {A : Type κ} (n : ℕ) (make : A → WireguardAttribute) (o : Option A)
      → ((a : A) → (device_place (make a) ≡ n) × HasDistinctPeers (make a))
      → IsFront n (suc n) (pushed make o)
  pushed-IsFront n make none h = (omega arith, tt)
  pushed-IsFront n make (some a) h = (one-Rises device_place n (make a) (h a).0, ((h a).1, tt))

  key-IsFront :
      (n : ℕ) (name : String) (make : Bytes → WireguardAttribute) (o : Option String)
      (attrs : List WireguardAttribute)
      → ((key : Bytes) → (device_place (make key) ≡ n) × HasDistinctPeers (make key))
      → key_attribute name make o ≡ ok attrs
      → IsFront n (suc n) attrs
  unfolding key_attribute
  key-IsFront n name make none attrs h e =
      let made : [] ≡ attrs = cc e in rw (← made) (omega arith, tt)
  key-IsFront n name make (some v) attrs h e =
      let (key, d, r) = ok_of_bind (decode_key name v) _ e in
      let made : (make key ∷ []) ≡ attrs = cc r in
      rw (← made) (one-Rises device_place n (make key) (h key).0, ((h key).1, tt))

  iface-IsFront :
      (self : WireguardParsed) (iface : WireguardAttribute)
      → iface_attribute self ≡ ok iface
      → IsFront 0 1 (iface ∷ [])
  iface-IsFront self iface h = elim (iface_cases self iface h) [
    | inl n ↦ rw n.made ((omega arith, omega arith), (tt, tt))
    | inr i ↦ rw i.made ((omega arith, omega arith), (tt, tt))
  ]

  device-IsFront :
      (self : WireguardParsed) (device : List WireguardAttribute)
      → device_attributes self ≡ ok device
      → IsFront 0 6 device
  unfolding device_attributes
  device-IsFront self device h =
      let (iface, named, h1) = ok_of_bind (iface_attribute self) _ h in
      let (public, first, h2) = ok_of_bind (key_attribute _ _ self.public_key) _ h1 in
      let (private, second, h3) = ok_of_bind (key_attribute _ _ self.private_key) _ h2 in
      let ports = pushed WireguardAttribute.listen_port self.listen_port in
      let marks = pushed WireguardAttribute.fwmark self.fwmark in
      let flags = pushed (λ fs. WireguardAttribute.flags (build_device_flags fs)) self.flags in
      let made : ((iface ∷ []) ++ (public ++ (private ++ (ports ++ (marks ++ flags))))) ≡ device =
        cc h3 in
      let whole = append-IsFront 0 1 6 (iface ∷ []) _ (iface-IsFront self iface named) (
        append-IsFront 1 2 6 public _
          (key-IsFront 1 _ _ self.public_key public (λ key. (refl, tt)) first)
          (append-IsFront 2 3 6 private _
            (key-IsFront 2 _ _ self.private_key private (λ key. (refl, tt)) second)
            (append-IsFront 3 4 6 ports _ (pushed-IsFront 3 _ self.listen_port (λ v. (refl, tt))) (
              append-IsFront 4 5 6 marks flags (pushed-IsFront 4 _ self.fwmark (λ v. (refl, tt)))
                (pushed-IsFront 5 _ self.flags (λ v. (refl, tt))))))) in
      subst (IsFront 0 6) made whole

  all_chunks-IsDistinctPeer :
      (peers : List WireguardPeerParsed) (chunks : List WireguardPeer)
      → all_chunks peers ≡ ok chunks
      → All IsDistinctPeer chunks
  unfolding all_chunks
  all_chunks-IsDistinctPeer [] chunks h = let made : [] ≡ chunks = cc h in rw (← made) tt
  all_chunks-IsDistinctPeer (p ∷ ps) chunks h =
      let (here, split, h1) = ok_of_bind (peer_chunks p) _ h in
      let (more, later, h2) = ok_of_bind (all_chunks ps) _ h1 in
      let made : (here ++ more) ≡ chunks = cc h2 in
      rw (← made) (
        All-append IsDistinctPeer here more (chunks-IsDistinctPeer p here split)
          (all_chunks-IsDistinctPeer ps more later))

  front-IsDistinct :
      (cmd : WireguardCmd) (low : ℕ) (front : List WireguardAttribute) (group : List WireguardPeer)
      → IsFront low 6 front
      → All IsDistinctPeer group
      → IsDistinct (with_peers cmd front group)
  front-IsDistinct cmd low front group f h =
      let one : IsFront 6 7 (WireguardAttribute.peers group ∷ []) =
        ((omega arith, omega arith), (h, tt)) in
      let all = append-IsFront low 6 7 front (WireguardAttribute.peers group ∷ []) f one in
      (Rises-NoRepeats device_place low 7 _ all.0, all.1)

  later-IsDistinct :
      (cmd : WireguardCmd) (iface : WireguardAttribute) (groups : List (List WireguardPeer))
      → IsFront 0 1 (iface ∷ [])
      → All IsDistinctPeer (concat groups)
      → All IsDistinct (map (with_peers cmd (iface ∷ [])) groups)
  later-IsDistinct cmd iface [] f h = tt
  later-IsDistinct cmd iface (group ∷ groups) f h = (
    front-IsDistinct cmd 0 (iface ∷ []) group ((f.0.0, omega (arith, f.0.1)), f.1)
        (All-left IsDistinctPeer group (concat groups) h),
    later-IsDistinct cmd iface groups f (All-right IsDistinctPeer group (concat groups) h),
  )

  messages_for-IsDistinct :
      (cmd : WireguardCmd) (device : List WireguardAttribute) (iface : WireguardAttribute)
      (groups : List (List WireguardPeer))
      → IsFront 0 6 device
      → IsFront 0 1 (iface ∷ [])
      → All IsDistinctPeer (concat groups)
      → All IsDistinct (messages_for cmd device iface groups)
  messages_for-IsDistinct cmd device iface [] d f h = tt
  messages_for-IsDistinct cmd device iface (group ∷ groups) d f h = (
    front-IsDistinct cmd 0 device group d (All-left IsDistinctPeer group (concat groups) h),
    later-IsDistinct cmd iface groups f (All-right IsDistinctPeer group (concat groups) h),
  )

  built_alone :
      (self : WireguardParsed) (cmd : WireguardCmd) (device : List WireguardAttribute)
      → device_attributes (record self { peers = none }) ≡ ok device
      → build_messages (record self { peers = none }) cmd
        ≡ ok ((record { cmd = cmd; attributes = device }) ∷ [])
  unfolding build_messages add_peers finish build_message leading_attributes
  built_alone self cmd device front =
      rw (build_messages, add_peers, finish, build_message, leading_attributes, front) refl

  module _ (self : WireguardParsed) (cmd : WireguardCmd) (messages : List WireguardMessage)
      (h : build_messages self cmd ≡ ok messages) where
    with_peers-IsDistinct :
        (peers : List WireguardPeerParsed) → self.peers ≡ some peers → All IsDistinct messages
    with_peers-IsDistinct peers has =
        let b = buildable self cmd messages h in
        let (device, front) = device_accepted self cmd b in
        let (chunks, split) = peers_split peers (rw has at b.valid_peers) in
        let (iface, named, f) = build_messages_total self cmd peers device chunks has front split in
        let same : messages_for cmd device iface f.groups ≡ messages = cc (f.messages, h) in
        rw (← same) (
          messages_for-IsDistinct cmd device iface f.groups (device-IsFront self device front)
            (iface-IsFront self iface named)
            (rw f.content (all_chunks-IsDistinctPeer peers chunks split)))

    without_peers-IsDistinct : self.peers ≡ none → All IsDistinct messages
    without_peers-IsDistinct absent =
        let (device, front) = device_accepted self cmd (buildable self cmd messages h) in
        let bare : self ≡ record self { peers = none } =
          ap (λ (o : Option (List WireguardPeerParsed)). record self { peers = o }) absent in
        let alone : build_messages self cmd
            ≡ ok ((record { cmd = cmd; attributes = device }) ∷ []) =
          ap (λ (r : WireguardParsed). build_messages r cmd) bare
          ∙ built_alone self cmd device
              (sym (ap (λ (r : WireguardParsed). device_attributes r) bare) ∙ front) in
        let same : ((record { cmd = cmd; attributes = device }) ∷ []) ≡ messages = cc (alone, h) in
        let f = device-IsFront self device front in
        rw (← same) ((Rises-NoRepeats device_place 0 6 device f.0, f.1), tt)

  -- No message that `build_messages` returns has two attributes of the same kind, where the name
  -- and the index of the interface are one kind, and no peer of such a message has.
  pub build_messages-IsDistinct :
      (self : WireguardParsed) (cmd : WireguardCmd) (messages : List WireguardMessage)
      → build_messages self cmd ≡ ok messages
      → All IsDistinct messages
  build_messages-IsDistinct self cmd messages h = elim (Option-cases self.peers) [
    | inl absent ↦ without_peers-IsDistinct self cmd messages h absent
    | inr (peers, has) ↦ with_peers-IsDistinct self cmd messages h peers has
  ]
