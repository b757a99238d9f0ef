-- ===== src/Device/RoundTrip.antt =====
-- What parsing makes of the device attributes of a configuration.
use mathlib.Core.List.{foldl}
use mathlib.Core.Option
use nl_wireguard.Base.{
  ℕ, ◌≡◌, refl, ◌∙◌, inl, inr, Option, none, some, String, List, [], ◌∷◌, ◌++◌, or_keep,
}
use nl_wireguard.Base.Folds.{FoldsTo, ◌then◌}
use nl_wireguard.Packet.{WireguardAttribute}
use nl_wireguard.Crates.{Crates, Base64Laws}
use nl_wireguard.Error.{ok, ok_of_bind}
use nl_wireguard.Key.{decode_key}
use nl_wireguard.Key.Laws.{decoded_of_ok}
use nl_wireguard.Flags.{WireguardParsedDeviceFlags, parse_device_flags, build_device_flags}
use nl_wireguard.Peer.{WireguardPeerParsed, extend}
use nl_wireguard.Peer.Parsing.{or_keep-none}
use nl_wireguard.Device.Interface.{iface_cases}
use nl_wireguard.Device.{
  WireguardParsed, default_device, extend_attribute, iface_attribute, key_attribute, pushed,
  device_attributes,
}

-- The index is sent only if there is no name.
abbrev pub kept_index : Option String → Option ℕ → Option ℕ → Option ℕ
kept_index none index old = or_keep index old
kept_index (some name) index old = old

kept_index_idem :
    (name : Option String) (index : Option ℕ)
    → kept_index name index (kept_index name index none) ≡ kept_index name index none
kept_index_idem none none = refl
kept_index_idem none (some i) = refl
kept_index_idem (some n) index = refl

or_keep_idem {ℓ} : {A : Type ℓ} (o : Option A) → or_keep o o ≡ o
or_keep_idem none = refl
or_keep_idem (some a) = refl

extend_from_none {ℓ} : {A : Type ℓ} (o : Option (List A)) → extend none o ≡ o
extend_from_none none = refl
extend_from_none (some xs) = refl

module _ ⦃c : Crates⦄ where
  abbrev Yields : WireguardParsed → List WireguardAttribute → WireguardParsed → Type 0
  Yields = FoldsTo extend_attribute

  -- Flags in the order in which the bit set lists them.
  abbrev pub normal_device_flags :
      Option (List WireguardParsedDeviceFlags) → Option (List WireguardParsedDeviceFlags)
  normal_device_flags = Option.map (λ flags. parse_device_flags (build_device_flags flags))

  -- The configuration that parsing reports, with these peers.
  abbrev pub reported_device : WireguardParsed → Option (List WireguardPeerParsed) → WireguardParsed
  reported_device self peers = record self {
    iface_index = kept_index self.iface_name self.iface_index none;
    peers = peers;
    flags = normal_device_flags self.flags;
  }

  pub extend_iface :
      (self s : WireguardParsed) (iface : WireguardAttribute)
      → iface_attribute self ≡ ok iface
      → extend_attribute s iface ≡ record s {
        iface_name = or_keep self.iface_name s.iface_name;
        iface_index = kept_index self.iface_name self.iface_index s.iface_index;
      }
  unfolding extend_attribute
  extend_iface self s iface h = elim (iface_cases self iface h) [
    | inl n ↦ rw (n.made, n.has_name) refl
    | inr i ↦ rw (i.made, i.no_name, i.has_index) refl
  ]

  module _ (base64 : Base64Laws c) where
    fold_public_key :
        (s : WireguardParsed) (o : Option String) (attrs : List WireguardAttribute)
        → key_attribute "public_key" WireguardAttribute.public_key o ≡ ok attrs
        → Yields s attrs (record s { public_key = or_keep o s.public_key })
    unfolding extend_attribute key_attribute
    fold_public_key s none attrs h =
        let made : [] ≡ attrs = cc h in record { result = rw (← made) refl }
    fold_public_key s (some v) attrs h =
        let (key, e, r) = ok_of_bind (decode_key "public_key" v) _ h in
        let d = (decoded_of_ok _ _ _ e).0 in
        let made : (WireguardAttribute.public_key key ∷ []) ≡ attrs = cc r in
        record { result = rw (← made) (cc (base64.encode-decode v key d)) }

    fold_private_key :
        (s : WireguardParsed) (o : Option String) (attrs : List WireguardAttribute)
        → key_attribute "private_key" WireguardAttribute.private_key o ≡ ok attrs
        → Yields s attrs (record s { private_key = or_keep o s.private_key })
    unfolding extend_attribute key_attribute
    fold_private_key s none attrs h =
        let made : [] ≡ attrs = cc h in record { result = rw (← made) refl }
    fold_private_key s (some v) attrs h =
        let (key, e, r) = ok_of_bind (decode_key "private_key" v) _ h in
        let d = (decoded_of_ok _ _ _ e).0 in
        let made : (WireguardAttribute.private_key key ∷ []) ≡ attrs = cc r in
        record { result = rw (← made) (cc (base64.encode-decode v key d)) }

    fold_port :
        (s : WireguardParsed) (o : Option ℕ)
        → Yields s
            (pushed WireguardAttribute.listen_port o)
            (record s { listen_port = or_keep o s.listen_port })
    unfolding extend_attribute
    fold_port s none = record { result = refl }
    fold_port s (some v) = record { result = refl }

    fold_fwmark :
        (s : WireguardParsed) (o : Option ℕ)
        → Yields s (pushed WireguardAttribute.fwmark o) (record s { fwmark = or_keep o s.fwmark })
    unfolding extend_attribute
    fold_fwmark s none = record { result = refl }
    fold_fwmark s (some v) = record { result = refl }

    fold_flags :
        (s : WireguardParsed) (o : Option (List WireguardParsedDeviceFlags))
        → Yields s
            (pushed (λ fs. WireguardAttribute.flags (build_device_flags fs)) o)
            (record s { flags = extend s.flags (normal_device_flags o) })
    unfolding extend_attribute
    fold_flags s none = record { result = refl }
    fold_flags s (some v) = record { result = refl }

    parts_back :
        (self : WireguardParsed) (iface : WireguardAttribute)
        (public private : List WireguardAttribute)
        → iface_attribute self ≡ ok iface
        → key_attribute "public_key" WireguardAttribute.public_key self.public_key ≡ ok public
        → key_attribute "private_key" WireguardAttribute.private_key self.private_key ≡ ok private
        → foldl extend_attribute default_device (
            iface
            ∷ (public
                ++ (private
                    ++ (pushed WireguardAttribute.listen_port self.listen_port
                        ++ (pushed WireguardAttribute.fwmark self.fwmark
                            ++ pushed
                                (λ fs. WireguardAttribute.flags (build_device_flags fs))
                                self.flags)))))
          ≡ reported_device self none
    parts_back self iface public private iface_ok public_ok private_ok =
        let first : Yields default_device (iface ∷ []) _ = record {
          result = extend_iface self default_device iface iface_ok;
        } in
        (first
          then (fold_public_key _ self.public_key public public_ok
              then (fold_private_key _ self.private_key private private_ok
                  then (fold_port _ self.listen_port
                      then (fold_fwmark _ self.fwmark then fold_flags _ self.flags))))).result
        ∙ cc (
          or_keep-none self.iface_name,
          or_keep-none self.public_key,
          or_keep-none self.private_key,
          or_keep-none self.listen_port,
          or_keep-none self.fwmark,
          extend_from_none (normal_device_flags self.flags),
        )

    pub device_back :
        (self : WireguardParsed) (device : List WireguardAttribute)
        → device_attributes self ≡ ok device
        → foldl extend_attribute default_device device ≡ reported_device self none
    unfolding device_attributes
    device_back self device h =
        let (iface, iface_ok, h1) = ok_of_bind (iface_attribute self) _ h in
        let (public, public_ok, h2) = ok_of_bind (key_attribute _ _ _) _ h1 in
        let (private, private_ok, h3) = ok_of_bind (key_attribute _ _ _) _ h2 in
        cc (h3, parts_back self iface public private iface_ok public_ok private_ok)

  -- The interface of a later message changes nothing.
  pub iface_again :
      (self : WireguardParsed) (iface : WireguardAttribute)
      (peers : Option (List WireguardPeerParsed))
      → iface_attribute self ≡ ok iface
      → extend_attribute (reported_device self peers) iface ≡ reported_device self peers
  iface_again self iface peers h =
      extend_iface self (reported_device self peers) iface h
      ∙ cc (or_keep_idem self.iface_name, kept_index_idem self.iface_name self.iface_index)
