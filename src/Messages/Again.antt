-- ===== src/Messages/Again.antt =====
-- A configuration that was read from a device, as the input of `build_messages`.
use mathlib.Core.List.{foldl}
use mathlib.Core.Option
use nl_wireguard.Base.{
  ◌<◌, ◌≡◌, refl, ap, inl, inr, Bool-cases, false, Option, none, some, String, List, [], ◌∷◌, All,
  All-append, list_of, flatten_option, length, or_keep,
}
use nl_wireguard.Base.Text.{len, contains_nul}
use nl_wireguard.Packet.{WireguardCmd, WireguardPeer, WireguardAttribute, WireguardMessage}
use nl_wireguard.Crates.{Crates, Base64Laws}
use nl_wireguard.Error.{ok}
use nl_wireguard.Peer.{WireguardPeerParsed, parse_peer, merge_continuation, extend}
use nl_wireguard.Peer.Accepted.{IsKey, HasValidPrefix, IsAcceptable}
use nl_wireguard.Peer.Reported.{IsValid, parse_peer-IsAcceptable, encoded-IsKey}
use nl_wireguard.Device.{
  WireguardParsed, default_device, ifnamsiz, same_key, push_peer, push_parsed, extend_attribute,
  extend_message, parse_messages,
}
use nl_wireguard.Device.Apart.{or_empty}
use nl_wireguard.Messages.{build_messages}
use nl_wireguard.Messages.Accepted.{build_messages_iff}

-- A name that an interface can have.
abbrev pub IsName : String → Type 0
IsName name = (len name < ifnamsiz) × (contains_nul name ≡ false)

or_keep-All {ℓ} :
    {A : Type 0} (P : A → Type ℓ) (o more : Option A)
    → All P (list_of o)
    → All P (list_of more)
    → All P (list_of (or_keep o more))
or_keep-All P none more h k = k
or_keep-All P (some a) more h k = h

extend-All {ℓ} :
    {A : Type 0} (P : A → Type ℓ) (o more : Option (List A))
    → All P (flatten_option o)
    → All P (flatten_option more)
    → All P (flatten_option (extend o more))
extend-All P o none h k = h
extend-All P none (some ys) h k = k
extend-All P (some xs) (some ys) h k = All-append P xs ys h k

module _ ⦃c : Crates⦄ where
  merged-IsAcceptable :
      (p q : WireguardPeerParsed)
      → IsAcceptable p
      → IsAcceptable q
      → IsAcceptable (merge_continuation p q)
  unfolding merge_continuation
  merged-IsAcceptable p q a b = record {
    key = a.key;
    has_key = ap (λ o. or_keep o q.public_key) a.has_key;
    valid_key = a.valid_key;
    valid_preshared =
        or_keep-All IsKey p.preshared_key q.preshared_key a.valid_preshared b.valid_preshared;
    valid_ips = extend-All HasValidPrefix p.allowed_ips q.allowed_ips a.valid_ips b.valid_ips;
  }

  pushed-IsAcceptable :
      (ps : List WireguardPeerParsed) (q : WireguardPeerParsed)
      → All IsAcceptable ps
      → IsAcceptable q
      → All IsAcceptable (push_peer ps q)
  unfolding push_peer
  pushed-IsAcceptable [] q h a = (a, tt)
  pushed-IsAcceptable (last ∷ []) q h a =
      elim (Bool-cases (same_key last.public_key q.public_key)) [
        | inl same ↦ rw (same, push_peer) (merged-IsAcceptable last q h.0 a, tt)
        | inr other ↦ rw (other, push_peer) (h.0, (a, tt))
      ]
  pushed-IsAcceptable (p ∷ next ∷ ps) q h a = (h.0, pushed-IsAcceptable (next ∷ ps) q h.1 a)

  -- A peer attribute as a kernel reports it: with a public key, and each attribute valid.
  pub record IsPeer (attrs : WireguardPeer) : Type 0 where
    pub key : String
    pub has_key : (parse_peer attrs).public_key ≡ some key
    pub valid : All IsValid attrs

  -- An attribute as a kernel reports it.
  abbrev pub IsGenuine : WireguardAttribute → Type 0
  IsGenuine (WireguardAttribute.if_name name) = IsName name
  IsGenuine (WireguardAttribute.private_key key) = length key ≡ c.wg_key_len
  IsGenuine (WireguardAttribute.public_key key) = length key ≡ c.wg_key_len
  IsGenuine (WireguardAttribute.peers ps) = All IsPeer ps
  IsGenuine _ = Unit

  -- What a configuration keeps while genuine attributes are read.
  record IsReadable (d : WireguardParsed) : Type 0 where
    name : All IsName (list_of d.iface_name)
    public : All IsKey (list_of d.public_key)
    private : All IsKey (list_of d.private_key)
    peers : All IsAcceptable (flatten_option d.peers)

  module _ (base64 : Base64Laws c) where
    peers-IsAcceptable :
        (before : List WireguardPeerParsed) (ps : List WireguardPeer)
        → All IsAcceptable before
        → All IsPeer ps
        → All IsAcceptable (foldl push_parsed before ps)
    unfolding push_parsed
    peers-IsAcceptable before [] h genuine = h
    peers-IsAcceptable before (p ∷ ps) h (here, later) =
        let a = parse_peer-IsAcceptable base64 p here.key here.has_key here.valid in
        peers-IsAcceptable (push_peer before (parse_peer p)) ps
          (pushed-IsAcceptable before (parse_peer p) h a) later

    attribute-IsReadable :
        (d : WireguardParsed) (attr : WireguardAttribute)
        → IsReadable d
        → IsGenuine attr
        → IsReadable (extend_attribute d attr)
    unfolding extend_attribute
    attribute-IsReadable d (WireguardAttribute.if_name v) h g = record {
      name = (g, tt);
      public = h.public;
      private = h.private;
      peers = h.peers;
    }
    attribute-IsReadable d (WireguardAttribute.private_key v) h g = record {
      name = h.name;
      public = h.public;
      private = (encoded-IsKey base64 v g, tt);
      peers = h.peers;
    }
    attribute-IsReadable d (WireguardAttribute.public_key v) h g = record {
      name = h.name;
      public = (encoded-IsKey base64 v g, tt);
      private = h.private;
      peers = h.peers;
    }
    attribute-IsReadable d (WireguardAttribute.peers ps) h g = record {
      name = h.name;
      public = h.public;
      private = h.private;
      peers = peers-IsAcceptable (Option.get_or d.peers []) ps (rw (or_empty d.peers) h.peers) g;
    }
    attribute-IsReadable d _ h g = record {
      name = h.name;
      public = h.public;
      private = h.private;
      peers = h.peers;
    }

    attributes-IsReadable :
        (d : WireguardParsed) (attrs : List WireguardAttribute)
        → IsReadable d
        → All IsGenuine attrs
        → IsReadable (foldl extend_attribute d attrs)
    attributes-IsReadable d [] h g = h
    attributes-IsReadable d (attr ∷ attrs) h g =
        attributes-IsReadable (extend_attribute d attr) attrs (attribute-IsReadable d attr h g.0)
          g.1

    -- A message as a kernel reports it.
    abbrev pub IsReport : WireguardMessage → Type 0
    IsReport m = All IsGenuine m.attributes

    messages-IsReadable :
        (d : WireguardParsed) (ms : List WireguardMessage)
        → IsReadable d
        → All IsReport ms
        → IsReadable (foldl extend_message d ms)
    unfolding extend_message
    messages-IsReadable d [] h g = h
    messages-IsReadable d (m ∷ ms) h g =
        messages-IsReadable (extend_message d m) ms (attributes-IsReadable d m.attributes h g.0) g.1

    -- What was read can be set again: the configuration that messages make together can be built,
    -- if it has an interface name, if names are names that an interface can have, keys have the
    -- length of keys, each peer has a public key, seconds fit into 64 bits and prefixes are valid.
    -- It is assumed that base64 keeps bytes and accepts only the text that it writes.
    pub build_messages-parse_messages :
        (ms : List WireguardMessage) (cmd : WireguardCmd) (name : String)
        → All IsReport ms
        → (parse_messages ms).iface_name ≡ some name
        → (again : List WireguardMessage) × (build_messages (parse_messages ms) cmd ≡ ok again)
    unfolding parse_messages
    build_messages-parse_messages ms cmd name genuine has =
        let r =
          messages-IsReadable default_device ms
            (record { name = tt; public = tt; private = tt; peers = tt }) genuine in
        let (fits, done) : All IsName (name ∷ []) = rw has at r.name in
        (build_messages_iff (parse_messages ms) cmd).1 (record {
          iface = WireguardAttribute.if_name name;
          has_iface =
              inl (record {
                name = name;
                has_name = has;
                short = fits.0;
                plain = fits.1;
                made = refl;
              });
          valid_public = r.public;
          valid_private = r.private;
          valid_peers = r.peers;
        })
