-- ===== src/Device.antt =====
-- `WireguardParsed` of src/parsed.rs: parsing messages into a configuration, and the device
-- attributes of a configuration.
pub mod Interface
pub mod Coalesce
pub mod Apart
pub mod Single
pub mod Merging
pub mod Cuts
pub mod RoundTrip
use mathlib.Core.List.{foldl}
use mathlib.Core.Option
use nl_wireguard.Base.{
  ℕ, ◌-◌, Bool, true, false, String, Option, none, some, List, [], ◌∷◌, ◌++◌, map, if◌then◌else◌,
  leb, is_some, list_of,
}
use nl_wireguard.Base.Text.{◌+++◌, show, len, contains_nul, str_eq}
use nl_wireguard.Packet.{Bytes, WireguardCmd, WireguardPeer, WireguardAttribute, WireguardMessage}
use nl_wireguard.Crates.{Crates}
use nl_wireguard.Error.{ErrorKind, Result, ok, err, error_new, ◌>>=◌}
use nl_wireguard.Key.{decode_key}
use nl_wireguard.Flags.{WireguardParsedDeviceFlags, parse_device_flags, build_device_flags}
use nl_wireguard.Peer.{WireguardPeerParsed, parse_peer, merge_continuation, extend}

pub record WireguardParsed : Type 0 where
  pub iface_name : Option String
  pub iface_index : Option ℕ
  pub public_key : Option String
  pub private_key : Option String
  pub listen_port : Option ℕ
  pub fwmark : Option ℕ
  pub peers : Option (List WireguardPeerParsed)
  pub flags : Option (List WireguardParsedDeviceFlags)

abbrev pub default_device : WireguardParsed
default_device = record {
  iface_name = none;
  iface_index = none;
  public_key = none;
  private_key = none;
  listen_port = none;
  fwmark = none;
  peers = none;
  flags = none;
}

abbrev pub ifnamsiz : ℕ
ifnamsiz = 16

-- The test of `push_peer`: both peers have the same public key.
unfoldable pub same_key : Option String → Option String → Bool
same_key (some last) (some key) = str_eq last key
same_key _ _ = false

-- `push_peer`, on the peers from the first to the last.
unfoldable pub push_peer : List WireguardPeerParsed → WireguardPeerParsed → List WireguardPeerParsed
unfolding same_key
push_peer [] peer = peer ∷ []
push_peer (last ∷ []) peer =
    if same_key last.public_key peer.public_key
    then merge_continuation last peer ∷ []
    else last ∷ peer ∷ []
push_peer (first ∷ next ∷ peers) peer = first ∷ push_peer (next ∷ peers) peer

module _ ⦃c : Crates⦄ where
  -- One round of the loop of `From<WireguardMessage>`.
  unfoldable pub add_attribute : WireguardParsed → WireguardAttribute → WireguardParsed
  add_attribute ret (WireguardAttribute.if_name v) = record ret { iface_name = some v }
  add_attribute ret (WireguardAttribute.if_index v) = record ret { iface_index = some v }
  add_attribute ret (WireguardAttribute.private_key v) = record ret {
    private_key = some (c.encode v);
  }
  add_attribute ret (WireguardAttribute.public_key v) = record ret {
    public_key = some (c.encode v);
  }
  add_attribute ret (WireguardAttribute.listen_port v) = record ret { listen_port = some v }
  add_attribute ret (WireguardAttribute.fwmark v) = record ret { fwmark = some v }
  add_attribute ret (WireguardAttribute.peers peers) = record ret {
    peers = some (map parse_peer peers);
  }
  add_attribute ret (WireguardAttribute.flags flag_bits) = record ret {
    flags = some (parse_device_flags flag_bits);
  }
  add_attribute ret (WireguardAttribute.other kind value) = ret

  -- `From<WireguardMessage>`
  unfoldable pub parse_message : WireguardMessage → WireguardParsed
  parse_message msg = foldl add_attribute default_device msg.attributes

  unfoldable pub push_parsed : List WireguardPeerParsed → WireguardPeer → List WireguardPeerParsed
  push_parsed peers peer = push_peer peers (parse_peer peer)

  -- One round of the inner loop of `From<Vec<WireguardMessage>>`.
  unfoldable pub extend_attribute : WireguardParsed → WireguardAttribute → WireguardParsed
  extend_attribute ret (WireguardAttribute.if_name v) = record ret { iface_name = some v }
  extend_attribute ret (WireguardAttribute.if_index v) = record ret { iface_index = some v }
  extend_attribute ret (WireguardAttribute.private_key v) = record ret {
    private_key = some (c.encode v);
  }
  extend_attribute ret (WireguardAttribute.public_key v) = record ret {
    public_key = some (c.encode v);
  }
  extend_attribute ret (WireguardAttribute.listen_port v) = record ret { listen_port = some v }
  extend_attribute ret (WireguardAttribute.fwmark v) = record ret { fwmark = some v }
  extend_attribute ret (WireguardAttribute.peers peer_attributes) = record ret {
    peers = some (foldl push_parsed (Option.get_or ret.peers []) peer_attributes);
  }
  extend_attribute ret (WireguardAttribute.flags flag_bits) = record ret {
    flags = extend ret.flags (some (parse_device_flags flag_bits));
  }
  extend_attribute ret (WireguardAttribute.other kind value) = ret

  unfoldable pub extend_message : WireguardParsed → WireguardMessage → WireguardParsed
  extend_message ret msg = foldl extend_attribute ret msg.attributes

  -- `From<Vec<WireguardMessage>>`
  unfoldable pub parse_messages : List WireguardMessage → WireguardParsed
  parse_messages = foldl extend_message default_device

  unfoldable pub iface_attribute : WireguardParsed → Result WireguardAttribute
  iface_attribute self = elim self.iface_name [
    | some name ↦
        if leb ifnamsiz (len name)
        then err (
            error_new ErrorKind.invalid_input
              ("`iface_name` can not be longer than "
                +++ show (ifnamsiz - 1)
                +++ " bytes, but `"
                +++ name
                +++ "` holds "
                +++ show (len name)
                +++ " bytes")
              none)
        else if contains_nul name
        then err (
            error_new ErrorKind.invalid_input
              "`iface_name` can not hold a NUL byte, the kernel would use the name in front of it"
              none)
        else ok (WireguardAttribute.if_name name)
    | none ↦ elim self.iface_index [
      | some index ↦ ok (WireguardAttribute.if_index index)
      | none ↦ err (
          error_new ErrorKind.invalid_input "Neither `iface_name` nor `iface_index` is defined"
            none)
    ]
  ]

  unfoldable pub key_attribute :
      String → (Bytes → WireguardAttribute) → Option String → Result (List WireguardAttribute)
  key_attribute prop_name make none = ok []
  key_attribute prop_name make (some v) = do key ← decode_key prop_name v; ok (make key ∷ [])

  abbrev pub pushed {ℓ} :
      {A : Type ℓ} → (A → WireguardAttribute) → Option A → List WireguardAttribute
  pushed make v = list_of (Option.map make v)

  unfoldable pub device_attributes : WireguardParsed → Result (List WireguardAttribute)
  device_attributes self = do
    iface ← iface_attribute self
    public ← key_attribute "public_key" WireguardAttribute.public_key self.public_key
    private ← key_attribute "private_key" WireguardAttribute.private_key self.private_key
    ok (
        iface
        ∷ (public
            ++ (private
                ++ (pushed WireguardAttribute.listen_port self.listen_port
                    ++ (pushed WireguardAttribute.fwmark self.fwmark
                        ++ pushed (λ fs. WireguardAttribute.flags (build_device_flags fs))
                            self.flags)))))

  -- The attributes in front of the peers.
  unfoldable pub leading_attributes : WireguardParsed → Bool → Result (List WireguardAttribute)
  leading_attributes self true = device_attributes self
  leading_attributes self false = do iface ← iface_attribute self; ok (iface ∷ [])

  unfoldable pub build_message :
      WireguardParsed → WireguardCmd → Bool → List WireguardPeer → Result WireguardMessage
  build_message self cmd first peers = do
    attributes ← leading_attributes self first
    ok (record {
      cmd = cmd;
      attributes =
          if is_some self.peers
          then attributes ++ WireguardAttribute.peers peers ∷ []
          else attributes;
    })
