-- ===== src/Peer.antt =====
-- `WireguardPeerParsed` of src/peer_parsed.rs: parsing a peer, merging what continues it, and
-- building its attributes.
pub mod Built
pub mod Parsing
pub mod RoundTrip
pub mod Accepted
pub mod Reported
use mathlib.Core.List.{foldl}
use mathlib.Core.Option
use nl_wireguard.Base.{
  ℕ, String, Option, none, some, List, [], ◌∷◌, ◌++◌, map, Bool, ◌&&◌, if◌then◌else◌, ◌==◌, all,
  or_keep, list_of,
}
use nl_wireguard.Base.Int.{is_zero, is_nonneg, is_below, as_u64, as_u32, as_i64}
use nl_wireguard.Packet.{
  Bytes, SocketAddr, Duration, duration_new, WireguardTimeSpec, WireguardAllowedIp,
  WireguardPeerAttribute, WireguardPeer,
}
use nl_wireguard.Crates.{Crates}
use nl_wireguard.Error.{ErrorKind, Result, ok, err, error_new, ◌>>=◌, ◌>>◌}
use nl_wireguard.Key.{decode_key}
use nl_wireguard.Flags.{WireguardParsedPeerFlags, parse_peer_flags, build_peer_flags}
use nl_wireguard.AllowedIp.{WireguardIpAddress, validate, try_from, ip_attributes}

pub record WireguardPeerParsed : Type 0 where
  pub endpoint : Option SocketAddr
  pub public_key : Option String
  pub preshared_key : Option String
  pub persistent_keepalive : Option ℕ
  pub last_handshake : Option Duration
  pub rx_bytes : Option ℕ
  pub tx_bytes : Option ℕ
  pub allowed_ips : Option (List WireguardIpAddress)
  pub protocol_version : Option ℕ
  pub flags : Option (List WireguardParsedPeerFlags)

abbrev pub default_peer : WireguardPeerParsed
default_peer = record {
  endpoint = none;
  public_key = none;
  preshared_key = none;
  persistent_keepalive = none;
  last_handshake = none;
  rx_bytes = none;
  tx_bytes = none;
  allowed_ips = none;
  protocol_version = none;
  flags = none;
}

abbrev pub nanos_per_second : ℕ
nanos_per_second = 1000000000

-- `WireguardPeerParsed::remove`
unfoldable pub remove : String → WireguardPeerParsed
remove key = record default_peer {
  public_key = some key;
  flags = some (WireguardParsedPeerFlags.remove_me ∷ []);
}

-- `get_or_insert_with(Vec::new).extend(more)` under `if let Some(more)`; the allowed IPs are
-- extended in the same way.
abbrev pub extend {ℓ} : {A : Type ℓ} → Option (List A) → Option (List A) → Option (List A)
extend old none = old
extend none (some more) = some more
extend (some xs) (some more) = some (xs ++ more)

unfoldable pub merge_continuation : WireguardPeerParsed → WireguardPeerParsed → WireguardPeerParsed
merge_continuation self continuation = record {
  endpoint = or_keep self.endpoint continuation.endpoint;
  public_key = or_keep self.public_key continuation.public_key;
  preshared_key = or_keep self.preshared_key continuation.preshared_key;
  persistent_keepalive = or_keep self.persistent_keepalive continuation.persistent_keepalive;
  last_handshake = or_keep self.last_handshake continuation.last_handshake;
  rx_bytes = or_keep self.rx_bytes continuation.rx_bytes;
  tx_bytes = or_keep self.tx_bytes continuation.tx_bytes;
  allowed_ips = extend self.allowed_ips continuation.allowed_ips;
  protocol_version = or_keep self.protocol_version continuation.protocol_version;
  flags = extend self.flags continuation.flags;
}

-- The handshake arm: zero means none, a time out of range leaves the field as it was.
unfoldable pub parse_handshake : Option Duration → WireguardTimeSpec → Option Duration
parse_handshake old v =
    if is_zero v.seconds && is_zero v.nano_seconds
    then none
    else if is_nonneg v.seconds
        && is_nonneg v.nano_seconds
        && is_below v.nano_seconds nanos_per_second
    then some (duration_new (as_u64 v.seconds) (as_u32 v.nano_seconds))
    else old

abbrev pub time_spec : Duration → WireguardTimeSpec
time_spec v = record { seconds = as_i64 v.as_secs; nano_seconds = as_i64 v.subsec_nanos }

abbrev pub pushed {ℓ} :
    {A : Type ℓ} → (A → WireguardPeerAttribute) → Option A → List WireguardPeerAttribute
pushed make v = list_of (Option.map make v)

module _ ⦃c : Crates⦄ where
  -- The allowed IPs that can be parsed, in order.
  unfoldable pub parse_allowed_ips : List WireguardAllowedIp → List WireguardIpAddress
  parse_allowed_ips [] = []
  parse_allowed_ips (wg_ip ∷ wg_ips) =
      let rest = parse_allowed_ips wg_ips in
      elim (try_from wg_ip) [ ok ip ↦ ip ∷ rest | err e ↦ rest ]

  -- A key of zeros means none.
  unfoldable pub parse_preshared_key : Bytes → Option String
  parse_preshared_key v = if all (λ byte. byte == 0) v then none else some (c.encode v)

  -- One round of the loop of `From<WireguardPeer>`.
  unfoldable pub add_attribute : WireguardPeerParsed → WireguardPeerAttribute → WireguardPeerParsed
  add_attribute ret (WireguardPeerAttribute.public_key v) = record ret {
    public_key = some (c.encode v);
  }
  add_attribute ret (WireguardPeerAttribute.preshared_key v) = record ret {
    preshared_key = parse_preshared_key v;
  }
  add_attribute ret (WireguardPeerAttribute.endpoint v) = record ret { endpoint = some v }
  add_attribute ret (WireguardPeerAttribute.persistent_keepalive v) = record ret {
    persistent_keepalive = some v;
  }
  add_attribute ret (WireguardPeerAttribute.last_handshake v) = record ret {
    last_handshake = parse_handshake ret.last_handshake v;
  }
  add_attribute ret (WireguardPeerAttribute.rx_bytes v) = record ret { rx_bytes = some v }
  add_attribute ret (WireguardPeerAttribute.tx_bytes v) = record ret { tx_bytes = some v }
  add_attribute ret (WireguardPeerAttribute.protocol_version v) = record ret {
    protocol_version = some v;
  }
  add_attribute ret (WireguardPeerAttribute.allowed_ips wg_ips) = record ret {
    allowed_ips = some (parse_allowed_ips wg_ips);
  }
  add_attribute ret (WireguardPeerAttribute.flags flag_bits) = record ret {
    flags = some (parse_peer_flags flag_bits);
  }
  add_attribute ret (WireguardPeerAttribute.other kind value) = ret

  unfoldable pub parse_peer : WireguardPeer → WireguardPeerParsed
  parse_peer = foldl add_attribute default_peer

  -- The parts of `build`, each the attributes that one `if let` pushes.
  unfoldable pub key_attribute :
      String
      → (Bytes → WireguardPeerAttribute)
      → Option String
      → Result (List WireguardPeerAttribute)
  key_attribute prop_name make none = ok []
  key_attribute prop_name make (some v) = do key ← decode_key prop_name v; ok (make key ∷ [])

  unfoldable pub validate_all : List WireguardIpAddress → Result (Unit {0})
  validate_all [] = ok tt
  validate_all (ip ∷ ips) = validate ip >> validate_all ips

  unfoldable pub allowed_ips_attribute :
      Option (List WireguardIpAddress) → Result (List WireguardPeerAttribute)
  allowed_ips_attribute none = ok []
  allowed_ips_attribute (some ips) = do
    validate_all ips
    ok (WireguardPeerAttribute.allowed_ips (map ip_attributes ips) ∷ [])

  -- The attributes in front of the allowed IPs and behind them.
  unfoldable pub attributes_after_keys : WireguardPeerParsed → List WireguardPeerAttribute
  attributes_after_keys self =
      pushed WireguardPeerAttribute.persistent_keepalive self.persistent_keepalive
      ++ (pushed (λ v. WireguardPeerAttribute.last_handshake (time_spec v)) self.last_handshake
          ++ (pushed WireguardPeerAttribute.rx_bytes self.rx_bytes
              ++ pushed WireguardPeerAttribute.tx_bytes self.tx_bytes))

  unfoldable pub attributes_after_ips : WireguardPeerParsed → List WireguardPeerAttribute
  attributes_after_ips self =
      pushed WireguardPeerAttribute.protocol_version self.protocol_version
      ++ pushed (λ fs. WireguardPeerAttribute.flags (build_peer_flags fs)) self.flags

  -- `build` once the public key is there.
  unfoldable pub build_holding : WireguardPeerParsed → String → Result WireguardPeer
  build_holding self v = do
    public ← key_attribute "peer.public_key" WireguardPeerAttribute.public_key (some v)
    preshared ←
        key_attribute "peer.preshared_key" WireguardPeerAttribute.preshared_key self.preshared_key
    ips ← allowed_ips_attribute self.allowed_ips
    ok (
        pushed WireguardPeerAttribute.endpoint self.endpoint
        ++ (public
            ++ (preshared ++ (attributes_after_keys self ++ (ips ++ attributes_after_ips self)))))

  unfoldable pub build : WireguardPeerParsed → Result WireguardPeer
  unfolding build_holding key_attribute allowed_ips_attribute attributes_after_keys
      attributes_after_ips
  build self = elim self.public_key [
    | none ↦ err (
        error_new ErrorKind.invalid_input "Peer is missing `public_key` which the kernel requires"
          none)
    | some v ↦ build_holding self v
  ]
