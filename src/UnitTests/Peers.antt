-- ===== src/UnitTests/Peers.antt =====
-- The unit tests of src/peer_parsed.rs, and the one of src/parsed.rs on keys.
use nl_wireguard.Base.{
  ℕ, ◌≡◌, refl, Bool, true, false, ◌&&◌, is_none, all, not, length, String, some, none, [], ◌∷◌,
  ◌==◌, arith,
}
use nl_wireguard.Base.Int.{ℤ, pos, negsuc}
use nl_wireguard.Base.Text.{◌+++◌, contains, show}
use nl_wireguard.Packet.{Bytes, IpAddr, WireguardPeerAttribute, WireguardPeer}
use nl_wireguard.Crates.{Crates, decoded, Decoded, invalid}
use nl_wireguard.Error.{ErrorKind, Result, ok, err, error_new}
use nl_wireguard.AllowedIp.{validate}
use nl_wireguard.Key.{decode_key}
use nl_wireguard.Flags.{build_peer_flags, peer_flag_bits}
use nl_wireguard.Peer.{
  WireguardPeerParsed, default_peer, parse_peer, add_attribute, parse_handshake, remove, build,
  build_holding, key_attribute, allowed_ips_attribute, validate_all, attributes_after_keys,
  attributes_after_ips,
}
use nl_wireguard.Peer.Accepted.{IsKey, key_accepted}
use nl_wireguard.UnitTests.{is_ok, same_kind, fails_with, filled, same_bytes}

abbrev pub peer_public_key : String
peer_public_key = "8bdQrVLqiw3ZoHCucNh1YfH0iCWuyStniRr8t7H24Fk="

-- 31 bytes.
abbrev short_key : String
short_key = "QUFBQUFBQUFBQUFBQUFBQUFBQUFBQUFBQUFBQUFBQQ=="

abbrev peer_with_last_handshake : ℤ → ℤ → WireguardPeer
peer_with_last_handshake seconds nano_seconds =
    WireguardPeerAttribute.public_key (filled 1 32)
    ∷ WireguardPeerAttribute.last_handshake
        (record { seconds = seconds; nano_seconds = nano_seconds })
    ∷ []

abbrev peer_with_allowed_ip : IpAddr → ℕ → WireguardPeerParsed
peer_with_allowed_ip ip_addr prefix_length = record default_peer {
  public_key = some peer_public_key;
  allowed_ips =
      some (record { ip_addr = ip_addr; prefix_length = prefix_length; flags = none } ∷ []);
}

module _ ⦃c : Crates⦄ where
  abbrev last_handshake_is_parsed : Bool
  last_handshake_is_parsed =
      elim (parse_peer (peer_with_last_handshake (pos 1700000000) (pos 123456789))).last_handshake [
        | some d ↦ d.as_secs == 1700000000 && d.subsec_nanos == 123456789
        | none ↦ false
      ]

  last_handshake_is_parsed_passes : last_handshake_is_parsed ≡ true
  unfolding parse_peer add_attribute parse_handshake
  last_handshake_is_parsed_passes = refl

  abbrev ignored : ℤ × ℤ → Bool
  ignored (seconds, nano_seconds) =
      is_none (parse_peer (peer_with_last_handshake seconds nano_seconds)).last_handshake

  abbrev invalid_last_handshake_is_ignored : Bool
  invalid_last_handshake_is_ignored =
      all (λ n. ignored (pos 1, n)) (pos 1000000000 ∷ pos 1500000000 ∷ pos 4000000000 ∷ [])
      && all ignored ((negsuc 0, pos 0) ∷ (pos 1, negsuc 0) ∷ [])

  invalid_last_handshake_is_ignored_passes : invalid_last_handshake_is_ignored ≡ true
  unfolding parse_peer add_attribute parse_handshake
  invalid_last_handshake_is_ignored_passes = refl

  abbrev peer_without_public_key_is_rejected : Bool
  peer_without_public_key_is_rejected = fails_with ErrorKind.invalid_input (build default_peer)

  peer_without_public_key_is_rejected_passes : peer_without_public_key_is_rejected ≡ true
  unfolding build error_new
  peer_without_public_key_is_rejected_passes = refl

  -- Two attributes: the public key, decoded, and the flag.
  abbrev holds_key_and_flag : Decoded → Result WireguardPeer → Bool
  holds_key_and_flag (decoded bytes)
        (ok (WireguardPeerAttribute.public_key key ∷ WireguardPeerAttribute.flags flags ∷ [])) =
      same_bytes key bytes && flags == c.peer_remove_me
  holds_key_and_flag _ _ = false

  abbrev removal_peer_holds_public_key_and_remove_me_flag : Bool
  removal_peer_holds_public_key_and_remove_me_flag =
      holds_key_and_flag (c.decode peer_public_key) (build (remove peer_public_key))

  abbrev accepts : IpAddr × ℕ × Bool → Bool
  accepts (ip_addr, prefix_length, true) =
      is_ok (build (peer_with_allowed_ip ip_addr prefix_length))
  accepts (ip_addr, prefix_length, false) =
      fails_with ErrorKind.invalid_input (build (peer_with_allowed_ip ip_addr prefix_length))

  abbrev out_of_range_prefix_length_is_rejected : Bool
  out_of_range_prefix_length_is_rejected = all accepts (
      (IpAddr.v4 181731328, 32, true)
      ∷ (IpAddr.v4 181731328, 33, false)
      ∷ (IpAddr.v6 0, 128, true)
      ∷ (IpAddr.v6 0, 129, false)
      ∷ [])

  same_bytes_refl : (bytes : Bytes) → same_bytes bytes bytes ≡ true
  same_bytes_refl [] = refl
  same_bytes_refl (x ∷ xs) = ground (arith, same_bytes_refl xs)

  -- An error of this kind is returned, and its message does not hold the text.
  abbrev fails_silently : {A : Type 0} → ErrorKind → String → Result A → Bool
  fails_silently kind text (ok a) = false
  fails_silently kind text (err e) = same_kind e.kind kind && not (contains e.msg text)

  abbrev removal_peer_rejects_an_invalid_public_key : Bool
  removal_peer_rejects_an_invalid_public_key =
      fails_silently ErrorKind.invalid_key "not base64!" (build (remove "not base64!"))

  not_decoded :
      (prop_name : String)
      → c.decode "not base64!" ≡ invalid "Invalid symbol 32, offset 3."
      → decode_key prop_name "not base64!"
        ≡ err (
            error_new ErrorKind.invalid_key
              ("Invalid " +++ prop_name +++ ": not a valid base64 encoded string: "
                +++ "Invalid symbol 32, offset 3.")
              none)
  unfolding decode_key
  not_decoded prop_name rejected = rw (rejected, decode_key) refl

  -- What base64 says of the first character that it does not know, the space.
  removal_peer_rejects_an_invalid_public_key_passes :
      c.decode "not base64!" ≡ invalid "Invalid symbol 32, offset 3."
      → removal_peer_rejects_an_invalid_public_key ≡ true
  unfolding remove build build_holding key_attribute error_new contains
  removal_peer_rejects_an_invalid_public_key_passes rejected =
      rw (not_decoded "peer.public_key" rejected) refl

  -- The test but for the two assertions on the `Debug` rendering of the error.
  abbrev invalid_key_is_not_reported_in_the_error : Bool
  invalid_key_is_not_reported_in_the_error =
      fails_silently ErrorKind.invalid_key short_key (decode_key "private_key" short_key)
      && fails_silently ErrorKind.invalid_key "not base64!"
          (decode_key "peer.preshared_key" "not base64!")

  too_short :
      (bytes : Bytes)
      → c.decode short_key ≡ decoded bytes
      → length bytes ≡ 31
      → c.wg_key_len ≡ 32
      → decode_key "private_key" short_key
        ≡ err (
            error_new ErrorKind.invalid_key
              "Invalid private_key: 32 bytes expected, but the base64 encoded string holds 31 bytes"
              none)
  unfolding decode_key show
  too_short bytes short is_31 is_32 = rw (short, is_31, is_32, decode_key) refl

  invalid_key_is_not_reported_passes :
      (bytes : Bytes)
      → c.decode short_key ≡ decoded bytes
      → length bytes ≡ 31
      → c.wg_key_len ≡ 32
      → c.decode "not base64!" ≡ invalid "Invalid symbol 32, offset 3."
      → invalid_key_is_not_reported_in_the_error ≡ true
  unfolding error_new contains
  invalid_key_is_not_reported_passes bytes short is_31 is_32 rejected =
      rw (too_short bytes short is_31 is_32, not_decoded "peer.preshared_key" rejected) refl

  module _ (key : IsKey peer_public_key) where
    accepted_key : decode_key "peer.public_key" peer_public_key ≡ ok key.bytes
    accepted_key = key_accepted "peer.public_key" peer_public_key key

    out_of_range_prefix_length_is_rejected_passes : out_of_range_prefix_length_is_rejected ≡ true
    unfolding build build_holding key_attribute allowed_ips_attribute validate_all validate
        error_new
    out_of_range_prefix_length_is_rejected_passes = rw accepted_key refl

    removal_built :
        c.peer_flags.collect (c.peer_remove_me ∷ []) ≡ c.peer_remove_me
        → build (remove peer_public_key)
          ≡ ok (
              WireguardPeerAttribute.public_key key.bytes
              ∷ WireguardPeerAttribute.flags c.peer_remove_me
              ∷ [])
    unfolding remove build build_holding key_attribute allowed_ips_attribute attributes_after_keys
        attributes_after_ips build_peer_flags peer_flag_bits
    removal_built one = rw accepted_key (rw one refl)

    -- The set of one flag is that flag.
    removal_peer_passes :
        c.peer_flags.collect (c.peer_remove_me ∷ []) ≡ c.peer_remove_me
        → removal_peer_holds_public_key_and_remove_me_flag ≡ true
    removal_peer_passes one =
        rw (key.decodes, removal_built one) (ground (arith, same_bytes_refl key.bytes))
