-- ===== src/Flags/Lossless.antt =====
-- Bit sets through the flag enums of src/parsed.rs and src/peer_parsed.rs.
use nl_wireguard.Base.{ℕ, ◌≡◌, refl, ap, ◌∙◌, List, [], ◌∷◌, map, arith}
use nl_wireguard.Crates.{Crates, FlagLaws}
use nl_wireguard.Flags.{
  device_flag, device_flag_bits, peer_flag, peer_flag_bits, ip_flag, ip_flag_bits,
  parse_device_flags, build_device_flags, parse_peer_flags, build_peer_flags, parse_ip_flags,
  build_ip_flags,
}

map_back :
    {A : Type 0} (f : ℕ → A) (g : A → ℕ)
    → ((n : ℕ) → g (f n) ≡ n)
    → (xs : List ℕ) → map g (map f xs) ≡ xs
map_back f g h [] = refl
map_back f g h (x ∷ xs) = cc (h x, map_back f g h xs)

module _ ⦃c : Crates⦄ where
  device_flag_back : (bits : ℕ) → device_flag_bits (device_flag bits) ≡ bits
  unfolding device_flag device_flag_bits
  device_flag_back bits = ground arith

  peer_flag_back : (bits : ℕ) → peer_flag_bits (peer_flag bits) ≡ bits
  unfolding peer_flag peer_flag_bits
  peer_flag_back bits = ground arith

  ip_flag_back : (bits : ℕ) → ip_flag_bits (ip_flag bits) ≡ bits
  unfolding ip_flag ip_flag_bits
  ip_flag_back bits = ground arith

  pub device_flags_back :
      FlagLaws c → (bits : ℕ) → build_device_flags (parse_device_flags bits) ≡ bits
  unfolding build_device_flags parse_device_flags
  device_flags_back laws bits =
      ap c.device_flags.collect (map_back device_flag device_flag_bits device_flag_back _)
      ∙ laws.device_keeps bits

  pub peer_flags_back : FlagLaws c → (bits : ℕ) → build_peer_flags (parse_peer_flags bits) ≡ bits
  unfolding build_peer_flags parse_peer_flags
  peer_flags_back laws bits =
      ap c.peer_flags.collect (map_back peer_flag peer_flag_bits peer_flag_back _)
      ∙ laws.peer_keeps bits

  pub ip_flags_back : FlagLaws c → (bits : ℕ) → build_ip_flags (parse_ip_flags bits) ≡ bits
  unfolding build_ip_flags parse_ip_flags
  ip_flags_back laws bits =
      ap c.ip_flags.collect (map_back ip_flag ip_flag_bits ip_flag_back _) ∙ laws.ip_keeps bits

  -- A set of flags that is parsed into the enum and built again has the same bits, for device,
  -- peer and allowed IP flags, and whether or not the enum names the flags; it is assumed that
  -- the flags which iteration yields make up the set.
  pub flags_lossless :
      FlagLaws c
      → (bits : ℕ)
      → (build_device_flags (parse_device_flags bits) ≡ bits)
        × (build_peer_flags (parse_peer_flags bits) ≡ bits)
        × (build_ip_flags (parse_ip_flags bits) ≡ bits)
  flags_lossless laws bits =
      (device_flags_back laws bits, peer_flags_back laws bits, ip_flags_back laws bits)
