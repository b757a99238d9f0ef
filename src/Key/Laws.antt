-- ===== src/Key/Laws.antt =====
-- What a decoded key is.
use nl_wireguard.Base.{◌≡◌, String, length, arith}
use nl_wireguard.Packet.{Bytes}
use nl_wireguard.Crates.{Crates, decoded}
use nl_wireguard.Error.{ok}
use nl_wireguard.Key.{decode_key}

module _ ⦃c : Crates⦄ where
  pub decoded_of_ok :
      (prop_name s : String) (key : Bytes)
      → decode_key prop_name s ≡ ok key
      → (c.decode s ≡ decoded key) × (length key ≡ c.wg_key_len)
  unfolding decode_key
  decoded_of_ok prop_name s key h = ground arith
