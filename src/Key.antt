-- ===== src/Key.antt =====
-- `decode_key` of src/parsed.rs.
pub mod Laws
use nl_wireguard.Base.{none, String, if◌then◌else◌, ◌==◌, length}
use nl_wireguard.Base.Text.{◌+++◌, show}
use nl_wireguard.Packet.{Bytes}
use nl_wireguard.Crates.{Crates, decoded, invalid}
use nl_wireguard.Error.{ErrorKind, Result, ok, err, error_new}

module _ ⦃c : Crates⦄ where
  unfoldable pub decode_key : String → String → Result Bytes
  decode_key prop_name key_str = elim (c.decode key_str) [
    | invalid e ↦ err (
        error_new ErrorKind.invalid_key
          ("Invalid " +++ prop_name +++ ": not a valid base64 encoded string: " +++ e) none)
    | decoded key ↦
        if length key == c.wg_key_len
        then ok key
        else err (
            error_new ErrorKind.invalid_key
              ("Invalid "
                +++ prop_name
                +++ ": "
                +++ show c.wg_key_len
                +++ " bytes expected, but the base64 encoded string holds "
                +++ show (length key)
                +++ " bytes")
              none)
  ]
