-- ===== src/UnitTests.antt =====
-- The unit tests of the source as functions of the model: each holds for every behaviour of the
-- other crates that its premises, if any, describe.
mod Configurations
mod Peers
mod Replies
mod Redaction
mod Large
use nl_wireguard.Base.{ℕ, zero, suc, Bool, true, false, ◌&&◌, not, List, [], ◌∷◌, ◌==◌}
use nl_wireguard.Packet.{Bytes}
use nl_wireguard.Error.{ErrorKind, Result, ok, err}

abbrev pub same_kind : ErrorKind → ErrorKind → Bool
same_kind ErrorKind.bug ErrorKind.bug = true
same_kind ErrorKind.netlink_error ErrorKind.netlink_error = true
same_kind ErrorKind.decode_error ErrorKind.decode_error = true
same_kind ErrorKind.invalid_key ErrorKind.invalid_key = true
same_kind ErrorKind.invalid_input ErrorKind.invalid_input = true
same_kind _ _ = false

abbrev pub is_ok {ℓ} : {A : Type ℓ} → Result A → Bool
is_ok (ok a) = true
is_ok (err e) = false

-- The result is an error of this kind.
abbrev pub fails_with {ℓ} : {A : Type ℓ} → ErrorKind → Result A → Bool
fails_with kind (ok a) = false
fails_with kind (err e) = same_kind e.kind kind

abbrev pub same_bool : Bool → Bool → Bool
same_bool true b = b
same_bool false b = not b

-- `[byte; n]`
abbrev pub filled : ℕ → ℕ → Bytes
filled byte zero = []
filled byte (suc n) = byte ∷ filled byte n

abbrev pub same_bytes : Bytes → Bytes → Bool
same_bytes [] [] = true
same_bytes (x ∷ xs) (y ∷ ys) = x == y && same_bytes xs ys
same_bytes _ _ = false
