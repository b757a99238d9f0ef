-- ===== src/Error.antt =====
-- src/error.rs: the error kinds, the error value with the message that it keeps, and fallible
-- results.
use nl_wireguard.Base.{◌≡◌, refl, ◌⊎◌, inl, inr, String, Option, none, some}
use nl_wireguard.Base.Text.{◌+++◌}
use nl_wireguard.Packet.{NetlinkMessage}
use nl_wireguard.Crates.{Crates}
use nl_wireguard.Redact.{redact_message}
use mathlib.Core.Option

pub data ErrorKind : Type 0 where
  bug netlink_error decode_error invalid_key invalid_input : ErrorKind

pub record WireguardError : Type 0 where
  pub kind : ErrorKind
  pub msg : String
  pub netlink_msg : Option NetlinkMessage

unfoldable pub show_kind : ErrorKind → String
show_kind ErrorKind.bug = "bug"
show_kind ErrorKind.netlink_error = "netlink_error"
show_kind ErrorKind.decode_error = "decode_error"
show_kind ErrorKind.invalid_key = "invalid_key"
show_kind ErrorKind.invalid_input = "invalid_input"

-- `WireguardError::new`
unfoldable pub error_new : ErrorKind → String → Option NetlinkMessage → WireguardError
error_new kind msg netlink_msg = record {
  kind = kind;
  msg = msg;
  netlink_msg = Option.map redact_message netlink_msg;
}

module _ ⦃c : Crates⦄ where
  unfoldable pub show_error : WireguardError → String
  show_error e = elim e.netlink_msg [
    | some nl_msg ↦
        show_kind e.kind
        +++ ": "
        +++ e.msg
        +++ ", netlink message: "
        +++ c.debug_netlink_message nl_msg
    | none ↦ show_kind e.kind +++ ": " +++ e.msg
  ]

pub data Result {ℓ} (A : Type ℓ) : Type ℓ where
  ok : A → Result A
  err : WireguardError → Result A

-- The `?` operator: an error leaves the function.
infixl 5 ◌>>=◌
abbrev pub ◌>>=◌ {κ μ} : {T : Type κ} {U : Type μ} → Result T → (T → Result U) → Result U
err failure >>= next = err failure
ok value >>= next = next value

infixl 5 ◌>>◌
abbrev pub ◌>>◌ {μ} : {U : Type μ} → Result (Unit {0}) → Result U → Result U
first >> second = first >>= λ _. second

-- A chain that succeeds has succeeded at each step.
pub ok_of_bind {κ μ} :
    {T : Type κ} {U : Type μ} (r : Result T) (next : T → Result U) {last : U}
    → (r >>= next) ≡ ok last
    → (value : T) × (r ≡ ok value) × (next value ≡ ok last)
ok_of_bind (err failure) next h = cc
ok_of_bind (ok value) next h = (value, refl, h)

pub Result-cases {ℓ} :
    {A : Type ℓ} (r : Result A) → ((a : A) × (r ≡ ok a)) ⊎ ((e : WireguardError) × (r ≡ err e))
Result-cases (ok a) = inl (a, refl)
Result-cases (err e) = inr (e, refl)
