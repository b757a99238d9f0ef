-- ===== src/Base/Text.antt =====
-- Text: `str::contains('\0')` and the `Display` of an unsigned integer.
use Prim.Native.Nat.{ℕ, zero, suc, ◌/◌, ◌%◌}
use Prim.Native.Char.{code}
use Prim.Native.String.append
use Prim.Native.String.{String, ◌++◌}
use mathlib.Core.Bool.{Bool, true, false, ◌||◌}
use mathlib.Core.Path.{◌≡◌, refl}
use nl_wireguard.Base.Tests.{◌==◌, if◌then◌else◌}
pub use text.Mathlib.Text.{◌==◌ as str_eq, starts_with}
pub use text.Mathlib.TextEquality.{eq_iff}
pub use Prim.Native.String.{len, ◌++◌ as str_append}

infixl 65 ◌+++◌
abbrev pub ◌+++◌ : String → String → String
s +++ t = s ++ t

-- A NUL character is the one of code 0.
unfoldable pub contains_nul : String → Bool
contains_nul String.[] = false
contains_nul (String.◌∷◌ c s) = code c == 0 || contains_nul s

or_true : (b : Bool) → (b || true) ≡ true
or_true true = refl
or_true false = refl

-- `str::contains` for a text
unfoldable pub contains : String → String → Bool
contains String.[] t = starts_with String.[] t
contains (String.◌∷◌ c s) t = starts_with (String.◌∷◌ c s) t || contains s t

-- A text in the last part of another is in the whole.
pub contains_behind : (s t u : String) → contains t u ≡ true → contains (s +++ t) u ≡ true
unfolding contains
contains_behind String.[] t u h = rw (append.nil t) h
contains_behind (String.◌∷◌ c s) t u h =
    rw (append.cons c s t, contains)
      (cc (contains_behind s t u h, or_true (starts_with (String.◌∷◌ c (s +++ t)) u)))

digit : ℕ → String
digit zero = "0"
digit (suc zero) = "1"
digit (suc (suc zero)) = "2"
digit (suc (suc (suc zero))) = "3"
digit (suc (suc (suc (suc zero)))) = "4"
digit (suc (suc (suc (suc (suc zero))))) = "5"
digit (suc (suc (suc (suc (suc (suc zero)))))) = "6"
digit (suc (suc (suc (suc (suc (suc (suc zero))))))) = "7"
digit (suc (suc (suc (suc (suc (suc (suc (suc zero)))))))) = "8"
digit _ = "9"

-- The fuel is more than the number of digits.
digits_onto : ℕ → ℕ → String → String
unfolding digit
digits_onto zero n acc = acc
digits_onto (suc fuel) n acc =
    let more = digits_onto fuel (n / 10) (digit (n % 10) ++ acc) in
    if n / 10 == 0 then digit n ++ acc else more

unfoldable pub show : ℕ → String
unfolding digits_onto
show n = digits_onto (suc n) n ""
