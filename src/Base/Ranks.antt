-- ===== src/Base/Ranks.antt =====
-- Lists whose items have different ranks.
use Prim.Native.Nat.{ℕ, suc, ◌≤◌, ◌<◌}
use mathlib.Core.Path.{◌≡◌}
use mathlib.Core.Logic.{◌≢◌}
use mathlib.Core.List.{List, [], ◌∷◌, ◌++◌}
use native.Mathlib.Omega.{arith}
use nl_wireguard.Base.Lists.{All}

module _ {A : Type 0} (rank : A → ℕ) where
  -- No two items have the same rank.
  abbrev pub NoRepeats : List A → Type 0
  NoRepeats [] = Unit
  NoRepeats (x ∷ xs) = All (λ y. rank x ≢ rank y) xs × NoRepeats xs

  -- The ranks rise, from `low` on and below `high`.
  abbrev pub Rises : (low high : ℕ) → List A → Type 0
  Rises low high [] = low ≤ high
  Rises low high (x ∷ xs) = (low ≤ rank x) × Rises (suc (rank x)) high xs

  Rises-lower : (low mid high : ℕ) (xs : List A) → low ≤ mid → Rises mid high xs → Rises low high xs
  Rises-lower low mid high [] h r = omega arith
  Rises-lower low mid high (x ∷ xs) h r = (omega (arith, r.0), r.1)

  pub Rises-append :
      (low mid high : ℕ) (xs ys : List A)
      → Rises low mid xs
      → Rises mid high ys
      → Rises low high (xs ++ ys)
  Rises-append low mid high [] ys r s = Rises-lower low mid high ys r s
  Rises-append low mid high (x ∷ xs) ys r s =
      (r.0, Rises-append (suc (rank x)) mid high xs ys r.1 s)

  differs_above :
      (n low high : ℕ) (xs : List A) → n < low → Rises low high xs → All (λ y. n ≢ rank y) xs
  differs_above n low high [] h r = tt
  differs_above n low high (x ∷ xs) h r = (
    λ same. absurd (omega (arith, same, r.0)),
    differs_above n (suc (rank x)) high xs (omega (arith, r.0)) r.1,
  )

  pub Rises-NoRepeats : (low high : ℕ) (xs : List A) → Rises low high xs → NoRepeats xs
  Rises-NoRepeats low high [] r = tt
  Rises-NoRepeats low high (x ∷ xs) r = (
    differs_above (rank x) (suc (rank x)) high xs (omega arith) r.1,
    Rises-NoRepeats (suc (rank x)) high xs r.1,
  )

  pub one-Rises : (n : ℕ) (x : A) → rank x ≡ n → Rises n (suc n) (x ∷ [])
  one-Rises n x h = (omega (arith, h), omega (arith, h))
