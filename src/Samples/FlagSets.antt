-- ===== src/Samples/FlagSets.antt =====
-- Flag sets in which the lowest bit is a flag of its own.
use Prim.Native.Nat.{◌*◌, max}
use nl_wireguard.Base.{
  ℕ, ◌+◌, ◌/◌, ◌%◌, ◌≡◌, refl, true, ◌||◌, List, [], ◌∷◌, ◌++◌, ◌==◌, if◌then◌else◌, arith,
}

-- The union of a flag and a set.
unfoldable pub join : ℕ → ℕ → ℕ
join x y = if y == 0 then x else if x % 2 == 1 || y % 2 == 1 then max x y / 2 * 2 + 1 else max x y

unfoldable pub collect : List ℕ → ℕ
unfolding join
collect [] = 0
collect (x ∷ xs) = join x (collect xs)

pub collect_one : (bits : ℕ) → collect (bits ∷ []) ≡ bits
unfolding collect
collect_one bits = refl

join_odd_left : (x y : ℕ) → (x % 2 == 1) ≡ true → (join x y % 2 == 1) ≡ true
unfolding join
join_odd_left x y h = ground arith

join_odd_right : (x y : ℕ) → (y % 2 == 1) ≡ true → (join x y % 2 == 1) ≡ true
unfolding join
join_odd_right x y h = ground arith

pub collect_odd : (before after : List ℕ) → (collect (before ++ 1 ∷ after) % 2 == 1) ≡ true
unfolding collect
collect_odd [] after = join_odd_left 1 (collect after) refl
collect_odd (x ∷ before) after =
    join_odd_right x (collect (before ++ 1 ∷ after)) (collect_odd before after)
