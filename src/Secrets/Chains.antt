-- ===== src/Secrets/Chains.antt =====
-- Two runs of one program through fallible steps, compared by what is left of their results.
use nl_wireguard.Base.{
  ◌≡◌, refl, Bool, true, false, if◌then◌else◌, List, ◌++◌, map, map-append, is_empty, [], ◌∷◌,
}
use nl_wireguard.Error.{Result, ok, err, ◌>>=◌}

abbrev pub map_result {κ μ} : {T : Type κ} {U : Type μ} → (T → U) → Result T → Result U
map_result f (ok value) = ok (f value)
map_result f (err e) = err e

module _ {T T' U U' : Type 0} (f : T → T') (g : U → U') where
  -- Steps that look alike, one after the other, look alike.
  pub chain :
      (r s : Result T) (k l : T → Result U)
      → map_result f r ≡ map_result f s
      → ((x y : T) → f x ≡ f y → map_result g (k x) ≡ map_result g (l y))
      → map_result g (r >>= k) ≡ map_result g (s >>= l)
  chain (ok x) (ok y) k l h next = next x y (cc h)
  chain (ok x) (err e) k l h next = cc h
  chain (err e) (ok y) k l h next = cc h
  chain (err e) (err e') k l h next = cc h

module _ {T U U' : Type 0} (g : U → U') where
  -- The same step in front.
  pub chain_same :
      (r : Result T) (k l : T → Result U)
      → ((x : T) → map_result g (k x) ≡ map_result g (l x))
      → map_result g (r >>= k) ≡ map_result g (r >>= l)
  chain_same (ok x) k l next = next x
  chain_same (err e) k l next = refl

pub branch :
    {T U : Type 0} (g : T → U) (b d : Bool) (x y x' y' : T)
    → b ≡ d
    → g x ≡ g x'
    → g y ≡ g y'
    → g (if b then x else y) ≡ g (if d then x' else y')
branch g true true x y x' y' h i j = i
branch g true false x y x' y' h i j = cc h
branch g false true x y x' y' h i j = cc h
branch g false false x y x' y' h i j = j

module _ {T U : Type 0} (f : T → U) where
  pub map_behind : (xs ys zs : List T) → map f ys ≡ map f zs → map f (xs ++ ys) ≡ map f (xs ++ zs)
  map_behind xs ys zs h = cc (map-append f xs ys, map-append f xs zs, h)

  pub map_before : (xs ys zs : List T) → map f xs ≡ map f ys → map f (xs ++ zs) ≡ map f (ys ++ zs)
  map_before xs ys zs h = cc (map-append f xs zs, map-append f ys zs, h)

  pub same_empty : (xs ys : List T) → map f xs ≡ map f ys → is_empty xs ≡ is_empty ys
  same_empty [] [] h = refl
  same_empty [] (y ∷ ys) h = cc h
  same_empty (x ∷ xs) [] h = cc h
  same_empty (x ∷ xs) (y ∷ ys) h = refl
