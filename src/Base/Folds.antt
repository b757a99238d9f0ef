-- ===== src/Base/Folds.antt =====
-- What a loop over a list does to its state, composed piece by piece.
use mathlib.Core.Path.{◌≡◌, ap, ◌∙◌}
use mathlib.Core.List.{List, ◌++◌, foldl, foldl-append}

-- The loop of `f` over `xs` takes `s` to `t`.
pub record FoldsTo {S A : Type 0} (f : S → A → S) (s : S) (xs : List A) (t : S) : Type 0 where
  pub result : foldl f s xs ≡ t

infixr 20 ◌then◌
pub ◌then◌ :
    {S A : Type 0} {f : S → A → S} {s t u : S} {xs ys : List A}
    → FoldsTo f s xs t
    → FoldsTo f t ys u
    → FoldsTo f s (xs ++ ys) u
◌then◌ {f} {s} {xs} {ys} p q = record {
  result = foldl-append f s xs ys ∙ (ap (λ t. foldl f t ys) p.result ∙ q.result);
}
