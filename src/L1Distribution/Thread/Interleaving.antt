-- ===== src/L1Distribution/Thread/Interleaving.antt =====
-- Two series that are mixed into one, each in its own order.
use mathlib.Core.List.{List, [], ◌∷◌, ◌++◌}

pub data Interleaves {ℓ} {A : Type ℓ} : List A → List A → List A → Type ℓ where
  done : Interleaves [] [] []
  left : {a : A} {xs ys zs : List A} → Interleaves xs ys zs → Interleaves (a ∷ xs) ys (a ∷ zs)
  right : {a : A} {xs ys zs : List A} → Interleaves xs ys zs → Interleaves xs (a ∷ ys) (a ∷ zs)

module _ {ℓ} {A : Type ℓ} where
  pub all_left : (xs : List A) → Interleaves xs [] xs
  all_left [] = done
  all_left (x ∷ xs) = left (all_left xs)

  pub Interleaves-append :
      {xs ys zs xs' ys' zs' : List A}
      → Interleaves xs ys zs
      → Interleaves xs' ys' zs'
      → Interleaves (xs ++ xs') (ys ++ ys') (zs ++ zs')
  Interleaves-append done q = q
  Interleaves-append (left p) q = left (Interleaves-append p q)
  Interleaves-append (right p) q = right (Interleaves-append p q)
