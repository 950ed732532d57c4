-- ===== src/Base/Fronts.antt =====
-- The front of a list: what an element behind it, or a write, leaves as it is.
use Prim.Native.Nat.{ℕ, zero, suc, ◌<◌, ◌≤◌}
use mathlib.Core.Path.{◌≡◌, refl, ap}
use mathlib.Core.Logic.{◌≢◌}
use mathlib.Core.List.{List, [], ◌∷◌, ◌++◌}
use mathlib.Core.Option.{some}
use native.Mathlib.Omega.{arith}
use rdma_kv_store.Base.Lists.{length, get_elem?, set, take, drop}

module _ {ℓ} {A : Type ℓ} where
  pub get_elem?-other :
      (xs : List A) (i j : ℕ) (v : A) → i ≢ j → get_elem? (set xs i v) j ≡ get_elem? xs j
  get_elem?-other [] i j v h = refl
  get_elem?-other (x ∷ xs) zero zero v h = absurd (h refl)
  get_elem?-other (x ∷ xs) zero (suc j) v h = refl
  get_elem?-other (x ∷ xs) (suc i) zero v h = refl
  get_elem?-other (x ∷ xs) (suc i) (suc j) v h = get_elem?-other xs i j v (λ e. h (ap suc e))

  pub get_elem?-front :
      (xs ys : List A) (i : ℕ) → i < length xs → get_elem? (xs ++ ys) i ≡ get_elem? xs i
  get_elem?-front [] ys i h = absurd (omega arith)
  get_elem?-front (x ∷ xs) ys zero h = refl
  get_elem?-front (x ∷ xs) ys (suc i) h = get_elem?-front xs ys i (omega arith)

  pub get_elem?-last :
      (xs : List A) (v : A) (i : ℕ) → i ≡ length xs → get_elem? (xs ++ v ∷ []) i ≡ some v
  get_elem?-last [] v zero h = refl
  get_elem?-last [] v (suc i) h = absurd (omega arith)
  get_elem?-last (x ∷ xs) v zero h = absurd (omega arith)
  get_elem?-last (x ∷ xs) v (suc i) h = get_elem?-last xs v i (omega arith)

  pub take-front : (n : ℕ) (xs ys : List A) → n ≤ length xs → take n (xs ++ ys) ≡ take n xs
  take-front zero xs ys h = refl
  take-front (suc n) [] ys h = absurd (omega arith)
  take-front (suc n) (x ∷ xs) ys h = ap (λ t. x ∷ t) (take-front n xs ys (omega arith))

  pub take-suc :
      (n : ℕ) (xs : List A) (v : A)
      → get_elem? xs n ≡ some v
      → take (suc n) xs ≡ take n xs ++ v ∷ []
  take-suc n [] v h = absurd cc
  take-suc zero (x ∷ xs) v h = let e : x ≡ v = cc in ap (λ t. t ∷ []) e
  take-suc (suc n) (x ∷ xs) v h = ap (λ t. x ∷ t) (take-suc n xs v h)

  pub take-drop : (n : ℕ) (xs : List A) → xs ≡ take n xs ++ drop n xs
  take-drop zero xs = refl
  take-drop (suc n) [] = refl
  take-drop (suc n) (x ∷ xs) = ap (λ t. x ∷ t) (take-drop n xs)
