-- ===== src/Base/Take.antt =====
-- The first elements of a list, one by one.
use openflash_controller_lab.Base.Lists.{length, get_elem?, set, take, drop}
use Prim.Native.Nat.{ℕ, zero, suc, ◌+◌, ◌<◌, ◌≤◌}
use mathlib.Core.Path.{◌≡◌, refl, ap}
use mathlib.Core.List.{List, [], ◌∷◌, ◌++◌}
use mathlib.Core.Option.{some, some-injective, none-ne-some}
use native.Mathlib.Omega.{arith}

module _ {ℓ} {A : Type ℓ} where
  pub take-suc :
      (xs : List A) (n : ℕ) {x : A}
      → get_elem? xs n ≡ some x
      → take (suc n) xs ≡ take n xs ++ (x ∷ [])
  take-suc [] n h = absurd (none-ne-some _ h)
  take-suc (y ∷ ys) zero h = ap (λ z. z ∷ []) (some-injective _ _ h)
  take-suc (y ∷ ys) (suc n) h = ap (λ z. y ∷ z) (take-suc ys n h)

  pub take-set_self : (xs : List A) (n : ℕ) (v : A) → take n (set xs n v) ≡ take n xs
  take-set_self [] n v = refl
  take-set_self (y ∷ ys) zero v = refl
  take-set_self (y ∷ ys) (suc n) v = ap (λ z. y ∷ z) (take-set_self ys n v)

  pub get_elem-exists : (xs : List A) (n : ℕ) → n < length xs → (x : A) × (get_elem? xs n ≡ some x)
  get_elem-exists [] n h = absurd (omega arith)
  get_elem-exists (y ∷ ys) zero h = (y, refl)
  get_elem-exists (y ∷ ys) (suc n) h = get_elem-exists ys n (omega arith)

  pub lt_of_get_elem : (xs : List A) (n : ℕ) (x : A) → get_elem? xs n ≡ some x → n < length xs
  lt_of_get_elem [] n x h = absurd (none-ne-some _ h)
  lt_of_get_elem (y ∷ ys) zero x h = omega arith
  lt_of_get_elem (y ∷ ys) (suc n) x h = omega (arith, lt_of_get_elem ys n x h)

  pub drop-get_elem :
      (xs : List A) (n : ℕ) {x : A} → get_elem? xs n ≡ some x → drop n xs ≡ x ∷ drop (n + 1) xs
  drop-get_elem [] n h = absurd (none-ne-some _ h)
  drop-get_elem (y ∷ ys) zero h = ap (λ z. z ∷ ys) (some-injective _ _ h)
  drop-get_elem (y ∷ ys) (suc n) h =
      let next : suc n + 1 ≡ suc (n + 1) = omega arith in rw next (drop-get_elem ys n h)

  pub drop-all : (xs : List A) (n : ℕ) → length xs ≤ n → drop n xs ≡ []
  drop-all [] zero h = refl
  drop-all [] (suc n) h = refl
  drop-all (y ∷ ys) zero h = absurd (omega arith)
  drop-all (y ∷ ys) (suc n) h = drop-all ys n (omega arith)
