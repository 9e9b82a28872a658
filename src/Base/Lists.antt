-- ===== src/Base/Lists.antt =====
-- Lists measured by native numbers, and predicates and searches over them.
use Prim.Native.Nat.{ℕ, zero, suc, ◌+◌, ◌≤◌}
use mathlib.Core.Path.{◌≡◌, refl, ap}
use mathlib.Core.Bool.{Bool, true, false, ◌||◌, ◌&&◌}
use mathlib.Core.List.{List, [], ◌∷◌, ◌++◌}
use native.Mathlib.Omega.{arith}

module _ {ℓ} {A : Type ℓ} where
  abbrev pub length : List A → ℕ
  length [] = 0
  length (x ∷ xs) = suc (length xs)

  -- Some element passes the test.
  abbrev pub exists : (A → Bool) → List A → Bool
  exists p [] = false
  exists p (x ∷ xs) = p x || exists p xs

  -- Every element passes the test.
  abbrev pub every : (A → Bool) → List A → Bool
  every p [] = true
  every p (x ∷ xs) = p x && every p xs

  abbrev pub AllOf {κ} : (A → Type κ) → List A → Type κ
  AllOf P [] = Unit
  AllOf P (x ∷ xs) = P x × AllOf P xs

  pub length-append : (xs ys : List A) → length (xs ++ ys) ≡ length xs + length ys
  length-append [] ys = omega arith
  length-append (x ∷ xs) ys = omega (arith, length-append xs ys)

  pub AllOf-append {κ} :
      (P : A → Type κ) (xs ys : List A) → AllOf P xs → AllOf P ys → AllOf P (xs ++ ys)
  AllOf-append P [] ys h k = k
  AllOf-append P (x ∷ xs) ys h k = (h.0, AllOf-append P xs ys h.1 k)

  pub AllOf-mono {κ μ} :
      (P : A → Type κ) (Q : A → Type μ) (xs : List A)
      → ((a : A) → P a → Q a)
      → AllOf P xs
      → AllOf Q xs
  AllOf-mono P Q [] f h = tt
  AllOf-mono P Q (x ∷ xs) f h = (f x h.0, AllOf-mono P Q xs f h.1)

  unfoldable pub take : ℕ → List A → List A
  take zero xs = []
  take (suc n) [] = []
  take (suc n) (x ∷ xs) = x ∷ take n xs

  -- A list that is not longer is taken whole.
  pub take_all : (n : ℕ) (xs : List A) → length xs ≤ n → take n xs ≡ xs
  unfolding take
  take_all zero [] h = refl
  take_all zero (x ∷ xs) h = absurd (omega (arith, h))
  take_all (suc n) [] h = refl
  take_all (suc n) (x ∷ xs) h = ap (λ (ys : List A). x ∷ ys) (take_all n xs (omega (arith, h)))
