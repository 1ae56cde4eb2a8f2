-- ===== src/Base/Lists.antt =====
-- Lists over the native numbers: lengths, membership tests, sums and predicates.
use Prim.Native.Nat.{ℕ, suc, ◌+◌}
use mathlib.Core.Path.{◌≡◌, refl}
use mathlib.Core.Logic.{◌⊎◌}
use mathlib.Core.Bool.{Bool, true, false, ◌&&◌, ◌||◌}
use mathlib.Core.Option.{Option, none, some}
use mathlib.Core.List.{List, [], ◌∷◌, ◌++◌}
use native.Mathlib.Omega.{arith}
use perpbot.Base.Tests.{◌==◌, if◌then◌else◌}
use perpbot.Base.Int.{ℤ, pos, ◌+ℤ◌}

module _ {ℓ} {A : Type ℓ} where
  abbrev pub length : List A → ℕ
  length [] = 0
  length (x ∷ xs) = suc (length xs)

  -- `any(p(x) for x in xs)`
  abbrev pub any : (A → Bool) → List A → Bool
  any p [] = false
  any p (x ∷ xs) = p x || any p xs

  -- `[x for x in xs if p(x)]`
  abbrev pub filter_by : (A → Bool) → List A → List A
  filter_by p [] = []
  filter_by p (x ∷ xs) = if p x then x ∷ filter_by p xs else filter_by p xs

  -- `next((x for x in xs if p(x)), None)`
  abbrev pub find_first : (A → Bool) → List A → Option A
  find_first p [] = none
  find_first p (x ∷ xs) = if p x then some x else find_first p xs

  -- `xs[-1]`, where there is one
  abbrev pub last? : List A → Option A
  last? [] = none
  last? (x ∷ []) = some x
  last? (x ∷ y ∷ ys) = last? (y ∷ ys)

  -- `sum((f(x) for x in xs), Decimal(0))`
  abbrev pub sum_by : (A → ℤ) → List A → ℤ
  sum_by f [] = pos 0
  sum_by f (x ∷ xs) = f x +ℤ sum_by f xs

  abbrev pub All {κ} : (A → Type κ) → List A → Type κ
  All P [] = Unit
  All P (x ∷ xs) = P x × All P xs

  pub length-append : (xs ys : List A) → length (xs ++ ys) ≡ length xs + length ys
  length-append [] ys = omega arith
  length-append (x ∷ xs) ys = omega (arith, length-append xs ys)

  pub All-append {κ} : (P : A → Type κ) (xs ys : List A) → All P xs → All P ys → All P (xs ++ ys)
  All-append P [] ys _ q = q
  All-append P (x ∷ xs) ys (p, ps) q = (p, All-append P xs ys ps q)

abbrev pub In : {A : Type 0} → A → List A → Type 0
In a [] = ⊥
In a (x ∷ xs) = (a ≡ x) ⊎ In a xs

-- `k in ks`
abbrev pub mem_ℕ : ℕ → List ℕ → Bool
mem_ℕ k [] = false
mem_ℕ k (j ∷ js) = k == j || mem_ℕ k js

-- Equality of texts, which are lists of character codes.
abbrev pub eqb_text : List ℕ → List ℕ → Bool
eqb_text [] [] = true
eqb_text (a ∷ s) (b ∷ t) = a == b && eqb_text s t
eqb_text _ _ = false

pub eqb_text→eq : (s t : List ℕ) → eqb_text s t ≡ true → s ≡ t
eqb_text→eq [] [] h = refl
eqb_text→eq (a ∷ s) (b ∷ t) h = ground (arith, eqb_text→eq s t)
eqb_text→eq [] (b ∷ t) h = cc
eqb_text→eq (a ∷ s) [] h = cc

pub eqb_text_refl : (s : List ℕ) → eqb_text s s ≡ true
eqb_text_refl [] = refl
eqb_text_refl (a ∷ s) = ground (arith, eqb_text_refl s)
