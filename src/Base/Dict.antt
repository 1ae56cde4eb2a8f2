-- ===== src/Base/Dict.antt =====
-- A Python dict in insertion order, over any key with a Boolean test for equality.
use Prim.Native.Nat.{ℕ}
use mathlib.Core.Path.{◌≡◌, refl}
use mathlib.Core.Bool.{Bool, true, false}
use mathlib.Core.Option.{Option, none, some}
use mathlib.Core.List.{List, [], ◌∷◌}
use native.Mathlib.Omega.{arith}
use perpbot.Base.Tests.{◌==◌, ==_iff, if◌then◌else◌}
use perpbot.Base.Lists.{eqb_text, eqb_text→eq, eqb_text_refl}

-- A key type with its equality test.
pub record Key (K : Type 0) : Type 0 where
  pub beq : K → K → Bool
  pub beq→eq : (a b : K) → beq a b ≡ true → a ≡ b
  pub beq_refl : (a : K) → beq a a ≡ true

instance abbrev pub nat_key : Key ℕ
nat_key = record { beq = ◌==◌; beq→eq = λ a b. (==_iff a b).0; beq_refl = λ a. (==_iff a a).1 refl }

instance abbrev pub text_key : Key (List ℕ)
text_key = record { beq = eqb_text; beq→eq = eqb_text→eq; beq_refl = eqb_text_refl }

abbrev pub Dict {ℓ} : Type 0 → Type ℓ → Type ℓ
Dict K V = List (K × V)

module _ {ℓ} {K : Type 0} {V : Type ℓ} ⦃e : Key K⦄ where
  -- `d.get(k)`
  abbrev pub lookup : K → Dict K V → Option V
  lookup k [] = none
  lookup k ((j, v) ∷ d) = if e.beq j k then some v else lookup k d

  -- `d[k] = v`
  abbrev pub insert : K → V → Dict K V → Dict K V
  insert k v [] = (k, v) ∷ []
  insert k v ((j, w) ∷ d) = if e.beq j k then (j, v) ∷ d else (j, w) ∷ insert k v d

  -- `d.pop(k, None)`
  abbrev pub erase : K → Dict K V → Dict K V
  erase k [] = []
  erase k ((j, w) ∷ d) = if e.beq j k then d else (j, w) ∷ erase k d

  pub lookup-insert_self : (k : K) (v : V) (d : Dict K V) → lookup k (insert k v d) ≡ some v
  lookup-insert_self k v [] = ground (arith, e.beq_refl k)
  lookup-insert_self k v ((j, w) ∷ d) = ground (arith, lookup-insert_self k v d)

  pub lookup-insert_ne :
      (j k : K) (v : V) (d : Dict K V) → e.beq k j ≡ false → lookup j (insert k v d) ≡ lookup j d
  lookup-insert_ne j k v [] h = ground arith
  lookup-insert_ne j k v ((i, w) ∷ d) h = ground (arith, lookup-insert_ne j k v d h, e.beq→eq i k)

  pub lookup-erase_ne :
      (j k : K) (d : Dict K V) → e.beq k j ≡ false → lookup j (erase k d) ≡ lookup j d
  lookup-erase_ne j k [] h = refl
  lookup-erase_ne j k ((i, w) ∷ d) h = ground (arith, lookup-erase_ne j k d h, e.beq→eq i k)

-- What a write leaves of a dict keyed by numbers.
pub lookup-insert {ℓ} :
    {V : Type ℓ} (j k : ℕ) (v : V) (d : Dict ℕ V)
    → lookup j (insert k v d) ≡ (if k == j then some v else lookup j d)
lookup-insert j k v [] = refl
lookup-insert j k v ((i, w) ∷ d) = ground (arith, lookup-insert j k v d)
