-- ===== src/Base/Members.antt =====
-- Membership in lists, under filters, appends and maps.
use Prim.Native.Nat.{ℕ}
use mathlib.Core.Path.{◌≡◌, refl, sym, ap, subst, ◌∙◌}
use mathlib.Core.Logic.{inl, inr}
use mathlib.Core.Bool.{Bool, true, false, ◌||◌}
use mathlib.Core.Option.{Option, none, some}
use mathlib.Core.List.{List, [], ◌∷◌, ◌++◌, map}
use native.Mathlib.Omega.{arith}
use perpbot.Base.Tests.{Bool-cases}
use perpbot.Base.Lists.{In, All, mem_ℕ, filter_by, any}

-- `a if a is not None else b`
abbrev pub or_some {ℓ} : {A : Type ℓ} → Option A → Option A → Option A
or_some (some a) o = some a
or_some none o = o

pub or_some-none {ℓ} : {A : Type ℓ} (o : Option A) → or_some o none ≡ o
or_some-none none = refl
or_some-none (some a) = refl

pub or_some_assoc {ℓ} :
    {A : Type ℓ} (a b c : Option A) → or_some a (or_some b c) ≡ or_some (or_some a b) c
or_some_assoc none b c = refl
or_some_assoc (some a) b c = refl

pub mem_ℕ_of_In : (k : ℕ) (ks : List ℕ) → In k ks → mem_ℕ k ks ≡ true
mem_ℕ_of_In k [] h = absurd h
mem_ℕ_of_In k (j ∷ js) (inl e) = ground arith
mem_ℕ_of_In k (j ∷ js) (inr h) = ground (arith, mem_ℕ_of_In k js h)

pub mem_ℕ-append : (k : ℕ) (is js : List ℕ) → mem_ℕ k (is ++ js) ≡ (mem_ℕ k is || mem_ℕ k js)
mem_ℕ-append k [] js = refl
mem_ℕ-append k (i ∷ is) js = ground (arith, mem_ℕ-append k is js)

module _ {A : Type 0} where
  pub In-append_left : (a : A) (xs ys : List A) → In a xs → In a (xs ++ ys)
  In-append_left a [] ys h = absurd h
  In-append_left a (x ∷ xs) ys (inl e) = inl e
  In-append_left a (x ∷ xs) ys (inr h) = inr (In-append_left a xs ys h)

  pub In-append_right : (a : A) (xs ys : List A) → In a ys → In a (xs ++ ys)
  In-append_right a [] ys h = h
  In-append_right a (x ∷ xs) ys h = inr (In-append_right a xs ys h)

  pub In-map : {B : Type 0} (f : A → B) (a : A) (xs : List A) → In a xs → In (f a) (map f xs)
  In-map f a [] h = absurd h
  In-map f a (x ∷ xs) (inl e) = inl (ap f e)
  In-map f a (x ∷ xs) (inr h) = inr (In-map f a xs h)

  pub In-filter_by :
      (p : A → Bool) (a : A) (xs : List A) → In a (filter_by p xs) → In a xs × (p a ≡ true)
  In-filter_by p a [] h = absurd h
  In-filter_by p a (x ∷ xs) h = elim (Bool-cases (p x)) [
    | inl e ↦ elim (rw (e, In) at h) as (λ _. In a (x ∷ xs) × (p a ≡ true)) [
      | inl same ↦ (inl same, ap p same ∙ e)
      | inr m ↦ let ih = In-filter_by p a xs m in (inr ih.0, ih.1)
    ]
    | inr e ↦ let ih = In-filter_by p a xs (rw (e, In) at h) in (inr ih.0, ih.1)
  ]

  pub filter_by-In :
      (p : A → Bool) (a : A) (xs : List A) → In a xs → p a ≡ true → In a (filter_by p xs)
  filter_by-In p a [] h t = absurd h
  filter_by-In p a (x ∷ xs) (inl e) t = rw (sym (ap p e) ∙ t, In) (inl e)
  filter_by-In p a (x ∷ xs) (inr m) t = elim (Bool-cases (p x)) [
    | inl e ↦ rw (e, In) (inr (filter_by-In p a xs m t))
    | inr e ↦ rw (e, In) (filter_by-In p a xs m t)
  ]

  -- A filter that is at least as strict undoes a filter before it.
  pub filter_by_twice :
      (p q : A → Bool) (xs : List A)
      → ((a : A) → p a ≡ true → q a ≡ true)
      → filter_by p (filter_by q xs) ≡ filter_by p xs
  filter_by_twice p q [] h = refl
  filter_by_twice p q (x ∷ xs) h = ground (arith, h x, filter_by_twice p q xs h)

  pub any-In : (p : A → Bool) (a : A) (xs : List A) → any p xs ≡ false → In a xs → p a ≡ false
  any-In p a [] h m = absurd m
  any-In p a (x ∷ xs) h (inl e) = let e' = ap p e in ground arith
  any-In p a (x ∷ xs) h (inr m) = any-In p a xs (ground arith) m

  -- What passes a filter has what its test gives.
  pub All-filter_by :
      (P : A → Type 0) (p : A → Bool) (xs : List A)
      → All (λ a. p a ≡ true → P a) xs
      → All P (filter_by p xs)
  All-filter_by P p [] h = tt
  All-filter_by P p (x ∷ xs) h = elim (Bool-cases (p x)) [
    | inl e ↦ rw (e, All) (h.0 e, All-filter_by P p xs h.1)
    | inr e ↦ rw (e, All) (All-filter_by P p xs h.1)
  ]

pub In-All : {A : Type 0} (P : A → Type 0) (a : A) (xs : List A) → All P xs → In a xs → P a
In-All P a [] all n = absurd n
In-All P a (x ∷ xs) all (inl e) = subst P (sym e) all.0
In-All P a (x ∷ xs) all (inr n) = In-All P a xs all.1 n

pub any-false :
    {A : Type 0} (p : A → Bool) (xs : List A) → ((a : A) → In a xs → p a ≡ false) → any p xs ≡ false
any-false p [] h = refl
any-false p (x ∷ xs) h =
    let here = h x (inl refl) in let rest = any-false p xs (λ a n. h a (inr n)) in ground arith
