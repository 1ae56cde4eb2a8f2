-- ===== src/Execution/World/Hoare.antt =====
-- A rule for sequencing: what the first action establishes and the second keeps holds at the end,
-- whether or not one of them raises.
use perpbot.Execution.World.{Result, ok, err, World, Action, ◌>>=◌}

module _ {E S A B : Type 0} (P : World E S → Type 0) where
  after :
      (r : Result A × World E S) (f : A → Action E S B)
      → P r.1
      → ((a : A) (w : World E S) → P w → P (f a w).1)
      → P (elim r.0 as (λ _. Result B × World E S) [ ok a ↦ f a r.1 | err e ↦ (err e, r.1) ]).1
  after (ok a, w) f p k = k a w p
  after (err e, w) f p k = p

  pub >>=-keeps :
      (m : Action E S A) (f : A → Action E S B) (w : World E S)
      → P (m w).1
      → ((a : A) (w' : World E S) → P w' → P (f a w').1)
      → P ((m >>= f) w).1
  >>=-keeps m f w p k = after (m w) f p k
