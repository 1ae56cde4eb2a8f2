-- ===== src/Execution/Portfolio/Loops.antt =====
-- Rules for the loops over the routers: what holds of each router after its turn holds of all of them.
use perpbot.Base.{ℕ, true, List, [], ◌∷◌, ◌≡◌, All, ◌==◌, Bool-cases, inl, inr}
use perpbot.Execution.Portfolio.{
  Shared, Swept, world_of, shared_of, cons_router, for_each, at_router,
}
use perpbot.Execution.World.{Result, ok, err, Router, World, Action}

module _ {E S : Type 0} (P : Router S → Type 0) where
  -- If the loop ends and each turn that returns leaves `P`, then `P` holds of every router.
  pub for_each-All :
      (f : Router S → Action E S (Unit {0})) (rs : List (Router S)) (s : Shared E)
      → ((r : Router S) (s : Shared E)
          → (f r (world_of r s)).0 ≡ ok tt
          → P (f r (world_of r s)).1.router)
      → (for_each f rs s).0 ≡ ok tt
      → All P (for_each f rs s).1
  unfolding for_each
  for_each-All f [] s h e = tt
  for_each-All f (r ∷ rs) s h e =
      turn (f r (world_of r s)) (h r s) (λ t k. for_each-All f rs t h k) e
    where
      turn :
          (q : Result (Unit {0}) × World E S)
          → (q.0 ≡ ok tt → P q.1.router)
          → ((t : Shared E) → (for_each f rs t).0 ≡ ok tt → All P (for_each f rs t).1)
          → let swept : Swept E S = elim q.0 [
            | ok _ ↦ cons_router q.1.router (for_each f rs (shared_of q.1))
            | err er ↦ (err er, q.1.router ∷ rs, shared_of q.1)
          ] in
            swept.0 ≡ ok tt → All P swept.1
      turn (ok a, w) g k e = (g (cc), k (shared_of w) e)
      turn (err er, w) g k e = cc

  -- A call on one router that keeps `P` there keeps it for all.
  pub at_router-All :
      (i : ℕ) (f : Router S → Action E S (Unit {0})) (rs : List (Router S)) (s : Shared E)
      → ((r : Router S) (s : Shared E)
          → (r.instrument_id == i) ≡ true
          → P r
          → P (f r (world_of r s)).1.router)
      → All P rs
      → All P (at_router i f rs s).1
  unfolding at_router
  at_router-All i f [] s h p = tt
  at_router-All i f (r ∷ rs) s h (p, ps) = elim (Bool-cases (r.instrument_id == i)) [
    | inl e ↦ rw e (h r s e p, ps)
    | inr e ↦ rw e (p, at_router-All i f rs s h ps)
  ]
