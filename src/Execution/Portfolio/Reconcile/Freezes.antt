-- ===== src/Execution/Portfolio/Reconcile/Freezes.antt =====
-- A size mismatch freezes its router.
use perpbot.Base.{
  ℕ, Bool, true, false, ◌||◌, List, [], ◌∷◌, ◌≡◌, refl, ◌==◌, arith, Bool-cases, inl, inr,
}
use perpbot.Execution.Portfolio.{Book, on_exec}
use perpbot.Execution.Portfolio.Reconcile.{
  catch_refused, respond, respond_all, handle_mismatches, forget_resolved, mismatches_of, reconcile,
}
use perpbot.Execution.Reconciliation.{
  Mismatch, size, missing_stop, stop_drift, stop_without_position, unknown_order,
}
use perpbot.Execution.Types.{AccountSnapshot}
use perpbot.Execution.World.{Result, ok, err, Executor}
use perpbot.Execution.Portfolio.Reconcile.Steps.{
  IsFrozenAt, then-keeps, then-reaches, respond-IsFrozenAt, caught-IsFrozenAt,
  respond_size-IsFrozenAt,
}

-- Is there a size mismatch of the instrument?
abbrev pub has_size : ℕ → List Mismatch → Bool
has_size i [] = false
has_size i (size j _ _ ∷ ms) = j == i || has_size i ms
has_size i (_ ∷ ms) = has_size i ms

module _ {E S : Type 0} ⦃x : Executor E⦄ where
  respond_all-IsFrozenAt :
      (i : ℕ) (snap : AccountSnapshot) (ms : List Mismatch) (b : Book E S)
      → IsFrozenAt i b.routers
      → IsFrozenAt i (respond_all snap ms b).1.routers
  unfolding respond_all
  respond_all-IsFrozenAt i snap [] b h = h
  respond_all-IsFrozenAt i snap (m ∷ ms) b h =
      then-keeps (λ c. IsFrozenAt i c.routers) (λ c. catch_refused m (respond snap m c))
        (respond_all snap ms) b
        (caught-IsFrozenAt i m (respond snap m b) (respond-IsFrozenAt i snap m b h))
        (λ d g. respond_all-IsFrozenAt i snap ms d g)

  respond_all_freezes :
      (i : ℕ) (snap : AccountSnapshot) (ms : List Mismatch) (b : Book E S)
      → has_size i ms ≡ true
      → (respond_all snap ms b).0 ≡ ok tt
      → IsFrozenAt i (respond_all snap ms b).1.routers
  unfolding respond_all
  respond_all_freezes i snap [] b h e = cc
  respond_all_freezes i snap (m ∷ ms) b h e = elim (Bool-cases (has_size i ms)) [
    | inl later ↦
        then-reaches (λ c. IsFrozenAt i c.routers) (λ c. catch_refused m (respond snap m c))
          (respond_all snap ms) b e (λ d k. respond_all_freezes i snap ms d later k)
    | inr now ↦
        then-keeps (λ c. IsFrozenAt i c.routers) (λ c. catch_refused m (respond snap m c))
          (respond_all snap ms) b (caught-IsFrozenAt i m (respond snap m b) (first m h now))
          (λ d g. respond_all-IsFrozenAt i snap ms d g)
  ]
    where
      first :
          (m : Mismatch)
          → has_size i (m ∷ ms) ≡ true
          → has_size i ms ≡ false
          → IsFrozenAt i (respond snap m b).1.routers
      first (size j l r) h now =
          let same : j ≡ i = ground arith in rw same (respond_size-IsFrozenAt i snap l r b)
      first (missing_stop j l) h now = cc
      first (stop_drift j l r) h now = cc
      first (stop_without_position j l) h now = cc
      first (unknown_order id) h now = cc

  handled-IsFrozenAt :
      (i : ℕ) (snap : AccountSnapshot) (found ms : List Mismatch) (b : Book E S)
      → (handle_mismatches snap found b).0 ≡ ok ms
      → has_size i ms ≡ true
      → IsFrozenAt i (handle_mismatches snap found b).1.routers
  handled-IsFrozenAt i snap found ms b e h =
      go (respond_all snap found b).0 (respond_all snap found b).1
        (respond_all_freezes i snap found b) e
    where
      go :
          (r : Result (Unit {0})) (c : Book E S)
          → (has_size i found ≡ true → r ≡ ok tt → IsFrozenAt i c.routers)
          → (elim r as (λ _. Result (List Mismatch) × Book E S) [
            | ok _ ↦ (ok found, forget_resolved found c)
            | err er ↦ (err er, c)
          ]).0
            ≡ ok ms
          → IsFrozenAt i
              (elim r as (λ _. Result (List Mismatch) × Book E S) [
                | ok _ ↦ (ok found, forget_resolved found c)
                | err er ↦ (err er, c)
              ]).1.routers
      go (ok a) c k e = k (cc) refl
      go (err er) c k e = cc

  -- When a reconciliation returns, the router of every instrument for which it found a size mismatch is
  -- halted or liquidated, whatever the executor answered to the other responses.
  pub reconcile_freezes :
      (i : ℕ) (b : Book E S) (ms : List Mismatch)
      → (reconcile b).0 ≡ ok ms
      → has_size i ms ≡ true
      → IsFrozenAt i (reconcile b).1.routers
  unfolding reconcile
  reconcile_freezes i b ms e h = go (on_exec x.snapshot b) e
    where
      go :
          (q : Result AccountSnapshot × Book E S)
          → (elim q.0 as (λ _. Result (List Mismatch) × Book E S) [
            | ok snap ↦ handle_mismatches snap (mismatches_of snap q.1) q.1
            | err er ↦ (err er, q.1)
          ]).0
            ≡ ok ms
          → IsFrozenAt i
              (elim q.0 as (λ _. Result (List Mismatch) × Book E S) [
                | ok snap ↦ handle_mismatches snap (mismatches_of snap q.1) q.1
                | err er ↦ (err er, q.1)
              ]).1.routers
      go (ok snap, c) e = handled-IsFrozenAt i snap (mismatches_of snap c) ms c e h
      go (err er, c) e = cc
