-- ===== src/Execution/Portfolio/Reconcile/Steps.antt =====
-- What one response of a reconciliation leaves of the frozen routers, and sequences of two calls.
use perpbot.Base.{
  ℕ, true, false, Option, none, some, List, [], ◌∷◌, ◌≡◌, if◌then◌else◌, ◌==◌, arith, Bool-cases,
  inl, inr,
}
use perpbot.Execution.Portfolio.{Book, Shared, Call, has_router, world_of, at_router, emit, ◌>>◌}
use perpbot.Execution.Portfolio.Reconcile.{
  report_refused, catch_refused, guard_position, guard_unrouted, guard_missing, respond,
}
use perpbot.Execution.Portfolio.Shutdown.{IsFrozen}
use perpbot.Execution.Reconciliation.{
  Mismatch, size, missing_stop, stop_drift, stop_without_position, unknown_order,
}
use perpbot.Execution.Router.Rows.{is_frozen, set_state}
use perpbot.Execution.Router.Stops.{place_exchange_stop, halt}
use perpbot.Decimal.{Decimal}
use perpbot.Monitor.{Alert, alert, info, warn}
use perpbot.Execution.Types.{Text, PositionView, AccountSnapshot, position}
use perpbot.Execution.World.{refused, failed, Result, ok, err, Executor, Router, World, Action}

-- The router of the instrument, if there is one, is halted or liquidated.
abbrev pub IsFrozenAt : {S : Type 0} → ℕ → List (Router S) → Type 0
IsFrozenAt i [] = Unit
IsFrozenAt i (r ∷ rs) = if r.instrument_id == i then IsFrozen r else IsFrozenAt i rs

no_router-IsFrozenAt :
    {S : Type 0} (i : ℕ) (rs : List (Router S)) → has_router i rs ≡ false → IsFrozenAt i rs
no_router-IsFrozenAt i [] h = tt
no_router-IsFrozenAt i (r ∷ rs) h = elim (Bool-cases (r.instrument_id == i)) [
  | inl e ↦ cc (rw e at h)
  | inr e ↦ rw e (no_router-IsFrozenAt i rs (rw e at h))
]

module _ {E S : Type 0} where
  -- A call of a router that keeps its instrument, and its state if that is frozen.
  abbrev pub KeepsFrozen : Action E S (Unit {0}) → Type 0
  KeepsFrozen a =
      (w : World E S)
      → ((a w).1.router.instrument_id ≡ w.router.instrument_id)
        × (is_frozen w.router.state ≡ true → is_frozen (a w).1.router.state ≡ true)

  at_router-IsFrozenAt :
      (i j : ℕ) (a : Action E S (Unit {0})) (rs : List (Router S)) (s : Shared E)
      → KeepsFrozen a
      → IsFrozenAt i rs
      → IsFrozenAt i (at_router j (λ _. a) rs s).1
  unfolding at_router
  at_router-IsFrozenAt i j a [] s k h = tt
  at_router-IsFrozenAt i j a (r ∷ rs) s k h =
      let (same, kept) = k (world_of r s) in
      elim (Bool-cases (r.instrument_id == j)) [
        | inl e ↦ rw e (elim (Bool-cases (r.instrument_id == i)) [
          | inl d ↦ rw (same, d) (kept (rw d at h))
          | inr d ↦ rw (same, d) (rw d at h)
        ])
        | inr e ↦ rw e (elim (Bool-cases (r.instrument_id == i)) [
          | inl d ↦ rw d (rw d at h)
          | inr d ↦ rw d (at_router-IsFrozenAt i j a rs s k (rw d at h))
        ])
      ]

  -- A call that leaves every router frozen leaves the one that it is made on frozen.
  at_router_freezes :
      (i : ℕ) (a : Action E S (Unit {0})) (rs : List (Router S)) (s : Shared E)
      → ((w : World E S) → (a w).1.router.instrument_id ≡ w.router.instrument_id)
      → ((w : World E S) → is_frozen (a w).1.router.state ≡ true)
      → IsFrozenAt i (at_router i (λ _. a) rs s).1
  unfolding at_router
  at_router_freezes i a [] s k h = tt
  at_router_freezes i a (r ∷ rs) s k h = elim (Bool-cases (r.instrument_id == i)) [
    | inl e ↦ rw (e, k (world_of r s), e) (h (world_of r s))
    | inr e ↦ rw (e, e) (at_router_freezes i a rs s k h)
  ]

  -- What holds after the first call and is kept by the second holds after both.
  pub then-keeps :
      (P : Book E S → Type 0) (c k : Call E S (Unit {0})) (b : Book E S)
      → P (c b).1
      → ((d : Book E S) → P d → P (k d).1)
      → P ((c >> k) b).1
  then-keeps P c k b p h = go (c b) p
    where
      go :
          (q : Result (Unit {0}) × Book E S)
          → P q.1
          → P
              (elim q.0 as (λ _. Result (Unit {0}) × Book E S) [
                | ok a ↦ k q.1
                | err er ↦ (err er, q.1)
              ]).1
      go (ok a, d) p = h d p
      go (err er, d) p = p

  -- If both calls return, what the second one gives holds.
  pub then-reaches :
      (P : Book E S → Type 0) (c k : Call E S (Unit {0})) (b : Book E S)
      → ((c >> k) b).0 ≡ ok tt
      → ((d : Book E S) → (k d).0 ≡ ok tt → P (k d).1)
      → P ((c >> k) b).1
  then-reaches P c k b e h = go (c b) e
    where
      go :
          (q : Result (Unit {0}) × Book E S)
          → (elim q.0 as (λ _. Result (Unit {0}) × Book E S) [
            | ok a ↦ k q.1
            | err er ↦ (err er, q.1)
          ]).0
            ≡ ok tt
          → P
              (elim q.0 as (λ _. Result (Unit {0}) × Book E S) [
                | ok a ↦ k q.1
                | err er ↦ (err er, q.1)
              ]).1
      go (ok a, d) e = h d e
      go (err er, d) e = cc

module _ {E S : Type 0} ⦃x : Executor E⦄ where
  halt_freezes : (w : World E S) → is_frozen (halt w).1.router.state ≡ true
  unfolding halt set_state
  halt_freezes w = ground arith

  halt-instrument_id : (w : World E S) → (halt w).1.router.instrument_id ≡ w.router.instrument_id
  unfolding halt set_state
  halt-instrument_id w = ground arith

  guard_position_keeps : (p : PositionView) → KeepsFrozen {E = E} {S = S} (guard_position p)
  unfolding guard_position place_exchange_stop
  guard_position_keeps p w = (ground arith, λ h. ground arith)

  -- What is done on the exchange and reported leaves the routers alone.
  reported-routers :
      (c : Call E S (Unit {0})) (a a' : Alert) (b : Book E S)
      → ((c >> (emit a >> emit a')) b).1.routers ≡ (c b).1.routers
  reported-routers c a a' b = ground arith

  cancel_order-routers :
      (snap : AccountSnapshot) (id : Text) (b : Book E S)
      → (respond snap (unknown_order id) b).1.routers ≡ b.routers
  unfolding respond
  cancel_order-routers snap id b = ground arith

  cancel_stop-routers :
      (snap : AccountSnapshot) (j : ℕ) (t : Decimal) (b : Book E S)
      → (respond snap (stop_without_position j t) b).1.routers ≡ b.routers
  unfolding respond
  cancel_stop-routers snap j t b = ground arith

  report_refused-routers :
      (m : Mismatch) (b : Book E S) → (report_refused m b).1.routers ≡ b.routers
  unfolding report_refused
  report_refused-routers m b = ground arith

  guard_unrouted-routers :
      (p : PositionView) (b : Book E S) → (guard_unrouted p b).1.routers ≡ b.routers
  guard_unrouted-routers p b = ground arith

  guard_missing-IsFrozenAt :
      (i j : ℕ) (p : Option PositionView) (b : Book E S)
      → IsFrozenAt i b.routers
      → IsFrozenAt i (guard_missing j p b).1.routers
  guard_missing-IsFrozenAt i j none b h = h
  guard_missing-IsFrozenAt i j (some p) b h = elim (Bool-cases (has_router j b.routers)) [
    | inl e ↦
        rw e (
          at_router-IsFrozenAt i j (guard_position p) b.routers b.shared (guard_position_keeps p) h)
    | inr e ↦ rw (e, guard_unrouted-routers p b) h
  ]

  pub respond-IsFrozenAt :
      (i : ℕ) (snap : AccountSnapshot) (m : Mismatch) (b : Book E S)
      → IsFrozenAt i b.routers
      → IsFrozenAt i (respond snap m b).1.routers
  unfolding respond
  respond-IsFrozenAt i snap (size j _ _) b h = elim (Bool-cases (has_router j b.routers)) [
    | inl e ↦ rw e (
        at_router-IsFrozenAt i j halt b.routers b.shared
          (λ w. (halt-instrument_id w, λ _. halt_freezes w)) h)
    | inr e ↦ rw e h
  ]
  respond-IsFrozenAt i snap (unknown_order id) b h = rw (cancel_order-routers snap id b) h
  respond-IsFrozenAt i snap (missing_stop j _) b h =
      rw
        (reported-routers (guard_missing j (position snap j)) (alert warn "stop_missing" (some j))
          (alert info "stop_placed" (some j)) b)
        (guard_missing-IsFrozenAt i j (position snap j) b h)
  respond-IsFrozenAt i snap (stop_without_position j t) b h = rw (cancel_stop-routers snap j t b) h
  respond-IsFrozenAt i snap (stop_drift j _ _) b h = h

  pub caught-IsFrozenAt :
      (i : ℕ) (m : Mismatch) (q : Result (Unit {0}) × Book E S)
      → IsFrozenAt i q.1.routers
      → IsFrozenAt i (catch_refused m q).1.routers
  caught-IsFrozenAt i m (ok a, b) h = h
  caught-IsFrozenAt i m (err refused, b) h = rw (report_refused-routers m b) h
  caught-IsFrozenAt i m (err failed, b) h = h

  pub respond_size-IsFrozenAt :
      (i : ℕ) (snap : AccountSnapshot) (l r : Decimal) (b : Book E S)
      → IsFrozenAt i (respond snap (size i l r) b).1.routers
  unfolding respond
  respond_size-IsFrozenAt i snap l r b = elim (Bool-cases (has_router i b.routers)) [
    | inl e ↦ rw e (at_router_freezes i halt b.routers b.shared halt-instrument_id halt_freezes)
    | inr e ↦ rw e (no_router-IsFrozenAt i b.routers e)
  ]
