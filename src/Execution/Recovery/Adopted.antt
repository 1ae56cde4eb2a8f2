-- ===== src/Execution/Recovery/Adopted.antt =====
-- What recovery leaves in the routers.
use perpbot.Base.{
  ℕ, true, false, Option, none, some, List, [], ◌∷◌, ◌++◌, ◌≡◌, refl, sym, inl, inr, All, ◌||◌,
  ==_iff, arith, Bool-cases, Option-cases, ap, ◌∙◌,
}
use perpbot.Base.Dict.{Dict, lookup, nat_key}
use perpbot.Decimal.{Decimal}
use perpbot.Execution.ClientId.{dash}
use perpbot.Execution.Portfolio.{
  Book, Call, world_of, has_router, alerted, emit, on_exec, one_router, ◌>>◌, ◌>>=◌,
}
use perpbot.Execution.Portfolio.Loops.{for_each-All, at_router-All}
use perpbot.Execution.Recovery.Turn.{
  IsRecovered, IsRecoveredIn, recover_router-instrument_id, recover_router-IsRecovered,
}
use perpbot.Execution.Recovery.{
  is_unsettled, halting, halting_call, recover_router, recover_routers, recover_unknown,
  recover_positions, resume, recover_order, recover_orders, cancel_foreign, recover_rest,
  recover_from, recover, states_of, snapshot_halt, mark_order, guard_unknown,
}
use perpbot.Execution.Portfolio.Reconcile.Steps.{then-keeps}
use perpbot.Execution.Reconciliation.{starts_with}
use perpbot.Execution.Router.Exits.{adopt_pending}
use perpbot.Execution.Router.Rows.{is_frozen, is_zero, is_pending, set_state}
use perpbot.Execution.Router.Send.{mem_text}
use perpbot.Execution.Types.{
  State, Text, OrderRow, PositionLocalRow, PositionView, AccountSnapshot, position, adopted,
}
use mathlib.Core.Path.{subst}
use perpbot.Execution.World.{failed, Result, ok, err, Executor, World}
use perpbot.Monitor.{Alert, alert, critical, info}
use perpbot.Storage.{get_positions_local, order_rows}

pending_not_frozen : (st : State) → is_pending st ≡ true → is_frozen st ≡ false
pending_not_frozen st p = ground arith

ok-injective : {A : Type 0} {a b : A} → ok a ≡ ok b → a ≡ b
ok-injective h = cc

module _ {E S A B : Type 0} where
  -- If two calls in a row return, the first one returned, and the second one on what it left.
  bind_returned :
      (c : Call E S A) (f : A → Call E S B) (b : Book E S) (v : B)
      → ((c >>= f) b).0 ≡ ok v
      → (Q : Result B × Book E S → Type 0)
      → ((a : A) → (c b).0 ≡ ok a → (f a (c b).1).0 ≡ ok v → Q (f a (c b).1))
      → Q ((c >>= f) b)
  bind_returned c f b v e Q k = go (c b) e k
    where
      go :
          (q : Result A × Book E S)
          → (elim q.0 as (λ _. Result B × Book E S) [ ok a ↦ f a q.1 | err e ↦ (err e, q.1) ]).0
            ≡ ok v
          → ((a : A) → q.0 ≡ ok a → (f a q.1).0 ≡ ok v → Q (f a q.1))
          → Q (elim q.0 as (λ _. Result B × Book E S) [ ok a ↦ f a q.1 | err e ↦ (err e, q.1) ])
      go (ok a, d) e k = k a refl e
      go (err er, d) e k = cc

module _ {E S : Type 0} ⦃x : Executor E⦄ where
  recover_routers-All :
      (local : Dict ℕ PositionLocalRow) (snap : AccountSnapshot) (b : Book E S)
      → (recover_routers local snap b).0 ≡ ok tt
      → All (IsRecoveredIn local snap) (recover_routers local snap b).1.routers
  unfolding recover_routers
  recover_routers-All local snap b e =
      for_each-All (IsRecoveredIn local snap)
        (λ r. halting (
          recover_router (lookup r.instrument_id local) (lookup r.instrument_id snap.stops)
            (position snap r.instrument_id)))
        b.routers b.shared
        (λ r s t.
          rw
            (recover_router-instrument_id (lookup r.instrument_id local)
              (lookup r.instrument_id snap.stops) (position snap r.instrument_id) (world_of r s))
            (recover_router-IsRecovered (lookup r.instrument_id local)
              (lookup r.instrument_id snap.stops) (position snap r.instrument_id) (world_of r s) t))
        e

  guard_unknown-routers :
      (stop : Option Decimal) (p : PositionView) (b : Book E S)
      → (halting_call (some p.instrument_id) (guard_unknown stop p) b).1.routers ≡ b.routers
  guard_unknown-routers stop p b = ground arith

  recover_unknown-routers :
      (stops : Dict ℕ Decimal) (p : PositionView) (b : Book E S)
      → (recover_unknown stops p b).1.routers ≡ b.routers
  unfolding recover_unknown
  recover_unknown-routers stops p b =
      elim (Bool-cases (is_zero p.size || has_router p.instrument_id b.routers)) [
        | inl s ↦ rw s refl
        | inr n ↦ rw n (guard_unknown-routers (lookup p.instrument_id stops) p _)
      ]

  adopt_pending-IsRecovered :
      (row : PositionLocalRow) (view : Option PositionView) (id : Text) (w : World E S)
      → is_pending row.state ≡ true
      → IsRecovered (some row) view w.router
      → IsRecovered (some row) view (adopt_pending id row.state w).1.router
  unfolding adopt_pending set_state
  adopt_pending-IsRecovered row view id w p (s, t, f) =
      (rw p s, rw p t, inl (pending_not_frozen row.state p))

  adopt_pending-instrument_id :
      (id : Text) (row : PositionLocalRow) (w : World E S)
      → (adopt_pending id row.state w).1.router.instrument_id ≡ w.router.instrument_id
  unfolding adopt_pending set_state
  adopt_pending-instrument_id id row w = ground arith

  halting_call-keeps :
      (P : Book E S → Type 0) (i : Option ℕ) (m : Call E S (Unit {0})) (b : Book E S)
      → ((c : Book E S) (a : Alert) → P c → P (record c { shared = alerted a c.shared }))
      → P (m b).1
      → P (halting_call i m b).1
  halting_call-keeps P i m b k p = go (m b) p
    where
      go :
          (q : Result (Unit {0}) × Book E S)
          → P q.1
          → P
              (elim q.0 as (λ _. Result (Unit {0}) × Book E S) [
                | ok a ↦ (ok a, q.1)
                | err e ↦ (err failed, (emit (alert critical "recovery_failed" i) q.1).1)
              ]).1
      go (ok a, c) p = p
      go (err e, c) p = k c (alert critical "recovery_failed" i) p

  adopted-IsRecoveredIn :
      (local : Dict ℕ PositionLocalRow) (snap : AccountSnapshot) (id : Text)
      (row : PositionLocalRow) (w : World E S)
      → is_pending row.state ≡ true
      → lookup w.router.instrument_id local ≡ some row
      → IsRecoveredIn local snap w.router
      → IsRecoveredIn local snap (adopt_pending id row.state w).1.router
  adopted-IsRecoveredIn local snap id row w p e h =
      rw (adopt_pending-instrument_id id row w, e)
        (adopt_pending-IsRecovered row (position snap w.router.instrument_id) id w p (rw e at h))

  resume-All :
      (local : Dict ℕ PositionLocalRow) (snap : AccountSnapshot) (o : OrderRow) (b : Book E S)
      → All (IsRecoveredIn local snap) b.routers
      → All (IsRecoveredIn local snap) (resume o (lookup o.instrument_id local) b).1.routers
  resume-All local snap o b h = elim (Option-cases (lookup o.instrument_id local)) [
    | inl n ↦ rw n h
    | inr (row, e) ↦ rw e (elim (Bool-cases (is_pending row.state)) [
      | inr n ↦ rw n h
      | inl p ↦ rw p (
          halting_call-keeps (λ c. All (IsRecoveredIn local snap) c.routers) (some o.instrument_id)
            (one_router o.instrument_id (λ _. adopt_pending o.client_order_id row.state)) b
            (λ c a k. k)
            (at_router-All (IsRecoveredIn local snap) o.instrument_id
              (λ _. adopt_pending o.client_order_id row.state) b.routers b.shared
              (λ r s i k.
                adopted-IsRecoveredIn local snap o.client_order_id row (world_of r s) p
                  (ap (λ j. lookup j local) ((==_iff r.instrument_id o.instrument_id).0 i) ∙ e) k)
              h))
    ])
  ]

  recover_order-All :
      (local : Dict ℕ PositionLocalRow) (snap : AccountSnapshot) (o : OrderRow) (b : Book E S)
      → All (IsRecoveredIn local snap) b.routers
      → All (IsRecoveredIn local snap) (recover_order local snap.open_orders o b).1.routers
  unfolding recover_order
  recover_order-All local snap o b h = elim (Bool-cases (is_unsettled o.status)) [
    | inr n ↦ rw n h
    | inl u ↦ rw u (elim (Bool-cases (mem_text o.client_order_id snap.open_orders)) [
      | inl m ↦ rw m (
          then-keeps (λ c. All (IsRecoveredIn local snap) c.routers)
            (resume o (lookup o.instrument_id local)) (mark_order o adopted) b
            (resume-All local snap o b h) (λ c k. k))
      | inr n ↦ rw n h
    ])
  ]

  recover_orders-All :
      (local : Dict ℕ PositionLocalRow) (snap : AccountSnapshot) (os : List OrderRow) (b : Book E S)
      → All (IsRecoveredIn local snap) b.routers
      → All (IsRecoveredIn local snap) (recover_orders local snap.open_orders os b).1.routers
  unfolding recover_orders
  recover_orders-All local snap [] b h = h
  recover_orders-All local snap (o ∷ os) b h =
      then-keeps (λ c. All (IsRecoveredIn local snap) c.routers)
        (recover_order local snap.open_orders o) (recover_orders local snap.open_orders os) b
        (recover_order-All local snap o b h) (λ c k. recover_orders-All local snap os c k)

  recover_positions-routers :
      (stops : Dict ℕ Decimal) (ps : List PositionView) (b : Book E S)
      → (recover_positions stops ps b).1.routers ≡ b.routers
  unfolding recover_positions
  recover_positions-routers stops [] b = refl
  recover_positions-routers stops (p ∷ ps) b =
      then-keeps (λ c. c.routers ≡ b.routers) (recover_unknown stops p) (recover_positions stops ps)
        b (recover_unknown-routers stops p b) (λ c k. recover_positions-routers stops ps c ∙ k)

  cancel_foreign-routers :
      (prefix : Text) (ids : List Text) (b : Book E S)
      → (cancel_foreign {E = E} {S = S} prefix ids b).1.routers ≡ b.routers
  unfolding cancel_foreign
  cancel_foreign-routers prefix [] b = refl
  cancel_foreign-routers prefix (id ∷ ids) b = elim (Bool-cases (starts_with prefix id)) [
    | inl s ↦ rw s (cancel_foreign-routers prefix ids b)
    | inr n ↦ rw n (
        then-keeps (λ c. c.routers ≡ b.routers) (halting_call none (on_exec (x.cancel_order id)))
          (cancel_foreign prefix ids) b
          (halting_call-keeps (λ c. c.routers ≡ b.routers) none (on_exec (x.cancel_order id)) b
            (λ c a k. k) refl)
          (λ c k. cancel_foreign-routers prefix ids c ∙ k))
  ]

  recover_rest-All :
      (local : Dict ℕ PositionLocalRow) (snap : AccountSnapshot) (b : Book E S)
      → All (IsRecoveredIn local snap) b.routers
      → All (IsRecoveredIn local snap) (recover_rest local snap b).1.routers
  unfolding recover_rest
  recover_rest-All local snap b h =
      then-keeps (λ c. All (IsRecoveredIn local snap) c.routers)
        (recover_positions snap.stops snap.positions)
        (λ c.
          ◌>>◌ (recover_orders local snap.open_orders (order_rows c.shared.store.orders))
            (cancel_foreign (c.run_id ++ (dash ∷ [])) snap.open_orders) c)
        b (rw (recover_positions-routers snap.stops snap.positions b) h)
        (λ c k.
          then-keeps (λ d. All (IsRecoveredIn local snap) d.routers)
            (recover_orders local snap.open_orders (order_rows c.shared.store.orders))
            (cancel_foreign (c.run_id ++ (dash ∷ [])) snap.open_orders) c
            (recover_orders-All local snap (order_rows c.shared.store.orders) c k)
            (λ d j. rw (cancel_foreign-routers (c.run_id ++ (dash ∷ [])) snap.open_orders d) j))

  recover_from_adopts :
      (snap : AccountSnapshot) (b : Book E S) (states : Dict ℕ State)
      → (recover_from snap b).0 ≡ ok states
      → All
          (IsRecoveredIn (get_positions_local b.shared.store) snap)
          (recover_from snap b).1.routers
        × (states ≡ states_of (recover_from snap b).1.routers)
  unfolding recover_from
  recover_from_adopts snap b states e =
      let local = get_positions_local b.shared.store in
      bind_returned (◌>>◌ (recover_routers local snap) (recover_rest local snap))
        (λ _ c. (ok (states_of c.routers), (emit (alert info "recovery" none) c).1)) b states e
        (λ q. All (IsRecoveredIn local snap) q.1.routers × (states ≡ states_of q.1.routers))
        (λ _ h k. (
          bind_returned (recover_routers local snap) (λ _. recover_rest local snap) b tt h
              (λ q. All (IsRecoveredIn local snap) q.1.routers)
              (λ _ i j.
                recover_rest-All local snap (recover_routers local snap b).1
                  (recover_routers-All local snap b i)),
          sym (ok-injective k),
        ))

  -- When recovery returns, every router has the size that the exchange reports for its instrument and a stop
  -- if that size is not zero, and is still frozen if its stored row was; the report gives its state.
  pub recover_adopts :
      (snap : AccountSnapshot) (b : Book E S) (states : Dict ℕ State)
      → (x.snapshot b.shared.exec).0 ≡ ok snap
      → (recover b).0 ≡ ok states
      → All (IsRecoveredIn (get_positions_local b.shared.store) snap) (recover b).1.routers
        × (states ≡ states_of (recover b).1.routers)
  unfolding recover
  recover_adopts snap b states h e =
      bind_returned (on_exec (λ e. let (r, e') = x.snapshot e in (snapshot_halt r, e')))
        recover_from b states e
        (λ q.
          All (IsRecoveredIn (get_positions_local b.shared.store) snap) q.1.routers
          × (states ≡ states_of q.1.routers))
        (λ a i j.
          subst
            (λ s.
              All (IsRecoveredIn (get_positions_local b.shared.store) s)
                (recover_from a (record b {
                  shared = record (b.shared) { exec = (x.snapshot b.shared.exec).1 };
                })).1.routers
              × (states
                  ≡ states_of
                      (recover_from a (record b {
                        shared = record (b.shared) { exec = (x.snapshot b.shared.exec).1 };
                      })).1.routers))
            (sym (ok-injective (rw h at i)))
            (recover_from_adopts a
              (record b { shared = record (b.shared) { exec = (x.snapshot b.shared.exec).1 } })
              states j))
