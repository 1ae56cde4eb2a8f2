-- ===== src/Execution/Recovery/Reported.antt =====
-- How a recovery that raises is reported.
use perpbot.Base.{
  ℕ, true, false, Option, none, some, List, [], ◌∷◌, ◌++◌, ◌≡◌, refl, sym, ap, ◌∙◌, last?,
  Bool-cases, inl, inr, Bool, ◌||◌, ◌⊎◌,
}
use perpbot.Base.Dict.{Dict, lookup, nat_key}
use perpbot.Decimal.{Decimal}
use perpbot.Execution.ClientId.{dash}
use perpbot.Execution.Portfolio.{
  Book, Shared, Swept, Call, world_of, shared_of, for_each, cons_router, has_router, emit, on_exec,
  one_router, ◌>>=◌, ◌>>◌,
}
use perpbot.Execution.Recovery.{
  halting, halting_call, recover_router, recover_routers, recover_unknown, recover_positions,
  resume, is_unsettled, recover_order, recover_orders, cancel_foreign, recover_rest, recover_from,
  recover, states_of, snapshot_halt, mark_order, guard_unknown,
}
use perpbot.Execution.Reconciliation.{starts_with}
use perpbot.Execution.Router.Exits.{adopt_pending}
use perpbot.Execution.Router.Rows.{is_zero, is_pending}
use perpbot.Execution.Router.Send.{mem_text}
use perpbot.Execution.Types.{
  State, Text, OrderRow, PositionLocalRow, PositionView, AccountSnapshot, position, adopted,
}
use perpbot.Execution.World
use perpbot.Execution.World.{Error, failed, Result, ok, err, Executor, Router, World, Action}
use perpbot.Monitor.{Alert, alert, critical, info}
use perpbot.Storage.{Store, insert_alert, order_rows, get_positions_local}

abbrev error_or : {A : Type 0} → Result A → Error
error_or (ok _) = failed
error_or (err e) = e

abbrev pub is_returned : {A : Type 0} → Result A → Bool
is_returned (ok _) = true
is_returned (err _) = false

-- A call that raised ends with the critical alert of a failed recovery.
abbrev IsReported : {E A : Type 0} → Result A → Shared E → Type 0
IsReported (ok _) s = Unit
IsReported (err e) s =
    (e ≡ failed)
    × (i : Option ℕ) × (last? s.store.alerts ≡ some (alert critical "recovery_failed" i))

err-injective : {A : Type 0} {d e : Error} → ◌≡◌ {A = Result A} (err d) (err e) → d ≡ e
err-injective {A = A} h = ap (error_or {A = A}) h

last?-append : {A : Type 0} (xs : List A) (a : A) → last? (xs ++ (a ∷ [])) ≡ some a
last?-append [] a = refl
last?-append (x ∷ []) a = refl
last?-append (x ∷ y ∷ ys) a = last?-append (y ∷ ys) a

insert_alert-last? : (a : Alert) (s : Store) → last? (insert_alert a s).alerts ≡ some a
unfolding insert_alert
insert_alert-last? a s = last?-append s.alerts a

module _ {E S : Type 0} where
  abbrev EndsReported : {A : Type 0} → Result A × Book E S → Type 0
  EndsReported (r, b) = IsReported r b.shared

  halting_call-EndsReported :
      (i : Option ℕ) (m : Call E S (Unit {0})) (b : Book E S) → EndsReported (halting_call i m b)
  halting_call-EndsReported i m b = go (m b)
    where
      go :
          (q : Result (Unit {0}) × Book E S)
          → EndsReported (elim q.0 as (λ _. Result (Unit {0}) × Book E S) [
            | ok a ↦ (ok a, q.1)
            | err e ↦ (err failed, (emit (alert critical "recovery_failed" i) q.1).1)
          ])
      go (ok a, c) = tt
      go (err e, c) =
          (refl, i, insert_alert-last? (alert critical "recovery_failed" i) c.shared.store)

  bind-EndsReported :
      (A B : Type 0) (c : Call E S A) (f : A → Call E S B) (b : Book E S)
      → EndsReported (c b)
      → ((a : A) (d : Book E S) → EndsReported (f a d))
      → EndsReported ((c >>= f) b)
  bind-EndsReported A B c f b h k = go (c b) h
    where
      go :
          (q : Result A × Book E S)
          → EndsReported q
          → EndsReported
              (elim q.0 as (λ _. Result B × Book E S) [ ok a ↦ f a q.1 | err e ↦ (err e, q.1) ])
      go (ok a, d) h = k a d
      go (err e, d) h = h

  for_each-IsReported :
      (f : Router S → Action E S (Unit {0})) (rs : List (Router S)) (s : Shared E)
      → ((r : Router S) (s : Shared E)
          → IsReported (f r (world_of r s)).0 (shared_of (f r (world_of r s)).1))
      → IsReported (for_each f rs s).0 (for_each f rs s).2
  unfolding for_each
  for_each-IsReported f [] s h = tt
  for_each-IsReported f (r ∷ rs) s h =
      turn (f r (world_of r s)) (h r s) (λ t. for_each-IsReported f rs t h)
    where
      turn :
          (q : Result (Unit {0}) × World E S)
          → IsReported q.0 (shared_of q.1)
          → ((t : Shared E) → IsReported (for_each f rs t).0 (for_each f rs t).2)
          → let swept : Swept E S = elim q.0 [
            | ok _ ↦ cons_router q.1.router (for_each f rs (shared_of q.1))
            | err er ↦ (err er, q.1.router ∷ rs, shared_of q.1)
          ] in
            IsReported swept.0 swept.2
      turn (ok a, w) g k = k (shared_of w)
      turn (err er, w) g k = g

  halting-IsReported :
      (m : Action E S (Unit {0})) (w : World E S)
      → IsReported (halting m w).0 (shared_of (halting m w).1)
  halting-IsReported m w = go (m w)
    where
      go :
          (q : Result (Unit {0}) × World E S)
          → let r : Result (Unit {0}) × World E S = elim q.0 [
            | ok a ↦ (ok a, q.1)
            | err e ↦ (err failed, (World.emit critical "recovery_failed" q.1).1)
          ] in
            IsReported r.0 (shared_of r.1)
      go (ok a, v) = tt
      go (err e, v) = (
        refl,
        some v.router.instrument_id,
        insert_alert-last? (alert critical "recovery_failed" (some v.router.instrument_id)) v.store,
      )

  reported_error :
      {A : Type 0} (q : Result A × Book E S) (e : Error)
      → q.0 ≡ err e
      → EndsReported q
      → (e ≡ failed)
        × (i : Option ℕ) × (last? q.1.shared.store.alerts
            ≡ some (alert critical "recovery_failed" i))
  reported_error (ok a, c) e h r = cc
  reported_error (err d, c) e h (f, i, l) = (sym (err-injective h) ∙ f, i, l)

module _ {E S : Type 0} ⦃x : Executor E⦄ where
  recover_unknown-EndsReported :
      (stops : Dict ℕ Decimal) (p : PositionView) (b : Book E S)
      → EndsReported (recover_unknown stops p b)
  unfolding recover_unknown
  recover_unknown-EndsReported stops p b =
      elim (Bool-cases (is_zero p.size || has_router p.instrument_id b.routers)) [
        | inl s ↦ rw s tt
        | inr n ↦ rw n (
            halting_call-EndsReported (some p.instrument_id)
              (guard_unknown (lookup p.instrument_id stops) p) _)
      ]

  recover_positions-EndsReported :
      (stops : Dict ℕ Decimal) (ps : List PositionView) (b : Book E S)
      → EndsReported (recover_positions stops ps b)
  unfolding recover_positions
  recover_positions-EndsReported stops [] b = tt
  recover_positions-EndsReported stops (p ∷ ps) b =
      bind-EndsReported _ _ (recover_unknown stops p) (λ _. recover_positions stops ps) b
        (recover_unknown-EndsReported stops p b) (λ _. recover_positions-EndsReported stops ps)

  resume-EndsReported :
      (o : OrderRow) (row : Option PositionLocalRow) (b : Book E S) → EndsReported (resume o row b)
  resume-EndsReported o none b = tt
  resume-EndsReported o (some row) b = elim (Bool-cases (is_pending row.state)) [
    | inr n ↦ rw n tt
    | inl p ↦ rw p (
        halting_call-EndsReported (some o.instrument_id)
          (one_router o.instrument_id (λ _. adopt_pending o.client_order_id row.state)) b)
  ]

  recover_order-EndsReported :
      (local : Dict ℕ PositionLocalRow) (resting : List Text) (o : OrderRow) (b : Book E S)
      → EndsReported (recover_order local resting o b)
  unfolding recover_order
  recover_order-EndsReported local resting o b = elim (Bool-cases (is_unsettled o.status)) [
    | inr n ↦ rw n tt
    | inl u ↦ rw u (elim (Bool-cases (mem_text o.client_order_id resting)) [
      | inl m ↦ rw m (
          bind-EndsReported _ _ (resume o (lookup o.instrument_id local))
            (λ _. mark_order o adopted) b (resume-EndsReported o (lookup o.instrument_id local) b)
            (λ _ d. tt))
      | inr n ↦ rw n tt
    ])
  ]

  recover_orders-EndsReported :
      (local : Dict ℕ PositionLocalRow) (resting : List Text) (os : List OrderRow) (b : Book E S)
      → EndsReported (recover_orders local resting os b)
  unfolding recover_orders
  recover_orders-EndsReported local resting [] b = tt
  recover_orders-EndsReported local resting (o ∷ os) b =
      bind-EndsReported _ _ (recover_order local resting o) (λ _. recover_orders local resting os) b
        (recover_order-EndsReported local resting o b)
        (λ _. recover_orders-EndsReported local resting os)

  cancel_foreign-EndsReported :
      (prefix : Text) (ids : List Text) (b : Book E S) → EndsReported (cancel_foreign prefix ids b)
  unfolding cancel_foreign
  cancel_foreign-EndsReported prefix [] b = tt
  cancel_foreign-EndsReported prefix (id ∷ ids) b = elim (Bool-cases (starts_with prefix id)) [
    | inl s ↦ rw s (cancel_foreign-EndsReported prefix ids b)
    | inr n ↦ rw n (
        bind-EndsReported _ _ (halting_call none (on_exec (x.cancel_order id)))
          (λ _. cancel_foreign prefix ids) b
          (halting_call-EndsReported none (on_exec (x.cancel_order id)) b)
          (λ _. cancel_foreign-EndsReported prefix ids))
  ]

  recover_rest-EndsReported :
      (local : Dict ℕ PositionLocalRow) (snap : AccountSnapshot) (b : Book E S)
      → EndsReported (recover_rest local snap b)
  unfolding recover_rest
  recover_rest-EndsReported local snap b =
      bind-EndsReported _ _ (recover_positions snap.stops snap.positions)
        (λ _ c.
          ◌>>◌ (recover_orders local snap.open_orders (order_rows c.shared.store.orders))
            (cancel_foreign (c.run_id ++ (dash ∷ [])) snap.open_orders) c)
        b (recover_positions-EndsReported snap.stops snap.positions b)
        (λ _ c.
          bind-EndsReported _ _
            (recover_orders local snap.open_orders (order_rows c.shared.store.orders))
            (λ _. cancel_foreign (c.run_id ++ (dash ∷ [])) snap.open_orders) c
            (recover_orders-EndsReported local snap.open_orders (order_rows c.shared.store.orders)
              c)
            (λ _. cancel_foreign-EndsReported (c.run_id ++ (dash ∷ [])) snap.open_orders))

  recover_routers-EndsReported :
      (local : Dict ℕ PositionLocalRow) (snap : AccountSnapshot) (b : Book E S)
      → EndsReported (recover_routers local snap b)
  unfolding recover_routers
  recover_routers-EndsReported local snap b =
      for_each-IsReported
        (λ r. halting (
          recover_router (lookup r.instrument_id local) (lookup r.instrument_id snap.stops)
            (position snap r.instrument_id)))
        b.routers b.shared
        (λ r s.
          halting-IsReported
            (recover_router (lookup r.instrument_id local) (lookup r.instrument_id snap.stops)
              (position snap r.instrument_id))
            (world_of r s))

  recover_from-EndsReported :
      (snap : AccountSnapshot) (b : Book E S) → EndsReported (recover_from snap b)
  unfolding recover_from
  recover_from-EndsReported snap b =
      let local = get_positions_local b.shared.store in
      bind-EndsReported _ _ (◌>>◌ (recover_routers local snap) (recover_rest local snap))
        (λ _ c. (ok (states_of c.routers), (emit (alert info "recovery" none) c).1)) b
        (bind-EndsReported _ _ (recover_routers local snap) (λ _. recover_rest local snap) b
          (recover_routers-EndsReported local snap b) (λ _. recover_rest-EndsReported local snap))
        (λ _ c. tt)

  -- A recovery that raises raises one kind of error, and if it had its snapshot, the last alert that it wrote
  -- is the critical one of a failed recovery.
  pub recover_fails :
      (b : Book E S) (e : Error)
      → (recover b).0 ≡ err e
      → (e ≡ failed)
        × ((is_returned (x.snapshot b.shared.exec).0 ≡ false)
            ⊎ ((i : Option ℕ) × (last? (recover b).1.shared.store.alerts
                  ≡ some (alert critical "recovery_failed" i))))
  unfolding recover
  recover_fails b e h = go (x.snapshot b.shared.exec) h
    where
      go :
          (q : Result AccountSnapshot × E)
          → let r : Result (Dict ℕ State) × Book E S = elim (snapshot_halt q.0) [
            | ok a ↦ recover_from a (record b { shared = record (b.shared) { exec = q.1 } })
            | err er ↦ (err er, record b { shared = record (b.shared) { exec = q.1 } })
          ] in
            r.0 ≡ err e
            → (e ≡ failed)
              × ((is_returned q.0 ≡ false)
                  ⊎ ((i : Option ℕ) × (last? r.1.shared.store.alerts
                        ≡ some (alert critical "recovery_failed" i))))
      go (err er, t) h = (sym (err-injective h), inl refl)
      go (ok a, t) h =
          let c : Book E S = record b { shared = record (b.shared) { exec = t } } in
          let (f, i, l) = reported_error (recover_from a c) e h (recover_from-EndsReported a c) in
          (f, inr (i, l))
