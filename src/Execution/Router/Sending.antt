-- ===== src/Execution/Router/Sending.antt =====
-- Sending an order: what the guards leave of it, and the rows that stand before the executor is called.
use perpbot.Base.{
  ℕ, ◌+◌, ◌<◌, true, false, Option, none, some, String, List, [], ◌∷◌, ◌≡◌, refl, ap, ◌∙◌,
  if◌then◌else◌, arith, ◌≤ℤ◌, Bool-cases, inl, inr, eqb_ℤ, eqb_ℤ_iff, min_ℤ, eqb_text, eqb_text→eq,
}
use perpbot.Base.Dict.{lookup, insert, text_key, nat_key, lookup-insert_self, lookup-insert_ne}
use mathlib.Core.Option.{some-injective}
use perpbot.Decimal.{Decimal}
use perpbot.Execution.ClientId.{cid}
use perpbot.Execution.ClientId.Laws.{cid-injective}
use perpbot.Execution.Types.{Intent, Text}
use perpbot.Execution.Router.Rows.{local_row, set_state, record_decision}
use perpbot.Execution.Router.Send.{
  apply_guards, any_reject, least_quantity, prepare, new_row, pending_state,
}
use perpbot.Execution.World.{Executor, World}
use perpbot.Risk.Verdict.{Verdict, allow, resize, reject}
use perpbot.Storage.{get_order, upserted, upsert_order, insert_decision, upsert_position_local}

-- Every quantity that a guard cut the order to is at least `q`.
abbrev pub CutsTo : Decimal → List (String × Verdict) → Type 0
CutsTo q [] = Unit
CutsTo q ((_, resize r) ∷ vs) = (q ≤ℤ r) × CutsTo q vs
CutsTo q ((_, allow) ∷ vs) = CutsTo q vs
CutsTo q ((_, reject _) ∷ vs) = ⊥

CutsTo-weaken : (p q : Decimal) (vs : List (String × Verdict)) → p ≤ℤ q → CutsTo q vs → CutsTo p vs
CutsTo-weaken p q [] h c = tt
CutsTo-weaken p q ((_, resize r) ∷ vs) h (a, c) = (omega arith, CutsTo-weaken p q vs h c)
CutsTo-weaken p q ((_, allow) ∷ vs) h c = CutsTo-weaken p q vs h c
CutsTo-weaken p q ((_, reject _) ∷ vs) h c = c

least_quantity_lem :
    (q : Decimal) (vs : List (String × Verdict))
    → any_reject vs ≡ false
    → (least_quantity q vs ≤ℤ q) × CutsTo (least_quantity q vs) vs
least_quantity_lem q [] h = (omega arith, tt)
least_quantity_lem q ((_, allow) ∷ vs) h = least_quantity_lem q vs h
least_quantity_lem q ((_, resize r) ∷ vs) h =
    let (a, b) = least_quantity_lem q vs h in
    (
      ground arith,
      (
        ground arith,
        CutsTo-weaken (min_ℤ r (least_quantity q vs)) (least_quantity q vs) vs (ground arith) b,
      ),
    )
least_quantity_lem q ((_, reject _) ∷ vs) h = cc

-- An order that one of the guards rejects is dropped.
apply_guards-none :
    (i : Intent) (vs : List (String × Verdict)) → any_reject vs ≡ true → apply_guards i vs ≡ none
unfolding apply_guards
apply_guards-none i vs h = rw h refl

-- An order that passes the guards was rejected by none of them. Its quantity is at most what was asked
-- and at most what each guard cut it to, and its side, instrument and kind stay.
pub apply_guards_lem :
    (i final : Intent) (vs : List (String × Verdict))
    → apply_guards i vs ≡ some final
    → (any_reject vs ≡ false)
      × (final.quantity ≤ℤ i.quantity)
      × CutsTo final.quantity vs
      × (final.side ≡ i.side)
      × (final.instrument_id ≡ i.instrument_id)
      × (final.reduce_only ≡ i.reduce_only)
unfolding apply_guards
apply_guards_lem i final vs e = elim (Bool-cases (any_reject vs)) [
  | inl r ↦ cc (apply_guards-none i vs r)
  | inr r ↦
      let (least, cuts) = least_quantity_lem i.quantity vs r in
      let qty = least_quantity i.quantity vs in
      elim (Bool-cases (eqb_ℤ qty i.quantity)) [
        | inl q ↦
            let same = (eqb_ℤ_iff qty i.quantity).0 q in
            rw (← some-injective _ _ (rw (r, q) at e))
              (r, omega arith, rw same at cuts, refl, refl, refl)
        | inr q ↦ rw (← some-injective _ _ (rw (r, q) at e)) (r, least, cuts, refl, refl, refl)
      ]
]

cid_differs :
    (run_id : Text) (i m n : ℕ) → m < n → eqb_text (cid run_id i m) (cid run_id i n) ≡ false
cid_differs run_id i m n h = elim (Bool-cases (eqb_text (cid run_id i m) (cid run_id i n))) [
  | inl e ↦ absurd (omega (arith, cid-injective run_id run_id i i m n (eqb_text→eq _ _ e)))
  | inr e ↦ e
]

module _ {E S : Type 0} where
  -- No order row holds a client order id of this router with a counter that is still to come.
  abbrev pub IsUnissued : World E S → Type 0
  IsUnissued w =
      (n : ℕ)
      → w.router.seq < n
      → get_order (cid w.router.run_id w.router.instrument_id n) w.store ≡ none

module _ {E S : Type 0} ⦃x : Executor E⦄ where
  -- Before the executor is called the order has a row of its own with status submitting, every other row
  -- is as it was and none has been overwritten, the position row says that the order is in flight, the executor
  -- has not been touched, and the ids of later orders are still unused.
  pub prepare_rows :
      (i : Intent) (t : Option Decimal) (vs : List (String × Verdict)) (w : World E S) (k : Text)
      → IsUnissued w
      → let r = w.router in
        let id = cid r.run_id r.instrument_id (r.seq + 1) in
        let v = (prepare i t vs w).1 in
        (get_order id w.store ≡ none)
        × (get_order k v.store ≡ (
            if eqb_text id k
            then some (new_row id r.instrument_id i w.now)
            else get_order k w.store))
        × (lookup r.instrument_id v.store.positions ≡ some (local_row v.router w.now))
        × (v.router.state ≡ pending_state i.reduce_only)
        × (v.exec ≡ w.exec)
        × IsUnissued v
  unfolding prepare record_decision set_state get_order upsert_order insert_decision
      upsert_position_local
  prepare_rows i t vs w k fresh =
      let r = w.router in
      let id = cid r.run_id r.instrument_id (r.seq + 1) in
      let unused = fresh (r.seq + 1) (omega arith) in
      let row = new_row id r.instrument_id i w.now in
      let plain : upserted (lookup id w.store.orders) row ≡ row = rw unused in
      let new = insert id (upserted (lookup id w.store.orders) row) w.store.orders in
      let others : (k : Text) → eqb_text id k ≡ false → lookup k new ≡ lookup k w.store.orders =
        λ k ne. lookup-insert_ne k id (upserted (lookup id w.store.orders) row) w.store.orders ne in
      let own : lookup id new ≡ some row =
        lookup-insert_self id (upserted (lookup id w.store.orders) row) w.store.orders
        ∙ ap some plain in
      (
        unused,
        elim (Bool-cases (eqb_text id k)) [
          | inl e ↦ rw (e, ← eqb_text→eq id k e) own
          | inr e ↦ rw e (others k e)
        ],
        lookup-insert_self r.instrument_id _ w.store.positions,
        refl,
        refl,
        λ n h.
            others (cid r.run_id r.instrument_id n)
              (cid_differs r.run_id r.instrument_id (r.seq + 1) n h)
            ∙ fresh n (omega arith),
      )
