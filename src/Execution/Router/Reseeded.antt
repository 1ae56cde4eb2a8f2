-- ===== src/Execution/Router/Reseeded.antt =====
-- The counter of orders after a restart: load_local of polyperps/execution/order_router.py reads it back from the
-- stored rows, and the next order takes an id that no row has.
use perpbot.Base.{
  ℕ, ◌+◌, ◌<◌, ◌≡◌, refl, sym, ap, ◌∙◌, true, Option, none, some, String, List, [], ◌∷◌,
  if◌then◌else◌, ltb, ◌==◌, ==_iff, arith, Bool-cases, inl, inr, eqb_text, eqb_text→eq,
}
use perpbot.Base.Dict.{Dict, lookup, insert, text_key, nat_key}
use perpbot.Decimal.{Decimal}
use perpbot.Execution.ClientId.{cid, cid_number}
use perpbot.Execution.ClientId.Laws.{cid_number-cid}
use perpbot.Execution.Types.{Intent, OrderRow, PositionLocalRow, Text}
use perpbot.Execution.Router.Rows.{local_row, load_local, max_order_seq, set_state, record_decision}
use perpbot.Execution.Router.Send.{prepare, new_row, pending_state}
use perpbot.Execution.Router.Sending.{IsUnissued, prepare_rows}
use perpbot.Execution.World.{Executor, World}
use perpbot.Risk.Verdict.{Verdict}
use perpbot.Storage.{
  get_order, order_rows, upserted, upsert_order, insert_decision, upsert_position_local,
}

-- Every row is stored under its own id, and a row with an id of a router is one of the router's instrument.
abbrev pub IsFiled : (run_id : Text) (i : ℕ) → Dict Text OrderRow → Type 0
IsFiled run_id i [] = Unit
IsFiled run_id i ((k, o) ∷ d) =
    (o.client_order_id ≡ k)
    × ((n : ℕ) → k ≡ cid run_id i n → o.instrument_id ≡ i)
    × IsFiled run_id i d

max_order_seq-unused :
    (run_id : Text) (i n : ℕ) (d : Dict Text OrderRow)
    → IsFiled run_id i d
    → max_order_seq i (order_rows d) < n
    → lookup (cid run_id i n) d ≡ none
unfolding max_order_seq
max_order_seq-unused run_id i n [] f h = refl
max_order_seq-unused run_id i n ((k, o) ∷ d) (own, ours, rest) h =
    elim (Bool-cases (eqb_text k (cid run_id i n))) [
      | inr e ↦ rw e (max_order_seq-unused run_id i n d rest (ground arith))
      | inl e ↦
          let same : k ≡ cid run_id i n = eqb_text→eq k (cid run_id i n) e in
          let at_i : (o.instrument_id == i) ≡ true = (==_iff o.instrument_id i).1 (ours n same) in
          let counted : cid_number o.client_order_id ≡ some n =
            ap cid_number (own ∙ same) ∙ cid_number-cid run_id i n in
          absurd (too_few (max_order_seq i (order_rows d)) (rw (at_i, counted) at h))
    ]
  where
    too_few : (rest : ℕ) → (if ltb rest n then n else rest) < n → ⊥
    too_few rest l = ground arith

module _ {E S : Type 0} where
  pub load_local-IsUnissued :
      (row : PositionLocalRow) (w : World E S)
      → IsFiled w.router.run_id w.router.instrument_id w.store.orders
      → IsUnissued (load_local row w).1
  unfolding load_local get_order
  load_local-IsUnissued row w f n h =
      max_order_seq-unused w.router.run_id w.router.instrument_id n w.store.orders f h

insert-IsFiled :
    (run_id : Text) (i : ℕ) (k : Text) (o : OrderRow) (d : Dict Text OrderRow)
    → o.client_order_id ≡ k
    → o.instrument_id ≡ i
    → IsFiled run_id i d
    → IsFiled run_id i (insert k o d)
insert-IsFiled run_id i k o [] own at f = (own, λ n e. at, tt)
insert-IsFiled run_id i k o ((j, p) ∷ d) own at (a, b, rest) = elim (Bool-cases (eqb_text j k)) [
  | inl e ↦ rw e (own ∙ sym (eqb_text→eq j k e), λ n x. at, rest)
  | inr e ↦ rw e (a, b, insert-IsFiled run_id i k o d own at rest)
]

module _ {E S : Type 0} ⦃x : Executor E⦄ where
  prepare-IsFiled :
      (i : Intent) (t : Option Decimal) (vs : List (String × Verdict)) (w : World E S)
      → IsUnissued w
      → IsFiled w.router.run_id w.router.instrument_id w.store.orders
      → IsFiled w.router.run_id w.router.instrument_id (prepare i t vs w).1.store.orders
  unfolding prepare record_decision set_state get_order upsert_order insert_decision
      upsert_position_local
  prepare-IsFiled i t vs w unused f =
      let r = w.router in
      let id = cid r.run_id r.instrument_id (r.seq + 1) in
      let row = new_row id r.instrument_id i w.now in
      let plain : upserted (lookup id w.store.orders) row ≡ row =
        rw (unused (r.seq + 1) (omega arith)) refl in
      rw plain (insert-IsFiled r.run_id r.instrument_id id row w.store.orders refl refl f)

  -- Where every order row is stored under its own id, and those with an id of a router are of its instrument: after
  -- a restart, whatever counter the router had, no row has the id that its next order takes; the order gets a row of
  -- its own with status submitting, every other row is as it was, the position row says that the order is in flight,
  -- the executor has not been touched, no later id is in use, and the rows are stored as before, for the next restart.
  pub restarted_rows :
      (p : PositionLocalRow) (i : Intent) (t : Option Decimal) (vs : List (String × Verdict))
      (w : World E S) (k : Text)
      → IsFiled w.router.run_id w.router.instrument_id w.store.orders
      → let u = (load_local p w).1 in
        let r = u.router in
        let id = cid r.run_id r.instrument_id (r.seq + 1) in
        let v = (prepare i t vs u).1 in
        (get_order id w.store ≡ none)
        × (get_order k v.store ≡ (
            if eqb_text id k
            then some (new_row id r.instrument_id i w.now)
            else get_order k w.store))
        × (lookup r.instrument_id v.store.positions ≡ some (local_row v.router w.now))
        × (v.router.state ≡ pending_state i.reduce_only)
        × (v.exec ≡ w.exec)
        × IsUnissued v
        × IsFiled r.run_id r.instrument_id v.store.orders
  unfolding load_local
  restarted_rows p i t vs w k f =
      let u = (load_local p w).1 in
      let unused = load_local-IsUnissued p w f in
      let (a, b, c, d, e, g) = prepare_rows i t vs u k unused in
      (a, b, c, d, e, g, prepare-IsFiled i t vs u unused f)
