-- ===== src/Execution/LiveExecutor/Stops.antt =====
-- The stop of a snapshot and the order that cancel_stop cancels are the same.
use perpbot.Base.{
  ℕ, Option, none, some, List, [], ◌∷◌, ◌≡◌, refl, sym, ap, ◌∙◌, inl, inr, In, ◌==◌, ==_iff,
  Bool-cases,
}
use perpbot.Base.Dict.{Dict, lookup, nat_key, lookup-insert_self, lookup-insert_ne}
use mathlib.Core.Option.{some-injective}
use perpbot.Decimal.{Decimal}
use perpbot.Execution.LiveExecutor.{
  VenueOrder, VenuePortfolio, TpSl, take_profit, stop_loss, Session, Live, add_stop, read_stops,
  read_account,
}
use perpbot.Execution.LiveExecutor.Orders.{live_cancel_stop}

-- The order `o` is the stop of the instrument `i` at `t`, and `ids` has its number.
abbrev pub IsStopOf : ℕ → Decimal → Dict ℕ ℕ → VenueOrder → Type 0
IsStopOf i t ids o =
    (o.instrument_id ≡ i) × (o.tp_sl ≡ some (stop_loss t)) × (lookup i ids ≡ some o.id)

abbrev IsBacked : List VenueOrder → ℕ → Dict ℕ Decimal × Dict ℕ ℕ → Type 0
IsBacked orders i (stops, ids) =
    (t : Decimal) → lookup i stops ≡ some t → (o : VenueOrder) × In o orders × IsStopOf i t ids o

add_stop-IsBacked :
    (orders : List VenueOrder) (i : ℕ) (o : VenueOrder) (kind : Option TpSl)
    (d : Dict ℕ Decimal × Dict ℕ ℕ)
    → In o orders
    → o.tp_sl ≡ kind
    → IsBacked orders i d
    → IsBacked orders i (add_stop o kind d)
add_stop-IsBacked orders i o none d m e h = h
add_stop-IsBacked orders i o (some (take_profit _)) d m e h = h
add_stop-IsBacked orders i o (some (stop_loss t)) (stops, ids) m e h = λ t' l.
    elim (Bool-cases (o.instrument_id == i)) [
      | inl same ↦
          let j = (==_iff o.instrument_id i).0 same in
          let found = some-injective _ _ (sym (lookup-insert_self i t stops) ∙ (rw j at l)) in
          (o, m, (j, e ∙ ap (λ u. some (stop_loss u)) found, rw j (lookup-insert_self i o.id ids)))
      | inr other ↦
          let (p, n, (a, b, c)) =
            h t' (sym (lookup-insert_ne i o.instrument_id t stops other) ∙ l) in
          (p, n, (a, b, lookup-insert_ne i o.instrument_id o.id ids other ∙ c))
    ]

read_stops-IsBacked :
    (orders : List VenueOrder) (i : ℕ) (os : List VenueOrder) (d : Dict ℕ Decimal × Dict ℕ ℕ)
    → ((o : VenueOrder) → In o os → In o orders)
    → IsBacked orders i d
    → IsBacked orders i (read_stops os d)
unfolding read_stops
read_stops-IsBacked orders i [] d m h = h
read_stops-IsBacked orders i (o ∷ os) d m h =
    read_stops-IsBacked orders i os (add_stop o o.tp_sl d) (λ p n. m p (inr n))
      (add_stop-IsBacked orders i o o.tp_sl d (m o (inl refl)) refl h)

module _ {V : Type 0} ⦃v : Session V⦄ where
  -- If a snapshot shows a stop for an instrument, then cancel_stop, called next, cancels a stop order of that
  -- instrument with that trigger among the open orders, by its number.
  pub cancel_stop_cancels :
      (pf : VenuePortfolio) (orders : List VenueOrder) (l : Live V) (i : ℕ) (t : Decimal)
      → lookup i (read_account pf orders l).0.stops ≡ some t
      → (o : VenueOrder) × In o orders
        × (o.instrument_id ≡ i)
        × (o.tp_sl ≡ some (stop_loss t))
        × ((live_cancel_stop i (read_account pf orders l).1).0
            ≡ (v.cancel_order_id o.id l.session).0)
        × ((live_cancel_stop i (read_account pf orders l).1).1.session
            ≡ (v.cancel_order_id o.id l.session).1)
  unfolding live_cancel_stop
  cancel_stop_cancels pf orders l i t h =
      let (o, m, (a, b, c)) =
        read_stops-IsBacked orders i orders ([], l.stop_ids) (λ o n. n) (λ t e. cc) t h in
      (o, m, a, b, rw c refl, rw c refl)
