-- ===== src/Execution/LiveExecutor/Gated.antt =====
-- Who may send: the live executor behind its gate, the shadow executor never.
use perpbot.Base.{
  ℕ, Bool, true, false, Option, some, List, [], ◌∷◌, ◌≡◌, ◌≢◌, ◌↔◌, ◌⊎◌, ◌||◌, refl, All, arith,
  Bool-cases, inl, inr,
}
use perpbot.Base.Dict.{Dict, lookup, nat_key}
use perpbot.Execution.LiveExecutor.{
  VenueStatus, Placement, placed, request_rejected, place_raised, no_answer, Session, Live,
  map_status, live_snapshot, VenuePortfolio, VenueOrder, read_portfolio, read_orders,
}
use perpbot.Execution.LiveExecutor.Orders.{
  gates_open, open_live, live_submit, read_placement, shadow_executor,
}
use perpbot.Execution.Router.Calls.{KeptByCalls}
use perpbot.Execution.Router.Calls.Kept.{handle_all_keeps}
use perpbot.Execution.Router.Handlers.{Call, handle_all}
use perpbot.Execution.Types.{AckStatus, Text, Time, OrderRequest}
use perpbot.Execution.World.{Submitted, acked, raised, timed_out, Result, ok, err, Strategy, World}
use perpbot.Gates.{ExecutionMode, auto, live_orders_allowed, live_orders_allowed_iff, true_text}

-- What the three locks ask for.
abbrev pub IsUnlocked : Dict ℕ ExecutionMode → Option Text → Bool → ℕ → Type 0
IsUnlocked modes env validated i =
    (lookup i modes ≡ some auto) × (env ≡ some true_text) × (validated ≡ true)

gates_open-All :
    (ids : List ℕ) (modes : Dict ℕ ExecutionMode) (env : Option Text) (validated : Bool)
    → gates_open ids (λ i. live_orders_allowed i modes env validated) ≡ true
    → All (IsUnlocked modes env validated) ids
unfolding gates_open
gates_open-All [] modes env validated h = tt
gates_open-All (i ∷ is) modes env validated h =
    elim (Bool-cases (live_orders_allowed i modes env validated).allowed) [
      | inl a ↦ (
        (live_orders_allowed_iff i modes env validated).0 a,
        gates_open-All is modes env validated (rw a at h),
      )
      | inr n ↦ cc (rw n at h)
    ]

-- A live executor exists only for a list of instruments that is not empty and whose three locks are all
-- open.
pub open_live-IsUnlocked :
    {V : Type 0} (ids : List ℕ) (modes : Dict ℕ ExecutionMode) (env : Option Text)
    (validated : Bool) (v : V) (now : Time) (l : Live V)
    → open_live ids (λ i. live_orders_allowed i modes env validated) v now ≡ some l
    → (ids ≢ []) × All (IsUnlocked modes env validated) ids
unfolding open_live
open_live-IsUnlocked [] modes env validated v now l h = cc
open_live-IsUnlocked (i ∷ is) modes env validated v now l h =
    elim (Bool-cases (gates_open (i ∷ is) (λ i. live_orders_allowed i modes env validated))) [
      | inl a ↦ (λ e. cc, gates_open-All (i ∷ is) modes env validated a)
      | inr n ↦ cc (rw n at h)
    ]

abbrev pub is_accepted : Submitted → Bool
is_accepted (acked a) = elim a.status [ AckStatus.accepted ↦ true | AckStatus.rejected ↦ false ]
is_accepted timed_out = false
is_accepted (raised _) = false

-- The statuses of a plain order that rests or was filled, in part or whole.
abbrev pub is_working : VenueStatus → Bool
is_working VenueStatus.accepted = true
is_working VenueStatus.resting = true
is_working VenueStatus.partial = true
is_working VenueStatus.filled = true
is_working _ = false

-- The statuses in the life of a stop or a take-profit, which are not those of a plain order.
abbrev pub is_trigger_life : VenueStatus → Bool
is_trigger_life VenueStatus.untriggered = true
is_trigger_life VenueStatus.armed = true
is_trigger_life VenueStatus.triggered = true
is_trigger_life VenueStatus.parent_cancelled = true
is_trigger_life VenueStatus.position_closed = true
is_trigger_life VenueStatus.position_flipped = true
is_trigger_life VenueStatus.reduce_only_invalid_at_trigger = true
is_trigger_life _ = false

abbrev pub is_resent : VenueStatus → Bool
is_resent VenueStatus.duplicate_order = true
is_resent _ = false

abbrev pub is_taken : Placement → Bool
is_taken (placed _ st) = is_working st || is_resent st || is_trigger_life st
is_taken (request_rejected _) = false
is_taken place_raised = false
is_taken no_answer = false

read_placement-is_taken :
    (o : OrderRequest) (p : Placement) (now : Time)
    → is_accepted (read_placement o p now) ≡ is_taken p
unfolding map_status
read_placement-is_taken o (placed id st) now = ground arith
read_placement-is_taken o (request_rejected t) now = refl
read_placement-is_taken o place_raised now = refl
read_placement-is_taken o no_answer now = refl

module _ {V : Type 0} ⦃v : Session V⦄ where
  -- An order is acknowledged as accepted exactly if its gate is open when it is sent and the venue answers with the
  -- status of an order that rests or was filled, with that of a resent one, or with one in the life of a stop, which
  -- is not a status of a plain order and is taken as accepted all the same; behind a closed gate the session is not
  -- touched.
  pub live_submit_accepted :
      (o : OrderRequest) (l : Live V)
      → ((is_accepted (live_submit o l).0 ≡ true) ↔ (
          ((l.gate o.instrument_id).allowed ≡ true)
          × (is_taken (v.place_order o l.session).0 ≡ true)))
        × (((l.gate o.instrument_id).allowed ≡ true) ⊎ ((live_submit o l).1.session ≡ l.session))
  unfolding live_submit
  live_submit_accepted o l =
      let same = read_placement-is_taken o (v.place_order o l.session).0 l.now in
      elim (Bool-cases (l.gate o.instrument_id).allowed) [
        | inl a ↦ (rw (a, same) (λ h. (refl, h), λ (_, h). h), inl a)
        | inr n ↦ (rw n (λ h. cc, λ (h, _). cc), inr (rw n refl))
      ]

  read_portfolio-session :
      (Q : V → Type 0) (r : Result VenuePortfolio) (l : Live V)
      → ((s : V) → Q s → Q (v.fetch_open_orders s).1)
      → Q l.session
      → Q (read_portfolio r l).1.session
  read_portfolio-session Q (err e) l o h = h
  read_portfolio-session Q (ok pf) l o h = orders (v.fetch_open_orders l.session).0 (o l.session h)
    where
      orders :
          (r : Result (List VenueOrder))
          → Q (v.fetch_open_orders l.session).1
          → Q
              (read_orders pf r
                (record l { session = (v.fetch_open_orders l.session).1 })).1.session
      orders (ok os) g = g
      orders (err e) g = g

  shadow-KeptByCalls :
      (Q : V → Type 0)
      → ((s : V) → Q s → Q (v.fetch_portfolio s).1)
      → ((s : V) → Q s → Q (v.fetch_open_orders s).1)
      → KeptByCalls (Live V) shadow_executor (λ l. Q l.session)
  unfolding live_snapshot
  shadow-KeptByCalls Q p o = record {
    submit_keeps = λ _ _ h. h;
    place_stop_keeps = λ _ _ _ h. h;
    cancel_stop_keeps = λ _ _ h. h;
    cancel_order_keeps = λ _ _ h. h;
    snapshot_keeps = λ l h.
        read_portfolio-session Q (v.fetch_portfolio l.session).0
          (record l { session = (v.fetch_portfolio l.session).1 }) o (p l.session h);
  }

  -- What the two fetches keep of the session (that no order was placed in it, say) holds after every
  -- sequence of calls of a router on the shadow executor: nothing else reaches the session.
  pub shadow_only_reads :
      {S : Type 0} ⦃y : Strategy S⦄ (Q : V → Type 0) (cs : List (Time × Call))
      (w : World (Live V) S)
      → ((s : V) → Q s → Q (v.fetch_portfolio s).1)
      → ((s : V) → Q s → Q (v.fetch_open_orders s).1)
      → Q w.exec.session
      → Q (handle_all ⦃x = shadow_executor⦄ cs w).exec.session
  shadow_only_reads Q cs w p o h =
      handle_all_keeps ⦃x = shadow_executor⦄ (λ l. Q l.session) (shadow-KeptByCalls Q p o) cs w h
