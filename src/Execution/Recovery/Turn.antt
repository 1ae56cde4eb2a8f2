-- ===== src/Execution/Recovery/Turn.antt =====
-- One turn of recovery's loop over the routers: what it leaves in the router.
use perpbot.Base.{
  ℕ, true, false, Option, none, some, is_some, ◌≡◌, ◌⊎◌, inl, inr, arith, Bool-cases, eqb_ℤ_iff,
  pos, ap, ◌∙◌,
}
use perpbot.Base.Dict.{Dict, lookup, nat_key}
use perpbot.Decimal.{Decimal}
use perpbot.Execution.Recovery.{row_frozen, halting, recover_router}
use perpbot.Execution.Router.Rows.{is_frozen, is_zero, load_local, persist}
use perpbot.Execution.Router.Send.{size_of}
use perpbot.Execution.Router.Stops.{place_exchange_stop}
use perpbot.Execution.Types.{PositionLocalRow, PositionView, AccountSnapshot, position}
use perpbot.Execution.World.{ok, Executor, Router, World}

-- The router has the size that the exchange reports, a stop if that is not zero, and is still frozen if the
-- stored row was.
abbrev pub IsRecovered :
    {S : Type 0} → Option PositionLocalRow → Option PositionView → Router S → Type 0
IsRecovered row view r =
    (r.size ≡ size_of view)
    × ((is_zero r.size ≡ true) ⊎ (is_some r.stop_trigger ≡ true))
    × ((row_frozen row ≡ false) ⊎ (is_frozen r.state ≡ true))

abbrev pub IsRecoveredIn :
    {S : Type 0} → Dict ℕ PositionLocalRow → AccountSnapshot → Router S → Type 0
IsRecoveredIn local snap r =
    IsRecovered (lookup r.instrument_id local) (position snap r.instrument_id) r

module _ {E S : Type 0} ⦃x : Executor E⦄ where
  pub recover_router-instrument_id :
      (row : Option PositionLocalRow) (stop : Option Decimal) (view : Option PositionView)
      (w : World E S)
      → (halting (recover_router row stop view) w).1.router.instrument_id ≡ w.router.instrument_id
  unfolding recover_router load_local place_exchange_stop persist
  recover_router-instrument_id row stop view w = ground arith

  recover_router-size :
      (row : Option PositionLocalRow) (stop : Option Decimal) (view : Option PositionView)
      (w : World E S)
      → (halting (recover_router row stop view) w).0 ≡ ok tt
      → (halting (recover_router row stop view) w).1.router.size ≡ size_of view
  unfolding recover_router load_local place_exchange_stop persist
  recover_router-size row stop none w e = ground arith
  recover_router-size row stop (some p) w e = elim (Bool-cases (is_zero p.size)) [
    | inl z ↦ ground (arith, eqb_ℤ_iff p.size (pos 0))
    | inr n ↦ ground arith
  ]

  recover_router-stop :
      (row : Option PositionLocalRow) (stop : Option Decimal) (view : Option PositionView)
      (w : World E S)
      → (halting (recover_router row stop view) w).0 ≡ ok tt
      → is_zero (size_of view) ≡ false
      → is_some (halting (recover_router row stop view) w).1.router.stop_trigger ≡ true
  unfolding recover_router load_local place_exchange_stop persist
  recover_router-stop row stop none w e z = cc
  recover_router-stop row stop (some p) w e z = ground arith

  recover_router-frozen :
      (row : Option PositionLocalRow) (stop : Option Decimal) (view : Option PositionView)
      (w : World E S)
      → row_frozen row ≡ true
      → is_frozen (halting (recover_router row stop view) w).1.router.state ≡ true
  unfolding recover_router load_local place_exchange_stop persist
  recover_router-frozen none stop view w f = cc
  recover_router-frozen (some row) stop none w f = ground arith
  recover_router-frozen (some row) stop (some p) w f = ground arith

  pub recover_router-IsRecovered :
      (row : Option PositionLocalRow) (stop : Option Decimal) (view : Option PositionView)
      (w : World E S)
      → (halting (recover_router row stop view) w).0 ≡ ok tt
      → IsRecovered row view (halting (recover_router row stop view) w).1.router
  recover_router-IsRecovered row stop view w e =
      let size = recover_router-size row stop view w e in
      (
        size,
        elim (Bool-cases (is_zero (size_of view))) [
          | inl z ↦ inl (ap is_zero size ∙ z)
          | inr n ↦ inr (recover_router-stop row stop view w e n)
        ],
        elim (Bool-cases (row_frozen row)) [
          | inl f ↦ inr (recover_router-frozen row stop view w f)
          | inr n ↦ inl n
        ],
      )
