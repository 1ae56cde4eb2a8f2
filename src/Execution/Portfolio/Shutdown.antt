-- ===== src/Execution/Portfolio/Shutdown.antt =====
-- A shutdown of the portfolio freezes every router.
use perpbot.Base.{true, some, ◌≡◌, All, if◌then◌else◌}
use perpbot.Execution.Portfolio.{Book, world_of, emit}
use perpbot.Execution.Portfolio.Loops.{for_each-All}
use perpbot.Execution.Portfolio.Drive.{
  Histories, shutdown_router, shutdown_all, shutdown_cause, any_unfrozen, mark_of, close_of,
  history_of,
}
use perpbot.Execution.Router.Frozen.{shutdown_freezes}
use perpbot.Execution.Router.Rows.{is_frozen}
use perpbot.Base.Dict.{lookup, nat_key}
use perpbot.Execution.Router.Send.{size_of}
use perpbot.Execution.Types.{AccountSnapshot, position}
use perpbot.Execution.World.{ok, Executor, Router}

abbrev pub IsFrozen : {S : Type 0} → Router S → Type 0
IsFrozen r = is_frozen r.state ≡ true

module _ {E S : Type 0} ⦃x : Executor E⦄ where
  -- When the shutdown of the portfolio returns, every router is halted or liquidated, whatever state it was
  -- in and whatever the executor answered.
  pub shutdown_all_freezes :
      (snap : AccountSnapshot) (histories : Histories) (b : Book E S)
      → (shutdown_all snap histories b).0 ≡ ok tt
      → All IsFrozen (shutdown_all snap histories b).1.routers
  unfolding shutdown_all
  shutdown_all_freezes snap histories b e =
      let b' : Book E S =
        (if any_unfrozen b.routers
          then (emit (shutdown_cause b.start_equity snap.equity) b).1
          else b) in
      for_each-All IsFrozen (shutdown_router histories snap) b'.routers b'.shared
        (λ r s _.
          shutdown_freezes
            (mark_of (close_of (history_of (lookup r.instrument_id histories)))
              (position snap r.instrument_id) r.entry)
            (some (size_of (position snap r.instrument_id))) (world_of r s))
        e
