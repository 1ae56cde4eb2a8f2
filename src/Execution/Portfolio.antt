-- ===== src/Execution/Portfolio.antt =====
-- Portfolio of polyperps/execution/order_router.py: the routers, what they share, and the calls that
-- drive them. The lock that every public entry point takes is the reason why these are plain sequences.
pub mod Drive
pub mod Loops
pub mod Reconcile
pub mod Shutdown
use perpbot.Base.{
  ℕ, Bool, true, false, not, ◌&&◌, ◌||◌, Option, none, some, List, [], ◌∷◌, if◌then◌else◌, ◌==◌,
}
use perpbot.Base.Dict.{Dict}
use perpbot.Decimal.{Decimal}
use perpbot.Execution.Reconciliation.{Mismatch}
use perpbot.Execution.Types.{Text, Time, Intent}
use perpbot.Execution.World.{Error, Result, ok, err, Router, World, Action}
use perpbot.Monitor.{Level, Alert}
use perpbot.Storage.{Store, insert_alert}

-- What the routers share.
pub record Shared (E : Type 0) : Type 0 where
  pub store : Store
  pub exec : E
  pub now : Time

-- The routers after a loop, what they share, and whether the loop raised.
abbrev pub Swept : (E S : Type 0) → Type 0
Swept E S = Result (Unit {0}) × List (Router S) × Shared E

-- The fields of `Portfolio`, with `routers` in its order.
pub record Book (E S : Type 0) : Type 0 where
  pub run_id : Text
  pub routers : List (Router S)
  pub shared : Shared E
  pub start_equity : Option Decimal
  pub last_pnl_level : Option Level
  pub funding_seen : Dict ℕ Decimal
  pub refused_reported : List Mismatch

abbrev pub has_router : {S : Type 0} → ℕ → List (Router S) → Bool
has_router i [] = false
has_router i (r ∷ rs) = r.instrument_id == i || has_router i rs

abbrev pub alerted : {E : Type 0} → Alert → Shared E → Shared E
alerted a s = record s { store = insert_alert a s.store }

abbrev pub alerted_if : {E : Type 0} → Option Alert → Shared E → Shared E
alerted_if none s = s
alerted_if (some a) s = alerted a s

module _ {E S : Type 0} where
  abbrev pub world_of : Router S → Shared E → World E S
  world_of r s = record { router = r; store = s.store; exec = s.exec; now = s.now }

  abbrev pub shared_of : World E S → Shared E
  shared_of w = record { store = w.store; exec = w.exec; now = w.now }

  abbrev pub cons_router : Router S → Swept E S → Swept E S
  cons_router r (res, rs, s) = (res, r ∷ rs, s)

  -- `for router in self.routers.values(): await f(router)`, cut short by a raise
  unfoldable pub for_each :
      (Router S → Action E S (Unit {0})) → List (Router S) → Shared E → Swept E S
  for_each f [] s = (ok tt, [], s)
  for_each f (r ∷ rs) s =
      let (res, w) = f r (world_of r s) in
      let rest = for_each f rs (shared_of w) in
      elim res [ ok _ ↦ cons_router w.router rest | err e ↦ (err e, w.router ∷ rs, shared_of w) ]

  -- `router = self.routers.get(iid)`, and `await f(router)` if there is one
  unfoldable pub at_router :
      ℕ → (Router S → Action E S (Unit {0})) → List (Router S) → Shared E → Swept E S
  at_router i f [] s = (ok tt, [], s)
  at_router i f (r ∷ rs) s =
      let (res, w) = f r (world_of r s) in
      let rest = at_router i f rs s in
      if r.instrument_id == i then (res, w.router ∷ rs, shared_of w) else cons_router r rest

-- The state of a portfolio call: the book, and whether the call raised.
abbrev pub Call : (E S A : Type 0) → Type 0
Call E S A = Book E S → Result A × Book E S

infixl 5 ◌>>=◌ ◌>>◌
abbrev pub ◌>>=◌ : {E S A B : Type 0} → Call E S A → (A → Call E S B) → Call E S B
◌>>=◌ m f b = let (r, b') = m b in elim r [ ok a ↦ f a b' | err e ↦ (err e, b') ]

abbrev pub ◌>>◌ : {E S A B : Type 0} → Call E S A → Call E S B → Call E S B
m >> k = m >>= λ _. k

module _ {E S : Type 0} where
  abbrev pub swept : Swept E S → Book E S → Result (Unit {0}) × Book E S
  swept (res, rs, s) b = (res, record b { routers = rs; shared = s })

  abbrev pub all_routers : (Router S → Action E S (Unit {0})) → Call E S (Unit {0})
  all_routers f b = swept (for_each f b.routers b.shared) b

  abbrev pub one_router : ℕ → (Router S → Action E S (Unit {0})) → Call E S (Unit {0})
  one_router i f b = swept (at_router i f b.routers b.shared) b

  -- A call of the executor.
  abbrev pub on_exec : {A : Type 0} → (E → Result A × E) → Call E S A
  on_exec f b =
      let s = b.shared in let (r, e) = f s.exec in (r, record b { shared = record s { exec = e } })

  abbrev pub emit : Alert → Call E S (Unit {0})
  emit a b = (ok tt, record b { shared = alerted a b.shared })

  abbrev pub skip : Call E S (Unit {0})
  skip b = (ok tt, b)
