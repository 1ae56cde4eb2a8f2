-- ===== src/Execution/World.antt =====
-- What a router handler works on: the router's own fields, the run's stored rows, the executor and the
-- clock. A handler is a state action that may raise; what was written before a raise stays written.
-- The executor and the strategy are interfaces (polyperps/execution/executor.py and
-- polyperps/backtest/strategy.py). Every public entry point of Portfolio holds one lock, so a handler
-- runs alone; the clock is read once for a handler.
pub mod Hoare
use perpbot.Base.{ℕ, Bool, true, false, Option, none, some, String, List, if◌then◌else◌, ℤ, not}
use perpbot.Base.Dict.{Dict}
use perpbot.Decimal.{Decimal}
use perpbot.Execution.Types.{
  State, Text, Time, Intent, OrderRequest, OrderAck, AccountSnapshot, Bar,
}
use perpbot.Monitor.{Level, Alert, alert}
use perpbot.Risk.LiquidationGuard.{RiskLimits}
use perpbot.Risk.PortfolioExposure.{Cluster, ExposureLimits}
use perpbot.Storage.{Store, insert_alert}

-- `ShadowRefused`, and every other exception
pub data Error : Type 0 where
  refused failed : Error

pub data Result (A : Type 0) : Type 0 where
  ok : A → Result A
  err : Error → Result A

-- How `submit` ends: an acknowledgement, a timeout, or a raise.
pub data Submitted : Type 0 where
  acked : OrderAck → Submitted
  timed_out : Submitted
  raised : Error → Submitted

-- `Executor`: each call on the executor's state `E`.
pub record Executor (E : Type 0) : Type 0 where
  pub is_shadow : Bool
  pub submit_order : OrderRequest → E → Submitted × E
  pub place_stop : ℕ → Decimal → E → Result (Unit {0}) × E
  pub cancel_stop : ℕ → E → Result (Unit {0}) × E
  pub cancel_order : Text → E → Result (Unit {0}) × E
  pub snapshot : E → Result AccountSnapshot × E

-- `Strategy`, on its state `S`. The sign that `on_recover` gets is a flag: long or not.
pub record Strategy (S : Type 0) : Type 0 where
  pub warmup : ℕ
  pub target : List Bar → S → Decimal × S
  pub on_flatten : S → S
  pub on_recover : Bool → S → S

-- The fields of `InstrumentRouter`.
pub record Router (S : Type 0) : Type 0 where
  pub run_id : Text
  pub instrument_id : ℕ
  pub categories : Dict ℕ Cluster
  pub limits : RiskLimits
  pub exposure : ExposureLimits
  pub strategy : S
  pub state : State
  pub seq : ℕ
  pub size : Decimal
  pub entry : Option Decimal
  pub stop_trigger : Option Decimal
  pub cumulative_funding : Decimal
  pub pending_cid : Option Text
  pub pending_since : Option Time
  pub pending_intent : Option Intent
  pub dseq : ℕ
  pub last_margin_level : Option Level

pub record World (E S : Type 0) : Type 0 where
  pub router : Router S
  pub store : Store
  pub exec : E
  pub now : Time

abbrev pub Action : (E S A : Type 0) → Type 0
Action E S A = World E S → Result A × World E S

module _ {E S A : Type 0} where
  abbrev pub pure : A → Action E S A
  pure a w = (ok a, w)

  abbrev pub raise : Error → Action E S A
  raise e w = (err e, w)

  abbrev pub gets : (World E S → A) → Action E S A
  gets f w = (ok (f w), w)

  -- A call of the executor, whose result is the call's.
  abbrev pub on_exec : (E → Result A × E) → Action E S A
  on_exec f w = let (r, e) = f w.exec in (r, record w { exec = e })

infixl 5 ◌>>=◌ ◌>>◌
abbrev pub ◌>>=◌ : {E S A B : Type 0} → Action E S A → (A → Action E S B) → Action E S B
◌>>=◌ m f w = let (r, w') = m w in elim r [ ok a ↦ f a w' | err e ↦ (err e, w') ]

abbrev pub ◌>>◌ : {E S A B : Type 0} → Action E S A → Action E S B → Action E S B
m >> k = m >>= λ _. k

module _ {E S : Type 0} where
  abbrev pub modify : (World E S → World E S) → Action E S (Unit {0})
  modify f w = (ok tt, f w)

  -- Assignments to the router's fields, and writes to the store.
  abbrev pub assign : (Router S → Router S) → Action E S (Unit {0})
  assign f w = (ok tt, record w { router = f w.router })

  abbrev pub write : (Store → Store) → Action E S (Unit {0})
  write f w = (ok tt, record w { store = f w.store })

  abbrev pub skip : Action E S (Unit {0})
  skip w = (ok tt, w)

  -- `self._alert`
  abbrev pub emit : Level → String → Action E S (Unit {0})
  emit l k w =
      (ok tt, record w { store = insert_alert (alert l k (some w.router.instrument_id)) w.store })
