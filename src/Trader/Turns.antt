-- ===== src/Trader/Turns.antt =====
-- The loops of scripts/run_trader.py, one turn each: an accepted tick, a closed bar, the fast loop. What the
-- executor does with ticks, bars and triggers is an interface. The queue of closed bars is a list, oldest first.
use perpbot.Base.{ℕ, Option, none, some, List, [], ◌∷◌, ◌++◌}
use perpbot.Base.Dict.{Dict, insert, nat_key}
use perpbot.Decimal.{Decimal}
use perpbot.Exchange.{Tick}
use perpbot.Execution.LiveBars.{Builder, on_tick, bars_of, push_all}
use perpbot.Execution.Portfolio.{Book, Call, on_exec, skip, ◌>>=◌, ◌>>◌}
use perpbot.Execution.Portfolio.Drive.{book_on_bar, book_on_fast, dispatch_fill}
use perpbot.Execution.Types.{Bar, FillUpdate}
use perpbot.Execution.World.{Result, ok, err, Executor, Strategy}
use perpbot.Risk.KillSwitch.{Mode, KillThresholds, evaluate}
use perpbot.Trader.{ExecutorName, Accounts, save_account_snapshot}

-- The runner hooks of `Executor`.
pub record Hooks (E : Type 0) : Type 0 where
  pub feed_tick : Tick → E → E
  pub feed_bar : Bar → E → Result (Unit {0}) × E
  pub heartbeat : E → Result (Unit {0}) × E
  pub poll_fills : E → List FillUpdate × E

-- What the loops share: the portfolio, the marks, the bar builder, the bars that wait, and the stored accounts.
pub record Trader (A E S : Type 0) : Type 0 where
  pub book : Book E S
  pub marks : Dict ℕ Decimal
  pub builder : Builder
  pub closed_bars : List Bar
  pub accounts : Accounts A

abbrev pub change_exec : {E S : Type 0} → (E → E) → Book E S → Book E S
change_exec f b = record b { shared = record (b.shared) { exec = f b.shared.exec } }

-- `for fill in executor.poll_fills(): await pf.dispatch(fill)`
unfoldable pub dispatch_all :
    {E S : Type 0} ⦃x : Executor E⦄ ⦃y : Strategy S⦄ → List FillUpdate → Call E S (Unit {0})
dispatch_all [] = skip
dispatch_all (f ∷ fs) = dispatch_fill f >> dispatch_all fs

abbrev pub polled : {E S : Type 0} ⦃k : Hooks E⦄ → Book E S → List FillUpdate × Book E S
polled ⦃k⦄ b = let (fills, e) = k.poll_fills b.shared.exec in (fills, change_exec (λ _. e) b)

module _ {A E S : Type 0} where
  abbrev pub with_book : {R : Type 0} → Result R × Book E S → Trader A E S → Result R × Trader A E S
  with_book (r, b) t = (r, record t { book = b })

  module _ ⦃k : Hooks E⦄ where
    abbrev pub queue_bar : Option Bar → Trader A E S → Result (Unit {0}) × Trader A E S
    queue_bar none t = (ok tt, t)
    queue_bar (some bar) t =
        let (r, b) = on_exec (k.feed_bar bar) t.book in
        elim r [
          | ok _ ↦ (ok tt, record t { book = b; closed_bars = t.closed_bars ++ (bar ∷ []) })
          | err e ↦ (err e, record t { book = b })
        ]

    -- `on_accept`
    unfoldable pub accept_tick : Tick → Trader A E S → Result (Unit {0}) × Trader A E S
    accept_tick tick t =
        let (bar, builder) = on_tick tick t.builder in
        queue_bar bar (record t {
          marks = insert tick.instrument_id tick.mark_price t.marks;
          book = change_exec (k.feed_tick tick) t.book;
          builder = builder;
        })

    -- A turn of `fast_loop`: the heartbeat, the fills of the stops that fired, the fast cycle, and the snapshot saved.
    unfoldable pub fast_turn :
        ⦃x : Executor E⦄ ⦃y : Strategy S⦄
        → ExecutorName
        → (start_equity : Decimal) → Trader A E S
        → Result (Unit {0}) × Trader A E S
    fast_turn name start_equity t =
        let (r, b) =
          (on_exec k.heartbeat >> λ b0.
          let (fills, b1) = polled b0 in (dispatch_all fills >> book_on_fast t.marks) b1)
            t.book in
        elim r [
          | ok snap ↦ (
            ok tt,
            record t {
              book = b;
              accounts = save_account_snapshot b.run_id snap start_equity name t.accounts;
            },
          )
          | err e ↦ (err e, record t { book = b })
        ]

  -- A turn of `bar_loop`, with the oldest bar of the queue.
  unfoldable pub bar_turn :
      ⦃x : Executor E⦄ ⦃y : Strategy S⦄
      → Mode
      → KillThresholds
      → (start_equity : Decimal) → Bar
      → Trader A E S
      → Result (Unit {0}) × Trader A E S
  bar_turn ⦃x⦄ mode thresholds start_equity bar t =
      let i = bar.instrument_id in
      with_book
        ((on_exec x.snapshot >>= λ snap.
            book_on_bar ((i, push_all (bars_of i t.builder) []) ∷ [])
              (evaluate none none mode (some snap.equity) (some start_equity) thresholds))
          t.book)
        t
