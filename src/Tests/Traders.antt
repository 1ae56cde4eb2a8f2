-- ===== src/Tests/Traders.antt =====
-- Runs of the start of a trader and of the dashboard.
use perpbot.Base.{
  true, negsuc, ◌/◌, ◌*◌, ◌+◌, arith, ℕ, ◌≡◌, refl, false, none, some, [], ◌∷◌, any, pos, neg_ℤ,
}
use perpbot.Base.Dict.{nat_key, text_key}
use perpbot.Dashboard.{Floats, account_and_positions, guards}
use perpbot.Dashboard.Breach.{would_flatten, implied_mark, KeepsOrder, guards-check_open}
use perpbot.Decimal.{whole}
use perpbot.Execution.Types.{AccountSnapshot, PositionView}
use perpbot.Execution.World.{Result, ok}
use perpbot.Risk.LiquidationGuard.{check_open, default_limits}
use perpbot.Storage.{Store}
use perpbot.Tests.{empty_snapshot, run_one}
use perpbot.Trader.{
  shadow, live, same_name, Accounts, foreign_run, venue_account, is_foreign, save_account_snapshot,
  build_executor,
}
use perpbot.Trader.Restarted.{saved_all, build_executor_restart}

-- A venue whose account is its snapshot.
abbrev reported : AccountSnapshot → Result AccountSnapshot × AccountSnapshot
reported e = (ok e, e)

abbrev new_accounts : Accounts ℕ
new_accounts = record { snapshots = []; sims = [] }

abbrev richer : AccountSnapshot
richer = record empty_snapshot { equity = whole 1100 }

abbrev first_accounts : Accounts ℕ
first_accounts = save_account_snapshot run_one empty_snapshot (whole 1000) shadow new_accounts

first_start :
    build_executor reported shadow run_one 0 (whole 1) (some empty_snapshot) new_accounts
    ≡ (venue_account empty_snapshot (whole 1000), first_accounts)
unfolding build_executor is_foreign
first_start = refl

build_executor_restart_example :
    let db = saved_all run_one (whole 1000) shadow (richer ∷ []) first_accounts in
    (build_executor reported shadow run_one 0 (whole 1) (some richer) db
      ≡ (venue_account richer (whole 1000), db))
    × (same_name shadow live ≡ false
        → build_executor reported live run_one 0 (whole 1) (some richer) db ≡ (foreign_run, db))
build_executor_restart_example =
    build_executor_restart reported shadow live run_one 0 0 (whole 1) (whole 1)
      (some empty_snapshot) (some richer) new_accounts first_accounts empty_snapshot richer
      (whole 1000) (richer ∷ []) (λ e. cc) first_start

abbrev near_position : PositionView
near_position = record {
  instrument_id = 7;
  size = whole 1;
  entry_price = whole 100;
  notional = whole 90;
  leverage = 3;
  liquidation_price = some (whole 70);
  unrealised_pnl = neg_ℤ (whole 10);
  cumulative_funding = pos 0;
}

abbrev near_snapshot : AccountSnapshot
near_snapshot = record empty_snapshot { positions = near_position ∷ [] }

abbrev no_rows : Store
no_rows = record { orders = []; positions = []; decisions = []; alerts = [] }

-- Floats with fifteen digits behind the point, and texts that are read back as they are.
instance abbrev coarse : Floats
coarse = record {
  to_float = λ d. elim d [
    | pos n ↦ pos (n / 10_000_000_000_000 * 10_000_000_000_000)
    | negsuc n ↦ negsuc (n / 10_000_000_000_000 * 10_000_000_000_000 + 9_999_999_999_999)
  ];
  from_text = λ d. d;
}

coarse-KeepsOrder : KeepsOrder coarse
coarse-KeepsOrder (pos a) (pos b) h = omega arith
coarse-KeepsOrder (pos a) (negsuc b) h = absurd (omega arith)
coarse-KeepsOrder (negsuc a) (pos b) h = omega arith
coarse-KeepsOrder (negsuc a) (negsuc b) h = omega arith

light_on :
    (let (account, positions) =
        account_and_positions (some (near_snapshot, whole 1000)) none no_rows in
      (guards account positions no_rows).liquidation_breach)
    ≡ true
unfolding guards account_and_positions perpbot.Dashboard.shown_all perpbot.Dashboard.shown_of
    perpbot.Decimal.◌/ᴰ◌ perpbot.Decimal.round_half_even perpbot.Base.◌-ℤ◌
light_on = refl

guards-check_open_example :
    any (λ p. would_flatten (check_open p (implied_mark p) default_limits)) near_snapshot.positions
    ≡ true
guards-check_open_example =
    guards-check_open near_snapshot (whole 1000) none no_rows coarse-KeepsOrder (λ e. cc, tt)
      light_on
