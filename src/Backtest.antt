-- ===== src/Backtest.antt =====
-- polyperps/backtest: the event-driven backtest. The bars and the interface of a strategy are those of the
-- live router.
pub mod Bars
pub mod Harness
