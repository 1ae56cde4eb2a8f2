-- ===== src/Signal.antt =====
-- polyperps/signal: what a backtest must show to pass, and the approval that opens the third lock of the
-- live-order gate.
pub mod Sufficiency
pub mod Approval
