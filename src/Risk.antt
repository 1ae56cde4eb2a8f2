-- ===== src/Risk.antt =====
-- polyperps/risk: the kill switch, the liquidation guard and the portfolio exposure caps.
pub mod KillSwitch
pub mod Verdict
pub mod LiquidationGuard
pub mod PortfolioExposure
