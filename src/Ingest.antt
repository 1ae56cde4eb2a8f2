-- ===== src/Ingest.antt =====
-- polyperps/data_ingest: tick validation and the feed that applies it.
pub mod Filters
pub mod MarketFeed
pub mod Intervals
pub mod Backfill
