-- ===== src/Ingest/Backfill/Venue.antt =====
-- The client that scripts/backfill.py runs on: PolymarketPerpsClient of polyperps/exchange/client.py.
use perpbot.Base.{ℕ}
use perpbot.Exchange.Client.Calls.{Sdk, PerpsClient, fetch_funding_history, fetch_candles}
use perpbot.Ingest.Backfill.{Client}

-- `asyncio.sleep` is a parameter, as the library is.
abbrev pub perps_client : {S : Type 0} ⦃x : Sdk S⦄ → (ℕ → S → S) → Client (PerpsClient S)
perps_client sleep = record {
  fetch_funding = λ i start end c. fetch_funding_history i start end c;
  fetch_candles = λ i interval start end c. fetch_candles i interval start end c;
  sleep = λ seconds c. record c { sdk = sleep seconds c.sdk };
}
