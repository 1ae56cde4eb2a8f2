-- ===== src/Exchange/Client/Calls.antt =====
-- The calls of PolymarketPerpsClient of polyperps/exchange/client.py: one token of the limiter before each request,
-- and the loop over the pages of a query. The library is a parameter, a record of calls on its state; a pager is
-- the answers that it gives, in order, so that one without an end is left out.
use perpbot.Base.{ℕ, false, List, [], ◌∷◌, ◌++◌, if◌then◌else◌, map, Bool}
use perpbot.Exchange.{Instrument, Tick, BookSnapshot, FundingObservation, Candle, FeeSchedule}
use perpbot.Exchange.Client.{
  Answer, answer, transient, failure, map_answer, VenueTicker, TickerEvent, VenueBook, VenueFunding,
  VenueCandle, VenueFee, VenueInstrument, instrument_from_rest, tick_from_rest, tick_from_event,
  book_from_rest, funding_from_rest, candle_from_rest, fee_from_rest,
}
use perpbot.Exchange.TokenBucket.{Bucket, acquire}
use perpbot.Execution.Types.{Text, Time}

pub record Page (A : Type 0) : Type 0 where
  pub items : List A
  pub has_more : Bool

-- An event of a stream: one of the topic `perps.tickers`, or another.
pub data StreamEvent : Type 0 where
  ticker : TickerEvent → StreamEvent
  other_topic : StreamEvent

-- The library, the clock, and the clock of the limiter around a sleep.
pub record Sdk (S : Type 0) : Type 0 where
  pub clock : S → Time × S
  pub pace : S → (ℕ × ℕ) × S
  pub fetch_perps_instruments : S → Answer (List VenueInstrument) × S
  pub fetch_perps_ticker : ℕ → S → Answer VenueTicker × S
  pub fetch_perps_book : (instrument_id depth : ℕ) → S → Answer VenueBook × S
  pub list_perps_funding_history :
      ℕ → (start end : Time) → S → List (Answer (Page VenueFunding)) × S
  pub list_perps_candles : ℕ → Text → (start end : Time) → S → List (Answer (Page VenueCandle)) × S
  pub fetch_perps_fees : S → Answer (List VenueFee) × S

-- `_limiter` and `_sdk`
pub record PerpsClient (S : Type 0) : Type 0 where
  pub limiter : Bucket
  pub sdk : S

module _ {S : Type 0} ⦃x : Sdk S⦄ where
  -- `await self._limiter.acquire()`
  unfoldable pub acquire_token : PerpsClient S → PerpsClient S
  acquire_token c =
      let ((now, later), s) = x.pace c.sdk in
      record { limiter = (acquire now later c.limiter).1; sdk = s }

  -- A request, with a token before it and the clock after it where it returns.
  abbrev pub received :
      {A B : Type 0} → (Time → A → B) → Answer A × S → Bucket → Answer B × PerpsClient S
  received f (answer a, s) b =
      let (now, s') = x.clock s in (answer (f now a), record { limiter = b; sdk = s' })
  received f (transient after, s) b = (transient after, record { limiter = b; sdk = s })
  received f (failure is_runtime, s) b = (failure is_runtime, record { limiter = b; sdk = s })

  unfoldable pub fetch_instruments : PerpsClient S → Answer (List Instrument) × PerpsClient S
  fetch_instruments c =
      let c' = acquire_token c in
      let (a, s) = x.fetch_perps_instruments c'.sdk in
      (map_answer (map instrument_from_rest) a, record c' { sdk = s })

  unfoldable pub fetch_ticker : ℕ → PerpsClient S → Answer Tick × PerpsClient S
  fetch_ticker i c =
      let c' = acquire_token c in
      received (λ now t. tick_from_rest t now) (x.fetch_perps_ticker i c'.sdk) c'.limiter

  unfoldable pub fetch_book :
      (instrument_id depth : ℕ) → PerpsClient S → Answer BookSnapshot × PerpsClient S
  fetch_book i depth c =
      let c' = acquire_token c in
      received (λ now b. book_from_rest b now) (x.fetch_perps_book i depth c'.sdk) c'.limiter

  unfoldable pub fetch_fees : PerpsClient S → Answer (List FeeSchedule) × PerpsClient S
  fetch_fees c =
      let c' = acquire_token c in
      received (λ now. map (fee_from_rest now)) (x.fetch_perps_fees c'.sdk) c'.limiter

  abbrev pub prepend :
      {B : Type 0} → List B → Answer (List B) × PerpsClient S → Answer (List B) × PerpsClient S
  prepend xs (a, c) = (map_answer (λ ys. xs ++ ys) a, c)

  -- The loop over the pages, one token each. A pager that is at its end raises StopAsyncIteration.
  unfoldable pub collect_pages :
      {A B : Type 0}
      → (A → B)
      → List (Answer (Page A))
      → PerpsClient S
      → Answer (List B) × PerpsClient S
  collect_pages f [] c = (failure false, acquire_token c)
  collect_pages f (transient after ∷ ps) c = (transient after, acquire_token c)
  collect_pages f (failure is_runtime ∷ ps) c = (failure is_runtime, acquire_token c)
  collect_pages f (answer p ∷ ps) c =
      let rest = collect_pages f ps (acquire_token c) in
      if p.has_more then prepend (map f p.items) rest else (answer (map f p.items), acquire_token c)

  unfoldable pub fetch_funding_history :
      ℕ → (start end : Time) → PerpsClient S → Answer (List FundingObservation) × PerpsClient S
  fetch_funding_history i start end c =
      let (pages, s) = x.list_perps_funding_history i start end c.sdk in
      let (now, s') = x.clock s in
      collect_pages (funding_from_rest i now) pages (record c { sdk = s' })

  unfoldable pub fetch_candles :
      ℕ → Text → (start end : Time) → PerpsClient S → Answer (List Candle) × PerpsClient S
  fetch_candles i interval start end c =
      let (pages, s) = x.list_perps_candles i interval start end c.sdk in
      let (now, s') = x.clock s in
      collect_pages (candle_from_rest i interval now) pages (record c { sdk = s' })

  -- `stream_ticks`, over the events that the subscription yields
  unfoldable pub stream_ticks : List StreamEvent → PerpsClient S → List Tick × PerpsClient S
  stream_ticks [] c = ([], c)
  stream_ticks (other_topic ∷ es) c = stream_ticks es c
  stream_ticks (ticker event ∷ es) c =
      let (now, s) = x.clock c.sdk in
      let (ts, c') = stream_ticks es (record c { sdk = s }) in (tick_from_event event now ∷ ts, c')
