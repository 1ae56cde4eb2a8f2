-- ===== src/Trader/Seeded.antt =====
-- What the history is seeded with: complete bars from before the current hour, and no more than wanted.
use perpbot.Base.{
  ℕ, ◌-◌, ◌*◌, ◌≤◌, ◌<◌, ◌≡◌, true, List, [], ◌∷◌, ◌==◌, filter_by, length, All, All-filter_by,
  arith, Bool-cases, inl, inr,
}
use perpbot.Decimal.{Decimal}
use perpbot.Exchange.{SourceType}
use perpbot.Execution.LiveBars.{hour, floor_hour}
use perpbot.Execution.Types.{Bar, Time}
use perpbot.Backtest.Bars.{build_bars}
use perpbot.Backtest.Bars.Backed.{IsBacked, IsHonest, build_bars_sound}
use perpbot.Storage.Market.{Market}
use perpbot.Trader.{drop_bars, with_spread, seed_bars}

module _ (m : Market) (i : ℕ) (source : SourceType) (end : Time) where
  -- A bar of the history: backed by stored rows, over before the current hour.
  abbrev pub IsSeed : Bar → Type 0
  IsSeed b = IsBacked m i source b × (b.open_ts < end)

  honest-IsSeed :
      (bs : List Bar)
      → All (IsHonest m i source) bs
      → All (λ (b : Bar). b.open_ts < end) bs
      → All (λ (b : Bar). b.complete ≡ true → IsSeed b) bs
  honest-IsSeed [] h w = tt
  honest-IsSeed (b ∷ bs) h w = (λ e. (h.0.0 e, w.0), honest-IsSeed bs h.1 w.1)

  with_spread-IsSeed :
      (spread : Decimal) (bs : List Bar) → All IsSeed bs → All IsSeed (with_spread spread bs)
  with_spread-IsSeed spread [] h = tt
  with_spread-IsSeed spread (b ∷ bs) h =
      let x = h.0.0 in
      (
        (
          record {
            candle = x.candle;
            candle_In = x.candle_In;
            candle_of = x.candle_of;
            candle_source = x.candle_source;
            candle_interval = x.candle_interval;
            candle_hour = x.candle_hour;
            close = x.close;
            payment = x.payment;
            payment_In = x.payment_In;
            payment_of = x.payment_of;
            payment_source = x.payment_source;
            payment_hour = x.payment_hour;
            rate = x.rate;
          },
          h.0.1,
        ),
        with_spread-IsSeed spread bs h.1,
      )

  drop_bars-IsSeed : (n : ℕ) (bs : List Bar) → All IsSeed bs → All IsSeed (drop_bars n bs)
  drop_bars-IsSeed n [] h = tt
  drop_bars-IsSeed n (b ∷ bs) h = elim (Bool-cases (n == 0)) [
    | inl e ↦ rw (e, All) h
    | inr e ↦ rw (e, All) (drop_bars-IsSeed (n - 1) bs h.1)
  ]

length-drop_bars : (n : ℕ) (bs : List Bar) → length (drop_bars n bs) ≡ length bs - n
length-drop_bars n [] = omega arith
length-drop_bars n (b ∷ bs) = ground (arith, length-drop_bars (n - 1) bs)

-- The bars that an instrument's history is seeded with are at most as many as wanted, each made of a stored
-- candle and a stored funding payment of the instrument and source, and each starts before the current hour.
pub seed_bars-IsSeed :
    (i : ℕ) (source : SourceType) (n : ℕ) (now : Time) (spread : Decimal) (m : Market)
    → All (IsSeed m i source (floor_hour now)) (seed_bars i source n now spread m)
      × (length (seed_bars i source n now spread m) ≤ n)
unfolding seed_bars
seed_bars-IsSeed i source n now spread m =
    let end = floor_hour now in
    let built = build_bars i source (end - n * 2 * hour) end spread m in
    let sound = build_bars_sound i source (end - n * 2 * hour) end spread m in
    let bars = with_spread spread (filter_by (λ (b : Bar). b.complete) built) in
    (
      drop_bars-IsSeed m i source end (length bars - n) bars (
          with_spread-IsSeed m i source end spread _ (
            All-filter_by (IsSeed m i source end) (λ (b : Bar). b.complete) built
              (honest-IsSeed m i source end built sound.0 sound.1))),
      omega (arith, length-drop_bars (length bars - n) bars),
    )
