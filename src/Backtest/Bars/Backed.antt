-- ===== src/Backtest/Bars/Backed.antt =====
-- build_bars never makes a bar up: the hours are those of the window, in order, and a complete bar has a stored
-- candle and a stored funding payment.
use perpbot.Base.{
  ℕ, ◌+◌, ◌-◌, ◌*◌, ◌<◌, ◌≡◌, refl, ap, subst, sym, ◌∙◌, true, false, ◌&&◌, Option, none, some,
  is_some, List, [], ◌∷◌, map, leb, ◌==◌, ==_iff, ◌⊎◌, inl, inr, In, All, arith, Bool-cases,
  Option-cases, In-filter_by, eqb_text→eq,
}
use perpbot.Base.Dict.{Dict, lookup, insert, nat_key, lookup-insert}
use perpbot.Decimal.{Decimal}
use perpbot.Exchange.{SourceType, same_source, FundingObservation, Candle}
use perpbot.Execution.LiveBars.{hour, floor_hour}
use perpbot.Execution.Types.{Bar, Time}
use perpbot.Storage.Market.{Market, query_candles, query_funding}
use perpbot.Storage.Rollup.Hours.{
  IsHour, IsLooped, hours_between, hours_between-IsLooped, hours_between-In,
}
use perpbot.Backtest.Bars.{
  hourly, candles_by_hour, funding_by_hour, Sources, bar_at, bars_at, sources_of, build_bars,
  field_of,
}

candles_found :
    (h : Time) (cs : List Candle) (d : Dict Time Candle) (c : Candle)
    → lookup h (candles_by_hour cs d) ≡ some c
    → (In c cs × (c.open_ts ≡ h)) ⊎ (lookup h d ≡ some c)
unfolding candles_by_hour
candles_found h [] d c e = inr e
candles_found h (x ∷ xs) d c e = elim (candles_found h xs (insert x.open_ts x d) c e) [
  | inl p ↦ inl (inr p.0, p.1)
  | inr p ↦ elim (Bool-cases (x.open_ts == h)) [
    | inl t ↦
        let same : x ≡ c = ground (arith, lookup-insert h x.open_ts x d) in
        inl (inl (sym same), ap (λ (y : Candle). y.open_ts) (sym same) ∙ (==_iff _ _).0 t)
    | inr t ↦ inr (ground (arith, lookup-insert h x.open_ts x d))
  ]
]

funding_found :
    (h : Time) (fs : List FundingObservation) (d : Dict Time Decimal) (rate : Decimal)
    → lookup h (funding_by_hour fs d) ≡ some rate
    → ((f : FundingObservation) × In f fs
        × (floor_hour f.exchange_ts ≡ h)
        × (f.funding_rate ≡ rate))
      ⊎ (lookup h d ≡ some rate)
unfolding funding_by_hour
funding_found h [] d rate e = inr e
funding_found h (x ∷ xs) d rate e =
    elim (funding_found h xs (insert (floor_hour x.exchange_ts) x.funding_rate d) rate e) [
      | inl p ↦ inl (p.0, inr p.1, p.2, p.3)
      | inr p ↦ elim (Bool-cases (floor_hour x.exchange_ts == h)) [
        | inl t ↦
            let same : x.funding_rate ≡ rate =
              ground (arith, lookup-insert h (floor_hour x.exchange_ts) x.funding_rate d) in
            inl (x, inl refl, (==_iff _ _).0 t, same)
        | inr t ↦ inr (ground (arith, lookup-insert h (floor_hour x.exchange_ts) x.funding_rate d))
      ]
    ]

-- A stored hourly candle of the instrument and source, and a stored payment at the end of the hour, that the bar
-- is made of.
pub record IsBacked (m : Market) (i : ℕ) (source : SourceType) (b : Bar) : Type 0 where
  pub candle : Candle
  pub candle_In : In candle m.candles
  pub candle_of : candle.instrument_id ≡ i
  pub candle_source : same_source candle.source_type source ≡ true
  pub candle_interval : candle.interval ≡ hourly
  pub candle_hour : candle.open_ts ≡ b.open_ts
  pub close : b.close ≡ some candle.close
  pub payment : FundingObservation
  pub payment_In : In payment m.funding
  pub payment_of : payment.instrument_id ≡ i
  pub payment_source : same_source source payment.source_type ≡ true
  pub payment_hour : floor_hour payment.exchange_ts ≡ b.open_ts + hour
  pub rate : b.funding_rate ≡ some payment.funding_rate

-- A complete bar is backed; an incomplete one lacks its close or its rate.
abbrev pub IsHonest : Market → ℕ → SourceType → Bar → Type 0
IsHonest m i source b =
    (b.complete ≡ true → IsBacked m i source b)
    × (b.complete ≡ false → (b.close ≡ none) ⊎ (b.funding_rate ≡ none))

missing_left :
    {A B : Type 0} {x : Option A} (y : Option B) → x ≡ none → (is_some x && is_some y) ≡ true → ⊥
missing_left y e t = ground arith

missing_right :
    {A B : Type 0} (x : Option A) (y : Option B) → y ≡ none → (is_some x && is_some y) ≡ true → ⊥
missing_right x y e t = ground arith

both_there :
    {A B : Type 0} {x : Option A} {y : Option B} {a : A} {b : B}
    → x ≡ some a
    → y ≡ some b
    → (is_some x && is_some y) ≡ false
    → ⊥
both_there p q t = ground arith

module _ (m : Market) (i : ℕ) (source : SourceType) (first last_open : Time)
    (spread : Decimal) where
  abbrev s : Sources
  s = sources_of i source first last_open spread m

  candle_lem :
      (c : Candle)
      → In c (query_candles i hourly source first last_open m)
      → In c m.candles
        × (c.instrument_id ≡ i)
        × (same_source c.source_type source ≡ true)
        × (c.interval ≡ hourly)
  unfolding query_candles
  candle_lem c n =
      let p = In-filter_by _ c m.candles n in
      let found = p.1 in
      (p.0, ground arith, ground arith, eqb_text→eq c.interval hourly (ground arith))

  payment_lem :
      (f : FundingObservation)
      → In f (query_funding i (first + hour) (last_open + 2 * hour - 1) (some source) m)
      → In f m.funding × (f.instrument_id ≡ i) × (same_source source f.source_type ≡ true)
  unfolding query_funding
  payment_lem f n =
      let p = In-filter_by _ f m.funding n in let found = p.1 in (p.0, ground arith, ground arith)

  bar_at-IsBacked :
      (h : Time) (c : Candle) (rate : Decimal)
      → lookup h s.candles ≡ some c
      → lookup (h + hour) s.funding ≡ some rate
      → IsBacked m i source (bar_at s h)
  unfolding bar_at
  bar_at-IsBacked h c rate p q =
      elim (candles_found h (query_candles i hourly source first last_open m) [] c p) [
        | inr e ↦ absurd (cc)
        | inl a ↦
            elim (funding_found (h + hour)
              (query_funding i (first + hour) (last_open + 2 * hour - 1) (some source) m) [] rate
              q) [
                | inr e ↦ absurd (cc)
                | inl b ↦
                    let candle = candle_lem c a.0 in
                    let payment = payment_lem b.0 b.1 in
                    record {
                      candle = c;
                      candle_In = candle.0;
                      candle_of = candle.1;
                      candle_source = candle.2;
                      candle_interval = candle.3;
                      candle_hour = a.1;
                      close = ap (field_of (λ (x : Candle). x.close)) p;
                      payment = b.0;
                      payment_In = payment.0;
                      payment_of = payment.1;
                      payment_source = payment.2;
                      payment_hour = b.2;
                      rate = q ∙ ap some (sym b.3);
                    }
              ]
      ]

  bar_at-IsHonest : (h : Time) → IsHonest m i source (bar_at s h)
  unfolding bar_at
  bar_at-IsHonest h = elim (Option-cases (lookup h s.candles)) [
    | inl e ↦
        (λ t. absurd (missing_left _ e t), λ t. inl (ap (field_of (λ (x : Candle). x.close)) e))
    | inr c ↦ elim (Option-cases (lookup (h + hour) s.funding)) [
      | inl e ↦ (λ t. absurd (missing_right _ _ e t), λ t. inr e)
      | inr r ↦ (λ t. bar_at-IsBacked h c.0 r.0 c.1 r.1, λ t. absurd (both_there c.1 r.1 t))
    ]
  ]

  bars_at-IsHonest : (hs : List Time) → All (IsHonest m i source) (bars_at s hs)
  unfolding bars_at
  bars_at-IsHonest [] = tt
  bars_at-IsHonest (h ∷ hs) = (bar_at-IsHonest h, bars_at-IsHonest hs)

  bars_at_hours : (hs : List Time) → map (λ (b : Bar). b.open_ts) (bars_at s hs) ≡ hs
  unfolding bars_at bar_at
  bars_at_hours [] = refl
  bars_at_hours (h ∷ hs) = ap (λ (ts : List Time). h ∷ ts) (bars_at_hours hs)

bars_at-before :
    (s : Sources) (first last_open end : Time) (hs : List Time)
    → last_open < end
    → All (IsLooped first 0 last_open) hs
    → All (λ (b : Bar). b.open_ts < end) (bars_at s hs)
unfolding bars_at bar_at
bars_at-before s first last_open end [] w l = tt
bars_at-before s first last_open end (h ∷ hs) w l =
    let here = l.0.not_after in (omega arith, bars_at-before s first last_open end hs w l.1)

-- In every window: the bars are honest, and none starts at its end or later.
pub build_bars_sound :
    (i : ℕ) (source : SourceType) (start end : Time) (spread : Decimal) (m : Market)
    → All (IsHonest m i source) (build_bars i source start end spread m)
      × All (λ (b : Bar). b.open_ts < end) (build_bars i source start end spread m)
unfolding build_bars
build_bars_sound i source start end spread m =
    let first = floor_hour start in
    let last_open = floor_hour (end - 1) in
    elim (Bool-cases (leb end first)) [
      | inl e ↦ rw e (tt, tt)
      | inr e ↦ rw e (
        bars_at-IsHonest m i source first last_open spread (hours_between first 0 last_open),
        bars_at-before (sources_of i source first last_open spread m) first last_open end
            (hours_between first 0 last_open) (ground arith)
            (hours_between-IsLooped first 0 last_open (omega arith)),
      )
    ]

-- The bars of a window are those of its hours, each once and in order, from the hour of the start to the last
-- hour that starts before the end. A complete one is made of a stored hourly candle and a stored funding payment
-- of the same instrument and source, at that hour and at its end; an incomplete one has no close or no rate.
pub build_bars-IsHonest :
    (i : ℕ) (source : SourceType) (start end : Time) (spread : Decimal) (m : Market)
    → start < end
    → All (IsHonest m i source) (build_bars i source start end spread m)
      × (map (λ (b : Bar). b.open_ts) (build_bars i source start end spread m)
          ≡ hours_between (floor_hour start) 0 (floor_hour (end - 1)))
      × ((h : Time)
          → IsHour h
          → h < end
          → start < h + hour
          → In h (map (λ (b : Bar). b.open_ts) (build_bars i source start end spread m)))
unfolding build_bars
build_bars-IsHonest i source start end spread m w =
    let first = floor_hour start in
    let last_open = floor_hour (end - 1) in
    let ordered : leb end first ≡ false = ground arith in
    let hours = bars_at_hours m i source first last_open spread (hours_between first 0 last_open) in
    rw ordered (
      bars_at-IsHonest m i source first last_open spread (hours_between first 0 last_open),
      hours,
      λ h a before after.
          subst (λ (ts : List Time). In h ts) (sym hours)
            (hours_between-In first 0 last_open h (omega arith)
              (record { aligned = a; not_before = omega arith; not_after = omega arith })),
    )
