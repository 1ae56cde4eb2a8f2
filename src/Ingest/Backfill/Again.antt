-- ===== src/Ingest/Backfill/Again.antt =====
-- What a window of scripts/backfill.py inserts when it is pulled again.
use perpbot.Base.{
  ℕ, suc, ◌≡◌, refl, Bool, true, ◌||◌, some, List, [], ◌∷◌, if◌then◌else◌, any, All, eqb_text_refl,
  arith,
}
use perpbot.Exchange.{
  SourceType, polymarket_ws, polymarket_rest, proxy_hyperliquid, proxy_cex, synthetic_test,
  same_source, FundingObservation, Candle,
}
use perpbot.Execution.Types.{Time}
use perpbot.Exchange.Client.{answer}
use perpbot.Ingest.Backfill.{Client, Job, pulled, pull_once, insert_payments, insert_candles}
use perpbot.Ingest.Intervals.{closed}
use perpbot.Storage.Market.{
  Market, place, insert_new, insert_funding, same_funding, insert_candle, same_candle,
}

module _ {A : Type 0} (same : A → A → Bool) (stamp : A → Time) where
  any-place : (p : A → Bool) (r : A) (xs : List A) → any p (place stamp r xs) ≡ (p r || any p xs)
  any-place p r [] = refl
  any-place p r (x ∷ xs) = ground (arith, any-place p r xs)

  -- A row with the key of `r` is there after `r` was inserted, and what was there before still is.
  insert_new-has :
      (r : A) (xs : List A) → same r r ≡ true → any (same r) (insert_new same stamp r xs).1 ≡ true
  insert_new-has r xs e = ground (arith, any-place (same r) r xs)

  insert_new-keeps :
      (p : A → Bool) (r : A) (xs : List A)
      → any p xs ≡ true
      → any p (insert_new same stamp r xs).1 ≡ true
  insert_new-keeps p r xs e = ground (arith, any-place p r xs)

same_source_refl : (s : SourceType) → same_source s s ≡ true
unfolding same_source
same_source_refl polymarket_ws = refl
same_source_refl polymarket_rest = refl
same_source_refl proxy_hyperliquid = refl
same_source_refl proxy_cex = refl
same_source_refl synthetic_test = refl

same_funding_refl : (f : FundingObservation) → same_funding f f ≡ true
same_funding_refl f = ground (arith, same_source_refl f.source_type)

same_candle_refl : (c : Candle) → same_candle c c ≡ true
same_candle_refl c = ground (arith, same_source_refl c.source_type, eqb_text_refl c.interval)

module _ {A : Type 0} (same : A → A → Bool) (stamp : A → Time) where
  -- Rows inserted one after another, and the number that was not there.
  unfoldable insert_each : List A → List A → ℕ × List A
  insert_each [] xs = (0, xs)
  insert_each (r ∷ rs) xs =
      let (added, xs') = insert_new same stamp r xs in
      let (n, xs'') = insert_each rs xs' in ((if added then suc n else n), xs'')

  insert_each-keeps :
      (p : A → Bool) (rs xs : List A) → any p xs ≡ true → any p (insert_each rs xs).1 ≡ true
  unfolding insert_each
  insert_each-keeps p [] xs e = e
  insert_each-keeps p (r ∷ rs) xs e =
      insert_each-keeps p rs (insert_new same stamp r xs).1 (insert_new-keeps same stamp p r xs e)

  insert_each-has :
      (rs xs : List A)
      → ((r : A) → same r r ≡ true)
      → All (λ r. any (same r) (insert_each rs xs).1 ≡ true) rs
  unfolding insert_each
  insert_each-has [] xs reflexive = tt
  insert_each-has (r ∷ rs) xs reflexive =
      let xs' = (insert_new same stamp r xs).1 in
      (
        insert_each-keeps (same r) rs xs' (insert_new-has same stamp r xs (reflexive r)),
        insert_each-has rs xs' reflexive,
      )

  insert_each-nothing :
      (rs xs : List A) → All (λ r. any (same r) xs ≡ true) rs → insert_each rs xs ≡ (0, xs)
  unfolding insert_each
  insert_each-nothing [] xs there = refl
  insert_each-nothing (r ∷ rs) xs there = rw (there.0, insert_each-nothing rs xs there.1) refl

  insert_each_again :
      (rs xs : List A)
      → ((r : A) → same r r ≡ true)
      → insert_each rs (insert_each rs xs).1 ≡ (0, (insert_each rs xs).1)
  insert_each_again rs xs reflexive =
      insert_each-nothing rs (insert_each rs xs).1 (insert_each-has rs xs reflexive)

abbrev paid_at : FundingObservation → Time
paid_at f = f.exchange_ts

abbrev opened_at : Candle → Time
opened_at c = c.open_ts

insert_payments-insert_each :
    (fs : List FundingObservation) (m : Market)
    → let r = insert_each same_funding paid_at fs m.funding in
      insert_payments fs m ≡ (r.0, record m { funding = r.1 })
unfolding insert_payments insert_each insert_funding
insert_payments-insert_each [] m = refl
insert_payments-insert_each (f ∷ fs) m =
    rw (insert_payments-insert_each fs (insert_funding f m).1) refl

insert_candles-insert_each :
    (cs : List Candle) (m : Market)
    → let r = insert_each same_candle opened_at cs m.candles in
      insert_candles cs m ≡ (r.0, record m { candles = r.1 })
unfolding insert_candles insert_each insert_candle
insert_candles-insert_each [] m = refl
insert_candles-insert_each (c ∷ cs) m =
    rw (insert_candles-insert_each cs (insert_candle c m).1) refl

-- A market that has the rows of a window: to insert them again changes nothing and counts nothing.
abbrev pub HasWindow : List FundingObservation → List Candle → Market → Type 0
HasWindow fs cs m = (insert_payments fs m ≡ (0, m)) × (insert_candles cs m ≡ (0, m))

pub insert_window-HasWindow :
    (fs : List FundingObservation) (cs : List Candle) (m : Market)
    → HasWindow fs cs (insert_candles cs (insert_payments fs m).1).1
insert_window-HasWindow fs cs m =
    let funds = (insert_each same_funding paid_at fs m.funding).1 in
    let bars = (insert_each same_candle opened_at cs m.candles).1 in
    let after : Market = record m { funding = funds; candles = bars } in
    let done : (insert_candles cs (insert_payments fs m).1).1 ≡ after =
      rw
        (
          insert_payments-insert_each fs m,
          insert_candles-insert_each cs (record m { funding = funds }),
        )
        refl in
    rw (done) (
      rw
          (
            insert_payments-insert_each fs after,
            insert_each_again same_funding paid_at fs m.funding same_funding_refl,
          )
          refl,
      rw
          (
            insert_candles-insert_each cs after,
            insert_each_again same_candle opened_at cs m.candles same_candle_refl,
          )
          refl,
    )

-- A window that was pulled and is pulled again, at whatever time and from whatever state of the client, where the
-- venue serves the same rows for it and the same candles are closed, inserts nothing, counts nothing and leaves the
-- market as it is.
pub pull_once_again :
    {S : Type 0} ⦃c : Client S⦄ (j : Job) (later start end : Time) (m : Market) (s t : S)
    (fs : List FundingObservation) (cs kept : List Candle) {s₁ s₂ t₁ t₂ : S}
    → c.fetch_funding j.instrument_id start end s ≡ (answer fs, s₁)
    → c.fetch_candles j.instrument_id j.candle_interval start end s₁ ≡ (answer cs, s₂)
    → closed j.now cs ≡ some kept
    → c.fetch_funding j.instrument_id start end t ≡ (answer fs, t₁)
    → c.fetch_candles j.instrument_id j.candle_interval start end t₁ ≡ (answer cs, t₂)
    → closed later cs ≡ some kept
    → let m' = (pull_once j start end m s).1 in
      pull_once (record j { now = later }) start end m' t ≡ (pulled 0 0, m', t₂)
unfolding pull_once
pull_once_again j later start end m s t fs cs kept f₁ c₁ k₁ f₂ c₂ k₂ =
    let h = insert_window-HasWindow fs kept m in rw (f₁, c₁, k₁, f₂, h.0, c₂, k₂, h.1) refl
