-- ===== src/Ingest/MarketFeed/Accepted.antt =====
-- The accepted ticks of a feed: each is sane against the tick of its instrument accepted before it.
use perpbot.Base.{
  ℕ, ◌+◌, Option, none, some, List, [], ◌∷◌, ◌≡◌, refl, if◌then◌else◌, ◌==◌, arith, length,
  Bool-cases, Option-cases, inl, inr, ◌∙◌,
}
use perpbot.Base.Dict.{lookup, nat_key, lookup-insert_self, lookup-insert_ne}
use perpbot.Exchange.{Tick}
use perpbot.Ingest.Filters.{SanityBounds, check_tick}
use perpbot.Ingest.Filters.Rules.{IsSane, check_tick_iff}
use perpbot.Ingest.MarketFeed.{Feed, settle_tick, feed_tick, run_feed, is_reached, empty_feed}

-- The newest tick of an instrument.
abbrev pub newest : ℕ → List Tick → Option Tick
newest i [] = none
newest i (t ∷ ts) = if t.instrument_id == i then some t else newest i ts

-- Each tick is sane against the next older one of its instrument.
abbrev pub AllSane : SanityBounds → List Tick → Type 0
AllSane b [] = Unit
AllSane b (t ∷ ts) = IsSane t b (newest t.instrument_id ts) × AllSane b ts

pub record IsTracked (b : SanityBounds) (f : Feed) : Type 0 where
  pub baseline : (i : ℕ) → lookup i f.previous ≡ newest i f.accepted_ticks
  pub sane : AllSane b f.accepted_ticks
  pub counted : f.received ≡ f.accepted + length f.rejected
  pub logged : f.accepted ≡ length f.accepted_ticks

feed_tick-IsTracked :
    (b : SanityBounds) (t : Tick) (f : Feed) → IsTracked b f → IsTracked b (feed_tick b t f)
unfolding feed_tick
feed_tick-IsTracked b t f v =
    elim (Option-cases (check_tick t b (lookup t.instrument_id f.previous))) [
      | inl fine ↦ rw fine (accepted fine)
      | inr (r, e) ↦ rw e (record {
        baseline = v.baseline;
        sane = v.sane;
        counted = omega (arith, v.counted);
        logged = v.logged;
      })
    ]
  where
    accepted :
        check_tick t b (lookup t.instrument_id f.previous) ≡ none
        → IsTracked b (settle_tick t none f)
    accepted fine = record {
      baseline = λ i. elim (Bool-cases (t.instrument_id == i)) [
        | inl e ↦
            let same : t.instrument_id ≡ i = ground arith in
            rw (e, ← same) (lookup-insert_self t.instrument_id t f.previous)
        | inr e ↦ rw e (lookup-insert_ne i t.instrument_id t f.previous e ∙ v.baseline i)
      ];
      sane = (
        rw (v.baseline t.instrument_id) at
            ((check_tick_iff t b (lookup t.instrument_id f.previous)).0 fine),
        v.sane,
      );
      counted = omega (arith, v.counted);
      logged = omega (arith, v.logged);
    }

run_feed_keeps :
    (b : SanityBounds) (limit : Option ℕ) (ts : List Tick) (f : Feed)
    → IsTracked b f
    → IsTracked b (run_feed b limit ts f)
unfolding run_feed
run_feed_keeps b limit [] f v = v
run_feed_keeps b limit (t ∷ ts) f v =
    let step = feed_tick-IsTracked b t f v in
    elim (Bool-cases (is_reached limit (feed_tick b t f).received)) [
      | inl e ↦ rw e step
      | inr e ↦ rw e (run_feed_keeps b limit ts (feed_tick b t f) step)
    ]

-- Whatever the stream yields and wherever it is cut off, every tick handed on is sane against the tick of
-- its instrument handed on before it, that tick is the baseline of the next check, and each tick
-- received is counted once, as accepted or as rejected.
pub run_feed-IsTracked :
    (b : SanityBounds) (limit : Option ℕ) (ts : List Tick)
    → IsTracked b (run_feed b limit ts empty_feed)
run_feed-IsTracked b limit ts =
    run_feed_keeps b limit ts empty_feed
      (record { baseline = λ i. refl; sane = tt; counted = omega arith; logged = omega arith })
