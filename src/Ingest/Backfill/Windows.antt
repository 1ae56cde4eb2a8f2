-- ===== src/Ingest/Backfill/Windows.antt =====
-- The loop over the windows of scripts/backfill.py ends, and its windows tile the span.
use perpbot.Base.{
  ℕ, zero, suc, ◌+◌, ◌-◌, ◌*◌, ◌/◌, ◌≤◌, ◌<◌, ◌≡◌, refl, false, some, List, [], ◌∷◌, if◌then◌else◌,
  ltb, arith, Bool-cases, inl, inr,
}
use perpbot.Execution.Types.{Time}
use perpbot.Ingest.Backfill.{
  Client, Job, Progress, day, pull_window, window_loop, pull_instrument, no_progress,
}
use perpbot.Storage.Market.{Market}
use perpbot.Storage.Rollup.{earliest}

-- The windows follow one another from `start` to `end`, and none is empty or longer than a day.
abbrev pub Tiles : (start end : Time) → List (Time × Time) → Type 0
Tiles start end [] = start ≡ end
Tiles start end ((a, b) ∷ ws) = (a ≡ start) × (a < b) × (b ≤ a + day) × (b ≤ end) × Tiles b end ws

-- The windows of a day, and what is left of the last one.
unfoldable pub day_windows : ℕ → (start end : Time) → List (Time × Time)
day_windows zero start end = []
day_windows (suc n) start end =
    let w_end = earliest (start + day) end in
    let rest = day_windows n w_end end in if ltb start end then (start, w_end) ∷ rest else []

day_windows-Tiles :
    (n : ℕ) (start end : Time)
    → start ≤ end
    → end ≤ n * day + start
    → Tiles start end (day_windows n start end)
unfolding day_windows
day_windows-Tiles zero start end le enough = omega arith
day_windows-Tiles (suc n) start end le enough = elim (Bool-cases (ltb start end)) [
  | inr over ↦ rw (over, Tiles) (ground arith)
  | inl more ↦
      let w_end = earliest (start + day) end in
      rw (more, Tiles)
        (
          refl,
          ground arith,
          ground arith,
          ground arith,
          day_windows-Tiles n w_end end (ground arith) (ground arith),
        )
]

module _ {S : Type 0} ⦃c : Client S⦄ (j : Job) where
  -- The windows one after another, up to one that aborts the run.
  abbrev pub pull_each : List (Time × Time) → Progress S → Progress S
  pull_each [] p = p
  pull_each (w ∷ ws) p =
      let p' = pull_window j w p in let rest = pull_each ws p' in if p'.is_aborted then p' else rest

  window_loop-pull_each :
      (fuel : ℕ) (start end : Time) (p : Progress S)
      → end ≤ fuel * day + start
      → window_loop (suc fuel) j start end p ≡ some (pull_each (day_windows fuel start end) p)
  unfolding window_loop day_windows
  window_loop-pull_each zero start end p enough =
      let over : ltb start end ≡ false = ground arith in ground arith
  window_loop-pull_each (suc fuel) start end p enough =
      let w_end = earliest (start + day) end in
      let p' = pull_window j (start, w_end) p in
      elim (Bool-cases (ltb start end)) [
        | inr over ↦ ground arith
        | inl more ↦ elim (Bool-cases p'.is_aborted) [
          | inl stop ↦ ground arith
          | inr on ↦ ground (arith, window_loop-pull_each fuel w_end end p')
        ]
      ]

-- The backfill of an instrument ends: it goes through windows of at most a day that follow one another from the
-- start to the end with none left out, one after another, and stops before the end only where one aborts.
pub pull_instrument_lem :
    {S : Type 0} ⦃c : Client S⦄ (j : Job) (start end : Time) (m : Market) (s : S)
    → start ≤ end
    → (ws : List (Time × Time)) × Tiles start end ws
      × (pull_instrument j start end m s ≡ some (pull_each j ws (no_progress m s)))
unfolding pull_instrument
pull_instrument_lem j start end m s le =
    let n = suc ((end - start) / day) in
    (
      day_windows n start end,
      day_windows-Tiles n start end le (omega arith),
      window_loop-pull_each j n start end (no_progress m s) (omega arith),
    )
