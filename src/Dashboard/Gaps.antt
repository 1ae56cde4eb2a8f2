-- ===== src/Dashboard/Gaps.antt =====
-- count_gaps of polyperps/dashboard/state.py, against find_gaps of polyperps/storage/gaps.py. The stamps are those
-- of the window, in order. SQLite's reading of a stamp in seconds, to the millisecond, is a parameter, exact on
-- stamps of whole milliseconds.
use perpbot.Base.{
  ℕ, ◌+◌, ◌-◌, ◌%◌, ◌≤◌, ◌≡◌, refl, ap, ◌∙◌, Bool, List, [], ◌∷◌, if◌then◌else◌, ltb, length,
  length-append, arith,
}
use perpbot.Execution.Types.{Time}
use perpbot.Storage.Gaps.{gap_if, gaps_after, find_gaps}
use perpbot.Storage.Rollup.{earliest, latest}

-- `MIN` and `MAX`
abbrev pub min_stamp : Time → List Time → Time
min_stamp t [] = t
min_stamp t (u ∷ us) = min_stamp (earliest t u) us

abbrev pub max_stamp : Time → List Time → Time
max_stamp t [] = t
max_stamp t (u ∷ us) = max_stamp (latest t u) us

abbrev pub one_if : Bool → ℕ
one_if b = if b then 1 else 0

-- Stamps of whole milliseconds, in order.
abbrev pub IsAscending : Time → List Time → Type 0
IsAscending t [] = t % 1_000 ≡ 0
IsAscending t (u ∷ us) = (t % 1_000 ≡ 0) × (t ≤ u) × IsAscending u us

abbrev pub AreAscending : List Time → Type 0
AreAscending [] = Unit
AreAscending (t ∷ ts) = IsAscending t ts

min_stamp_before : (t u : Time) (us : List Time) → t ≤ u → IsAscending u us → min_stamp t us ≡ t
min_stamp_before t u [] le a = refl
min_stamp_before t u (v ∷ vs) le (w, le', a) =
    let first : earliest t v ≡ t = ground arith in
    ap (λ (x : Time). min_stamp x vs) first ∙ min_stamp_before t v vs (omega arith) a

min_stamp_lem : (t : Time) (ts : List Time) → IsAscending t ts → min_stamp t ts ≡ t
min_stamp_lem t ts a = min_stamp_before t t ts (omega arith) a

IsAscending-whole : (t : Time) (ts : List Time) → IsAscending t ts → t % 1_000 ≡ 0
IsAscending-whole t [] a = a
IsAscending-whole t (u ∷ us) a = a.0

module _ (seconds : Time → Time) where
  -- `COUNT(*) ... WHERE d > ?` over the neighbours, with a microsecond of slack
  unfoldable pub internal_gaps : (max_gap : Time) → Time → List Time → ℕ
  internal_gaps max_gap before [] = 0
  internal_gaps max_gap before (t ∷ ts) =
      (if ltb (max_gap + 1) (seconds t - seconds before) then 1 else 0) + internal_gaps max_gap t ts

  unfoldable pub count_gaps : (max_gap start end : Time) → List Time → ℕ
  count_gaps max_gap start end [] = 1
  count_gaps max_gap start end (t ∷ ts) =
      internal_gaps max_gap t ts
      + one_if (ltb max_gap (min_stamp t ts - start))
      + one_if (ltb max_gap (end - max_stamp t ts))

  module _ (exact : (t : Time) → t % 1_000 ≡ 0 → seconds t ≡ t) (max_gap : Time)
      (whole : max_gap % 1_000 ≡ 0) (end : Time) where
    -- The gaps from a stamp on.
    length-gaps_after :
        (t : Time) (ts : List Time)
        → IsAscending t ts
        → length (gaps_after max_gap t ts end)
          ≡ internal_gaps max_gap t ts + one_if (ltb max_gap (end - max_stamp t ts))
    unfolding gaps_after internal_gaps
    length-gaps_after t [] a = ground arith
    length-gaps_after t (u ∷ us) (w, le, a) =
        let w' = IsAscending-whole u us a in
        let later_one : latest t u ≡ u = ground arith in
        let ih = length-gaps_after u us a in
        let last = ap (λ (x : Time). max_stamp x us) later_one in
        ground (
          arith,
          exact t w,
          exact u w',
          length-append (gap_if max_gap t u) (gaps_after max_gap u us end),
        )

    -- The count of the dashboard is the number of gaps that find_gaps lists, for stamps of whole milliseconds in
    -- order and a bound of whole milliseconds.
    pub count_gaps_lem :
        (start : Time) (ts : List Time)
        → AreAscending ts
        → count_gaps max_gap start end ts ≡ length (find_gaps max_gap start end ts)
    unfolding count_gaps find_gaps
    count_gaps_lem start [] a = refl
    count_gaps_lem start (t ∷ ts) a =
        let first = min_stamp_lem t ts a in
        ground (
          arith,
          length-gaps_after t ts a,
          length-append (gap_if max_gap start t) (gaps_after max_gap t ts end),
        )
