-- ===== src/Storage/Gaps.antt =====
-- find_gaps of polyperps/storage/gaps.py, on the time stamps that the query returns in order.
use perpbot.Base.{ℕ, ◌-◌, List, [], ◌∷◌, ◌++◌, if◌then◌else◌, ltb}
use perpbot.Execution.Types.{Time}

abbrev pub gap_if : ℕ → Time → Time → List (Time × Time)
gap_if max_gap a b = if ltb max_gap (b - a) then (a, b) ∷ [] else []

-- the loop over the pairs of neighbours and the test at the end
unfoldable pub gaps_after : ℕ → Time → List Time → Time → List (Time × Time)
gaps_after max_gap last [] end = gap_if max_gap last end
gaps_after max_gap last (t ∷ ts) end = gap_if max_gap last t ++ gaps_after max_gap t ts end

unfoldable pub find_gaps : ℕ → Time → Time → List Time → List (Time × Time)
find_gaps max_gap start end [] = (start, end) ∷ []
find_gaps max_gap start end (t ∷ ts) = gap_if max_gap start t ++ gaps_after max_gap t ts end
