-- ===== src/Strategies/Built/PointInTime.antt =====
-- The strategies that look at another venue see only its closes at the hours of their history.
use perpbot.Base.{ℕ, List, [], ◌∷◌, ◌≡◌, refl, All}
use perpbot.Base.Dict.{lookup, nat_key}
use perpbot.Decimal.{Decimal}
use perpbot.Execution.Types.{Bar}
use perpbot.Strategies.{Statistics}
use perpbot.Strategies.Faded.{Closes, pair, pairs, basis_target}
use perpbot.Strategies.Timed.{Held, both_returns, last_two, lead_at, lead_lag_next}

-- Two venues with the same closes at the hours of a history.
abbrev pub SameAt : Closes → Closes → Bar → Type 0
SameAt proxy other b = lookup b.open_ts proxy ≡ lookup b.open_ts other

pairs-SameAt :
    (proxy other : Closes) (history : List Bar)
    → All (SameAt proxy other) history
    → pairs proxy history ≡ pairs other history
unfolding pairs pair
pairs-SameAt proxy other [] h = refl
pairs-SameAt proxy other (b ∷ bs) (h, hs) = rw (h, pairs-SameAt proxy other bs hs) refl

lead_at-SameAt :
    (gap_bps : Decimal) (proxy other : Closes) (history : List Bar) (s : Held)
    → All (SameAt proxy other) history
    → lead_at gap_bps proxy (last_two history) s ≡ lead_at gap_bps other (last_two history) s
unfolding last_two both_returns
lead_at-SameAt gap_bps proxy other [] s h = refl
lead_at-SameAt gap_bps proxy other (b ∷ []) s h = refl
lead_at-SameAt gap_bps proxy other (b ∷ c ∷ []) s (h, (i, _)) = rw (h, i) refl
lead_at-SameAt gap_bps proxy other (a ∷ b ∷ c ∷ bs) s (_, h) =
    lead_at-SameAt gap_bps proxy other (b ∷ c ∷ bs) s h

-- Basis and LeadLag decide the same on two sets of closes of the other venue that agree at the hours of the
-- history: no close of a later hour has a part in a decision.
pub target-SameAt :
    (st : Statistics) (lookback n : ℕ) (entry_z gap_bps : Decimal) (proxy other : Closes)
    (history : List Bar) (d : Decimal) (s : Held)
    → All (SameAt proxy other) history
    → (basis_target st lookback entry_z proxy history d
        ≡ basis_target st lookback entry_z other history d)
      × (lead_lag_next gap_bps n proxy history s ≡ lead_lag_next gap_bps n other history s)
unfolding basis_target lead_lag_next
target-SameAt st lookback n entry_z gap_bps proxy other history d s h = (
  rw (pairs-SameAt proxy other history h) refl,
  rw (lead_at-SameAt gap_bps proxy other history s h) refl,
)
