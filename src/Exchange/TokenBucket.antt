-- ===== src/Exchange/TokenBucket.antt =====
-- TokenBucket of polyperps/exchange/rate_limiter.py. Time is a number of ticks of the clock, and the rate a
-- number of tokens for each `unit` ticks; the bucket counts in shares of a token, `unit` of them to a token, so
-- that the arithmetic of the floats in the source is exact, and a wait is rounded up to a tick. The shares are below
-- zero after a sleep that was shorter than asked. The clock and
-- the sleep are parameters: their readings are arguments. The lock makes calls sequences.
pub mod Paced
use perpbot.Base.{
  ℤ, pos, pos_part, min_ℤ, ltb_ℤ, ◌+ℤ◌, ◌-ℤ◌, ℕ, suc, ◌+◌, ◌-◌, ◌*◌, ◌/◌, ◌≤◌, ◌<◌, Bool, true,
  false, ◌&&◌, List, [], ◌∷◌, ◌≡◌, refl, ap, ◌∙◌, arith, if◌then◌else◌, ltb, leb, length,
  Bool-cases, inl, inr,
}

-- `_rate`, `_burst`, `_tokens` and `_last`
pub record Bucket : Type 0 where
  pub rate : ℕ
  pub unit : ℕ
  pub burst : ℕ
  pub shares : ℤ
  pub last : ℕ

-- `__init__`, whose checks of the arguments are the conditions of the theorem
abbrev pub new_bucket : (rate unit burst now : ℕ) → Bucket
new_bucket rate unit burst now = record {
  rate = rate;
  unit = unit;
  burst = burst;
  shares = pos (burst * unit);
  last = now;
}

-- `_refill`
unfoldable pub refill : ℕ → Bucket → Bucket
refill now b = record b {
  shares = min_ℤ (pos (b.burst * b.unit)) (b.shares +ℤ pos ((now - b.last) * b.rate));
  last = now;
}

-- `(1.0 - self._tokens) / self._rate`, in whole ticks
abbrev pub wait_for : Bucket → ℕ
wait_for b = (pos_part (pos b.unit -ℤ b.shares) + (b.rate - 1)) / b.rate

abbrev pub take_token : Bucket → Bucket
take_token b = record b { shares = b.shares -ℤ pos b.unit }

-- `acquire`, with the clock before and after a sleep, and the ticks waited
unfoldable pub acquire : (now later : ℕ) → Bucket → ℕ × Bucket
acquire now later b =
    let c = refill now b in
    if ltb_ℤ c.shares (pos c.unit)
    then (wait_for c, take_token (refill later c))
    else (0, take_token c)

unfoldable pub acquire_all : List (ℕ × ℕ) → Bucket → Bucket
acquire_all [] b = b
acquire_all ((now, later) ∷ ts) b = acquire_all ts (acquire now later b).1

-- The readings of a clock that does not go back, around a sleep that is not shorter than asked.
unfoldable pub is_clocked : List (ℕ × ℕ) → Bucket → Bool
is_clocked [] b = true
is_clocked ((now, later) ∷ ts) b =
    let rest = is_clocked ts (acquire now later b).1 in
    leb b.last now && (leb (now + wait_for (refill now b)) later && rest)
