-- ===== src/Risk/LiquidationGuard/Prices.antt =====
-- The stop price and the liquidation price under the pre-registered limits.
use perpbot.Base.{
  ℕ, suc, ◌+◌, ◌*◌, ◌≤◌, ◌≡◌, arith, ◌<ℤ◌, pos, negsuc, true, false, ltb_ℤ, ◌-ℤ◌, ◌+ℤ◌,
}
use perpbot.Decimal.{scale, ◌*ᴰ◌, ◌/ᴰ◌, quantize, cents, round_half_even}
use perpbot.Decimal.Laws.{round_half_even_near, mul-pos, quantize-pos}
use perpbot.Risk.LiquidationGuard.{default_limits, stop_price, liquidation_price}

-- A price times a rate, rounded to cents.
priced : (n k : ℕ) → ℕ
priced n k = round_half_even (round_half_even (n * k) scale) cents

-- It is off by at most half a cent and half a unit.
priced_near :
    (n k : ℕ)
    → (2 * scale * (cents * priced n k) ≤ 2 * (n * k) + scale + scale * cents)
      × (2 * (n * k) ≤ 2 * scale * (cents * priced n k) + scale + scale * cents)
unfolding priced
priced_near n k =
    let (a, b) = round_half_even_near (n * k) scale (omega arith) in
    let (c, d) = round_half_even_near (round_half_even (n * k) scale) cents (omega arith) in
    (omega arith, omega arith)

priced_lem : (n k : ℕ) → quantize cents (pos n *ᴰ pos k) ≡ pos (priced n k * cents)
unfolding priced
priced_lem n k = rw (mul-pos n k, quantize-pos cents (round_half_even (n * k) scale))

-- The four rates, in units of 10^-28.
long_stop :
    (n : ℕ)
    → stop_price true (pos n) default_limits
      ≡ pos (priced n 8_500_000_000_000_000_000_000_000_000 * cents)
unfolding stop_price ◌-ℤ◌
long_stop n = priced_lem n _

short_stop :
    (n : ℕ)
    → stop_price false (pos n) default_limits
      ≡ pos (priced n 11_500_000_000_000_000_000_000_000_000 * cents)
unfolding stop_price ◌+ℤ◌
short_stop n = priced_lem n _

positive_test : (s : ℕ) → ltb_ℤ (pos 0) (pos (suc s)) ≡ true
positive_test s = ground arith

negative_test : (s : ℕ) → ltb_ℤ (pos 0) (negsuc s) ≡ false
negative_test s = ground arith

long_liq :
    (n s : ℕ)
    → liquidation_price (pos (suc s)) (pos n) default_limits
      ≡ pos (priced n 6_866_666_666_666_666_666_666_666_667 * cents)
unfolding liquidation_price ◌/ᴰ◌ round_half_even ◌-ℤ◌ ◌+ℤ◌
long_liq n s = rw (positive_test s) (priced_lem n _)

short_liq :
    (n s : ℕ)
    → liquidation_price (negsuc s) (pos n) default_limits
      ≡ pos (priced n 13_133_333_333_333_333_333_333_333_333 * cents)
unfolding liquidation_price ◌/ᴰ◌ round_half_even ◌-ℤ◌ ◌+ℤ◌
short_liq n s = rw (negative_test s) (priced_lem n _)

-- From an entry price of ten cents up, the stop of a long position lies below its entry and above its
-- liquidation price, and the stop of a short one above its entry and below its liquidation price.
pub stop_before_liquidation :
    (n s : ℕ)
    → 10 * cents ≤ n
    → (liquidation_price (pos (suc s)) (pos n) default_limits
        <ℤ stop_price true (pos n) default_limits)
      × (stop_price true (pos n) default_limits <ℤ pos n)
      × (pos n <ℤ stop_price false (pos n) default_limits)
      × (stop_price false (pos n) default_limits
          <ℤ liquidation_price (negsuc s) (pos n) default_limits)
stop_before_liquidation n s h =
    let a = priced_near n 8_500_000_000_000_000_000_000_000_000 in
    let b = priced_near n 11_500_000_000_000_000_000_000_000_000 in
    let c = priced_near n 6_866_666_666_666_666_666_666_666_667 in
    let d = priced_near n 13_133_333_333_333_333_333_333_333_333 in
    rw (long_stop n, short_stop n, long_liq n s, short_liq n s) (omega arith)
