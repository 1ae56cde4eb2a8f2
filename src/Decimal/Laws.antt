-- ===== src/Decimal/Laws.antt =====
-- What the rounded operations on decimals keep: error bounds, signs and order.
use native.Mathlib.Nat.{add-zero, div-add-mod}
use native.Mathlib.Decide.{dec_lt}
use perpbot.Base.{
  ℕ, zero, sub_ℕ, ap, suc, ◌+◌, ◌*◌, ◌/◌, ◌%◌, ◌≤◌, ◌<◌, ◌≡◌, arith, pos, negsuc, ◌≤ℤ◌, ◌<ℤ◌,
}
use perpbot.Decimal.{Decimal, scale, round_half_even, ◌*ᴰ◌, ◌/ᴰ◌, quantize}

-- The rounded quotient is off by at most half a divisor.
pub round_half_even_near :
    (n d : ℕ)
    → 0 < d
    → (2 * (d * round_half_even n d) ≤ 2 * n + d) × (2 * n ≤ 2 * (d * round_half_even n d) + d)
unfolding round_half_even
round_half_even_near n d h = grind arith

pub mul-pos : (a b : ℕ) → pos a *ᴰ pos b ≡ pos (round_half_even (a * b) scale)
unfolding ◌*ᴰ◌
mul-pos a b = rw (add-zero, add-zero)

pub quantize-pos : (u n : ℕ) → quantize u (pos n) ≡ pos (round_half_even n u * u)
unfolding quantize
quantize-pos u n = rw add-zero

round_half_even_bounds :
    (n d : ℕ) → (n / d ≤ round_half_even n d) × (round_half_even n d ≤ n / d + 1)
unfolding round_half_even
round_half_even_bounds n d = ground arith

-- With one quotient the rounding is decided by the remainders.
round_half_even_same :
    (m n d : ℕ) → m / d ≡ n / d → m % d ≤ n % d → round_half_even m d ≤ round_half_even n d
unfolding round_half_even
round_half_even_same m n d q r = ground arith

pub round_half_even_mono : (m n d : ℕ) → 0 < d → m ≤ n → round_half_even m d ≤ round_half_even n d
round_half_even_mono m n d hd h =
    let quotients : m / d ≤ n / d = grind arith in
    elim (dec_lt (m / d) (n / d)) [
      | yes p ↦ omega (arith, round_half_even_bounds m d, round_half_even_bounds n d)
      | no p ↦
          let same : m / d ≡ n / d = omega arith in
          round_half_even_same m n d same (remainders same)
    ]
  where
    remainders : m / d ≡ n / d → m % d ≤ n % d
    remainders same = omega (arith, div-add-mod m d, div-add-mod n d, ap (λ (q : ℕ). d * q) same)

div-pos : (a c : ℕ) → pos a /ᴰ pos (suc c) ≡ pos (round_half_even (a * scale) (suc c))
unfolding ◌/ᴰ◌
div-pos a c = ground arith

div-negsuc : (a c : ℕ) → negsuc a /ᴰ pos (suc c) ≡ sub_ℕ 0 (round_half_even (suc a * scale) (suc c))
unfolding ◌/ᴰ◌
div-negsuc a c = ground arith

-- Division by a positive decimal keeps the order.
pub div_mono : (a b c : Decimal) → a ≤ℤ b → pos 0 <ℤ c → a /ᴰ c ≤ℤ b /ᴰ c
div_mono (pos a) (pos b) (pos (suc c)) h hc =
    rw (div-pos a c, div-pos b c)
      (omega
        (arith, round_half_even_mono (a * scale) (b * scale) (suc c) (omega arith) (omega arith)))
div_mono (negsuc a) (pos b) (pos (suc c)) h hc = rw (div-negsuc a c, div-pos b c) (ground arith)
div_mono (negsuc a) (negsuc b) (pos (suc c)) h hc =
    rw (div-negsuc a c, div-negsuc b c)
      (ground (
        arith,
        round_half_even_mono (suc b * scale) (suc a * scale) (suc c) (omega arith) (omega arith),
      ))
div_mono (pos a) (negsuc b) c h hc = absurd (omega arith)
div_mono a b (pos zero) h hc = absurd (omega arith)
div_mono a b (negsuc c) h hc = absurd (omega arith)
