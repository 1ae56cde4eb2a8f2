-- ===== src/Decimal.antt =====
-- `decimal.Decimal`, on integers: a value is the whole number of units of 10^-28 that it is worth.
-- Sums, differences, negation, comparisons and `abs` are exact. A product or a quotient is rounded
-- half even to a whole number of units, where Python rounds it half even to 28 significant digits:
-- the two agree on every result that fits both. A quotient by zero, where Python raises, is 0; the
-- divisors of the program are prices, equities and sizes that the code has tested, or that the
-- theorems take to be positive.
pub mod Laws
use perpbot.Base.{
  ℕ, suc, ◌+◌, ◌*◌, ◌/◌, ◌%◌, ◌^◌, Bool, true, false, ◌==◌, if◌then◌else◌, ltb, ℤ, pos, neg_part,
  sub_ℕ, mag,
}

abbrev pub Decimal : Type 0
Decimal = ℤ

abbrev pub scale : ℕ
scale = 10_000_000_000_000_000_000_000_000_000

-- `Decimal(n)` and `Decimal("0.01") * n`
abbrev pub whole : ℕ → Decimal
whole n = pos (n * scale)

abbrev pub hundredths : ℕ → Decimal
hundredths n = pos (n * 100_000_000_000_000_000_000_000_000)

abbrev pub is_negative : Decimal → Bool
is_negative a = ltb 0 (neg_part a)

abbrev pub with_sign : Bool → ℕ → Decimal
with_sign true n = sub_ℕ 0 n
with_sign false n = pos n

abbrev pub xor : Bool → Bool → Bool
xor true true = false
xor true false = true
xor false b = b

-- The quotient `n / d`, rounded to the nearest whole number, a tie to the even one.
unfoldable pub round_half_even : ℕ → ℕ → ℕ
round_half_even n d =
    let q = n / d in
    let r = n % d in
    if ltb (2 * r) d then q else if ltb d (2 * r) then q + 1 else if q % 2 == 0 then q else q + 1

infixl 70 ◌*ᴰ◌ ◌/ᴰ◌
unfoldable pub ◌*ᴰ◌ : Decimal → Decimal → Decimal
a *ᴰ b = with_sign (xor (is_negative a) (is_negative b)) (round_half_even (mag a * mag b) scale)

unfoldable pub ◌/ᴰ◌ : Decimal → Decimal → Decimal
a /ᴰ b =
    if mag b == 0
    then pos 0
    else with_sign (xor (is_negative a) (is_negative b)) (round_half_even (mag a * scale) (mag b))

-- `x.quantize(u)` and `x.quantize(u, rounding=ROUND_DOWN)` for a unit of `u` tenths of 10^-27
unfoldable pub quantize : ℕ → Decimal → Decimal
quantize u a = with_sign (is_negative a) (round_half_even (mag a) u * u)

unfoldable pub quantize_down : ℕ → Decimal → Decimal
quantize_down u a = with_sign (is_negative a) (mag a / u * u)

-- `Decimal("0.00000001")` and `Decimal("0.01")`
abbrev pub q8 : ℕ
q8 = 100_000_000_000_000_000_000

abbrev pub cents : ℕ
cents = 100_000_000_000_000_000_000_000_000
