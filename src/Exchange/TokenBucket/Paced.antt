-- ===== src/Exchange/TokenBucket/Paced.antt =====
-- The bucket grants no more than its rate allows.
use perpbot.Base.{
  subst, Bool, false, ℤ, pos, pos_part, min_ℤ, ltb_ℤ, ◌+ℤ◌, ◌-ℤ◌, if◌then◌else◌, refl, sym, ◌&&◌,
  ◌-◌, ℕ, suc, ◌+◌, ◌-◌, ◌*◌, ◌/◌, ◌≤◌, ◌<◌, true, List, [], ◌∷◌, ◌≡◌, ap, ◌∙◌, arith, leb, length,
  Bool-cases, inl, inr,
}
use native.Mathlib.Nat.{le-div_iff_mul-le}
use perpbot.Exchange.TokenBucket.{Bucket, refill, wait_for, acquire, acquire_all, is_clocked}

mul_elapsed : (a b c r : ℕ) → a ≤ b → b ≤ c → (c - a) * r ≡ (c - b) * r + (b - a) * r
mul_elapsed a b c r h k =
    let split : c - a ≡ (c - b) + (b - a) = omega arith in ap (λ t. t * r) split ∙ grind arith

-- The wait is long enough for what is missing of a token.
wait_enough :
    (missing rate wait : ℕ)
    → 0 < rate
    → (missing + (rate - 1)) / rate ≤ wait
    → missing ≤ wait * rate
wait_enough missing rate wait h k = elim (Bool-cases (leb missing (wait * rate))) [
  | inl e ↦ ground arith
  | inr n ↦ absurd (
      too_long (
        (le-div_iff_mul-le {x = wait + 1} {y = missing + (rate - 1)} h).1
          (next_wait (ground arith))))
]
  where
    next_wait : wait * rate < missing → (wait + 1) * rate ≤ missing + (rate - 1)
    next_wait l = grind arith

    too_long : wait + 1 ≤ (missing + (rate - 1)) / rate → ⊥
    too_long l = omega arith

burst_holds : (burst unit : ℕ) → 1 ≤ burst → unit ≤ burst * unit
burst_holds burst unit h = grind arith

abbrev least : ℕ → ℕ → ℕ
least a b = if leb a b then a else b

least_lem : (a b : ℕ) → (least a b ≤ a) × (least a b ≤ b)
least_lem a b = ground arith

under_least : (a b m : ℕ) → m ≤ a → m ≤ b → m ≤ least a b
under_least a b m h k = ground arith

-- What a call with tokens takes out, and what one takes out that had to sleep.
took_now :
    (unit shares came cap : ℕ)
    → unit ≤ least cap (shares + came)
    → unit + (least cap (shares + came) - unit) ≤ shares + came
took_now unit shares came cap h = omega (arith, (least_lem cap (shares + came)).1)

took_later :
    (unit shares came slept cap all : ℕ)
    → unit ≤ cap
    → unit ≤ least cap (shares + came) + slept
    → all ≡ slept + came
    → unit + (least cap (least cap (shares + came) + slept) - unit) ≤ shares + all
took_later unit shares came slept cap all h k e =
    let first = least cap (shares + came) in
    let second = least cap (first + slept) in
    let a = (least_lem cap (shares + came)).1 in
    let b = (least_lem cap (first + slept)).1 in
    let c = under_least cap (first + slept) unit h k in omega (arith, a, b, c)

least_min : (a b : ℕ) → min_ℤ (pos a) (pos b) ≡ pos (least a b)
least_min a b = ground arith

add_pos : (a b : ℕ) → pos a +ℤ pos b ≡ pos (a + b)
unfolding ◌+ℤ◌
add_pos a b = ground arith

sub_pos : (a b : ℕ) → b ≤ a → pos a -ℤ pos b ≡ pos (a - b)
unfolding ◌-ℤ◌
sub_pos a b h = ground arith

missing_pos : (a b : ℕ) → pos_part (pos a -ℤ pos b) ≡ a - b
unfolding ◌-ℤ◌
missing_pos a b = ground arith

-- What a bucket with `s` shares has after a time.
abbrev filled : ℕ → Bucket → ℕ → ℕ
filled now b s = least (b.burst * b.unit) (s + (now - b.last) * b.rate)

refill-shares :
    (now : ℕ) (b : Bucket) (s : ℕ) → b.shares ≡ pos s → (refill now b).shares ≡ pos (filled now b s)
unfolding refill
refill-shares now b s e =
    rw (e, add_pos s ((now - b.last) * b.rate)) (least_min (b.burst * b.unit) _)

-- A call takes one token out of what was there and what came in since, however long it slept, and leaves no debt.
acquire_paced :
    (now later : ℕ) (b : Bucket) (s : ℕ)
    → b.shares ≡ pos s
    → 0 < b.rate
    → 1 ≤ b.burst
    → b.last ≤ now
    → now + wait_for (refill now b) ≤ later
    → (t : ℕ) × ((acquire now later b).1.shares ≡ pos t)
      × (b.unit + t ≤ s + ((acquire now later b).1.last - b.last) * b.rate)
unfolding acquire refill
acquire_paced now later b s e r u h k =
    let came = (now - b.last) * b.rate in
    let slept = (later - now) * b.rate in
    let total = b.burst * b.unit in
    let first = filled now b s in
    let one = refill-shares now b s e in
    elim (Bool-cases (ltb_ℤ (refill now b).shares (pos b.unit))) [
      | inl short ↦
          let waited = missing_pos b.unit first in
          let asked : (b.unit - first + (b.rate - 1)) / b.rate ≤ later - now =
            enough_time now later ((b.unit - first + (b.rate - 1)) / b.rate)
              (rw (one, waited) at k) in
          let missing = wait_enough (b.unit - first) b.rate (later - now) r asked in
          let all = mul_elapsed b.last now later b.rate h (omega arith) in
          let le =
            under_least total (first + slept) b.unit (burst_holds b.burst b.unit u) (omega arith) in
          rw short (
            least total (first + slept) - b.unit,
            ap (λ z. z -ℤ pos b.unit) (refill-shares later (refill now b) first one)
                ∙ sub_pos (least total (first + slept)) b.unit le,
            took_later b.unit s came slept total ((later - b.last) * b.rate)
                (burst_holds b.burst b.unit u) (omega arith) all,
          )
      | inr enough ↦
          let le : b.unit ≤ first = at_least first b.unit (rw one at enough) in
          rw enough (
            first - b.unit,
            ap (λ z. z -ℤ pos b.unit) one ∙ sub_pos first b.unit le,
            took_now b.unit s came total le,
          )
    ]
  where
    enough_time : (n l w : ℕ) → n + w ≤ l → w ≤ l - n
    enough_time n l w x = omega arith

    at_least : (f n : ℕ) → ltb_ℤ (pos f) (pos n) ≡ false → n ≤ f
    at_least f n x = ground arith

acquire_kept :
    (now later : ℕ) (b : Bucket)
    → let c = (acquire now later b).1 in (c.rate ≡ b.rate) × (c.unit ≡ b.unit) × (c.burst ≡ b.burst)
unfolding acquire refill
acquire_kept now later b = (ground arith, ground arith, ground arith)

acquire_later :
    (now later : ℕ) (b : Bucket)
    → b.last ≤ now
    → now + wait_for (refill now b) ≤ later
    → b.last ≤ (acquire now later b).1.last
unfolding acquire refill
acquire_later now later b h k = elim (Bool-cases (ltb_ℤ (refill now b).shares (pos b.unit))) [
  | inl short ↦ rw short (omega arith)
  | inr enough ↦ rw enough h
]

one_more :
    (n unit left came slept all shares : ℕ)
    → unit + left ≤ shares + came
    → n * unit ≤ left + slept
    → all ≡ slept + came
    → suc n * unit ≤ shares + all
one_more n unit left came slept all shares h k e = grind arith

-- However many calls there are, the tokens that they took and those that are left are at most those that were
-- there and those that came in at the rate since; there is no debt, and the clock has not gone back.
acquire_all_lem :
    (ts : List (ℕ × ℕ)) (b : Bucket) (s : ℕ)
    → b.shares ≡ pos s
    → 0 < b.rate
    → 1 ≤ b.burst
    → is_clocked ts b ≡ true
    → (length ts * b.unit ≤ s + ((acquire_all ts b).last - b.last) * b.rate)
      × (b.last ≤ (acquire_all ts b).last)
unfolding acquire_all is_clocked
acquire_all_lem [] b s e r u c = (grind arith, omega arith)
acquire_all_lem ((now, later) ∷ ts) b s e r u c =
    let d = (acquire now later b).1 in
    let (same_rate, same_unit, same_burst) = acquire_kept now later b in
    let h : b.last ≤ now = ground arith in
    let k : now + wait_for (refill now b) ≤ later = ground arith in
    let rest : is_clocked ts d ≡ true = ground arith in
    let (t, left, took) = acquire_paced now later b s e r u h k in
    let (spent, on) =
      acquire_all_lem ts d t left (omega (arith, same_rate, r)) (omega (arith, same_burst, u))
        rest in
    let first = acquire_later now later b h k in
    let fin = acquire_all ts d in
    (
      one_more (length ts) b.unit t ((d.last - b.last) * b.rate) ((fin.last - d.last) * b.rate)
          ((fin.last - b.last) * b.rate) s took (rw (same_unit, same_rate) at spent)
          (mul_elapsed b.last d.last fin.last b.rate first on),
      omega (arith, on, first),
    )

least_twice :
    (total x now rate : ℕ) → least total (least total x + (now - now) * rate) ≡ least total x
least_twice total x now rate =
    let none_came : (now - now) * rate ≡ 0 = no_time (now - now) rate (omega arith) in
    rw none_came (ground arith)
  where
    no_time : (d r : ℕ) → d ≡ 0 → d * r ≡ 0
    no_time d r e = rw e (omega arith)

-- A bucket that is refilled twice at one time is refilled once.
refill_twice :
    (now : ℕ) (b : Bucket) (s : ℕ) → b.shares ≡ pos s → refill now (refill now b) ≡ refill now b
unfolding refill
refill_twice now b s e =
    let one = refill-shares now b s e in
    let two = refill-shares now (refill now b) (filled now b s) one in
    let same = least_twice (b.burst * b.unit) (s + (now - b.last) * b.rate) now b.rate in
    ap (λ (z : ℤ). record (refill now b) { shares = z }) (two ∙ ap pos same ∙ sym one)

acquire-refill :
    (now later : ℕ) (b : Bucket) (s : ℕ)
    → b.shares ≡ pos s
    → acquire now later (refill now b) ≡ acquire now later b
unfolding acquire
acquire-refill now later b s e = rw (refill_twice now b s e) refl

same_time : (n : ℕ) (b : Bucket) → leb (refill n b).last n ≡ true
unfolding refill
same_time n b = ground arith

clocked-refill :
    (now later : ℕ) (ts : List (ℕ × ℕ)) (b : Bucket) (s : ℕ)
    → b.shares ≡ pos s
    → is_clocked ((now, later) ∷ ts) b ≡ true
    → is_clocked ((now, later) ∷ ts) (refill now b) ≡ true
unfolding is_clocked
clocked-refill now later ts b s e c =
    let now_now = same_time now b in
    rw (refill_twice now b s e, acquire-refill now later b s e, now_now) (later_tests _ _ c)
  where
    later_tests : (p q : Bool) → (p && q) ≡ true → q ≡ true
    later_tests p q h = ground arith

-- For a positive rate, a burst of at least one and a bucket without debt, however full and however long idle: over any
-- sequence of calls, on a clock that does not go back and with sleeps that are not shorter than asked, the tokens
-- taken are at most a full bucket and what comes in at the rate between the first and the last reading of the clock.
pub acquire_all_bounded :
    (now later : ℕ) (ts : List (ℕ × ℕ)) (b : Bucket) (s : ℕ)
    → b.shares ≡ pos s
    → 0 < b.rate
    → 1 ≤ b.burst
    → is_clocked ((now, later) ∷ ts) b ≡ true
    → suc (length ts) * b.unit
      ≤ b.burst * b.unit + ((acquire_all ((now, later) ∷ ts) b).last - now) * b.rate
unfolding acquire_all refill
acquire_all_bounded now later ts b s e r u c =
    let first = least_lem (b.burst * b.unit) (s + (now - b.last) * b.rate) in
    let spent =
      acquire_all_lem ((now, later) ∷ ts) (refill now b) (filled now b s) (refill-shares now b s e)
        r u (clocked-refill now later ts b s e c) in
    let end = ap (λ (a : ℕ × Bucket). (acquire_all ts a.1).last) (acquire-refill now later b s e) in
    omega (
      arith,
      first.0,
      subst (λ (z : ℕ). suc (length ts) * b.unit ≤ filled now b s + (z - now) * b.rate) end spent.0,
    )
