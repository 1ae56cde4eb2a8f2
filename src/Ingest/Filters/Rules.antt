-- ===== src/Ingest/Filters/Rules.antt =====
-- What an accepted tick satisfies.
use perpbot.Base.{
  ℕ, ◌+◌, ◌≤◌, ◌<◌, Bool, ◌⊎◌, inl, inr, false, Option, none, some, ◌≡◌, refl, ◌↔◌, arith, ◌≤ℤ◌,
  ◌<ℤ◌, abs_ℤ, neg_ℤ, leb_ℤ, ltb_ℤ, ◌-ℤ◌, pos, Bool-cases,
}
use mathlib.Core.Option.{some-injective}
use perpbot.Decimal.{Decimal, ◌/ᴰ◌}
use perpbot.Exchange.{Tick, same_source}
use perpbot.Ingest.Filters.{SanityBounds, relative, out_of_sequence, check_previous, check_tick}

-- Neither of two streams has a number, or they are not of one source, or the number grows.
abbrev pub InOrder : Tick → Tick → Type 0
InOrder p t =
    (same_source p.source_type t.source_type ≡ false)
    ⊎ (p.sequence ≡ none)
    ⊎ (t.sequence ≡ none)
    ⊎ ((m n : ℕ) × (p.sequence ≡ some m) × (t.sequence ≡ some n) × (m < n))

-- `a` is above `b` or below it, by a share of `b` that is at most `d`.
abbrev pub Within : (d a b : Decimal) → Type 0
Within d a b = ((b ≤ℤ a) × ((a -ℤ b) /ᴰ b ≤ℤ d)) ⊎ ((a <ℤ b) × ((b -ℤ a) /ᴰ b ≤ℤ d))

-- The rules that compare a tick with the one accepted before it.
abbrev pub Follows : Tick → SanityBounds → Option Tick → Type 0
Follows t b none = Unit
Follows t b (some p) =
    InOrder p t
    × ((p.exchange_ts + b.max_baseline_age < t.exchange_ts)
        ⊎ Within b.max_jump t.mark_price p.mark_price)

-- All that an accepted tick satisfies.
pub record IsSane (t : Tick) (b : SanityBounds) (previous : Option Tick) : Type 0 where
  pub fresh : t.received_ts ≤ t.exchange_ts + b.max_staleness
  pub mark_positive : pos 0 <ℤ t.mark_price
  pub index_positive : pos 0 <ℤ t.index_price
  pub last_positive : pos 0 <ℤ t.last_price
  pub near_index : Within b.max_mark_index_divergence t.mark_price t.index_price
  pub funding_above : neg_ℤ b.max_abs_funding_rate ≤ℤ t.funding_rate
  pub funding_below : t.funding_rate ≤ℤ b.max_abs_funding_rate
  pub follows : Follows t b previous

above : (a b : Decimal) → b ≤ℤ a → abs_ℤ (a -ℤ b) ≡ a -ℤ b
unfolding ◌-ℤ◌
above a b h = ground arith

below : (a b : Decimal) → a <ℤ b → abs_ℤ (a -ℤ b) ≡ b -ℤ a
unfolding ◌-ℤ◌
below a b h = ground arith

relative-Within : (d a b : Decimal) → (relative a b ≤ℤ d) ↔ Within d a b
unfolding relative
relative-Within d a b = elim (Bool-cases (leb_ℤ b a)) [
  | inl e ↦
      let le : b ≤ℤ a = ground arith in
      (
        λ h. inl (le, rw (above a b le) at h),
        λ w. elim w [ inl x ↦ rw (above a b le) (x.1) | inr x ↦ absurd (omega (arith, x.0, le)) ],
      )
  | inr e ↦
      let lt : a <ℤ b = ground arith in
      (
        λ h. inr (lt, rw (below a b lt) at h),
        λ w. elim w [ inl x ↦ absurd (omega (arith, x.0, lt)) | inr x ↦ rw (below a b lt) (x.1) ],
      )
]

out_of_sequence_lem :
    (same : Bool) (p t : Option ℕ)
    → (out_of_sequence same p t ≡ false) ↔ (
        (same ≡ false)
        ⊎ (p ≡ none)
        ⊎ (t ≡ none)
        ⊎ ((m n : ℕ) × (p ≡ some m) × (t ≡ some n) × (m < n)))
out_of_sequence_lem same none t = (λ h. inr (inl refl), λ o. refl)
out_of_sequence_lem same (some m) none = (λ h. inr (inr (inl refl)), λ o. refl)
out_of_sequence_lem same (some m) (some n) = (
  λ h. elim (Bool-cases same) [
    | inr e ↦ inl e
    | inl e ↦ inr (inr (inr (m, n, refl, refl, ground arith)))
  ],
  λ o. elim o [
    | inl e ↦ rw e refl
    | inr (inl e) ↦ cc
    | inr (inr (inl e)) ↦ cc
    | inr (inr (inr (k, l, e, f, lt))) ↦
        let same_m = some-injective _ _ e in let same_n = some-injective _ _ f in ground arith
  ],
)

check_previous_iff :
    (t : Tick) (b : SanityBounds) (p : Option Tick) → (check_previous t b p ≡ none) ↔ Follows t b p
unfolding ◌-ℤ◌
check_previous_iff t b none = (λ _. tt, λ _. refl)
check_previous_iff t b (some p) =
    let order =
      out_of_sequence_lem (same_source p.source_type t.source_type) p.sequence t.sequence in
    let jump = relative-Within b.max_jump t.mark_price p.mark_price in
    (
      λ h. (
        order.0 (ground arith),
        elim (Bool-cases (ltb_ℤ b.max_jump (relative t.mark_price p.mark_price))) [
          | inl e ↦ inl (ground arith)
          | inr e ↦ inr (jump.0 (ground arith))
        ],
      ),
      λ (o, f).
          let fine = order.1 o in
          elim f [ inl old ↦ ground arith | inr near ↦ let le = jump.1 near in ground arith ],
    )

age_lem :
    (received sent most : ℕ) → (pos received -ℤ pos sent ≤ℤ pos most) ↔ (received ≤ sent + most)
unfolding ◌-ℤ◌
age_lem received sent most = (λ h. ground arith, λ h. ground arith)

bounded_lem : (most x : Decimal) → (abs_ℤ x ≤ℤ most) ↔ ((neg_ℤ most ≤ℤ x) × (x ≤ℤ most))
bounded_lem most x = (λ h. (ground arith, ground arith), λ (a, b). ground arith)

-- A tick is accepted exactly if it is fresh, its prices are positive, its mark is within a share of its index, its
-- funding rate is bounded on both sides, its number in the sequence grows where it follows a tick of its own source
-- that has one, and its mark is within a share of a previous mark that is not too old.
pub check_tick_iff :
    (t : Tick) (b : SanityBounds) (previous : Option Tick)
    → (check_tick t b previous ≡ none) ↔ IsSane t b previous
unfolding check_tick
check_tick_iff t b previous =
    let e = check_previous_iff t b previous in
    let near = relative-Within b.max_mark_index_divergence t.mark_price t.index_price in
    let age = age_lem t.received_ts t.exchange_ts b.max_staleness in
    let bounded = bounded_lem b.max_abs_funding_rate t.funding_rate in
    (
      λ h. record {
        fresh = age.0 (ground arith);
        mark_positive = ground arith;
        index_positive = ground arith;
        last_positive = ground arith;
        near_index = near.0 (ground arith);
        funding_above = (bounded.0 (ground arith)).0;
        funding_below = (bounded.0 (ground arith)).1;
        follows = e.0 (ground arith);
      },
      λ s.
          let le = near.1 s.near_index in
          let young = age.1 s.fresh in
          let small = bounded.1 (s.funding_above, s.funding_below) in ground (arith, e.1 s.follows),
    )
