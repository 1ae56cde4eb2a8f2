-- ===== src/Dashboard/Breach.antt =====
-- The liquidation light of the dashboard, against the guard of the fast loop.
use perpbot.Base.{
  ℕ, ◌≡◌, ◌≢◌, refl, ap, ◌∙◌, Bool, true, false, Option, none, some, List, [], ◌∷◌, if◌then◌else◌,
  any, arith, Bool-cases, Option-cases, inl, inr, All, ℤ, pos, mag, abs_ℤ, ◌-ℤ◌, ◌==◌, ◌||◌, ltb_ℤ,
  ◌≤ℤ◌,
}
use perpbot.Base.Dict.{Dict, nat_key}
use perpbot.Decimal.{Decimal, ◌/ᴰ◌}
use perpbot.Dashboard.{Floats, ratio, shown_of, shown_all, is_close, account_and_positions, guards}
use perpbot.Execution.Router.Rows.{is_zero}
use perpbot.Execution.Types.{PositionView, AccountSnapshot, OrderRow, PositionLocalRow}
use perpbot.Risk.LiquidationGuard.{Hold, hold, flatten, check_open, default_limits, liq_distance}
use perpbot.Risk.PortfolioExposure.{Cluster}
use perpbot.Storage.{Store}

abbrev pub would_flatten : Hold → Bool
would_flatten flatten = true
would_flatten hold = false

-- The mark that a snapshot implies for a position.
abbrev pub implied_mark : PositionView → Decimal
implied_mark p = p.notional /ᴰ abs_ℤ p.size

mag-sub_comm : (a b : ℤ) → mag (a -ℤ b) ≡ mag (b -ℤ a)
unfolding ◌-ℤ◌
mag-sub_comm a b = ground arith

ratio_lem : (x y : Decimal) → ratio x y ≡ x /ᴰ y
unfolding ◌/ᴰ◌
ratio_lem x y = elim (Bool-cases (is_zero y)) [
  | inl e ↦ let zero_mag : (mag y == 0) ≡ true = ground arith in ground arith
  | inr e ↦ rw e refl
]

distance_lem : (mark liq : Decimal) → ratio (abs_ℤ (mark -ℤ liq)) mark ≡ liq_distance liq mark
unfolding liq_distance
distance_lem mark liq =
    ratio_lem (abs_ℤ (mark -ℤ liq)) mark ∙ ap (λ (n : ℕ). pos n /ᴰ mark) (mag-sub_comm mark liq)

flatten_lem : (b : Bool) → b ≡ true → would_flatten (if b then flatten else hold) ≡ true
flatten_lem b e = rw e refl

-- A conversion to floats that keeps the order: it may make two decimals equal.
abbrev pub KeepsOrder : Floats → Type 0
KeepsOrder x = (a b : Decimal) → a ≤ℤ b → x.to_float a ≤ℤ x.to_float b

float_below :
    (x : Floats) (a b : Decimal)
    → KeepsOrder x
    → ltb_ℤ (x.to_float a) (x.to_float b) ≡ true
    → ltb_ℤ a b ≡ true
float_below x a b keeps h = elim (Bool-cases (ltb_ℤ a b)) [
  | inl e ↦ e
  | inr e ↦ let le = keeps b a (ground arith) in absurd (ground arith)
]

module _ ⦃x : Floats⦄ (keeps : KeepsOrder x) where
  -- A position whose light is on is one that the guard would flatten at the implied mark.
  is_close-flatten :
      (snap : AccountSnapshot) (rows : Dict ℕ PositionLocalRow) (fills : List OrderRow)
      (p : PositionView)
      → p.liquidation_price ≢ none
      → is_zero p.size ≡ false
      → is_close (shown_of snap rows fills p) ≡ true
      → would_flatten (check_open p (implied_mark p) default_limits) ≡ true
  unfolding shown_of check_open
  is_close-flatten snap rows fills p known used on = elim (Option-cases p.liquidation_price) [
    | inl e ↦ absurd (known e)
    | inr (liq, e) ↦
        rw (e, used)
          (flatten_lem _ (
            float_below x (liq_distance liq (implied_mark p)) default_limits.min_liq_distance keeps
              (rw (e, distance_lem (implied_mark p) liq) at on)))
  ]

  any_close :
      (snap : AccountSnapshot) (rows : Dict ℕ PositionLocalRow) (fills : List OrderRow)
      (ps : List PositionView)
      → All (λ (p : PositionView). p.liquidation_price ≢ none) ps
      → any is_close (shown_all snap rows fills ps) ≡ true
      → any (λ p. would_flatten (check_open p (implied_mark p) default_limits)) ps ≡ true
  unfolding shown_all
  any_close snap rows fills [] all on = cc
  any_close snap rows fills (p ∷ ps) all on =
      let later = any_close snap rows fills ps all.1 in
      elim (Bool-cases (is_zero p.size)) [
        | inl e ↦ rw (later (rw e at on)) (or_true _)
        | inr e ↦ elim (Bool-cases (is_close (shown_of snap rows fills p))) [
          | inl here ↦ rw (is_close-flatten snap rows fills p all.0 e here) refl
          | inr off ↦ rw (later (rw (e, off) at on)) (or_true _)
        ]
      ]
    where
      or_true : (b : Bool) → (b || true) ≡ true
      or_true true = refl
      or_true false = refl

-- Where the snapshot gives every position its liquidation price, and the conversion to floats keeps the order of
-- decimals: if the liquidation light of the dashboard is on, the guard of the fast loop would flatten one of the
-- positions at the mark that the snapshot implies.
pub guards-check_open :
    ⦃x : Floats⦄ (snap : AccountSnapshot) (start_equity : Decimal)
    (clusters : Option (Dict ℕ Cluster)) (s : Store)
    → KeepsOrder x
    → All (λ (p : PositionView). p.liquidation_price ≢ none) snap.positions
    → (let (account, positions) = account_and_positions (some (snap, start_equity)) clusters s in
        (guards account positions s).liquidation_breach)
      ≡ true
    → any (λ p. would_flatten (check_open p (implied_mark p) default_limits)) snap.positions ≡ true
unfolding guards account_and_positions
guards-check_open snap start_equity clusters s keeps all on =
    any_close keeps snap s.positions _ snap.positions all on
