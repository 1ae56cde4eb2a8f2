-- ===== src/Strategies/Built/Holding.antt =====
-- LeadLag and Overshoot hold a position for a fixed number of bars.
use perpbot.Base.{
  ℕ, ◌+◌, ◌<◌, ◌≤◌, false, Option, none, some, List, [], ◌∷◌, ◌≡◌, refl, sym, ap, ◌∙◌, arith,
  Bool-cases, inl, inr, if◌then◌else◌, length, leb, ltb,
}
use mathlib.Core.Option.{some-injective}
use perpbot.Execution.Router.Rows.{is_zero}
use perpbot.Execution.Types.{Bar}
use perpbot.Strategies.{Statistics}
use perpbot.Strategies.Built.{Spec, h1, h2, h3, h4, h5, h6}
use perpbot.Strategies.Faded.{Closes}
use perpbot.Strategies.Timed.{Held, at_rest, hold_on, lead_lag_next, overshoot_next}

-- The states of a strategy over the histories that it is asked about.
abbrev pub held_after : (List Bar → Held → Held) → List (List Bar) → Held → Held
held_after next [] s = s
held_after next (h ∷ hs) s = held_after next hs (next h s)

-- What `target` does to the state of a spec that holds for a number of bars whatever it sees.
unfoldable pub next_of : Statistics → Closes → Spec → List Bar → Held → Held
next_of st proxy (h4 gap_bps n) history s = lead_lag_next gap_bps n proxy history s
next_of st proxy (h5 entry_z n) history s = overshoot_next st entry_z n history s
next_of st proxy _ history s = s

abbrev pub bars_held : Spec → Option ℕ
bars_held (h4 _ n) = some n
bars_held (h5 _ n) = some n
bars_held _ = none

-- The same position, held for `m` bars.
abbrev pub held_for : ℕ → Held → Held
held_for m s = record s { held = m }

held_after_none :
    (next : List Bar → Held → Held) (hs : List (List Bar)) (s : Held)
    → length hs ≡ 0
    → held_after next hs s ≡ s
held_after_none next [] s e = refl
held_after_none next (h ∷ hs) s e = absurd (omega arith)

-- A step that, in a position, holds on.
held_after-hold :
    (next : List Bar → Held → Held) (n : ℕ) (hs : List (List Bar)) (s : Held)
    → ((h : List Bar) (s : Held) → is_zero s.position ≡ false → next h s ≡ hold_on n s)
    → is_zero s.position ≡ false
    → s.held < n
    → (length hs + s.held < n → held_after next hs s ≡ held_for (length hs + s.held) s)
      × (length hs + s.held ≡ n → held_after next hs s ≡ at_rest)
held_after-hold next n [] s k z l =
    (λ _. ap (λ m. held_for m s) (omega arith), λ e. absurd (omega arith))
held_after-hold next n (h ∷ hs) s k z l = elim (Bool-cases (leb n (s.held + 1))) [
  | inl full ↦
      let out : next h s ≡ at_rest = k h s z ∙ (rw full refl) in
      (
        λ short. absurd (ground arith),
        λ e. ap (held_after next hs) out ∙ held_after_none next hs at_rest (ground arith),
      )
  | inr more ↦
      let on : next h s ≡ held_for (s.held + 1) s = k h s z ∙ (rw more refl) in
      let (before, after) =
        held_after-hold next n hs (held_for (s.held + 1) s) k z (ground arith) in
      (
        λ short.
            ap (held_after next hs) on
            ∙ before (omega arith)
            ∙ ap (λ m. held_for m s) (omega arith),
        λ e. ap (held_after next hs) on ∙ after (omega arith),
      )
]

next_of-hold :
    (st : Statistics) (proxy : Closes) (spec : Spec) (n : ℕ)
    → bars_held spec ≡ some n
    → (h : List Bar) (s : Held) → is_zero s.position ≡ false
    → next_of st proxy spec h s ≡ hold_on n s
unfolding next_of lead_lag_next overshoot_next
next_of-hold st proxy (h4 gap_bps m) n b h s k = rw (sym (some-injective _ _ b), k) refl
next_of-hold st proxy (h5 entry_z m) n b h s k = rw (sym (some-injective _ _ b), k) refl
next_of-hold st proxy (h1 _ _ _) n b h s k = cc
next_of-hold st proxy (h2 _ _) n b h s k = cc
next_of-hold st proxy (h3 _ _) n b h s k = cc
next_of-hold st proxy (h6 _ _) n b h s k = cc

-- A position of LeadLag or Overshoot stays until it has been held for its number of bars, whatever the bars
-- show; with the last of them the strategy is flat and its count is zero.
pub held_after_bars :
    (st : Statistics) (proxy : Closes) (spec : Spec) (n : ℕ) (hs : List (List Bar)) (s : Held)
    → bars_held spec ≡ some n
    → is_zero s.position ≡ false
    → s.held < n
    → length hs + s.held ≤ n
    → held_after (next_of st proxy spec) hs s
      ≡ (if ltb (length hs + s.held) n then held_for (length hs + s.held) s else at_rest)
held_after_bars st proxy spec n hs s b z l le =
    let (before, after) =
      held_after-hold (next_of st proxy spec) n hs s (next_of-hold st proxy spec n b) z l in
    elim (Bool-cases (ltb (length hs + s.held) n)) [
      | inl short ↦ rw short (before (ground arith))
      | inr full ↦ rw full (after (ground arith))
    ]
