-- ===== src/Storage/Rollup/Hours.antt =====
-- The `while` loops over the hours of polyperps/storage/db.py and polyperps/backtest/bars.py: `h` goes up by an
-- hour while `h + slack <= last`. The fuel is the number of hours from the first one to the last instant, and
-- one more, which is enough.
use perpbot.Base.{
  ℕ, zero, suc, ◌+◌, ◌-◌, ◌*◌, ◌/◌, ◌%◌, ◌≤◌, ◌<◌, ◌%◌, ◌≡◌, true, false, List, [], ◌∷◌, inl, inr,
  leb, leb→le, le→leb, ◌==◌, ==_iff, ne_of_==, In, All, arith, Bool-cases,
}
use perpbot.Execution.LiveBars.{hour}
use perpbot.Execution.Types.{Time}

unfoldable pub hours_upto : ℕ → Time → (slack last : Time) → List Time
hours_upto zero h slack last = []
hours_upto (suc n) h slack last = elim (leb (h + slack) last) [
  | true ↦ h ∷ hours_upto n (h + hour) slack last
  | false ↦ []
]

unfoldable pub hours_between : Time → (slack last : Time) → List Time
hours_between first slack last = hours_upto (suc ((last - first) / hour)) first slack last

-- A whole hour.
abbrev pub IsHour : Time → Type 0
IsHour h = h % hour ≡ 0

-- An hour of the loop.
pub record IsLooped (first slack last h : Time) : Type 0 where
  pub aligned : IsHour h
  pub not_before : first ≤ h
  pub not_after : h + slack ≤ last

next_hour :
    (first h : Time) → (h == first) ≡ false → IsHour first → IsHour h → first ≤ h → first + hour ≤ h
next_hour first h e a b le = omega (arith, ne_of_== h first e)

hours_upto-IsLooped :
    (n : ℕ) (base first slack last : Time)
    → IsHour first
    → base ≤ first
    → All (IsLooped base slack last) (hours_upto n first slack last)
unfolding hours_upto
hours_upto-IsLooped zero base first slack last a b = tt
hours_upto-IsLooped (suc n) base first slack last a b =
    elim (Bool-cases (leb (first + slack) last)) [
      | inl e ↦
          rw (e, All)
            (
              record { aligned = a; not_before = b; not_after = leb→le _ _ e },
              hours_upto-IsLooped n base (first + hour) slack last (omega arith) (omega arith),
            )
      | inr e ↦ rw (e, All) tt
    ]

hours_upto-In :
    (n : ℕ) (first slack last h : Time)
    → last < n * hour + first
    → IsHour first
    → IsLooped first slack last h
    → In h (hours_upto n first slack last)
unfolding hours_upto
hours_upto-In zero first slack last h enough a l = absurd (omega (arith, l.not_before, l.not_after))
hours_upto-In (suc n) first slack last h enough a l =
    rw (le→leb (first + slack) last (omega (arith, l.not_before, l.not_after)), In)
      (elim (Bool-cases (h == first)) [
        | inl e ↦ inl ((==_iff h first).0 e)
        | inr e ↦
            let aligned = l.aligned in
            let not_before = l.not_before in
            inr (
              hours_upto-In n (first + hour) slack last h (omega arith) (omega arith) (record {
                aligned = l.aligned;
                not_before = next_hour first h e a l.aligned l.not_before;
                not_after = l.not_after;
              }))
      ])

-- Each hour that the loop visits is whole, not before the first one, and within the bound.
pub hours_between-IsLooped :
    (first slack last : Time)
    → IsHour first
    → All (IsLooped first slack last) (hours_between first slack last)
unfolding hours_between
hours_between-IsLooped first slack last a =
    hours_upto-IsLooped _ first first slack last a (omega arith)

-- The loop visits every such hour: its fuel does not run out before.
pub hours_between-In :
    (first slack last h : Time)
    → IsHour first
    → IsLooped first slack last h
    → In h (hours_between first slack last)
unfolding hours_between
hours_between-In first slack last h a l = hours_upto-In _ first slack last h (omega arith) a l
