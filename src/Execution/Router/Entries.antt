-- ===== src/Execution/Router/Entries.antt =====
-- When the bar cycle sends an entry: only from FLAT, with every test and both guards passed.
use perpbot.Base.{
  Bool, true, false, ◌||◌, Option, none, some, String, List, [], ◌≡◌, ◌≢◌, refl, sym, ap, ◌∙◌,
  Bool-cases, Option-cases, inl, inr, if◌then◌else◌, arith, ◌≤◌, length, last?, ltb,
}
use perpbot.Decimal.{Decimal}
use perpbot.Execution.Types.{flat, entry_pending, AccountSnapshot, Bar, Intent}
use perpbot.Execution.Router.Rows.{is_frozen, is_pending, is_open, is_flat, is_zero}
use perpbot.Execution.Router.Send.{apply_guards}
use perpbot.Execution.Router.Exits.{skip_note, exit_intent, exit_now, is_pause, is_shutdown}
use perpbot.Execution.Router.Bars.{
  clamp_target, entry_intent, guard_verdicts, enter, manage, decide, at_mark, on_bar,
}
use perpbot.Execution.Router.Frozen.{state_of, send_ends, shutdown_freezes, record_decision-state}
use perpbot.Execution.World.{Executor, Strategy, Router, World}
use perpbot.Risk.KillSwitch
use perpbot.Risk.KillSwitch.{run}

-- What lets the FLAT branch send.
abbrev pub MayEnter :
    {S : Type 0}
    → Router S
    → (mark target : Decimal) → AccountSnapshot
    → KillSwitch.Action
    → List Intent
    → Type 0
MayEnter r mark target snap kill pending =
    (is_zero target ≡ false)
    × (is_pause kill ≡ false)
    × ((final : Intent) × (apply_guards (entry_intent r mark target)
            (guard_verdicts r mark (entry_intent r mark target) snap pending)
          ≡ some final))

or_false : {a b : Bool} → (a || b) ≡ false → (a ≡ false) × (b ≡ false)
or_false {a} {b} h = ground arith

kill_run : (k : KillSwitch.Action) → is_shutdown k ≡ false → is_pause k ≡ false → k ≡ run
kill_run KillSwitch.run a b = refl
kill_run KillSwitch.pause a b = cc
kill_run KillSwitch.shutdown a b = cc

module _ {E S : Type 0} ⦃x : Executor E⦄ where
  exit_sends_no_entry :
      (mark : Decimal) (reason : String) (t : Option Decimal) (w : World E S)
      → w.router.state ≢ entry_pending
      → state_of (exit_now mark reason t w) ≢ entry_pending
  unfolding exit_now
  exit_sends_no_entry mark reason t w h =
      ground
        (arith, send_ends (exit_intent w.router.instrument_id mark w.router.size reason) t [] w)

  manage_sends_no_entry :
      (mark target : Decimal) (w : World E S)
      → w.router.state ≢ entry_pending
      → state_of (manage mark target w) ≢ entry_pending
  unfolding manage
  manage_sends_no_entry mark target w h = ground (
    arith,
    exit_sends_no_entry mark (if is_zero target then "strategy" else "flip") (some target) w h,
    record_decision-state (some target) [] none none "hold" w,
  )

  enter_guarded :
      (mark target : Decimal) (snap : AccountSnapshot) (kill : KillSwitch.Action)
      (pending : List Intent) (w : World E S)
      → w.router.state ≢ entry_pending
      → state_of (enter mark target snap kill pending w) ≡ entry_pending
      → MayEnter w.router mark target snap kill pending
  unfolding enter
  enter_guarded mark target snap kill pending w h e =
      let intent = entry_intent w.router mark target in
      let verdicts = guard_verdicts w.router mark intent snap pending in
      elim (Bool-cases (is_zero target || is_pause kill)) [
        | inl held ↦ absurd (
            h (
              sym (
                record_decision-state (some target) [] none none
                  (if is_pause kill then "kill:pause" else "flat:no_target") w)
              ∙ (rw held at e)))
        | inr asked ↦ elim (Option-cases (apply_guards intent verdicts)) [
          | inl rejected ↦ absurd (
              h (
                sym (record_decision-state (some target) verdicts none none "rejected" w)
                ∙ (rw (asked, rejected) at e)))
          | inr (final, g) ↦ ((or_false asked).0, (or_false asked).1, (final, g))
        ]
      ]

module _ {E S : Type 0} ⦃x : Executor E⦄ ⦃y : Strategy S⦄ where
  -- What holds of the last bar, the kill switch and the guards whenever `on_bar` sends an entry.
  pub record IsEntry (history : List Bar) (snap : AccountSnapshot) (kill : KillSwitch.Action)
      (pending : List Intent) (w : World E S) : Type 0 where
    pub bar : Bar
    pub mark : Decimal
    pub last_bar : last? history ≡ some bar
    pub priced : bar.close ≡ some mark
    pub whole_bar : bar.complete ≡ true
    pub running : kill ≡ run
    pub warmed_up : y.warmup ≤ length history
    pub was_flat : w.router.state ≡ flat
    pub guarded :
        MayEnter w.router mark
          (clamp_target (y.target history w.router.strategy).0)
          snap
          kill
          pending

  at_mark_guarded :
      (mark : Option Decimal) (complete : Bool) (history : List Bar) (snap : AccountSnapshot)
      (kill : KillSwitch.Action) (pending : List Intent) (w : World E S)
      → w.router.state ≢ entry_pending
      → is_frozen w.router.state ≡ false
      → is_pending w.router.state ≡ false
      → state_of (at_mark mark complete history snap kill pending w) ≡ entry_pending
      → (m : Decimal) × (mark ≡ some m)
        × (complete ≡ true)
        × (kill ≡ run)
        × (y.warmup ≤ length history)
        × (w.router.state ≡ flat)
        × MayEnter w.router m
            (clamp_target (y.target history w.router.strategy).0)
            snap
            kill
            pending
  unfolding decide
  at_mark_guarded none complete history snap kill pending w h f p e =
      absurd (h (sym (record_decision-state none [] none none "skip:no_close" w) ∙ e))
  at_mark_guarded (some m) complete history snap kill pending w h f p e =
      let s' = (y.target history w.router.strategy).1 in
      let t = clamp_target (y.target history w.router.strategy).0 in
      let w' : World E S = record w { router = record (w.router) { strategy = s' } } in
      elim (Bool-cases (is_shutdown kill)) [
        | inl k ↦ cc (shutdown_freezes m none w, ap is_frozen (rw k at e))
        | inr k ↦ elim (Bool-cases complete) [
          | inl c ↦ elim (Bool-cases (ltb (length history) y.warmup)) [
            | inl l ↦ absurd (
                h (
                  sym (record_decision-state none [] none none "skip:warmup" w)
                  ∙ (rw (k, c, l) at e)))
            | inr l ↦ elim (Bool-cases (is_flat w.router.state)) [
              | inl q ↦
                  let g = enter_guarded m t snap kill pending w' h (rw (k, c, l, q) at e) in
                  (m, refl, c, kill_run kill k g.1, ground arith, ground arith, g)
              | inr q ↦ absurd (manage_sends_no_entry m t w' h (rw (k, c, l, q) at e))
            ]
          ]
          | inr c ↦ elim (Bool-cases (is_open w.router.state)) [
            | inl o ↦ absurd (exit_sends_no_entry m "data_gap" none w h (rw (k, c, o) at e))
            | inr o ↦ absurd (
                h (
                  sym (record_decision-state none [] none none "skip:data_gap" w)
                  ∙ (rw (k, c, o) at e)))
          ]
        ]
      ]

  -- A router that was not waiting for an entry waits for one after the bar cycle only if it was flat, the
  -- kill switch says run, the bar is complete and has a close, the history is as long as the warm-up,
  -- the strategy's target is not zero, and both guards let a quantity through.
  pub on_bar-IsEntry :
      (history : List Bar) (snap : AccountSnapshot) (kill : KillSwitch.Action)
      (pending : List Intent) (w : World E S)
      → w.router.state ≢ entry_pending
      → state_of (on_bar history snap kill pending w) ≡ entry_pending
      → IsEntry history snap kill pending w
  unfolding on_bar
  on_bar-IsEntry history snap kill pending w h e =
      elim (Bool-cases (is_frozen w.router.state || is_pending w.router.state)) [
        | inl f ↦ absurd (
            h (
              sym (record_decision-state none [] none none (skip_note w.router.state) w)
              ∙ (rw f at e)))
        | inr f ↦ elim (Option-cases (last? history)) [
          | inl l ↦ absurd (h (rw (f, l) at e))
          | inr (b, l) ↦
              let (m, priced, c, k, len, q, g) =
                at_mark_guarded b.close b.complete history snap kill pending w h (or_false f).0
                  (or_false f).1 (rw (f, l) at e) in
              record {
                bar = b;
                mark = m;
                last_bar = l;
                priced = priced;
                whole_bar = c;
                running = k;
                warmed_up = len;
                was_flat = q;
                guarded = g;
              }
        ]
      ]
