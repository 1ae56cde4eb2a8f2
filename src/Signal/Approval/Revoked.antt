-- ===== src/Signal/Approval/Revoked.antt =====
-- What an approval rests on, and that a revoked one stays revoked.
use perpbot.Base.{
  ℕ, ◌≤◌, ◌<◌, ◌≢◌, ◌⊎◌, Bool, true, false, not, ◌&&◌, Option, none, some, List, [], ◌∷◌, ◌++◌, ◌≡◌,
  refl, sym, ap, ◌∙◌, In, All, arith, Bool-cases, Option-cases, inl, inr, any, find_first, eqb_text,
  eqb_text_refl, eqb_text→eq, ==_iff,
}
use mathlib.Core.Option.{some-injective}
use perpbot.Execution.ClientId.{show}
use perpbot.Execution.Types.{Text, Time}
use perpbot.Signal.Approval.{
  Json, null, flag, text, number, Record, Approval, harness_version, polymarket_ws, polymarket_rest,
  is_native_text, is_null, is_some_text, is_some_number, lower, str, aware, ends_in_time, is_later,
  is_true, is_number, is_text, is_native_value, is_met, no_fills, record_passes, revokes, stands,
  check_records, check_signed, signed, load_validated,
}

find_first-append :
    (p : Record → Bool) (xs ys : List Record) (a : Record)
    → find_first p xs ≡ some a
    → find_first p (xs ++ ys) ≡ some a
find_first-append p [] ys a h = cc
find_first-append p (x ∷ xs) ys a h = elim (Bool-cases (p x)) [
  | inl t ↦ rw t (rw t at h)
  | inr f ↦ rw f (find_first-append p xs ys a (rw f at h))
]

any-append : (p : Record → Bool) (xs ys : List Record) → any p xs ≡ true → any p (xs ++ ys) ≡ true
any-append p [] ys h = cc
any-append p (x ∷ xs) ys h = elim (Bool-cases (p x)) [
  | inl t ↦ rw t refl
  | inr f ↦ rw f (any-append p xs ys (rw f at h))
]

find_first-In :
    (p : Record → Bool) (xs : List Record) (a : Record)
    → find_first p xs ≡ some a
    → In a xs × (p a ≡ true)
find_first-In p [] a h = cc
find_first-In p (x ∷ xs) a h = elim (Bool-cases (p x)) [
  | inl t ↦ let e = some-injective _ _ (rw t at h) in (inl (sym e), ap p (sym e) ∙ t)
  | inr f ↦ let (i, q) = find_first-In p xs a (rw f at h) in (inr i, q)
]

-- What an approval rests on: the record is the one that it names, it passed natively at this version of the harness
-- with all that the gate checks again, and its window ends no later than the record was written.
pub record IsApproved (parse : Text → Option Time) (run_id : Text) (r : Record) : Type 0 where
  pub named : r.run_id ≡ text run_id
  pub passed : r.passed ≡ flag true
  pub current : r.harness_version ≡ number harness_version
  pub native : (r.source_type ≡ text polymarket_ws) ⊎ (r.source_type ≡ text polymarket_rest)
  pub sufficient : r.sufficiency_met ≡ some (flag true)
  pub robust : r.robust_screened ≡ flag true
  pub hypothesis_given : (h : Text) × (r.hypothesis ≡ text h)
  pub instrument_given : (i : ℕ) × (r.instrument_id ≡ number i)
  pub in_time :
      (e u : Time) × (aware parse r.end_ts ≡ some e) × (aware parse r.ts ≡ some u) × (e ≤ u)
  pub priced : r.fills_at_hourly_open ≡ some (number 0)

-- One of two windows cannot be placed in time, or the first ends after the second.
abbrev pub EndsLater : Option Time → Option Time → Type 0
EndsLater later approved =
    (later ≡ none)
    ⊎ (approved ≡ none)
    ⊎ ((e a : Time) × (later ≡ some e) × (approved ≡ some a) × (a < e))

-- A native record at this version of the harness, of the same hypothesis and instrument, that did not pass on a
-- window that ends later.
pub record Revokes (parse : Text → Option Time) (q r : Record) : Type 0 where
  pub named : q.hypothesis ≢ null
  pub same_hypothesis : lower (str q.hypothesis) ≡ lower (str r.hypothesis)
  pub same_instrument : str q.instrument_id ≡ str r.instrument_id
  pub current : str q.harness_version ≡ show harness_version
  pub native :
      (lower (str q.source_type) ≡ polymarket_ws) ⊎ (lower (str q.source_type) ≡ polymarket_rest)
  pub failed : q.passed ≢ flag true
  pub ends_later : EndsLater (aware parse q.end_ts) (aware parse r.end_ts)

is_text_lem : (t : Text) (v : Json) → is_text t v ≡ true → v ≡ text t
is_text_lem t Json.null h = cc
is_text_lem t (Json.flag _) h = cc
is_text_lem t (Json.number _) h = cc
is_text_lem t (Json.text s) h = ap text (eqb_text→eq s t h)
is_text_lem t (Json.other _) h = cc

is_number_lem : (n : ℕ) (v : Json) → is_number n v ≡ true → v ≡ number n
is_number_lem n Json.null h = cc
is_number_lem n (Json.flag _) h = cc
is_number_lem n (Json.number m) h = ap number ((==_iff m n).0 h)
is_number_lem n (Json.text _) h = cc
is_number_lem n (Json.other _) h = cc

is_true_lem : (v : Json) → is_true v ≡ true → v ≡ flag true
is_true_lem Json.null h = cc
is_true_lem (Json.flag b) h = ap flag h
is_true_lem (Json.number _) h = cc
is_true_lem (Json.text _) h = cc
is_true_lem (Json.other _) h = cc

is_met_lem : (v : Option Json) → is_met v ≡ true → v ≡ some (flag true)
is_met_lem none h = cc
is_met_lem (some v) h = ap some (is_true_lem v h)

no_fills_lem : (v : Option Json) → no_fills v ≡ true → v ≡ some (number 0)
no_fills_lem none h = cc
no_fills_lem (some v) h = ap some (is_number_lem 0 v h)

is_native_text_lem :
    (t : Text) → is_native_text t ≡ true → (t ≡ polymarket_ws) ⊎ (t ≡ polymarket_rest)
is_native_text_lem t h = elim (Bool-cases (eqb_text t polymarket_ws)) [
  | inl e ↦ inl (eqb_text→eq t polymarket_ws e)
  | inr e ↦ inr (eqb_text→eq t polymarket_rest (rw e at h))
]

is_native_value_lem :
    (v : Json) → is_native_value v ≡ true → (v ≡ text polymarket_ws) ⊎ (v ≡ text polymarket_rest)
is_native_value_lem Json.null h = cc
is_native_value_lem (Json.flag _) h = cc
is_native_value_lem (Json.number _) h = cc
is_native_value_lem (Json.text t) h = elim (is_native_text_lem t h) [
  | inl e ↦ inl (ap text e)
  | inr e ↦ inr (ap text e)
]
is_native_value_lem (Json.other _) h = cc

is_some_text_lem : (v : Json) → is_some_text v ≡ true → (t : Text) × (v ≡ text t)
is_some_text_lem Json.null h = cc
is_some_text_lem (Json.flag _) h = cc
is_some_text_lem (Json.number _) h = cc
is_some_text_lem (Json.text t) h = (t, refl)
is_some_text_lem (Json.other _) h = cc

is_some_number_lem : (v : Json) → is_some_number v ≡ true → (n : ℕ) × (v ≡ number n)
is_some_number_lem Json.null h = cc
is_some_number_lem (Json.flag _) h = cc
is_some_number_lem (Json.number n) h = (n, refl)
is_some_number_lem (Json.text _) h = cc
is_some_number_lem (Json.other _) h = cc

not_null : (v : Json) → v ≢ null → is_null v ≡ false
not_null Json.null h = absurd (h refl)
not_null (Json.flag _) h = refl
not_null (Json.number _) h = refl
not_null (Json.text _) h = refl
not_null (Json.other _) h = refl

not_passed : (v : Json) → v ≢ flag true → is_true v ≡ false
not_passed v h = elim (Bool-cases (is_true v)) [ inl e ↦ absurd (h (is_true_lem v e)) | inr e ↦ e ]

both : (a b : Bool) → (a && b) ≡ true → (a ≡ true) × (b ≡ true)
both true b h = (refl, h)
both false b h = cc

equal_texts : (s t : Text) → s ≡ t → eqb_text s t ≡ true
equal_texts s t e = rw e (eqb_text_refl t)

native_texts : (t : Text) → (t ≡ polymarket_ws) ⊎ (t ≡ polymarket_rest) → is_native_text t ≡ true
native_texts t (inl e) = rw e refl
native_texts t (inr e) = rw e refl

module _ (parse : Text → Option Time) where
  ends_in_time_lem :
      (end written : Option Time)
      → ends_in_time parse end written ≡ true
      → (e u : Time) × (end ≡ some e) × (written ≡ some u) × (e ≤ u)
  ends_in_time_lem (some e) (some u) h = (e, u, refl, refl, ground arith)
  ends_in_time_lem (some e) none h = cc
  ends_in_time_lem none u h = cc

  EndsLater-is_later :
      (later approved : Option Time)
      → EndsLater later approved
      → is_later parse later approved ≡ true
  EndsLater-is_later none approved h = refl
  EndsLater-is_later (some e) none h = refl
  EndsLater-is_later (some e) (some a) (inl h) = cc
  EndsLater-is_later (some e) (some a) (inr (inl h)) = cc
  EndsLater-is_later (some e) (some a) (inr (inr (i, j, p, q, lt))) =
      let same_e = some-injective _ _ p in let same_a = some-injective _ _ q in ground arith

  record_passes-IsApproved :
      (run_id : Text) (r : Record) → record_passes parse run_id r ≡ true → IsApproved parse run_id r
  unfolding record_passes
  record_passes-IsApproved run_id r h =
      let (named, h₁) = both _ _ h in
      let (passed, h₂) = both _ _ h₁ in
      let (current, h₃) = both _ _ h₂ in
      let (native, h₄) = both _ _ h₃ in
      let (met, h₅) = both _ _ h₄ in
      let (robust, h₆) = both _ _ h₅ in
      let (given, h₇) = both _ _ h₆ in
      let (in_time, priced) = both _ _ h₇ in
      let about = (both _ _ (both _ _ given).1) in
      record {
        named = is_text_lem run_id r.run_id named;
        passed = is_true_lem r.passed passed;
        current = is_number_lem harness_version r.harness_version current;
        native = is_native_value_lem r.source_type native;
        sufficient = is_met_lem r.sufficiency_met met;
        robust = is_true_lem r.robust_screened robust;
        hypothesis_given = is_some_text_lem r.hypothesis about.0;
        instrument_given = is_some_number_lem r.instrument_id about.1;
        in_time = ends_in_time_lem (aware parse r.end_ts) (aware parse r.ts) in_time;
        priced = no_fills_lem r.fills_at_hourly_open priced;
      }

  Revokes-revokes : (q r : Record) → Revokes parse q r → revokes parse q r ≡ true
  unfolding revokes
  Revokes-revokes q r v =
      rw
        (
          not_null q.hypothesis v.named,
          equal_texts _ _ v.same_hypothesis,
          equal_texts _ _ v.same_instrument,
          equal_texts _ _ v.current,
          native_texts _ v.native,
          not_passed q.passed v.failed,
          EndsLater-is_later _ _ v.ends_later,
        )
        refl

  not_revoked :
      (r : Record) (xs : List Record)
      → any (λ q. revokes parse q r) xs ≡ false
      → All (λ q. Revokes parse q r → ⊥) xs
  not_revoked r [] h = tt
  not_revoked r (x ∷ xs) h = elim (Bool-cases (revokes parse x r)) [
    | inl t ↦ cc (rw t at h)
    | inr f ↦ (λ v. absurd (cc (f, Revokes-revokes x r v)), not_revoked r xs (rw f at h))
  ]

  stands_lem :
      (run_id : Text) (records : List Record)
      → stands parse (find_first (record_passes parse run_id) records) records ≡ true
      → (r : Record) × In r records
        × IsApproved parse run_id r
        × All (λ q. Revokes parse q r → ⊥) records
  stands_lem run_id records h =
      elim (Option-cases (find_first (record_passes parse run_id) records)) [
        | inl n ↦ cc (rw n at h)
        | inr (r, e) ↦
            let (i, p) = find_first-In (record_passes parse run_id) records r e in
            (
              r,
              i,
              record_passes-IsApproved run_id r p,
              not_revoked r records (not_true (rw e at h)),
            )
      ]
    where
      not_true : {b : Bool} → not b ≡ true → b ≡ false
      not_true h = ground arith

  check_signed_lem :
      (run_id by at : Option Text) (records : List Record)
      → check_signed parse run_id by at (some records) ≡ true
      → (t b d : Text) × (run_id ≡ some t)
        × (by ≡ some b)
        × (at ≡ some d)
        × (check_records parse (some records) t ≡ true)
  check_signed_lem (some t) (some by) (some at) records h = (t, by, at, refl, refl, refl, h)
  check_signed_lem (some t) (some by) none records h = cc
  check_signed_lem (some t) none at records h = cc
  check_signed_lem none by at records h = cc

  -- An approval opens the lock only if it is signed and dated, and the log has the record that it names, which passed
  -- natively at this version of the harness with every condition that the gate checks again, its window in time
  -- included, and which no record of the log revokes: none of the same hypothesis and instrument, native and at
  -- this version, did not pass on a window that ends later or cannot be placed in time.
  pub load_validated-IsApproved :
      (a : Approval) (records : List Record)
      → load_validated parse (some a) (some records) ≡ true
      → (t b d : Text) × (signed a.run_id ≡ some t)
        × (signed a.approved_by ≡ some b)
        × (signed a.approved_at ≡ some d)
        × (r : Record) × In r records
        × IsApproved parse t r
        × All (λ q. Revokes parse q r → ⊥) records
  unfolding load_validated
  load_validated-IsApproved a records h =
      let (t, b, d, e, f, g, c) =
        check_signed_lem (signed a.run_id) (signed a.approved_by) (signed a.approved_at) records
          h in
      let (r, i, p, q) = stands_lem t records c in (t, b, d, e, f, g, r, i, p, q)

  closed :
      (run_id by at : Option Text) (t : Text) (log : Option (List Record))
      → run_id ≡ some t
      → check_records parse log t ≡ false
      → check_signed parse run_id by at log ≡ false
  closed none by at t log e h = refl
  closed (some s) none at t log e h = refl
  closed (some s) (some by) none t log e h = refl
  closed (some s) (some by) (some at) t log e h =
      ap (check_records parse log) (some-injective _ _ e) ∙ h

  -- Once the log has a record that revokes the one approved, the lock stays shut, whatever records follow.
  pub load_validated_revoked :
      (a : Approval) (t : Text) (r : Record) (records later : List Record)
      → signed a.run_id ≡ some t
      → find_first (record_passes parse t) records ≡ some r
      → any (λ q. revokes parse q r) records ≡ true
      → load_validated parse (some a) (some (records ++ later)) ≡ false
  unfolding load_validated
  load_validated_revoked a t r records later e f v =
      closed (signed a.run_id) (signed a.approved_by) (signed a.approved_at) t
        (some (records ++ later)) e
        (rw
          (
            find_first-append (record_passes parse t) records later r f,
            any-append (λ q. revokes parse q r) records later v,
          )
          refl)
