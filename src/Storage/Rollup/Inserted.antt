-- ===== src/Storage/Rollup/Inserted.antt =====
-- What `INSERT OR IGNORE` of new rollup rows does to the value of one hour: a value that is there stays, and a
-- missing one becomes that of the new row, if there is one.
use perpbot.Base.{
  ℕ, ◌≡◌, refl, ap, sym, ◌∙◌, true, ◌||◌, Option, none, some, List, [], ◌∷◌, ◌++◌, if◌then◌else◌,
  any, ◌⊎◌, inl, inr, In, All, arith, or_some, or_some-none, or_some_assoc, Bool-cases,
}
use perpbot.Decimal.{Decimal}
use perpbot.Execution.Types.{Time}
use perpbot.Storage.Market.{Rollup}
use perpbot.Storage.Rollup.Reads.{is_row, rolled}
use perpbot.Storage.Rollup.Writer.{same_rollup, insert_rollup, insert_rollups}

module _ (column : Rollup → Option Decimal) (i : ℕ) (h : Time) where
  rolled_last :
      (r : Rollup) (rows : List Rollup)
      → rolled column i h (rows ++ (r ∷ []))
        ≡ or_some (if is_row i h r then column r else none) (rolled column i h rows)
  rolled_last r [] = ground arith
  rolled_last r (x ∷ rs) = rw (rolled_last r rs) (
      sym (
        or_some_assoc (if is_row i h r then column r else none) (rolled column i h rs)
          (if is_row i h x then column x else none)))

  any_last :
      (r : Rollup) (rows : List Rollup)
      → any (is_row i h) (rows ++ (r ∷ [])) ≡ (any (is_row i h) rows || is_row i h r)
  any_last r [] = ground arith
  any_last r (x ∷ rs) = ground (arith, any_last r rs)

  -- For a row of this hour, the key is there exactly if a row of the hour is.
  same_row :
      (r : Rollup) (rows : List Rollup)
      → is_row i h r ≡ true
      → any (same_rollup r) rows ≡ any (is_row i h) rows
  same_row r [] e = refl
  same_row r (x ∷ rs) e = ground (arith, same_row r rs e)

  value_row :
      (rows : List Rollup) (v : Decimal)
      → rolled column i h rows ≡ some v
      → any (is_row i h) rows ≡ true
  value_row [] v e = cc
  value_row (x ∷ rs) v e = elim (Bool-cases (is_row i h x)) [
    | inl t ↦ ground arith
    | inr f ↦
        let found = value_row rs v (sym (or_some-none (rolled column i h rs)) ∙ rw f at e) in
        ground arith
  ]

  insert_some :
      (r : Rollup) (rows : List Rollup) (v : Decimal)
      → rolled column i h rows ≡ some v
      → rolled column i h (insert_rollup r rows) ≡ some v
  insert_some r rows v e = ground (arith, rolled_last r rows, same_row r rows, value_row rows v e)

  -- A value stays.
  pub insert_rollups-some :
      (news rows : List Rollup) (v : Decimal)
      → rolled column i h rows ≡ some v
      → rolled column i h (insert_rollups news rows) ≡ some v
  unfolding insert_rollups
  insert_rollups-some [] rows v e = e
  insert_rollups-some (r ∷ rs) rows v e =
      insert_rollups-some rs (insert_rollup r rows) v (insert_some r rows v e)

  module _ (o : Option Decimal) where
    -- The rows of this hour have this value.
    abbrev pub HasValue : Rollup → Type 0
    HasValue r = is_row i h r ≡ true → column r ≡ o

    abbrev pub NoneOr : Option Decimal → Type 0
    NoneOr x = (x ≡ none) ⊎ (x ≡ o)

    or_some-NoneOr : (x y : Option Decimal) → NoneOr x → NoneOr y → NoneOr (or_some x y)
    or_some-NoneOr none y p q = q
    or_some-NoneOr (some a) y p q = p

    row-NoneOr : (r : Rollup) → HasValue r → NoneOr (if is_row i h r then column r else none)
    row-NoneOr r v = elim (Bool-cases (is_row i h r)) [
      | inl e ↦ rw e (inr (v e))
      | inr e ↦ rw e (inl refl)
    ]

    insert_none :
        (r : Rollup) (rows : List Rollup)
        → HasValue r
        → NoneOr (rolled column i h rows)
        → NoneOr (rolled column i h (insert_rollup r rows))
    insert_none r rows v n = elim (Bool-cases (any (same_rollup r) rows)) [
      | inl e ↦ rw e n
      | inr e ↦
          rw (e, rolled_last r rows)
            (or_some-NoneOr (if is_row i h r then column r else none) (rolled column i h rows)
              (row-NoneOr r v) n)
    ]

    -- Where there is none, there is none after it or that of the new rows.
    pub insert_rollups-none :
        (news rows : List Rollup)
        → All HasValue news
        → NoneOr (rolled column i h rows)
        → NoneOr (rolled column i h (insert_rollups news rows))
    unfolding insert_rollups
    insert_rollups-none [] rows all n = n
    insert_rollups-none (r ∷ rs) rows all n =
        insert_rollups-none rs (insert_rollup r rows) all.1 (insert_none r rows all.0 n)

  module _ (v : Decimal) where
    abbrev Fills : List Rollup → Type 0
    Fills rows = any (is_row i h) rows ≡ true → rolled column i h rows ≡ some v

    insert_Fills :
        (r : Rollup) (rows : List Rollup)
        → HasValue (some v) r
        → Fills rows
        → Fills (insert_rollup r rows)
    insert_Fills r rows e f = ground (arith, rolled_last r rows, any_last r rows, same_row r rows)

    -- A row of the hour is there after it was inserted, and stays.
    insert_row :
        (r : Rollup) (rows : List Rollup)
        → is_row i h r ≡ true
        → any (is_row i h) (insert_rollup r rows) ≡ true
    insert_row r rows e = ground (arith, any_last r rows, same_row r rows)

    insert_keeps_row :
        (r : Rollup) (rows : List Rollup)
        → any (is_row i h) rows ≡ true
        → any (is_row i h) (insert_rollup r rows) ≡ true
    insert_keeps_row r rows e = ground (arith, any_last r rows)

    insert_rollups_row :
        (news rows : List Rollup)
        → All (HasValue (some v)) news
        → Fills rows
        → any (is_row i h) rows ≡ true
        → rolled column i h (insert_rollups news rows) ≡ some v
    unfolding insert_rollups
    insert_rollups_row [] rows all f t = f t
    insert_rollups_row (r ∷ rs) rows all f t =
        insert_rollups_row rs (insert_rollup r rows) all.1 (insert_Fills r rows all.0 f)
          (insert_keeps_row r rows t)

    -- Where the hour has no row and a new one has a value, the hour has that value.
    pub insert_rollups_new :
        (news rows : List Rollup) (r : Rollup)
        → All (HasValue (some v)) news
        → Fills rows
        → In r news
        → is_row i h r ≡ true
        → rolled column i h (insert_rollups news rows) ≡ some v
    unfolding insert_rollups
    insert_rollups_new [] rows r all f m e = absurd m
    insert_rollups_new (x ∷ rs) rows r all f (inl s) e =
        insert_rollups_row rs (insert_rollup x rows) all.1 (insert_Fills x rows all.0 f)
          (insert_row x rows (sym (ap (is_row i h) s) ∙ e))
    insert_rollups_new (x ∷ rs) rows r all f (inr m) e =
        insert_rollups_new rs (insert_rollup x rows) r all.1 (insert_Fills x rows all.0 f) m e
