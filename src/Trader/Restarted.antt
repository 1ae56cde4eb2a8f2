-- ===== src/Trader/Restarted.antt =====
-- The equity that the loss limit starts from survives restarts, and a run id stays with its executor.
use perpbot.Base.{
  ◌≡◌, ◌≢◌, refl, ap, subst, sym, ◌∙◌, false, not, Option, none, some, List, [], ◌∷◌, Bool-cases,
  Option-cases, inl, inr,
}
use perpbot.Base.Dict.{lookup, text_key, lookup-insert_self}
use perpbot.Decimal.{Decimal}
use perpbot.Execution.Types.{AccountSnapshot, Text}
use perpbot.Execution.World.{Result, ok, err}
use perpbot.Trader.{
  ExecutorName, sim, shadow, live, same_name, Saved, Accounts, save_account_snapshot, is_foreign,
  differs, owner_of, Started, foreign_run, gate_closed, venue_account, first_snapshot,
  with_baseline, venue_start, paper_start, build_executor,
}

module _ {A : Type 0} where
  -- The snapshots that the fast loop saves while the run goes on.
  unfoldable pub saved_all :
      Text → Decimal → ExecutorName → List AccountSnapshot → Accounts A → Accounts A
  saved_all run_id start_equity name [] db = db
  saved_all run_id start_equity name (snap ∷ snaps) db =
      saved_all run_id start_equity name snaps
        (save_account_snapshot run_id snap start_equity name db)

  -- The run id has a row with this owner and this baseline.
  abbrev HasBaseline : Text → Decimal → ExecutorName → Accounts A → Type 0
  HasBaseline run_id start_equity name db =
      (row : Saved) × (lookup run_id db.snapshots ≡ some row)
      × (row.start_equity ≡ start_equity)
      × (row.executor ≡ name)

  saved_all-HasBaseline :
      (run_id : Text) (start_equity : Decimal) (name : ExecutorName) (snaps : List AccountSnapshot)
      (db : Accounts A)
      → HasBaseline run_id start_equity name db
      → HasBaseline run_id start_equity name (saved_all run_id start_equity name snaps db)
  unfolding saved_all save_account_snapshot
  saved_all-HasBaseline run_id start_equity name [] db h = h
  saved_all-HasBaseline run_id start_equity name (snap ∷ snaps) db h =
      saved_all-HasBaseline run_id start_equity name snaps
        (save_account_snapshot run_id snap start_equity name db)
        (
          record { snapshot = snap; start_equity = start_equity; executor = name },
          lookup-insert_self run_id _ db.snapshots,
          refl,
          refl,
        )

same_name→eq : (a b : ExecutorName) → differs (some a) b ≡ false → a ≡ b
same_name→eq sim sim h = refl
same_name→eq shadow shadow h = refl
same_name→eq live live h = refl
same_name→eq sim shadow h = cc
same_name→eq sim live h = cc
same_name→eq shadow sim h = cc
same_name→eq shadow live h = cc
same_name→eq live sim h = cc
same_name→eq live shadow h = cc

started-same :
    {A E : Type 0} (e e' : E) (x y : Decimal)
    → ◌≡◌ {A = Started A E} (venue_account e x) (venue_account e' y)
    → x ≡ y
started-same e e' x y h = cc

closed-venue :
    {A E : Type 0} {e : E} {x : Decimal} → ◌≡◌ {A = Started A E} gate_closed (venue_account e x) → ⊥
closed-venue h = cc

paper-venue :
    {A E : Type 0} (o : Option (A × Decimal)) (fresh : A) (equity : Decimal) {e : E} {x : Decimal}
    → paper_start o fresh equity ≡ venue_account e x
    → ⊥
paper-venue none fresh equity h = cc
paper-venue (some (a, s)) fresh equity h = cc

refused-venue :
    {A E : Type 0} (e : E) (x : Decimal) (db db' : Accounts A)
    → ◌≡◌ {A = Started A E × Accounts A} (foreign_run, db) (venue_account e x, db')
    → ⊥
refused-venue {A} {E} e x db db' h = let p = ap (λ (y : Started A E × Accounts A). y.0) h in cc

module _ {A E : Type 0} (take_snapshot : E → Result AccountSnapshot × E) where
  first_snapshot-HasBaseline :
      (run_id : Text) (name : ExecutorName) (e e' : E) (start_equity : Decimal) (db : Accounts A)
      → (first_snapshot take_snapshot run_id name (take_snapshot e) db).0
        ≡ venue_account e' start_equity
      → HasBaseline run_id start_equity name
          (first_snapshot take_snapshot run_id name (take_snapshot e) db).1
  unfolding save_account_snapshot
  first_snapshot-HasBaseline run_id name e e' start_equity db h = by_answer (take_snapshot e) h
    where
      by_answer :
          (r : Result AccountSnapshot × E)
          → (first_snapshot take_snapshot run_id name r db).0 ≡ venue_account e' start_equity
          → HasBaseline run_id start_equity name (first_snapshot take_snapshot run_id name r db).1
      by_answer (ok snap, e2) p = (
        record { snapshot = snap; start_equity = snap.equity; executor = name },
        lookup-insert_self run_id _ db.snapshots,
        cc p,
        refl,
      )
      by_answer (err x, e2) p = absurd (cc)

  with_baseline-HasBaseline :
      (run_id : Text) (name : ExecutorName) (e e' : E) (start_equity : Decimal)
      (db db' : Accounts A)
      → is_foreign run_id name db ≡ false
      → with_baseline take_snapshot run_id name e (lookup run_id db.snapshots) db
        ≡ (venue_account e' start_equity, db')
      → HasBaseline run_id start_equity name db'
  unfolding is_foreign
  with_baseline-HasBaseline run_id name e e' start_equity db db' own h =
      elim (Option-cases (lookup run_id db.snapshots)) [
        | inl none_yet ↦
            let p =
              sym
                (ap (λ (o : Option Saved). with_baseline take_snapshot run_id name e o db) none_yet)
              ∙ h in
            subst (HasBaseline run_id start_equity name)
              (ap (λ (x : Started A E × Accounts A). x.1) p)
              (first_snapshot-HasBaseline run_id name e e' start_equity db
                (ap (λ (x : Started A E × Accounts A). x.0) p))
        | inr row ↦
            let p =
              sym
                (ap (λ (o : Option Saved). with_baseline take_snapshot run_id name e o db) (row.1))
              ∙ h in
            subst (HasBaseline run_id start_equity name)
              (ap (λ (x : Started A E × Accounts A). x.1) p)
              (
                row.0,
                row.1,
                started-same _ _ _ _ (ap (λ (x : Started A E × Accounts A). x.0) p),
                same_name→eq _ name (rw (row.1) at own),
              )
      ]

  venue_start-HasBaseline :
      (run_id : Text) (name : ExecutorName) (opened : Option E) (e' : E) (start_equity : Decimal)
      (db db' : Accounts A)
      → is_foreign run_id name db ≡ false
      → venue_start take_snapshot run_id name opened db ≡ (venue_account e' start_equity, db')
      → HasBaseline run_id start_equity name db'
  venue_start-HasBaseline run_id name none e' start_equity db db' own h =
      absurd (closed-venue (ap (λ (x : Started A E × Accounts A). x.0) h))
  venue_start-HasBaseline run_id name (some e) e' start_equity db db' own h =
      with_baseline-HasBaseline run_id name e e' start_equity db db' own h

  owned-HasBaseline :
      (name : ExecutorName) (run_id : Text) (fresh : A) (equity : Decimal) (opened : Option E)
      (db db' : Accounts A) (e : E) (start_equity : Decimal)
      → is_foreign run_id name db ≡ false
      → build_executor take_snapshot name run_id fresh equity opened db
        ≡ (venue_account e start_equity, db')
      → HasBaseline run_id start_equity name db'
  unfolding build_executor
  owned-HasBaseline sim run_id fresh equity opened db db' e start_equity own h = absurd (
      paper-venue (lookup run_id db.sims) fresh equity
        (ap (λ (x : Started A E × Accounts A). x.0) (rw own at h)))
  owned-HasBaseline shadow run_id fresh equity opened db db' e start_equity own h =
      venue_start-HasBaseline run_id shadow opened e start_equity db db' own (rw own at h)
  owned-HasBaseline live run_id fresh equity opened db db' e start_equity own h =
      venue_start-HasBaseline run_id live opened e start_equity db db' own (rw own at h)

  build_executor-HasBaseline :
      (name : ExecutorName) (run_id : Text) (fresh : A) (equity : Decimal) (opened : Option E)
      (db db' : Accounts A) (e : E) (start_equity : Decimal)
      → build_executor take_snapshot name run_id fresh equity opened db
        ≡ (venue_account e start_equity, db')
      → HasBaseline run_id start_equity name db'
  unfolding build_executor
  build_executor-HasBaseline name run_id fresh equity opened db db' e start_equity h =
      elim (Bool-cases (is_foreign run_id name db)) [
        | inl foreign ↦ absurd (refused-venue _ _ _ _ (rw foreign at h))
        | inr own ↦ owned-HasBaseline name run_id fresh equity opened db db' e start_equity own h
      ]

  foreign_lem :
      (name other : ExecutorName) (run_id : Text) (start_equity : Decimal) (db : Accounts A)
      → HasBaseline run_id start_equity name db
      → is_foreign run_id other db ≡ not (same_name name other)
  unfolding is_foreign
  foreign_lem name other run_id start_equity db (row, found, start, owner) =
      ap (λ (o : Option Saved). differs (owner_of o (lookup run_id db.sims)) other) found
      ∙ ap (λ (n : ExecutorName). not (same_name n other)) owner

  baseline_start :
      (name : ExecutorName) (run_id : Text) (e : E) (start_equity : Decimal) (db : Accounts A)
      → HasBaseline run_id start_equity name db
      → venue_start take_snapshot run_id name (some e) db ≡ (venue_account e start_equity, db)
  baseline_start name run_id e start_equity db (row, found, start, owner) =
      ap (λ (o : Option Saved). with_baseline take_snapshot run_id name e o db) found
      ∙ ap (λ (x : Decimal). (venue_account e x, db)) start

  kept_baseline :
      (name : ExecutorName) (run_id : Text) (fresh : A) (equity : Decimal) (e : E)
      (start_equity : Decimal) (db : Accounts A)
      → name ≢ sim
      → HasBaseline run_id start_equity name db
      → build_executor take_snapshot name run_id fresh equity (some e) db
        ≡ (venue_account e start_equity, db)
  unfolding build_executor
  kept_baseline sim run_id fresh equity e start_equity db v b = absurd (v refl)
  kept_baseline shadow run_id fresh equity e start_equity db v b =
      rw (foreign_lem shadow shadow run_id start_equity db b)
        (baseline_start shadow run_id e start_equity db b)
  kept_baseline live run_id fresh equity e start_equity db v b =
      rw (foreign_lem live live run_id start_equity db b)
        (baseline_start live run_id e start_equity db b)

  refused_other :
      (name other : ExecutorName) (run_id : Text) (fresh : A) (equity : Decimal) (opened : Option E)
      (start_equity : Decimal) (db : Accounts A)
      → same_name name other ≡ false
      → HasBaseline run_id start_equity name db
      → build_executor take_snapshot other run_id fresh equity opened db ≡ (foreign_run, db)
  unfolding build_executor
  refused_other name other run_id fresh equity opened start_equity db d b =
      rw (foreign_lem name other run_id start_equity db b ∙ ap not d) refl

  -- A run of shadow or live that started on the venue starts, after every restart, from the equity that it first
  -- started from, whatever snapshots it saved since; and every other executor is refused its run id.
  pub build_executor_restart :
      (name other : ExecutorName) (run_id : Text) (fresh fresh' : A) (equity equity' : Decimal)
      (opened opened' : Option E) (db db' : Accounts A) (e e' : E) (start_equity : Decimal)
      (snaps : List AccountSnapshot)
      → name ≢ sim
      → build_executor take_snapshot name run_id fresh equity opened db
        ≡ (venue_account e start_equity, db')
      → let db'' = saved_all run_id start_equity name snaps db' in
        (build_executor take_snapshot name run_id fresh' equity' (some e') db''
          ≡ (venue_account e' start_equity, db''))
        × (same_name name other ≡ false
            → build_executor take_snapshot other run_id fresh' equity' opened' db''
              ≡ (foreign_run, db''))
  build_executor_restart name other run_id fresh fresh' equity equity' opened opened' db db' e e'
        start_equity snaps v h =
      let db'' = saved_all run_id start_equity name snaps db' in
      let b =
        saved_all-HasBaseline run_id start_equity name snaps db'
          (build_executor-HasBaseline name run_id fresh equity opened db db' e start_equity h) in
      (
        kept_baseline name run_id fresh' equity' e' start_equity db'' v b,
        λ d. refused_other name other run_id fresh' equity' opened' start_equity db'' d b,
      )
