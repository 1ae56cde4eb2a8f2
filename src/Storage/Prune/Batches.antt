-- ===== src/Storage/Prune/Batches.antt =====
-- The batched deletion of scripts/prune.py ends, and deletes what its condition says.
use perpbot.Base.{
  ℕ, zero, suc, ◌+◌, ◌<◌, ◌≡◌, refl, ap, ap₂, ◌∙◌, Bool, true, not, ◌&&◌, ◌||◌, some, List, [], ◌∷◌,
  ltb, length, filter_by, map, All, mem_ℕ, ◌==◌, arith,
}
use perpbot.Execution.Types.{Time}
use perpbot.Storage.Market.{Market}
use perpbot.Storage.Prune.{
  delete_batch, delete_all, prune_ids, prune_table, prune_books, prune, is_old, tick_id, tick_stamp,
  book_id, book_stamp,
}
use perpbot.Storage.Rollup.Writer.{distinct, add_id}

module _ {A : Type 0} (old : A → Bool) where
  -- The rows that stay.
  abbrev pub kept : List A → List A
  kept rows = filter_by (λ r. not (old r)) rows

  abbrev pub count : List A → ℕ
  count rows = length (filter_by old rows)

  kept-delete_batch : (n : ℕ) (rows : List A) → kept (delete_batch old n rows).1 ≡ kept rows
  unfolding delete_batch
  kept-delete_batch n [] = refl
  kept-delete_batch zero (r ∷ rs) = refl
  kept-delete_batch (suc n) (r ∷ rs) =
      ground (arith, kept-delete_batch n rs, kept-delete_batch (suc n) rs)

  count-delete_batch :
      (n : ℕ) (rows : List A)
      → (delete_batch old n rows).0 + count (delete_batch old n rows).1 ≡ count rows
  unfolding delete_batch
  count-delete_batch n [] = omega arith
  count-delete_batch zero (r ∷ rs) = omega arith
  count-delete_batch (suc n) (r ∷ rs) =
      ground (arith, count-delete_batch n rs, count-delete_batch (suc n) rs)

  length-delete_batch :
      (n : ℕ) (rows : List A)
      → (delete_batch old n rows).0 + length (delete_batch old n rows).1 ≡ length rows
  unfolding delete_batch
  length-delete_batch n [] = omega arith
  length-delete_batch zero (r ∷ rs) = omega arith
  length-delete_batch (suc n) (r ∷ rs) =
      ground (arith, length-delete_batch n rs, length-delete_batch (suc n) rs)

  -- A batch that deletes nothing finds nothing to delete.
  delete_batch_done :
      (n : ℕ) (rows : List A)
      → (delete_batch old (suc n) rows).0 ≡ 0
      → ((delete_batch old (suc n) rows).1 ≡ kept rows) × (count rows ≡ 0)
  unfolding delete_batch
  delete_batch_done n [] h = (refl, omega arith)
  delete_batch_done n (r ∷ rs) h = ground (arith, delete_batch_done n rs)

  -- With a batch that is not empty the loop ends, and the rows left are those that the condition spares.
  pub delete_all_lem :
      (fuel n : ℕ) (rows : List A)
      → length rows < fuel
      → delete_all fuel old (suc n) rows ≡ some (count rows, kept rows)
  unfolding delete_all
  delete_all_lem zero n rows h = absurd (omega arith)
  delete_all_lem (suc fuel) n rows h = ground (
    arith,
    length-delete_batch (suc n) rows,
    count-delete_batch (suc n) rows,
    kept-delete_batch (suc n) rows,
    delete_batch_done n rows,
    delete_all_lem fuel n (delete_batch old (suc n) rows).1,
  )

mem_ℕ-add_id : (k i : ℕ) (is : List ℕ) → mem_ℕ k (add_id i is) ≡ (k == i || mem_ℕ k is)
mem_ℕ-add_id k i [] = refl
mem_ℕ-add_id k i (j ∷ js) = ground (arith, mem_ℕ-add_id k i js)

-- The distinct ids are the ids.
pub mem_ℕ-distinct : (k : ℕ) (is : List ℕ) → mem_ℕ k (distinct is) ≡ mem_ℕ k is
unfolding distinct
mem_ℕ-distinct k [] = refl
mem_ℕ-distinct k (i ∷ is) = ground (arith, mem_ℕ-add_id k i (distinct is), mem_ℕ-distinct k is)

module _ {A : Type 0} (id_of : A → ℕ) (stamp : A → Time) (cutoff : Time) where
  abbrev pub is_before : A → Bool
  is_before r = ltb (stamp r) cutoff

  -- Old, and of one of these instruments.
  abbrev is_stale : List ℕ → A → Bool
  is_stale ids r = mem_ℕ (id_of r) ids && is_before r

  kept_twice :
      (i : ℕ) (is : List ℕ) (rows : List A)
      → kept (is_stale is) (kept (is_old id_of stamp cutoff i) rows) ≡ kept (is_stale (i ∷ is)) rows
  kept_twice i is [] = refl
  kept_twice i is (r ∷ rs) = ground (arith, kept_twice i is rs)

  count_twice :
      (i : ℕ) (is : List ℕ) (rows : List A)
      → count (is_old id_of stamp cutoff i) rows
          + count (is_stale is) (kept (is_old id_of stamp cutoff i) rows)
        ≡ count (is_stale (i ∷ is)) rows
  count_twice i is [] = omega arith
  count_twice i is (r ∷ rs) = ground (arith, count_twice i is rs)

  kept_none : (rows : List A) → kept (is_stale []) rows ≡ rows
  kept_none [] = refl
  kept_none (r ∷ rs) = ap (λ (x : List A). r ∷ x) (kept_none rs)

  count_none : (rows : List A) → count (is_stale []) rows ≡ 0
  count_none [] = refl
  count_none (r ∷ rs) = count_none rs

  prune_ids_lem :
      (n : ℕ) (is : List ℕ) (rows : List A)
      → prune_ids id_of stamp cutoff (suc n) is rows
        ≡ some (count (is_stale is) rows, kept (is_stale is) rows)
  unfolding prune_ids
  prune_ids_lem n [] rows = rw (count_none rows, kept_none rows) refl
  prune_ids_lem n (i ∷ is) rows =
      let old = is_old id_of stamp cutoff i in
      ground (
        arith,
        delete_all_lem old (suc (length rows)) n rows,
        prune_ids_lem n is (kept old rows),
        count_twice i is rows,
        kept_twice i is rows,
      )

  -- Where every row is of one of the instruments, stale is old.
  stale_old :
      (is : List ℕ) (rows : List A)
      → All (λ r. mem_ℕ (id_of r) is ≡ true) rows
      → (kept (is_stale is) rows ≡ kept is_before rows)
        × (count (is_stale is) rows ≡ count is_before rows)
  stale_old is [] h = (refl, refl)
  stale_old is (r ∷ rs) h = let ih = stale_old is rs h.1 in ground arith

  ids_found :
      (is : List ℕ) (rows : List A)
      → ((k : ℕ) → mem_ℕ k (map id_of rows) ≡ true → mem_ℕ k is ≡ true)
      → All (λ r. mem_ℕ (id_of r) is ≡ true) rows
  ids_found is [] h = tt
  ids_found is (r ∷ rs) h =
      (h (id_of r) (ground arith), ids_found is rs (λ k m. h k (ground arith)))

  -- The deletion from a table ends and leaves the rows that are not before the cutoff.
  pub prune_table_lem :
      (n : ℕ) (rows : List A)
      → prune_table id_of stamp cutoff (suc n) rows
        ≡ some (count is_before rows, kept is_before rows)
  unfolding prune_table
  prune_table_lem n rows =
      let ids = distinct (map id_of rows) in
      let all =
        stale_old ids rows (ids_found ids rows (λ k m. mem_ℕ-distinct k (map id_of rows) ∙ m)) in
      prune_ids_lem n ids rows ∙ ap₂ (λ (c : ℕ) (k : List A). some (c, k)) all.1 all.0

-- What a pruned database holds.
abbrev pub pruned : Time → Market → Market
pruned cutoff m = record m {
  ticks = kept (is_before tick_id tick_stamp cutoff) m.ticks;
  books = kept (is_before book_id book_stamp cutoff) m.books;
}

-- prune, with a batch of at least one row, ends: it deletes exactly the ticks and the books from before the
-- cutoff, reports their numbers, and leaves every other row and its order.
pub prune_lem :
    (cutoff : Time) (batch : ℕ) (m : Market)
    → 0 < batch
    → prune cutoff batch m
      ≡ some (
        count (is_before tick_id tick_stamp cutoff) m.ticks,
        count (is_before book_id book_stamp cutoff) m.books,
        pruned cutoff m,
      )
unfolding prune prune_books
prune_lem cutoff zero m h = absurd (omega arith)
prune_lem cutoff (suc n) m h = ground (
  arith,
  prune_table_lem tick_id tick_stamp cutoff n m.ticks,
  prune_table_lem book_id book_stamp cutoff n m.books,
)
