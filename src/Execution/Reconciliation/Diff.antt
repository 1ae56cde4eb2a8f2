-- ===== src/Execution/Reconciliation/Diff.antt =====
-- What an empty diff means: the rows and the exchange agree.
use perpbot.Base.{
  ℕ, true, false, not, ◌&&◌, ◌||◌, Option, none, some, List, [], ◌∷◌, ◌++◌, ◌≡◌, refl,
  if◌then◌else◌, ◌==◌, arith, mem_ℕ, All, is_some, Bool-cases, inl, inr, eqb_ℤ, eqb_ℤ_iff, ◌⊎◌,
}
use perpbot.Base.Dict.{Dict, lookup, nat_key}
use perpbot.Decimal.{Decimal}
use perpbot.Execution.Types.{PositionLocalRow, PositionView, AccountSnapshot, Text}
use perpbot.Execution.Router.Rows.{is_zero}
use perpbot.Execution.Router.Send.{size_of}
use perpbot.Execution.Reconciliation.{
  Mismatch, size, missing_stop, stop_without_position, unknown_order, row_stop, positions_by_id,
  add_sorted, add_keys, all_keys, row_size, row_pending, check_one, check_all, compare_rows,
  orphan_stops, is_known, unknown_orders, diff,
}

append_nil : {A : Type 0} (xs ys : List A) → (xs ++ ys) ≡ [] → (xs ≡ []) × (ys ≡ [])
append_nil [] ys h = (refl, h)
append_nil (x ∷ xs) ys h = cc

mem-add_sorted : (i k : ℕ) (ks : List ℕ) → mem_ℕ i (add_sorted k ks) ≡ (i == k || mem_ℕ i ks)
unfolding add_sorted
mem-add_sorted i k [] = refl
mem-add_sorted i k (j ∷ js) = ground (arith, mem-add_sorted i k js)

-- An instrument that has a value in the dict is among the keys.
mem-add_keys_left :
    {V : Type 0} (i : ℕ) (d : Dict ℕ V) (ks : List ℕ)
    → mem_ℕ i (add_keys d ks) ≡ false
    → (lookup i d ≡ none) × (mem_ℕ i ks ≡ false)
unfolding add_keys
mem-add_keys_left i [] ks h = (refl, h)
mem-add_keys_left i ((k, v) ∷ d) ks h =
    ground (arith, mem-add_sorted i k (add_keys d ks), mem-add_keys_left i d ks)

check_all_nil :
    (local : Dict ℕ PositionLocalRow) (remote : Dict ℕ PositionView) (stops : Dict ℕ Decimal)
    (t : Decimal) (ks : List ℕ) (i : ℕ)
    → mem_ℕ i ks ≡ true
    → check_all local remote stops t ks ≡ []
    → check_one local remote stops t i ≡ []
unfolding check_all
check_all_nil local remote stops t [] i m h = cc
check_all_nil local remote stops t (k ∷ ks) i m h =
    let (a, b) =
      append_nil (check_one local remote stops t k) (check_all local remote stops t ks) h in
    elim (Bool-cases (i == k)) [
      | inl e ↦ let same : i ≡ k = ground arith in rw same a
      | inr e ↦ check_all_nil local remote stops t ks i (ground arith) b
    ]

-- What an instrument's rows and position must satisfy.
abbrev pub Agrees : Option PositionLocalRow → Decimal → Option Decimal → Type 0
Agrees row rsize stop =
    ((is_zero rsize ≡ true) ⊎ (is_some stop ≡ true))
    × ((row_pending row ≡ true) ⊎ (row_size row ≡ rsize))

compare_rows_nil :
    (i : ℕ) (row : Option PositionLocalRow) (rsize : Decimal) (stop : Option Decimal) (t : Decimal)
    → compare_rows i row rsize stop t ≡ []
    → row_pending row ≡ false
    → row_size row ≡ rsize
unfolding compare_rows
compare_rows_nil i row rsize stop t h p = elim (Bool-cases (eqb_ℤ (row_size row) rsize)) [
  | inl e ↦ (eqb_ℤ_iff (row_size row) rsize).0 e
  | inr e ↦ let wrong : size i (row_size row) rsize ∷ [] ≡ [] = rw (p, e) at h in cc
]

check_one_nil :
    (local : Dict ℕ PositionLocalRow) (remote : Dict ℕ PositionView) (stops : Dict ℕ Decimal)
    (t : Decimal) (i : ℕ)
    → check_one local remote stops t i ≡ []
    → Agrees (lookup i local) (size_of (lookup i remote)) (lookup i stops)
unfolding check_one
check_one_nil local remote stops t i h =
    let row = lookup i local in
    let rsize = size_of (lookup i remote) in
    let stop = lookup i stops in
    let (a, b) =
      append_nil
        (if not (is_zero rsize) && not (is_some stop)
          then missing_stop i (row_stop row) ∷ []
          else [])
        (compare_rows i row rsize stop t) h in
    (
      guarded rsize stop (missing_stop i (row_stop row)) a,
      elim (Bool-cases (row_pending row)) [
        | inl p ↦ inl p
        | inr p ↦ inr (compare_rows_nil i row rsize stop t b p)
      ],
    )
  where
    guarded :
        (rsize : Decimal) (stop : Option Decimal) (m : Mismatch)
        → (if not (is_zero rsize) && not (is_some stop) then m ∷ [] else []) ≡ []
        → (is_zero rsize ≡ true) ⊎ (is_some stop ≡ true)
    guarded rsize (some s) m e = inr refl
    guarded rsize none m e = elim (Bool-cases (is_zero rsize)) [
      | inl z ↦ inl z
      | inr z ↦ let wrong : m ∷ [] ≡ [] = rw z at e in cc
    ]

orphan_stops_nil :
    (remote : Dict ℕ PositionView) (stops : Dict ℕ Decimal) (i : ℕ)
    → orphan_stops remote stops ≡ []
    → is_some (lookup i stops) ≡ true
    → is_zero (size_of (lookup i remote)) ≡ false
unfolding orphan_stops
orphan_stops_nil remote [] i h s = cc
orphan_stops_nil remote ((k, t) ∷ stops) i h s =
    elim (Bool-cases (is_zero (size_of (lookup k remote)))) [
      | inl z ↦
          let wrong : stop_without_position k t ∷ orphan_stops remote stops ≡ [] = rw z at h in cc
      | inr z ↦
          let rest : orphan_stops remote stops ≡ [] = rw z at h in
          elim (Bool-cases (k == i)) [
            | inl e ↦ let same : k ≡ i = ground arith in rw (← same) z
            | inr e ↦ orphan_stops_nil remote stops i rest (rw e at s)
          ]
    ]

unknown_orders_nil :
    (run_id : Text) (known ids : List Text)
    → unknown_orders run_id known ids ≡ []
    → All (λ id. is_known run_id known id ≡ true) ids
unfolding unknown_orders
unknown_orders_nil run_id known [] h = tt
unknown_orders_nil run_id known (id ∷ ids) h = elim (Bool-cases (is_known run_id known id)) [
  | inl k ↦ (k, unknown_orders_nil run_id known ids (rw k at h))
  | inr k ↦ let wrong : unknown_order id ∷ unknown_orders run_id known ids ≡ [] = rw k at h in cc
]

-- If the diff is empty, then for every instrument a position on the exchange has a stop there and the
-- stored size, unless its order is in flight, is the exchange's; its stop, if there is one, guards a position;
-- and every resting order is one of this run that is not finished.
pub diff_nil :
    (local : Dict ℕ PositionLocalRow) (remote : AccountSnapshot) (run_id : Text) (known : List Text)
    (t : Decimal) (i : ℕ)
    → diff local remote run_id known t ≡ []
    → let by_id = positions_by_id [] remote.positions in
      let rsize = size_of (lookup i by_id) in
      let stop = lookup i remote.stops in
      Agrees (lookup i local) rsize stop
      × ((is_some stop ≡ false) ⊎ (is_zero rsize ≡ false))
      × All (λ id. is_known run_id known id ≡ true) remote.open_orders
unfolding diff all_keys
diff_nil local remote run_id known t i h =
    let by_id = positions_by_id [] remote.positions in
    let keys = add_keys local (add_keys by_id []) in
    let (a, b) =
      append_nil (check_all local by_id remote.stops t keys)
        (orphan_stops by_id remote.stops ++ unknown_orders run_id known remote.open_orders) h in
    let (c, d) =
      append_nil (orphan_stops by_id remote.stops) (unknown_orders run_id known remote.open_orders)
        b in
    (
      agrees (Bool-cases (mem_ℕ i keys)) a,
      elim (Bool-cases (is_some (lookup i remote.stops))) [
        | inl s ↦ inr (orphan_stops_nil by_id remote.stops i c s)
        | inr s ↦ inl s
      ],
      unknown_orders_nil run_id known remote.open_orders d,
    )
  where
    agrees :
        let by_id = positions_by_id [] remote.positions in
        let keys = add_keys local (add_keys by_id []) in
        (mem_ℕ i keys ≡ true) ⊎ (mem_ℕ i keys ≡ false)
        → check_all local by_id remote.stops t keys ≡ []
        → Agrees (lookup i local) (size_of (lookup i by_id)) (lookup i remote.stops)
    agrees (inl m) a =
        let by_id = positions_by_id [] remote.positions in
        check_one_nil local by_id remote.stops t i
          (check_all_nil local by_id remote.stops t (add_keys local (add_keys by_id [])) i m a)
    agrees (inr m) a =
        let by_id = positions_by_id [] remote.positions in
        let (l, n) = mem-add_keys_left i local (add_keys by_id []) m in
        let (r, _) = mem-add_keys_left i by_id [] n in rw (l, r) (inl refl, inr refl)
