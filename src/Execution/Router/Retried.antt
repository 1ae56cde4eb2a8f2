-- ===== src/Execution/Router/Retried.antt =====
-- What _submit_with_recovery of polyperps/execution/order_router.py does after a submission that timed out.
use perpbot.Base.{
  ℕ, true, false, ◌≡◌, refl, sym, ap, subst, ◌∙◌, Option, none, some, List, [], ◌∷◌, ◌⊎◌, ◌↔◌, inl,
  inr, In, arith, Bool-cases, eqb_text, eqb_text→eq, eqb_text_refl, ◌<ℤ◌, ◌-ℤ◌, pos, if◌then◌else◌,
}
use perpbot.Decimal.{Decimal}
use perpbot.Execution.Types.{
  Side, buy, sell, OrderRequest, OrderAck, AccountSnapshot, PositionView, Text, position,
}
use perpbot.Execution.Router.Send.{
  landed, mem_text, size_of, moved_toward, adopted_ack, attempt, after_timeout,
  submit_with_recovery,
}
use perpbot.Monitor.{warn}
use perpbot.Execution.World.{
  Result, ok, err, Submitted, acked, timed_out, raised, Executor, World, pure, emit, ◌>>◌,
}

-- The size that a snapshot gives for an instrument.
abbrev pub held_size : Option PositionView → Decimal
held_size none = pos 0
held_size (some p) = p.size

abbrev pub MovedFrom : Side → (before after : Decimal) → Type 0
MovedFrom buy before after = before <ℤ after
MovedFrom sell before after = after <ℤ before

-- The order rests on the venue, or the position has moved in its direction.
abbrev pub HasLanded : ℕ → OrderRequest → AccountSnapshot → Decimal → Type 0
HasLanded i req snap before =
    In req.client_order_id snap.open_orders
    ⊎ MovedFrom req.side before (held_size (position snap i))

mem_text-In : (k : Text) (ks : List Text) → (mem_text k ks ≡ true) ↔ In k ks
mem_text-In k [] = (λ h. cc, λ n. absurd n)
mem_text-In k (j ∷ js) =
    let ih = mem_text-In k js in
    elim (Bool-cases (eqb_text k j)) [
      | inl e ↦ (λ h. inl (eqb_text→eq k j e), λ n. rw e refl)
      | inr e ↦ (
        λ h. inr (ih.0 (rw e at h)),
        λ n. elim n [ inl same ↦ absurd (cc (e, eqb_text_refl k, same)) | inr m ↦ rw e (ih.1 m) ],
      )
    ]

moved_toward_lem :
    (side : Side) (p : Option PositionView) (before : Decimal)
    → (moved_toward side (size_of p -ℤ before) ≡ true) ↔ MovedFrom side before (held_size p)
unfolding ◌-ℤ◌
moved_toward_lem buy none before = (λ h. ground arith, λ h. ground arith)
moved_toward_lem buy (some p) before = (λ h. ground arith, λ h. ground arith)
moved_toward_lem sell none before = (λ h. ground arith, λ h. ground arith)
moved_toward_lem sell (some p) before = (λ h. ground arith, λ h. ground arith)

landed-HasLanded :
    (i : ℕ) (req : OrderRequest) (snap : AccountSnapshot) (before : Decimal)
    → (landed i req snap before ≡ true) ↔ HasLanded i req snap before
unfolding landed
landed-HasLanded i req snap before =
    let rests = mem_text-In req.client_order_id snap.open_orders in
    let moved = moved_toward_lem req.side (position snap i) before in
    elim (Bool-cases (mem_text req.client_order_id snap.open_orders)) [
      | inl e ↦ (λ h. inl (rests.0 e), λ h. rw e refl)
      | inr e ↦ (
        λ h. inr (moved.0 (rw e at h)),
        λ h. elim h [ inl n ↦ rw (rests.1 n) refl | inr m ↦ rw (e, moved.1 m) refl ],
      )
    ]

not_landed :
    (i : ℕ) (req : OrderRequest) (snap : AccountSnapshot) (before : Decimal)
    → landed i req snap before ≡ false
    → HasLanded i req snap before
    → ⊥
not_landed i req snap before f h = absurd (cc (f, (landed-HasLanded i req snap before).1 h))

module _ {E S : Type 0} ⦃x : Executor E⦄ where
  -- An order that has landed is taken as accepted; the other is what `otherwise` says.
  abbrev pub Looked :
      OrderRequest
      → Decimal
      → AccountSnapshot
      → World E S
      → Result (Option OrderAck)
      → (otherwise : Type 0) → Type 0
  Looked req before snap w res otherwise =
      (HasLanded w.router.instrument_id req snap before × (res ≡ ok (some (adopted_ack req w.now))))
      ⊎ ((HasLanded w.router.instrument_id req snap before → ⊥) × otherwise)

  -- After the second time out: the order is looked for once more, and is lost if it is not there.
  abbrev pub LookedAgain :
      OrderRequest
      → Decimal
      → World E S
      → Result AccountSnapshot × E
      → Result (Option OrderAck) × World E S
      → Type 0
  LookedAgain req before w (ok snap, e) r =
      Looked req before snap w r.0 (r.0 ≡ ok none) × (r.1.exec ≡ e)
  LookedAgain req before w (err er, e) r = (r.0 ≡ err er) × (r.1.exec ≡ e)

  -- What comes of the second submission.
  abbrev pub SentAgain :
      OrderRequest
      → Decimal
      → World E S
      → Submitted × E
      → Result (Option OrderAck) × World E S
      → Type 0
  SentAgain req before w (acked a, e) r = (r.0 ≡ ok (some a)) × (r.1.exec ≡ e)
  SentAgain req before w (raised er, e) r = (r.0 ≡ err er) × (r.1.exec ≡ e)
  SentAgain req before w (timed_out, e) r = LookedAgain req before w (x.snapshot e) r

  -- After a time out and a snapshot, which left the executor as `e`: an order that has landed is not sent again.
  abbrev pub TimedOut :
      OrderRequest
      → Decimal
      → AccountSnapshot
      → World E S
      → (e : E) → Result (Option OrderAck) × World E S
      → Type 0
  TimedOut req before snap w e r =
      (HasLanded w.router.instrument_id req snap before
        × (r.0 ≡ ok (some (adopted_ack req w.now)))
        × (r.1.exec ≡ e))
      ⊎ ((HasLanded w.router.instrument_id req snap before → ⊥)
          × SentAgain req before w (x.submit_order req e) r)

  -- `attempt`, as a function of what the executor answers, and a look, as one of the snapshot.
  abbrev attempted :
      (World E S → Result (Option OrderAck) × World E S)
      → World E S
      → Submitted × E
      → Result (Option OrderAck) × World E S
  attempted on_timeout w (acked a, e) = (ok (some a), record w { exec = e })
  attempted on_timeout w (timed_out, e) = on_timeout (record w { exec = e })
  attempted on_timeout w (raised er, e) = (err er, record w { exec = e })

  attempt-attempted :
      (req : OrderRequest) (k : World E S → Result (Option OrderAck) × World E S) (w : World E S)
      → attempt req k w ≡ attempted k w (x.submit_order req w.exec)
  attempt-attempted req k w = by_answer (x.submit_order req w.exec)
    where
      by_answer :
          (p : Submitted × E)
          → elim p.0 [
            | acked a ↦ (ok (some a), record w { exec = p.1 })
            | timed_out ↦ k (record w { exec = p.1 })
            | raised er ↦ (err er, record w { exec = p.1 })
          ]
            ≡ attempted k w p
      by_answer (acked a, e) = refl
      by_answer (timed_out, e) = refl
      by_answer (raised er, e) = refl

  -- `after_timeout`, as a function of the snapshot.
  abbrev looked :
      OrderRequest
      → Decimal
      → (World E S → Result (Option OrderAck) × World E S)
      → World E S
      → Result AccountSnapshot × E
      → Result (Option OrderAck) × World E S
  looked req before again w q =
      let v : World E S = record w { exec = q.1 } in
      elim q.0 [
        | ok snap ↦
            if landed w.router.instrument_id req snap before
            then (emit warn "ack_lost" >> pure (some (adopted_ack req w.now))) v
            else again v
        | err er ↦ (err er, v)
      ]

  looked-LookedAgain :
      (req : OrderRequest) (before : Decimal) (w : World E S) (q : Result AccountSnapshot × E)
      → LookedAgain req before w q (looked req before (pure none) w q)
  looked-LookedAgain req before w (err er, e) = (refl, refl)
  looked-LookedAgain req before w (ok snap, e) =
      let i = w.router.instrument_id in
      elim (Bool-cases (landed i req snap before)) [
        | inl l ↦ rw l (inl ((landed-HasLanded i req snap before).0 l, refl), refl)
        | inr l ↦ rw l (inr (not_landed i req snap before l, refl), refl)
      ]

  attempted-SentAgain :
      (req : OrderRequest) (before : Decimal) (w : World E S) (p : Submitted × E)
      → SentAgain req before w p (attempted (after_timeout req before (pure none)) w p)
  attempted-SentAgain req before w (acked a, e) = (refl, refl)
  attempted-SentAgain req before w (raised er, e) = (refl, refl)
  attempted-SentAgain req before w (timed_out, e) =
      looked-LookedAgain req before (record w { exec = e }) (x.snapshot e)

  second-SentAgain :
      (req : OrderRequest) (before : Decimal) (w : World E S)
      → SentAgain req before w
          (x.submit_order req w.exec)
          (attempt req (after_timeout req before (pure none)) w)
  second-SentAgain req before w =
      subst (λ r. SentAgain req before w (x.submit_order req w.exec) r)
        (sym (attempt-attempted req (after_timeout req before (pure none)) w))
        (attempted-SentAgain req before w (x.submit_order req w.exec))

  abbrev again : OrderRequest → Decimal → World E S → Result (Option OrderAck) × World E S
  again req before = emit warn "retry" >> attempt req (after_timeout req before (pure none))

  first_look :
      (req : OrderRequest) (before : Decimal) (w : World E S) (snap : AccountSnapshot) {e₁ e₂ : E}
      → x.submit_order req w.exec ≡ (timed_out, e₁)
      → x.snapshot e₁ ≡ (ok snap, e₂)
      → submit_with_recovery req before w
        ≡ looked req before (again req before) (record w { exec = e₁ }) (ok snap, e₂)
  unfolding submit_with_recovery
  first_look req before w snap {e₁} {e₂} s p =
      attempt-attempted req (after_timeout req before (again req before)) w
      ∙ ap (attempted (after_timeout req before (again req before)) w) s
      ∙ ap (looked req before (again req before) (record w { exec = e₁ })) p

  -- After a first submission that timed out and a snapshot: an order that rests on the venue, or with a position that
  -- moved its way, is taken as accepted and is not sent again. Any other is sent once more as the same request, and
  -- that acknowledgement or error counts; if it times out too, the order is looked for once more and is taken as
  -- accepted or as lost, and is not sent a third time.
  pub submit_timed_out :
      (req : OrderRequest) (size_before : Decimal) (w : World E S) (snap : AccountSnapshot)
      {e₁ e₂ : E}
      → x.submit_order req w.exec ≡ (timed_out, e₁)
      → x.snapshot e₁ ≡ (ok snap, e₂)
      → TimedOut req size_before snap w e₂ (submit_with_recovery req size_before w)
  submit_timed_out req before w snap {e₁} {e₂} s p =
      let i = w.router.instrument_id in
      let v : World E S = record w { exec = e₂ } in
      subst (λ r. TimedOut req before snap w e₂ r) (sym (first_look req before w snap s p))
        (elim (Bool-cases (landed i req snap before)) [
          | inl l ↦ rw l (inl ((landed-HasLanded i req snap before).0 l, refl, refl))
          | inr l ↦ rw l (
              inr (
                not_landed i req snap before l,
                second-SentAgain req before (emit warn "retry" v).1,
              ))
        ])
