-- ===== src/Exchange/Client/Paged.antt =====
-- The loop over the pages of polyperps/exchange/client.py, and the limiter that it is paced by.
use mathlib.Core.List.{append_assoc, map-append}
use perpbot.Base.{
  pos, ℕ, zero, suc, ◌+◌, ◌-◌, ◌*◌, ◌≤◌, ◌<◌, ◌≡◌, refl, ap, true, false, List, [], ◌∷◌, ◌++◌, map,
  length, All,
}
use perpbot.Exchange.Client.{Answer, answer, VenueFunding, funding_from_rest}
use perpbot.Exchange.Client.Calls.{
  Page, Sdk, PerpsClient, acquire_token, collect_pages, fetch_funding_history,
}
use perpbot.Exchange.TokenBucket.{acquire_all, is_clocked}
use perpbot.Exchange.TokenBucket.Paced.{acquire_all_bounded}
use perpbot.Execution.Types.{Time}

-- The items of pages, in order.
abbrev pub all_items : {A : Type 0} → List (Page A) → List A
all_items [] = []
all_items (p ∷ ps) = p.items ++ all_items ps

module _ {S : Type 0} ⦃x : Sdk S⦄ where
  -- What the limiter's clock reads around the next calls.
  unfoldable pub readings : ℕ → S → List (ℕ × ℕ)
  readings zero s = []
  readings (suc n) s = let (t, s') = x.pace s in t ∷ readings n s'

  length-readings : (n : ℕ) (s : S) → length (readings n s) ≡ n
  unfolding readings
  length-readings zero s = refl
  length-readings (suc n) s = ap suc (length-readings n (x.pace s).1)

  unfoldable pub take_tokens : ℕ → PerpsClient S → PerpsClient S
  take_tokens zero c = c
  take_tokens (suc n) c = take_tokens n (acquire_token c)

  take_tokens-limiter :
      (n : ℕ) (c : PerpsClient S)
      → (take_tokens n c).limiter ≡ acquire_all (readings n c.sdk) c.limiter
  unfolding take_tokens readings acquire_token acquire_all
  take_tokens-limiter zero c = refl
  take_tokens-limiter (suc n) c = take_tokens-limiter n (acquire_token c)

  -- Pages that say that more follow, up to one that says that none does, are all collected, with a token for each.
  collect_pages_lem :
      {A B : Type 0} (f : A → B) (ps : List (Page A)) (last : Page A)
      (rest : List (Answer (Page A))) (c : PerpsClient S)
      → All (λ p. p.has_more ≡ true) ps
      → last.has_more ≡ false
      → collect_pages f (map answer ps ++ (answer last ∷ rest)) c
        ≡ (answer (map f (all_items ps ++ last.items)), take_tokens (suc (length ps)) c)
  unfolding collect_pages take_tokens
  collect_pages_lem f [] last rest c more e = rw (e) refl
  collect_pages_lem f (p ∷ ps) last rest c more e =
      let ih = collect_pages_lem f ps last rest (acquire_token c) more.1 e in
      rw
        (
          more.0,
          ih,
          append_assoc p.items (all_items ps) last.items,
          map-append f p.items (all_items ps ++ last.items),
        )
        refl

-- A query of funding that the venue serves in pages that say that more follow, up to one that says that none does,
-- returns the rows of all of them, in order, as observations of REST of that instrument. It is paced: for a positive
-- rate, a burst of at least one and a limiter without debt, however full and however long idle, on a clock of the
-- limiter that does not go back and with sleeps that are not shorter than asked, the pages are at most its burst and
-- what comes in at its rate between the first reading of that clock in the query and the last.
pub fetch_funding_history_paced :
    {S : Type 0} ⦃x : Sdk S⦄ (i : ℕ) (start end : Time) (c : PerpsClient S)
    (ps : List (Page VenueFunding)) (last : Page VenueFunding)
    (rest : List (Answer (Page VenueFunding))) (shares : ℕ) {s : S}
    → x.list_perps_funding_history i start end c.sdk ≡ (map answer ps ++ (answer last ∷ rest), s)
    → All (λ p. p.has_more ≡ true) ps
    → last.has_more ≡ false
    → c.limiter.shares ≡ pos shares
    → 0 < c.limiter.rate
    → 1 ≤ c.limiter.burst
    → is_clocked (readings (suc (length ps)) (x.clock s).1) c.limiter ≡ true
    → let r = fetch_funding_history i start end c in
      let b = c.limiter in
      let first = (x.pace (x.clock s).1).0.0 in
      (r.0 ≡ answer (map (funding_from_rest i (x.clock s).0) (all_items ps ++ last.items)))
      × (suc (length ps) * b.unit ≤ b.burst * b.unit + (r.1.limiter.last - first) * b.rate)
unfolding fetch_funding_history readings
fetch_funding_history_paced ⦃x = x⦄ i start end c ps last rest shares {s} served more e held rate
      burst clocked =
    let (now, s') = x.clock s in
    let c' = record c { sdk = s' } in
    let n = suc (length ps) in
    let all = collect_pages_lem (funding_from_rest i now) ps last rest c' more e in
    let spent = take_tokens-limiter n c' in
    let ((t, u), s'') = x.pace s' in
    let bound =
      acquire_all_bounded t u (readings (length ps) s'') c.limiter shares held rate burst clocked in
    rw (served, all) (refl, rw (spent) (rw (length-readings (length ps) s'') at bound))
