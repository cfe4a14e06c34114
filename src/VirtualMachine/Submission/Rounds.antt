-- ===== src/VirtualMachine/Submission/Rounds.antt =====
-- A round of the loop of BuildBlock of chain/builder.go.
use spacesvm.Prelude.{
  ℕ, suc, ◌<◌, ◌≤◌, ◌≡◌, ◌≢◌, ◌⊎◌, inl, inr, refl, ap, ◌∙◌, Bool, true, false, Bool-cases, Option,
  some, [], ◌∷◌, ◌++◌, ltb, ltb-false→le, add64, ◌==◌, arith,
}
use spacesvm.Errors.{Error, Result, ok, err, panic, out_of_fuel}
use spacesvm.Exec.{return, lift, ◌>>=◌}
use spacesvm.Platform.{Database, Platform}
use spacesvm.Types.{
  Transaction, StatelessBlock, Activity, UnsignedTransaction, claim_tx, lifeline_tx, set_tx,
  delete_tx, move_tx, transfer_tx,
}
use spacesvm.Genesis.{Genesis}
use spacesvm.Tx.{Context}
use spacesvm.Tx.Fees.{load_units, value_units}
use spacesvm.Tx.Execute.{execute}
use spacesvm.Mempool.{Mempool, len, pop_max}
use spacesvm.Mempool.Package.{HeapPackage}
use spacesvm.Mempool.Insertion.{IsPool, price}
use spacesvm.Mempool.Refinement.{add-Added, pop_max-greatest}
use spacesvm.VirtualMachine.Submission.{
  Trial, Picked, on_pool, keep_tx, try_tx, pick, pop_next, go_on, pick_all,
}

module _ ⦃db : Database⦄ ⦃p : Platform⦄ ⦃pkg : HeapPackage⦄ (g : Genesis) (b : StatelessBlock)
    (context : Context) where
  -- What a round adds to the transactions that are picked.
  pub data Takes (k : Picked) : Picked → Type 0 where
    drops : Takes k k
    sets_aside : (next : Transaction) → Takes k (record k { unusable = k.unusable ++ next ∷ [] })
    takes :
        (next : Transaction) (load : ℕ)
        → load_units g next.unsigned ≡ ok load
        → add64 k.units load ≤ g.max_block_size
        → b.price ≤ price next
        → Takes k (record k { txs = k.txs ++ next ∷ []; units = add64 k.units load })

  -- How a round ends from a mempool that is not empty.
  pub data Round (fuel : ℕ) (k : Picked) (t : Trial db.Db) : Type 0 where
    stops : (t1 : Trial db.Db) → pick_all g b context (suc fuel) k t ≡ (ok k, t1) → Round fuel k t
    goes_on :
        (k1 : Picked) (t1 : Trial db.Db)
        → pick_all g b context (suc fuel) k t ≡ pick_all g b context fuel k1 t1
        → IsPool t1.pool
        → suc (len t1.pool) ≡ len t.pool
        → Takes k k1
        → Round fuel k t
    fails :
        (r : Result Picked) (t1 : Trial db.Db)
        → pick_all g b context (suc fuel) k t ≡ (r, t1)
        → (r ≡ panic)
          ⊎ ((e : Error) × (r ≡ err e))
          ⊎ ((r ≡ out_of_fuel)
              × ((next : Transaction) × (d : db.Db) × ((execute g b context next d).0
                    ≡ out_of_fuel)))
        → Round fuel k t

  load_units-returns : (u : UnsignedTransaction) → load_units g u ≢ out_of_fuel
  unfolding load_units value_units
  load_units-returns (claim_tx b' s) = λ e. cc
  load_units-returns (lifeline_tx b' s n) = λ e. cc
  load_units-returns (set_tx b' s k v) = λ e. ground arith
  load_units-returns (delete_tx b' s k) = λ e. cc
  load_units-returns (move_tx b' s t) = λ e. cc
  load_units-returns (transfer_tx b' t n) = λ e. cc

  module _ (fuel : ℕ) (k : Picked) (t : Trial db.Db) (next : Transaction) (r : Mempool)
      (ran : pop_max t.pool ≡ ok (some next, price next, r)) (pool : IsPool r)
      (size : suc (len r) ≡ len t.pool) where
    rest_trial : Trial db.Db
    rest_trial = record { vdb = t.vdb; pool = r }

    opened :
        pick_all g b context (suc fuel) k t
        ≡ (pick g b context k (some next) (price next)
              >>= go_on g b context (pick_all g b context fuel))
            rest_trial
    unfolding pick_all pop_next on_pool ◌>>=◌ rest_trial
    opened = let full : (len t.pool == 0) ≡ false = ground arith in rw (pick_all, full, ran) refl

    tried :
        (load : ℕ)
        → load_units g next.unsigned ≡ ok load
        → add64 k.units load ≤ g.max_block_size
        → b.price ≤ price next
        → pick_all g b context (suc fuel) k t
          ≡ (try_tx g b context k next load >>= go_on g b context (pick_all g b context fuel))
              rest_trial
        → Round fuel k t
    unfolding try_tx ◌>>=◌ rest_trial
    tried load l fits pays e = split (execute g b context next t.vdb) refl e
      where
        split :
            (x : Result (Option Activity) × db.Db)
            → execute g b context next t.vdb ≡ x
            → pick_all g b context (suc fuel) k t
              ≡ ((λ s. keep_tx g b context k next load s x)
                    >>= go_on g b context (pick_all g b context fuel))
                  rest_trial
            → Round fuel k t
        split (ok w, d) f e' =
            goes_on (record k { txs = k.txs ++ next ∷ []; units = add64 k.units load })
              (record { vdb = d; pool = r }) e' pool size (takes next load l fits pays)
        split (err x, d) f e' = goes_on k rest_trial e' pool size drops
        split (panic, d) f e' = fails panic rest_trial e' (inl refl)
        split (out_of_fuel, d) f e' =
            fails out_of_fuel rest_trial e' (inr (inr (refl, (next, t.vdb, ap (λ y. y.0) f))))

    -- the transaction is too cheap, and goes back
    cheap : ltb (price next) b.price ≡ true → Round fuel k t
    unfolding pick ◌>>=◌ on_pool return rest_trial
    cheap low =
        let (added, m, back, _, _, _) = add-Added r next pool in
        stops (record { vdb = t.vdb; pool = m }) (opened ∙ rw (pick, low, back) refl)

    priced : ltb (price next) b.price ≡ false → Round fuel k t
    unfolding pick ◌>>=◌ lift return rest_trial
    priced high = split (load_units g next.unsigned) refl
      where
        loaded :
            (load : ℕ)
            → load_units g next.unsigned ≡ ok load
            → (over : Bool) → ltb g.max_block_size (add64 k.units load) ≡ over
            → Round fuel k t
        loaded load l true o =
            goes_on (record k { unusable = k.unusable ++ next ∷ [] }) rest_trial
              (opened ∙ rw (pick, high, l, o) refl) pool size (sets_aside next)
        loaded load l false o =
            tried load l (ltb-false→le g.max_block_size (add64 k.units load) o)
              (ltb-false→le (price next) b.price high) (opened ∙ rw (pick, high, l, o) refl)

        split : (x : Result ℕ) → load_units g next.unsigned ≡ x → Round fuel k t
        split (ok load) l = loaded load l (ltb g.max_block_size (add64 k.units load)) refl
        split (err x) l =
            fails (err x) rest_trial (opened ∙ rw (pick, high, l) refl) (inr (inl (x, refl)))
        split panic l = fails panic rest_trial (opened ∙ rw (pick, high, l) refl) (inl refl)
        split out_of_fuel l = absurd (load_units-returns next.unsigned l)

  pub round :
      (fuel : ℕ) (k : Picked) (t : Trial db.Db) → IsPool t.pool → 0 < len t.pool → Round fuel k t
  round fuel k t pool more =
      let (next, r, ran, q, _, _, _, size) = pop_max-greatest t.pool pool more in
      elim (Bool-cases (ltb (price next) b.price)) [
        | inl low ↦ cheap fuel k t next r ran q size low
        | inr high ↦ priced fuel k t next r ran q size high
      ]
