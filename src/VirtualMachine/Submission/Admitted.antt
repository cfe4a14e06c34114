-- ===== src/VirtualMachine/Submission/Admitted.antt =====
-- What Submit of vm/vm.go lets into the mempool.
use spacesvm.Prelude.{
  ℕ, ◌≤◌, ◌≡◌, ◌⊎◌, inl, inr, refl, sym, subst, Bool, true, false, Option, some, List, [], ◌∷◌,
  Bytes, ltb-false→le, arith,
}
use spacesvm.Errors.{Error, Result, ok, err, panic, out_of_fuel}
use spacesvm.Exec.{Exec, return, lift, continue, ◌>>=◌, ◌>>◌, bind-ok}
use spacesvm.Platform.{Database, Platform}
use spacesvm.Types.{Transaction, StatelessBlock, Activity}
use spacesvm.Genesis.{Genesis}
use spacesvm.Storage.Balances.{modify_balance}
use spacesvm.Tx.{Context, base, contains_id, execute_base}
use spacesvm.Tx.Actions.{reject_if}
use spacesvm.Tx.Actions.Permissions.{reject_if-ok, lift-ok}
use spacesvm.Tx.Execute.{init, execute}
use spacesvm.Tx.Fees.{fee_units}
use spacesvm.Mempool.{Mempool, len, get, add}
use spacesvm.Mempool.Package.{HeapPackage}
use spacesvm.Mempool.Insertion.{Added, duplicate, room, full, IsPool, price}
use spacesvm.Mempool.Refinement.{add-Added}
use spacesvm.VirtualMachine.Submission.{
  Trial, dummy_block, pooled, on_vdb, on_pool, submit, after_submit, submit_all,
}

-- The context lets the transaction into a block.
pub record Admits (context : Context) (u : Transaction) : Type 0 where
  pub names_recent : contains_id context.recent_block_ids (base u.unsigned).block_id ≡ true
  pub is_new : contains_id context.recent_tx_ids u.id ≡ false
  pub pays : context.next_price ≤ price u

reject_if-false :
    {S B : Type 0} (c : Bool) (e : Error) (k : Exec S B) (b : B) (s s' : S)
    → (reject_if c e >> k) s ≡ (ok b, s')
    → c ≡ false
unfolding ◌>>=◌
reject_if-false true e k b s s' h = absurd (cc)
reject_if-false false e k b s s' h = refl

module _ ⦃db : Database⦄ ⦃p : Platform⦄ where
  execute-Admits :
      (g : Genesis) (blk : StatelessBlock) (context : Context) (u : Transaction) (d d' : db.Db)
      (w : Option Activity)
      → execute g blk context u d ≡ (ok w, d')
      → Admits context u
  unfolding execute
  execute-Admits g blk context u d d' w h =
      let (_, _, k1) = lift-ok (execute_base g (base u.unsigned)) _ w d d' h in
      let recent = reject_if-false _ _ _ w d d' k1 in
      let k2 = reject_if-ok _ _ _ w d d' k1 in
      let fresh = reject_if-false _ _ _ w d d' k2 in
      let k3 = reject_if-ok _ _ _ w d d' k2 in
      let (fee, _, k4) = lift-ok (fee_units g u.unsigned) _ w d d' k3 in
      let (paid, _, k5) = bind-ok _ w d' (modify_balance u.sender false _) d k4 in
      let high = reject_if-false _ _ _ w _ d' k5 in
      record {
        names_recent = ground arith;
        is_new = fresh;
        pays = ltb-false→le (price u) context.next_price high;
      }

Added-get :
    (pool : Bytes → Option Transaction) (size max_size : ℕ) (tx : Transaction) (b : Bool)
    (id : Bytes) (u : Transaction) (after_add : Bytes → Option Transaction)
    → Added pool size max_size tx b after_add
    → after_add id ≡ some u
    → (pool id ≡ some u) ⊎ (u ≡ tx)
Added-get pool size max_size tx b id u after_add (duplicate t e) h = inl h
Added-get pool size max_size tx b id u after_add (room e l) h = ground (arith, h)
Added-get pool size max_size tx b id u after_add (full t e l f least) h = ground (arith, h)

module _ ⦃db : Database⦄ ⦃p : Platform⦄ ⦃pkg : HeapPackage⦄ (g : Genesis) (now : ℕ)
    (context : Context) where
  -- What is in the mempool was there before, or the context admits it.
  abbrev Grows : Mempool → Mempool → Type 0
  Grows m r =
      IsPool r
      × ((id : Bytes) (u : Transaction)
          → get r id ≡ some u
          → (get m id ≡ some u) ⊎ Admits context u)

  same-Grows : (m : Mempool) → IsPool m → Grows m m
  same-Grows m pool = (pool, λ id u h. inl h)

  Grows-trans : (m n r : Mempool) → Grows m n → Grows n r → Grows m r
  Grows-trans m n r first rest = (
    rest.0,
    λ id u h. elim (rest.1 id u h) [ inl old ↦ first.1 id u old | inr admitted ↦ inr admitted ],
  )

  submit-Grows :
      (tx : Transaction) (t : Trial db.Db)
      → IsPool t.pool
      → Grows t.pool (submit g now context tx t).1.pool
  unfolding submit on_vdb on_pool ◌>>=◌ lift return
  submit-Grows tx t pool = from_init (init tx)
    where
      added :
          (u : Transaction) (d : db.Db)
          → Admits context u
          → Grows t.pool
              (continue
                (pooled d t.pool (add t.pool u)).0
                (λ (_ : Bool). return tt)
                (pooled d t.pool (add t.pool u)).1).1.pool
      added u d admits =
          let (b, m, ran, q, spec, _) = add-Added t.pool u pool in
          rw ran (
            q,
            λ id v h.
                elim (Added-get (get t.pool) (len t.pool) t.pool.max_size u b id v (get m) spec h) [
                  | inl old ↦ inl old
                  | inr own ↦ inr (subst (Admits context) (sym own) admits)
                ],
          )

      from_execute :
          (u : Transaction) (r : Result (Option Activity)) (d : db.Db)
          → execute g (dummy_block now u) context u t.vdb ≡ (r, d)
          → Grows t.pool
              (continue r
                (λ _. on_pool (λ m. add m u) >>= λ (_ : Bool). return tt)
                (record t { vdb = d })).1.pool
      from_execute u (ok w) d e =
          added u d (execute-Admits g (dummy_block now u) context u t.vdb d w e)
      from_execute u (err x) d e = same-Grows t.pool pool
      from_execute u panic d e = same-Grows t.pool pool
      from_execute u out_of_fuel d e = same-Grows t.pool pool

      from_base :
          (u : Transaction) (r : Result (Unit {0}))
          → Grows t.pool
              (continue r
                (λ _. on_vdb (execute g (dummy_block now u) context u) >>= λ (_ : Option Activity).
                  on_pool (λ m. add m u) >>= λ (_ : Bool). return tt)
                t).1.pool
      from_base u (ok x) =
          let done = execute g (dummy_block now u) context u t.vdb in
          from_execute u done.0 done.1 refl
      from_base u (err x) = same-Grows t.pool pool
      from_base u panic = same-Grows t.pool pool
      from_base u out_of_fuel = same-Grows t.pool pool

      from_init :
          (r : Result Transaction)
          → Grows t.pool
              (continue r
                (λ u. lift (execute_base g (base u.unsigned)) >>= λ (_ : Unit {0}).
                  on_vdb (execute g (dummy_block now u) context u) >>= λ (_ : Option Activity).
                  on_pool (λ m. add m u) >>= λ (_ : Bool). return tt)
                t).1.pool
      from_init (ok u) = from_base u (execute_base g (base u.unsigned))
      from_init (err x) = same-Grows t.pool pool
      from_init panic = same-Grows t.pool pool
      from_init out_of_fuel = same-Grows t.pool pool

  listed :
      (e : Error) (r : Result (List Error)) (s : Trial db.Db)
      → (continue r (λ es. return (e ∷ es)) s).1 ≡ s
  unfolding return
  listed e (ok es) s = refl
  listed e (err x) s = refl
  listed e panic s = refl
  listed e out_of_fuel s = refl

  submit_all-Grows :
      (d : db.Db) (txs : List Transaction) (t : Trial db.Db)
      → IsPool t.pool
      → Grows t.pool (submit_all g now context d txs t).1.pool
  unfolding submit_all after_submit return ◌>>=◌
  submit_all-Grows d [] t pool = same-Grows t.pool pool
  submit_all-Grows d (tx ∷ txs) t pool =
      let done = submit g now context tx t in
      let first = submit-Grows tx t pool in
      after_one done.0 done.1 first (λ s q. submit_all-Grows d txs s q)
    where
      after_one :
          (r : Result (Unit {0})) (s : Trial db.Db)
          → Grows t.pool s.pool
          → ((s' : Trial db.Db)
              → IsPool s'.pool
              → Grows s'.pool (submit_all g now context d txs s').1.pool)
          → Grows t.pool (after_submit d (submit_all g now context d txs) (r, s)).1.pool
      after_one (ok u) s first rest =
          Grows-trans t.pool s.pool _ first (rest (record s { vdb = d }) first.0)
      after_one (err e) s first rest =
          let others = submit_all g now context d txs s in
          subst (λ x. Grows t.pool x.pool) (sym (listed e others.0 others.1))
            (Grows-trans t.pool s.pool _ first (rest s first.0))
      after_one panic s first rest = first
      after_one out_of_fuel s first rest = first

-- However Submit ends, the mempool stays in order, and what it holds was there before or is admitted:
-- it names a recent block, no recent block has it, and it pays at least the next price.
pub submit_all-Admits :
    ⦃db : Database⦄ ⦃p : Platform⦄ ⦃pkg : HeapPackage⦄
    → (g : Genesis) (now : ℕ) (context : Context) (d : db.Db) (txs : List Transaction)
      (t : Trial db.Db)
    → IsPool t.pool
    → IsPool (submit_all g now context d txs t).1.pool
      × ((id : Bytes) (u : Transaction)
          → get (submit_all g now context d txs t).1.pool id ≡ some u
          → (get t.pool id ≡ some u) ⊎ Admits context u)
submit_all-Admits g now context d txs t pool = submit_all-Grows g now context d txs t pool
