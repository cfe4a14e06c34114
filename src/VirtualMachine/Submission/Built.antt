-- ===== src/VirtualMachine/Submission/Built.antt =====
-- The loop of BuildBlock of chain/builder.go: it ends, and what it picks fits into a block.
use spacesvm.Prelude.{
  ℕ, zero, suc, ◌≤◌, ◌≡◌, ◌≢◌, ◌⊎◌, inl, inr, refl, sym, subst, true, false, Bool-cases, List, [],
  ◌∷◌, ◌++◌, ltb, ltb-false→le, ltb→lt, add64, ◌==◌, arith,
}
use spacesvm.Errors.{Error, Result, ok, err, panic, out_of_fuel}
use spacesvm.Platform.{Database, Platform}
use spacesvm.Types.{Transaction, StatelessBlock}
use spacesvm.Genesis.{Genesis}
use spacesvm.Tx.{Context}
use spacesvm.Tx.Fees.{load_units}
use spacesvm.Tx.Execute.{execute}
use spacesvm.Block.{check_size}
use spacesvm.Mempool.{len}
use spacesvm.Mempool.Package.{HeapPackage}
use spacesvm.Mempool.Insertion.{IsPool, price}
use spacesvm.VirtualMachine.Submission.{Trial, Picked, pick_all, nothing}
use spacesvm.VirtualMachine.Submission.Rounds.{
  Takes, drops, sets_aside, takes, stops, goes_on, fails, round,
}

-- each pays at least the block's price
abbrev pub PaysAll : StatelessBlock → List Transaction → Type 0
PaysAll b [] = Unit
PaysAll b (tx ∷ txs) = (b.price ≤ price tx) × PaysAll b txs

module _ ⦃db : Database⦄ ⦃p : Platform⦄ ⦃pkg : HeapPackage⦄ (g : Genesis) (b : StatelessBlock)
    (context : Context) where
  -- The loads of the transactions lead from `n` to `m`, and stay within the size of a block.
  data Loading : ℕ → List Transaction → ℕ → Type 0 where
    none_left : (n : ℕ) → Loading n [] n
    one_more :
        (n m load : ℕ) (tx : Transaction) (txs : List Transaction)
        → load_units g tx.unsigned ≡ ok load
        → add64 n load ≤ g.max_block_size
        → Loading (add64 n load) txs m
        → Loading n (tx ∷ txs) m

  Loading-append :
      (n m load : ℕ) (txs : List Transaction) (tx : Transaction)
      → Loading n txs m
      → load_units g tx.unsigned ≡ ok load
      → add64 m load ≤ g.max_block_size
      → Loading n (txs ++ tx ∷ []) (add64 m load)
  Loading-append n m load [] tx (none_left n') l fits =
      one_more n (add64 n load) load tx [] l fits (none_left (add64 n load))
  Loading-append n m load (x ∷ txs) tx (one_more n' m' first x' txs' l' f' rest) l fits =
      one_more n (add64 m load) first x (txs ++ tx ∷ []) l' f'
        (Loading-append (add64 n first) m load txs tx rest l fits)

  Loading-check_size :
      (n m : ℕ) (txs : List Transaction) → Loading n txs m → check_size g n txs ≡ ok tt
  unfolding check_size
  Loading-check_size n m [] h = refl
  Loading-check_size n m (tx ∷ txs) (one_more n' m' load tx' txs' l fits rest) =
      let small : ltb g.max_block_size (add64 n load) ≡ false = ground arith in
      rw (check_size, l, small) (Loading-check_size (add64 n load) m txs rest)

  PaysAll-append :
      (txs : List Transaction) (tx : Transaction)
      → PaysAll b txs
      → b.price ≤ price tx
      → PaysAll b (txs ++ tx ∷ [])
  PaysAll-append [] tx h pays = (pays, tt)
  PaysAll-append (x ∷ txs) tx h pays = (h.0, PaysAll-append txs tx h.1 pays)

  Good : Picked → Type 0
  Good k = Loading 0 k.txs k.units × PaysAll b k.txs

  Takes-Good : (k k1 : Picked) → Takes g b context k k1 → Good k → Good k1
  unfolding Good
  Takes-Good k k1 drops h = h
  Takes-Good k k1 (sets_aside next) h = h
  Takes-Good k k1 (takes next load l fits pays) (loading, all) =
      (Loading-append 0 k.units load k.txs next loading l fits, PaysAll-append k.txs next all pays)

  -- How the loop ends.
  Ended : Result Picked → Type 0
  Ended (ok k) = Good k
  Ended (err e) = Unit
  Ended panic = Unit
  Ended out_of_fuel =
      (next : Transaction) × (d : db.Db) × ((execute g b context next d).0 ≡ out_of_fuel)

  empty-Ended :
      (fuel : ℕ) (k : Picked) (t : Trial db.Db)
      → len t.pool ≡ 0
      → Good k
      → Ended (pick_all g b context fuel k t).0
  unfolding pick_all Ended
  empty-Ended zero k t e h = let none : (len t.pool == 0) ≡ true = ground arith in rw none h
  empty-Ended (suc fuel) k t e h = let none : (len t.pool == 0) ≡ true = ground arith in rw none h

  failed-Ended :
      (r : Result Picked)
      → (r ≡ panic)
        ⊎ ((e : Error) × (r ≡ err e))
        ⊎ ((r ≡ out_of_fuel)
            × ((next : Transaction) × (d : db.Db) × ((execute g b context next d).0 ≡ out_of_fuel)))
      → Ended r
  unfolding Ended
  failed-Ended (ok k) h = elim h [
    | inl e ↦ absurd (cc)
    | inr (inl (x, e)) ↦ absurd (cc)
    | inr (inr (e, _)) ↦ absurd (cc)
  ]
  failed-Ended (err e) h = tt
  failed-Ended panic h = tt
  failed-Ended out_of_fuel h = elim h [
    | inl e ↦ absurd (cc)
    | inr (inl (x, e)) ↦ absurd (cc)
    | inr (inr (e, found)) ↦ found
  ]

  pick_all-Ended :
      (fuel : ℕ) (k : Picked) (t : Trial db.Db)
      → IsPool t.pool
      → len t.pool ≤ fuel
      → Good k
      → Ended (pick_all g b context fuel k t).0
  unfolding Ended
  pick_all-Ended zero k t pool bound h = empty-Ended zero k t (omega arith) h
  pick_all-Ended (suc fuel) k t pool bound h = elim (Bool-cases (ltb 0 (len t.pool))) [
    | inr empty ↦ empty-Ended (suc fuel) k t (omega (arith, ltb-false→le 0 (len t.pool) empty)) h
    | inl more ↦ elim (round g b context fuel k t pool (ltb→lt 0 (len t.pool) more)) [
      | stops t1 e ↦ subst (λ x. Ended x.0) (sym e) h
      | goes_on k1 t1 e q size step ↦
          subst (λ x. Ended x.0) (sym e)
            (pick_all-Ended fuel k1 t1 q (omega (arith, size)) (Takes-Good k k1 step h))
      | fails r t1 e failed ↦ subst (λ x. Ended x.0) (sym e) (failed-Ended r failed)
    ]
  ]

  -- When the loop of BuildBlock returns from a mempool in order, with fuel for each of its transactions,
  -- the transactions that it picked pass the size check of `verify`, and each pays at least the price of
  -- the block.
  pub pick_all-fits :
      (fuel : ℕ) (t : Trial db.Db) (k : Picked)
      → IsPool t.pool
      → len t.pool ≤ fuel
      → (pick_all g b context fuel nothing t).0 ≡ ok k
      → (check_size g 0 k.txs ≡ ok tt) × PaysAll b k.txs
  unfolding Ended Good
  pick_all-fits fuel t k pool bound h =
      let (loading, all) =
        subst Ended h (pick_all-Ended fuel nothing t pool bound (none_left 0, tt)) in
      (Loading-check_size 0 k.units k.txs loading, all)

  -- From a mempool in order, the loop of BuildBlock with fuel for each of its transactions runs out of
  -- fuel only where the execution of a transaction does.
  pub pick_all-terminates :
      (fuel : ℕ) (t : Trial db.Db)
      → IsPool t.pool
      → len t.pool ≤ fuel
      → ((next : Transaction) (d : db.Db) → (execute g b context next d).0 ≢ out_of_fuel)
      → (pick_all g b context fuel nothing t).0 ≢ out_of_fuel
  unfolding Ended Good
  pick_all-terminates fuel t pool bound returns h =
      let (next, d, e) =
        subst Ended h (pick_all-Ended fuel nothing t pool bound (none_left 0, tt)) in
      returns next d e
