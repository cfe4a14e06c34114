-- ===== src/Block/Rules.antt =====
-- What a block that passes `verify` of chain/block.go obeys.
use spacesvm.Prelude.{
  ℕ, ◌+◌, ◌≤◌, ◌<◌, ◌≡◌, ◌≢◌, subst, false, Option, List, [], ◌∷◌, leb, ltb, ◌==◌, not, arith,
  mul64, u64, add64, add64-exact, ltb-false→le, leb-false→lt, not-==→eq,
}
use spacesvm.Errors.{
  Result, ok, block_too_big, no_txs, timestamp_too_late, timestamp_too_early, invalid_cost,
  invalid_price, insufficient_surplus, bind-ok, fail_if-ok,
}
use spacesvm.Exec.{run}
use spacesvm.Platform.{Database, Platform}
use spacesvm.Types.{Transaction, StatelessBlock, Activity}
use spacesvm.Genesis.{Genesis}
use spacesvm.Tx.{Context}
use spacesvm.Tx.Fees.{load_units, Loads, none, more}
use spacesvm.Block.{Node, Vm, future_bound, is_empty, on_accept, check_size, run_block, verify}

-- The load units of the transactions, added up from `n` on as uint64 numbers, stay within the bound.
abbrev pub IsWithin : Genesis → ℕ → List Transaction → Type 0
IsWithin g n [] = Unit
IsWithin g n (tx ∷ txs) =
    (load : ℕ) × (load_units g tx.unsigned ≡ ok load)
    × (add64 n load ≤ g.max_block_size)
    × IsWithin g (add64 n load) txs

check_size-IsWithin :
    (g : Genesis) (n : ℕ) (txs : List Transaction) → check_size g n txs ≡ ok tt → IsWithin g n txs
unfolding check_size
check_size-IsWithin g n [] h = tt
check_size-IsWithin g n (tx ∷ txs) h =
    let (load, l, h1) = bind-ok (load_units g tx.unsigned) _ tt h in
    let (small, h2) =
      fail_if-ok (ltb g.max_block_size (add64 n load)) block_too_big
        (check_size g (add64 n load) txs) tt h1 in
    (load, l, ground arith, check_size-IsWithin g (add64 n load) txs h2)

-- No transaction loads so much that the sum of a full block and it is over the end of uint64.
abbrev pub AllSmall : Genesis → List Transaction → Type 0
AllSmall g [] = Unit
AllSmall g (tx ∷ txs) =
    ((n : ℕ) → load_units g tx.unsigned ≡ ok n → n + g.max_block_size < u64) × AllSmall g txs

within-Loads :
    (g : Genesis) (n : ℕ) (txs : List Transaction)
    → n ≤ g.max_block_size
    → AllSmall g txs
    → IsWithin g n txs
    → (total : ℕ) × Loads g txs total × (n + total ≤ g.max_block_size)
within-Loads g n [] b small within = (0, none, omega arith)
within-Loads g n (tx ∷ txs) b (fits, small) (load, l, bound, within) =
    let exact : add64 n load ≡ n + load = add64-exact n load (omega (arith, fits load l)) in
    let (total, loads, rest) = within-Loads g (add64 n load) txs bound small within in
    (load + total, more tx txs load total l loads, omega (arith, exact, rest))

module _ ⦃db : Database⦄ ⦃p : Platform⦄ where
  -- The rules that a block obeys under its parent and its context, with the database and the
  -- winners that running it on the parent's database gives.
  pub record Obeys (vm : Vm db.Db) (now : ℕ) (b : StatelessBlock) (parent : Node db.Db)
      (after_block : db.Db) (winners : List (Option Activity)) : Type 0 where
    pub not_empty : b.txs ≢ []
    pub not_late : b.tmstmp < now + future_bound
    pub within : IsWithin vm.genesis 0 b.txs
    pub has_parent : vm.get_stateless_block b.prnt ≡ ok parent
    pub not_early : parent.tmstmp ≤ b.tmstmp
    pub context : Context
    pub in_context : vm.execution_context b.tmstmp parent ≡ ok context
    pub cost_exact : b.cost ≡ context.next_cost
    pub price_exact : b.price ≡ context.next_price
    pub before_block : db.Db
    pub on_parent : on_accept vm parent ≡ ok before_block
    pub surplus : ℕ
    pub runs :
        run (run_block vm parent b context) before_block ≡ ok ((surplus, winners), after_block)
    pub pays : mul64 b.price b.cost ≤ surplus

  has_txs : (txs : List Transaction) → is_empty txs ≡ false → txs ≢ []
  unfolding is_empty
  has_txs [] h e = absurd (cc)
  has_txs (tx ∷ txs) h e = cc

  Obeys-returned :
      (vm : Vm db.Db) (now : ℕ) (b : StatelessBlock) (m n : Node db.Db) (c d : db.Db)
      (v w : List (Option Activity))
      → ◌≡◌ {A = Result (Node db.Db × db.Db × List (Option Activity))} (ok (m, c, v)) (ok (n, d, w))
      → Obeys vm now b m c v
      → Obeys vm now b n d w
  Obeys-returned vm now b m n c d v w same =
      let parts : ◌≡◌ {A = Node db.Db × db.Db × List (Option Activity)} (m, c, v) (n, d, w) = cc in
      subst (λ (t : Node db.Db × db.Db × List (Option Activity)). Obeys vm now b t.0 t.1 t.2) parts

  -- A block that is verified has transactions, a time that is at least its parent's and less than
  -- ten seconds ahead, load units within the bound, the cost and the price that its context says,
  -- transactions that all ran on its parent's database, and a surplus that pays its cost.
  pub verify-Obeys :
      (vm : Vm db.Db) (now : ℕ) (b : StatelessBlock) (parent : Node db.Db) (d : db.Db)
      (winners : List (Option Activity))
      → verify vm now b ≡ ok (parent, d, winners)
      → Obeys vm now b parent d winners
  unfolding verify is_empty
  verify-Obeys vm now b parent d winners h =
      let (h1, k1) = fail_if-ok (is_empty b.txs) no_txs _ _ h in
      let (h2, k2) = fail_if-ok (leb (now + future_bound) b.tmstmp) timestamp_too_late _ _ k1 in
      let (_, h3, k3) = bind-ok (check_size vm.genesis 0 b.txs) _ _ k2 in
      let (node, h4, k4) = bind-ok (vm.get_stateless_block b.prnt) _ _ k3 in
      let (h5, k5) = fail_if-ok (ltb b.tmstmp node.tmstmp) timestamp_too_early _ _ k4 in
      let (context, h6, k6) = bind-ok (vm.execution_context b.tmstmp node) _ _ k5 in
      let (h7, k7) = fail_if-ok (not (b.cost == context.next_cost)) invalid_cost _ _ k6 in
      let (h8, k8) = fail_if-ok (not (b.price == context.next_price)) invalid_price _ _ k7 in
      let (before, h9, k9) = bind-ok (on_accept vm node) _ _ k8 in
      let (((surplus, won), after_block), h10, k10) =
        bind-ok (run (run_block vm node b context) before) _ _ k9 in
      let (h11, k11) =
        fail_if-ok (ltb surplus (mul64 b.price b.cost)) insufficient_surplus _ _ k10 in
      let obeys : Obeys vm now b node after_block won = record {
        not_empty = has_txs b.txs h1;
        not_late = leb-false→lt (now + future_bound) b.tmstmp h2;
        within = check_size-IsWithin vm.genesis 0 b.txs h3;
        has_parent = h4;
        not_early = ltb-false→le b.tmstmp node.tmstmp h5;
        context = context;
        in_context = h6;
        cost_exact = not-==→eq b.cost context.next_cost h7;
        price_exact = not-==→eq b.price context.next_price h8;
        before_block = before;
        on_parent = h9;
        surplus = surplus;
        runs = h10;
        pays = ltb-false→le surplus (mul64 b.price b.cost) h11;
      } in
      Obeys-returned vm now b node parent after_block d won winners k11 obeys

  -- The transactions of a block that is verified load together, as numbers without a wrap-around, at most
  -- the size of a block, if none of them loads so much that it takes a full block over 2^64.
  pub verify-Loads :
      (vm : Vm db.Db) (now : ℕ) (b : StatelessBlock) (parent : Node db.Db) (d : db.Db)
      (winners : List (Option Activity))
      → AllSmall vm.genesis b.txs
      → verify vm now b ≡ ok (parent, d, winners)
      → (total : ℕ) × Loads vm.genesis b.txs total × (total ≤ vm.genesis.max_block_size)
  verify-Loads vm now b parent d winners small h =
      let (total, loads, bound) =
        within-Loads vm.genesis 0 b.txs (omega arith) small
          (verify-Obeys vm now b parent d winners h).within in
      (total, loads, omega (arith, bound))
