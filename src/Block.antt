-- ===== src/Block.antt =====
-- chain/block.go: a block is checked against its parent and its context, and run on the state that
-- its parent leaves.
pub mod Accepted
pub mod Rules
pub mod Ownership
use spacesvm.Prelude.{
  ℕ, ◌+◌, Bool, true, false, not, ◌||◌, Option, none, some, List, [], ◌∷◌, ◌++◌, Bytes, ltb, leb,
  ◌==◌, add64, sub64, mul64, if◌then◌else◌,
}
use spacesvm.Errors.{
  Result, ok, err, fail_if, no_txs, timestamp_too_late, timestamp_too_early, block_too_big,
  invalid_cost, invalid_price, insufficient_surplus, parent_block_not_verified, ◌>>=◌, ◌>>◌,
}
use spacesvm.Exec
use spacesvm.Exec.{Exec, return, lift, run}
use spacesvm.Platform.{Database, Platform}
use spacesvm.Types.{
  Transaction, StatefulBlock, StatelessBlock, Activity, Status, processing, accepted, rejected,
}
use spacesvm.Genesis.{Genesis}
use spacesvm.Storage.Expiry.{expire_next}
use spacesvm.Tx.{Context, base}
use spacesvm.Tx.Fees.{fee_units, load_units}
use spacesvm.Tx.Execute.{execute}

abbrev pub future_bound : ℕ
future_bound = 10

-- A StatelessBlock with the database that its execution computed, of type `D`.
pub record Node (D : Type 0) : Type 0 where
  pub stateless : StatelessBlock
  pub open stateless use *
  pub on_accept_db : Option D

-- chain/vm.go: what a block asks of its VM.
pub record Vm (D : Type 0) : Type 0 where
  pub genesis : Genesis
  pub is_bootstrapped : Bool
  pub state : D
  pub get_stateless_block : Bytes → Result (Node D)
  pub execution_context : ℕ → Node D → Result Context

unfoldable pub is_accepted : Status → Bool
is_accepted accepted = true
is_accepted _ = false

-- the database on which the children of a block are run
unfoldable pub on_accept : {D : Type 0} → Vm D → Node D → Result D
on_accept vm b =
    if is_accepted b.st || b.hght == 0
    then ok vm.state
    else elim b.on_accept_db [ some d ↦ ok d | none ↦ err parent_block_not_verified ]

-- the loop over the load of the transactions
unfoldable pub check_size : Genesis → ℕ → List Transaction → Result (Unit {0})
check_size g block_size [] = ok tt
check_size g block_size (tx ∷ txs) = do
  load ← load_units g tx.unsigned
  fail_if (ltb g.max_block_size (add64 block_size load)) block_too_big
  check_size g (add64 block_size load) txs

module _ ⦃db : Database⦄ ⦃p : Platform⦄ where
  -- The loop over the transactions, with the surplus fee and the winners so far.
  unfoldable pub execute_txs :
      Genesis
      → StatelessBlock
      → Context
      → ℕ
      → List (Option Activity)
      → List Transaction
      → Exec db.Db (ℕ × List (Option Activity))
  execute_txs g b context surplus winners [] = return (surplus, winners)
  execute_txs g b context surplus winners (tx ∷ txs) = Exec.◌>>=◌ (execute g b context tx) λ w.
      Exec.◌>>=◌ (lift (fee_units g tx.unsigned)) λ fee.
        execute_txs g b context (add64 surplus (mul64 (sub64 (base tx.unsigned).price b.price) fee))
          (winners ++ w ∷ []) txs

  -- the part of `verify` that runs on the new database
  unfoldable pub run_block :
      Vm db.Db → Node db.Db → StatelessBlock → Context → Exec db.Db (ℕ × List (Option Activity))
  run_block vm parent b context =
      Exec.◌>>=◌ (expire_next parent.tmstmp b.tmstmp vm.is_bootstrapped)
        λ _. execute_txs vm.genesis b context 0 [] b.txs

  unfoldable pub is_empty : List Transaction → Bool
  is_empty [] = true
  is_empty (_ ∷ _) = false

  -- The parent, the database after the block, and the block's winners.
  unfoldable pub verify :
      Vm db.Db → ℕ → StatelessBlock → Result (Node db.Db × db.Db × List (Option Activity))
  unfolding is_empty
  verify vm now b = do
    fail_if (is_empty b.txs) no_txs
    fail_if (leb (now + future_bound) b.tmstmp) timestamp_too_late
    check_size vm.genesis 0 b.txs
    parent ← vm.get_stateless_block b.prnt
    fail_if (ltb b.tmstmp parent.tmstmp) timestamp_too_early
    context ← vm.execution_context b.tmstmp parent
    fail_if (not (b.cost == context.next_cost)) invalid_cost
    fail_if (not (b.price == context.next_price)) invalid_price
    parent_state ← on_accept vm parent
    ((surplus_fee, winners), on_accept_db) ← run (run_block vm parent b context) parent_state
    fail_if (ltb surplus_fee (mul64 b.price b.cost)) insufficient_surplus
    ok (parent, on_accept_db, winners)
