-- ===== src/Tx.antt =====
-- The transactions of package chain: base_tx.go, the six *_tx.go files, common_tx.go and tx.go.
-- This module has what they share.
pub mod Fees
pub mod Actions
pub mod Execute
use spacesvm.Prelude.{
  ℕ, Bool, true, false, List, [], ◌∷◌, Bytes, bytes_eq, ltb, ◌==◌, not, if◌then◌else◌,
}
use spacesvm.Errors.{Result, ok, err, invalid_block_id, invalid_magic, invalid_price}
use spacesvm.Types.{
  BaseTx, UnsignedTransaction, claim_tx, lifeline_tx, set_tx, delete_tx, move_tx, transfer_tx,
}
use spacesvm.Genesis.{Genesis, empty_id}

-- the embedded `*BaseTx`
unfoldable pub base : UnsignedTransaction → BaseTx
base (claim_tx b _) = b
base (lifeline_tx b _ _) = b
base (set_tx b _ _ _) = b
base (delete_tx b _ _) = b
base (move_tx b _ _) = b
base (transfer_tx b _ _) = b

-- chain/unsigned_tx.go
pub record TransactionContext : Type 0 where
  pub genesis : Genesis
  pub block_time : ℕ
  pub tx_id : Bytes
  pub sender : Bytes

-- chain/vm.go
pub record Context : Type 0 where
  pub recent_block_ids : List Bytes
  pub recent_tx_ids : List Bytes
  pub recent_load_units : ℕ
  pub prices : List ℕ
  pub costs : List ℕ
  pub next_cost : ℕ
  pub next_price : ℕ

-- ids.Set's Contains
unfoldable pub contains_id : List Bytes → Bytes → Bool
contains_id [] id = false
contains_id (x ∷ s) id = if bytes_eq x id then true else contains_id s id

unfoldable pub execute_base : Genesis → BaseTx → Result (Unit {0})
execute_base g b =
    if bytes_eq b.block_id empty_id
    then err invalid_block_id
    else if not (b.magic == g.magic)
    then err invalid_magic
    else if ltb b.price g.min_price
    then err invalid_price
    else ok tt
