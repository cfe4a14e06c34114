-- ===== src/Block/Accepted.antt =====
-- The accepted blocks in chain/storage.go: a block is stored with the values of its set transactions
-- replaced by the transactions' ids, and the values under these ids.
pub mod Roundtrip
use spacesvm.Prelude.{
  ℕ, Bool, true, false, Option, none, some, List, [], ◌∷◌, Bytes, length, ◌==◌, if◌then◌else◌,
}
use spacesvm.Errors.{Result, ok, err, not_found, bad_id, bad_encoding}
use spacesvm.Exec.{Exec, return, lift, ◌>>=◌, ◌>>◌}
use spacesvm.Platform.{Database, Platform}
use spacesvm.Types.{
  BaseTx, UnsignedTransaction, Transaction, StatefulBlock, StatelessBlock, claim_tx, lifeline_tx,
  set_tx, delete_tx, move_tx, transfer_tx,
}
use spacesvm.Genesis.{empty_id}
use spacesvm.Keys.{last_accepted, prefix_block_key, prefix_tx_value_key}
use spacesvm.Storage.{load, store, require}
use spacesvm.Storage.Spaces.{short_empty}
use spacesvm.Tx.Execute.{init}

-- chain.Marshal and chain.Unmarshal at blocks; `none` is an error
pub record BlockCodec : Type 0 where
  pub marshal_block : StatefulBlock → Option Bytes
  pub unmarshal_block : Bytes → Option StatefulBlock

-- `Copy` of a transaction: what `Init` computes is left out.
unfoldable pub copy : Transaction → Transaction
copy tx = record {
  unsigned = tx.unsigned;
  signature = tx.signature;
  digest_hash = [];
  bytes = [];
  id = empty_id;
  size = 0;
  sender = short_empty;
}

module _ ⦃db : Database⦄ ⦃p : Platform⦄ where
  -- the case of a set transaction: the original transaction, and the linked one
  unfoldable pub link_set :
      Transaction → BaseTx → Bytes → Bytes → Bytes → Exec db.Db (Transaction × Transaction)
  link_set tx b space key value = if length value == 0 then return (tx, tx) else (do
    original ← lift (init (copy tx))
    store (prefix_tx_value_key tx.id) value
    return (original, record tx { unsigned = set_tx b space key tx.id }))

  unfoldable pub link_unsigned :
      Transaction → UnsignedTransaction → Exec db.Db (Transaction × Transaction)
  link_unsigned tx (set_tx b space key value) = link_set tx b space key value
  link_unsigned tx (claim_tx _ _) = return (tx, tx)
  link_unsigned tx (lifeline_tx _ _ _) = return (tx, tx)
  link_unsigned tx (delete_tx _ _ _) = return (tx, tx)
  link_unsigned tx (move_tx _ _ _) = return (tx, tx)
  link_unsigned tx (transfer_tx _ _ _) = return (tx, tx)

  -- The original transactions, and those that are written into the stored block.
  unfoldable pub link_values : List Transaction → Exec db.Db (List Transaction × List Transaction)
  link_values [] = return ([], [])
  link_values (tx ∷ txs) = link_unsigned tx tx.unsigned >>= λ one.
      link_values txs >>= λ rest. return (one.0 ∷ rest.0, one.1 ∷ rest.1)

  -- the value of a set transaction, read back
  unfoldable pub restore_value : Bytes → Exec db.Db Bytes
  restore_value value = if length value == 0 then return value else (do
    tx_id ← lift (require bad_id (p.to_id value))
    found ← load (prefix_tx_value_key tx_id)
    lift (require not_found found))

  unfoldable pub restore_unsigned : UnsignedTransaction → Exec db.Db UnsignedTransaction
  restore_unsigned (set_tx b space key value) =
      restore_value value >>= λ v. return (set_tx b space key v)
  restore_unsigned (claim_tx b space) = return (claim_tx b space)
  restore_unsigned (lifeline_tx b space units) = return (lifeline_tx b space units)
  restore_unsigned (delete_tx b space key) = return (delete_tx b space key)
  restore_unsigned (move_tx b space to) = return (move_tx b space to)
  restore_unsigned (transfer_tx b to units) = return (transfer_tx b to units)

  unfoldable pub restore_values : List Transaction → Exec db.Db (List Transaction)
  restore_values [] = return []
  restore_values (tx ∷ txs) = restore_unsigned tx.unsigned >>= λ u.
      restore_values txs >>= λ rest. return (record tx { unsigned = u } ∷ rest)

  module _ (codec : BlockCodec) where
    -- The block comes back with its original transactions.
    unfoldable pub set_last_accepted : StatelessBlock → Exec db.Db StatelessBlock
    set_last_accepted b = store last_accepted b.id >>= λ _. link_values b.txs >>= λ txs.
        lift (require bad_encoding (codec.marshal_block (record b.block { txs = txs.1 })))
        >>= λ sbytes. store (prefix_block_key b.id) sbytes >>= λ _.
            return (record b { block = record b.block { txs = txs.0 } })

    unfoldable pub get_block : Bytes → Exec db.Db StatefulBlock
    get_block bid = load (prefix_block_key bid) >>= λ found. lift (require not_found found) >>= λ b.
        lift (require bad_encoding (codec.unmarshal_block b)) >>= λ blk.
        restore_values blk.txs >>= λ txs. return (record blk { txs = txs })

  unfoldable pub has_last_accepted : Exec db.Db Bool
  has_last_accepted = load last_accepted >>= λ v. return (elim v [ none ↦ false | some _ ↦ true ])

  -- a missing entry is the empty id
  unfoldable pub decode_id : Option Bytes → Result Bytes
  decode_id none = ok empty_id
  decode_id (some v) = require bad_id (p.to_id v)

  unfoldable pub get_last_accepted : Exec db.Db Bytes
  unfolding decode_id
  get_last_accepted = load last_accepted >>= λ v. lift (decode_id v)
