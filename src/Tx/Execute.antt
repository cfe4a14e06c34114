-- ===== src/Tx/Execute.antt =====
-- chain/tx.go and chain/crypto.go: a transaction is initialised from its bytes, and executed in a
-- block.
pub mod Charges
pub mod Ownership
use spacesvm.Prelude.{
  ℕ, zero, suc, ◌-◌, ◌+◌, ◌/◌, ◌%◌, Bool, true, false, not, Option, none, some, List, [], ◌∷◌,
  Bytes, bytes_eq, length, ltb, leb, ◌==◌, mul64, if◌then◌else◌,
}
use spacesvm.Errors.{
  Result, ok, err, invalid_block_id, invalid_signature, duplicate_tx, insufficient_price, bad_id,
  bad_encoding, bad_signature,
}
use spacesvm.Errors
use spacesvm.Exec.{Exec, return, lift, ◌>>=◌, ◌>>◌}
use spacesvm.Platform.{Database, Platform}
use spacesvm.Types
use spacesvm.Types.{
  UnsignedTransaction, Transaction, StatefulBlock, StatelessBlock, Activity, ActivityType, claim_tx,
  lifeline_tx, set_tx, delete_tx, move_tx, transfer_tx, claim, lifeline, delete, move, transfer,
  reward,
}
use spacesvm.Genesis.{Genesis, empty_id, lottery_reward_divisor}
use spacesvm.Storage.{require}
use spacesvm.Storage.Values.{set_transaction}
use spacesvm.Storage.Balances.{modify_balance, apply_reward}
use spacesvm.Tx.{TransactionContext, Context, base, contains_id, execute_base}
use spacesvm.Tx.Fees.{fee_units}
use spacesvm.Tx.Actions.{reject_if, execute_unsigned}

abbrev pub signature_length : ℕ
signature_length = 65

abbrev pub v_offset : ℕ
v_offset = 64

abbrev pub legacy_sig_adj : ℕ
legacy_sig_adj = 27

-- A byte string with the byte at one place changed.
unfoldable pub change_at : ℕ → (ℕ → ℕ) → Bytes → Bytes
change_at n f [] = []
change_at zero f (b ∷ s) = f b ∷ s
change_at (suc n) f (b ∷ s) = b ∷ change_at n f s

-- `sig[vOffset] += legacySigAdj` on the signature that crypto.Sign returns
unfoldable pub sign : Result Bytes → Result Bytes
sign crypto_sign =
    Errors.◌>>=◌ crypto_sign λ sig. ok (change_at v_offset (λ v. (v + legacy_sig_adj) % 256) sig)

-- `if sigcpy[vOffset] >= legacySigAdj { sigcpy[vOffset] -= legacySigAdj }`
unfoldable pub remove_offset : ℕ → ℕ
remove_offset v = if leb legacy_sig_adj v then v - legacy_sig_adj else v

module _ ⦃p : Platform⦄ where
  unfoldable pub derive_sender : Bytes → Bytes → Result Bytes
  derive_sender dh sig =
      if not (length sig == signature_length)
      then err invalid_signature
      else require bad_signature (p.recover dh (change_at v_offset remove_offset sig))

  unfoldable pub init : Transaction → Result Transaction
  init t = Errors.◌>>=◌ (require bad_encoding (p.marshal_tx t.unsigned t.signature)) λ stx.
      Errors.◌>>=◌ (require bad_id (p.to_id (p.keccak256 stx))) λ id.
        Errors.◌>>=◌ (require bad_encoding (p.digest t.unsigned)) λ dh.
          Errors.◌>>=◌ (derive_sender dh t.signature) λ sender. ok (record t {
            bytes = stx;
            id = id;
            digest_hash = dh;
            sender = sender;
            size = length stx;
          })

  -- `Activity` of each transaction; a field that it leaves out is empty
  abbrev blank : ActivityType → Activity
  blank typ = record {
    tmstmp = 0;
    tx_id = [];
    typ = typ;
    sender = [];
    space = [];
    key = [];
    to = [];
    units = 0;
  }

  abbrev pub claim_activity : Bytes → Activity
  claim_activity space = record (blank claim) { space = space }

  abbrev pub lifeline_activity : Bytes → ℕ → Activity
  lifeline_activity space units = record (blank lifeline) { space = space; units = units }

  abbrev pub set_activity : Bytes → Bytes → Activity
  set_activity space key = record (blank Types.set) { space = space; key = key }

  abbrev pub delete_activity : Bytes → Bytes → Activity
  delete_activity space key = record (blank delete) { space = space; key = key }

  abbrev pub move_activity : Bytes → Bytes → Activity
  move_activity space to = record (blank move) { space = space; to = p.address_hex to }

  abbrev pub transfer_activity : Bytes → ℕ → Activity
  transfer_activity to units = record (blank transfer) { to = p.address_hex to; units = units }

  unfoldable pub unsigned_activity : UnsignedTransaction → Activity
  unsigned_activity (claim_tx _ space) = claim_activity space
  unsigned_activity (lifeline_tx _ space units) = lifeline_activity space units
  unsigned_activity (set_tx _ space key _) = set_activity space key
  unsigned_activity (delete_tx _ space key) = delete_activity space key
  unsigned_activity (move_tx _ space to) = move_activity space to
  unsigned_activity (transfer_tx _ to units) = transfer_activity to units

  -- with the sender and the id that tx.go adds
  unfoldable pub activity : Transaction → Activity
  activity t = record (unsigned_activity t.unsigned) {
    sender = p.address_hex t.sender;
    tx_id = t.id;
  }

unfoldable pub dummy : StatefulBlock → Bool
dummy b = bytes_eq b.prnt empty_id

module _ ⦃db : Database⦄ ⦃p : Platform⦄ where
  -- the Activity of a reward that was paid
  unfoldable pub winner : StatelessBlock → Transaction → ℕ → Option Bytes → Option Activity
  winner blk t amount none = none
  winner blk t amount (some recipient) = some (record {
    tmstmp = blk.tmstmp;
    tx_id = t.id;
    typ = reward;
    sender = [];
    space = [];
    key = [];
    to = p.address_hex recipient;
    units = amount;
  })

  -- the lottery at the end of Execute; what is returned goes into the block's Winners
  unfoldable pub lottery : Genesis → StatelessBlock → Transaction → ℕ → Exec db.Db (Option Activity)
  unfolding winner dummy
  lottery g blk t fee =
      let amount =
        mul64 (mul64 fee blk.price) g.lottery_reward_multipler / lottery_reward_divisor in
      if dummy blk.block then return none else if amount == 0 then return none else (do
        recipient ← apply_reward blk.id t.id t.sender amount
        return (winner blk t amount recipient))

  unfoldable pub execute :
      Genesis → StatelessBlock → Context → Transaction → Exec db.Db (Option Activity)
  execute g blk context t = do
    lift (execute_base g (base t.unsigned))
    reject_if (not (contains_id context.recent_block_ids (base t.unsigned).block_id))
        invalid_block_id
    reject_if (contains_id context.recent_tx_ids t.id) duplicate_tx
    fee ← lift (fee_units g t.unsigned)
    _ ← modify_balance t.sender false (mul64 fee (base t.unsigned).price)
    reject_if (ltb (base t.unsigned).price context.next_price) insufficient_price
    execute_unsigned
        (record { genesis = g; block_time = blk.tmstmp; tx_id = t.id; sender = t.sender })
        t.unsigned
    set_transaction t.id
    lottery g blk t fee
