-- ===== src/Tx/Fees.antt =====
-- FeeUnits and LoadUnits of every transaction. A parameter of the genesis that is 0 where it
-- divides is a panic.
use spacesvm.Prelude.{
  ℕ, ◌+◌, ◌≡◌, List, [], ◌∷◌, Bytes, length, ltb, add64, sub64, mul64, if◌then◌else◌,
}
use spacesvm.Errors.{Result, ok, div64, ◌>>=◌}
use spacesvm.Types.{
  Transaction, UnsignedTransaction, claim_tx, lifeline_tx, set_tx, delete_tx, move_tx, transfer_tx,
}
use spacesvm.Parser.{max_identifier_size}
use spacesvm.Genesis.{Genesis}

unfoldable pub value_units : Genesis → ℕ → Result ℕ
value_units g size = do n ← div64 size g.value_unit_size; ok (add64 n 1)

unfoldable pub space_name_units : Genesis → Bytes → ℕ
space_name_units g s =
    let desirability =
      mul64 (sub64 max_identifier_size (length s)) g.space_desirability_multiplier in
    if ltb desirability g.min_claim_fee then g.min_claim_fee else desirability

-- BaseTx
abbrev pub base_fee_units : Genesis → Result ℕ
base_fee_units g = ok g.base_tx_units

abbrev pub base_load_units : Genesis → Result ℕ
base_load_units g = base_fee_units g

-- ClaimTx
abbrev pub claim_load_units : Genesis → Result ℕ
claim_load_units g = do n ← base_load_units g; ok (mul64 n g.claim_load_multiplier)

abbrev pub claim_fee_units : Genesis → Bytes → Result ℕ
claim_fee_units g space = do load ← claim_load_units g; ok (add64 load (space_name_units g space))

-- LifelineTx
abbrev pub lifeline_load_units : Genesis → Result ℕ
lifeline_load_units g = do n ← base_load_units g; ok (mul64 n g.claim_load_multiplier)

abbrev pub lifeline_fee_units : Genesis → Bytes → ℕ → Result ℕ
lifeline_fee_units g space units = do
  d ← div64 (space_name_units g space) g.space_renewal_discount
  load ← lifeline_load_units g
  ok (add64 load (mul64 d units))

-- SetTx
abbrev pub set_fee_units : Genesis → Bytes → Result ℕ
set_fee_units g value = do
  fee ← base_fee_units g
  n ← value_units g (length value)
  ok (add64 fee n)

abbrev pub set_load_units : Genesis → Bytes → Result ℕ
set_load_units g value = set_fee_units g value

-- the calls through the interface; the other transactions have BaseTx's methods
unfoldable pub load_units : Genesis → UnsignedTransaction → Result ℕ
load_units g (claim_tx _ _) = claim_load_units g
load_units g (lifeline_tx _ _ _) = lifeline_load_units g
load_units g (set_tx _ _ _ value) = set_load_units g value
load_units g (delete_tx _ _ _) = base_load_units g
load_units g (move_tx _ _ _) = base_load_units g
load_units g (transfer_tx _ _ _) = base_load_units g

unfoldable pub fee_units : Genesis → UnsignedTransaction → Result ℕ
fee_units g (claim_tx _ space) = claim_fee_units g space
fee_units g (lifeline_tx _ space units) = lifeline_fee_units g space units
fee_units g (set_tx _ _ _ value) = set_fee_units g value
fee_units g (delete_tx _ _ _) = base_fee_units g
fee_units g (move_tx _ _ _) = base_fee_units g
fee_units g (transfer_tx _ _ _) = base_fee_units g

-- The transactions together load that many units.
pub data Loads (g : Genesis) : List Transaction → ℕ → Type 0 where
  none : Loads g [] 0
  more :
      (tx : Transaction) (txs : List Transaction) (n units : ℕ)
      → load_units g tx.unsigned ≡ ok n
      → Loads g txs units
      → Loads g (tx ∷ txs) (n + units)
