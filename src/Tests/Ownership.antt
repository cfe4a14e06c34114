-- ===== src/Tests/Ownership.antt =====
-- A space in a block of other senders' transactions, and a block that passes the rules.
use spacesvm.Prelude.{
  ℕ, ◌≤◌, ◌≡◌, refl, sym, true, none, Option, List, [], ◌∷◌, Bytes, bytes_eq, bytes_eq_self,
  bytes_compare, arith, add64, mul64, sub64,
}
use spacesvm.Errors.{ok}
use spacesvm.Exec
use spacesvm.Exec.{after}
use spacesvm.Platform.Sample.{Sorted, sample_database, sample_platform, sample-IsLawful}
use spacesvm.Types.{
  SpaceInfo, Transaction, StatelessBlock, claim_tx, lifeline_tx, transfer_tx, move_tx,
}
use spacesvm.Keys.{
  range_time_key, prefix_balance_key, prefix_tx_key, big_endian, from_big_endian, space_info_key,
  raw_space,
}
use spacesvm.Storage.Apart.{info-info, info-value}
use spacesvm.Storage.Balances.{
  set_balance, get_balance, modify_balance, write_balance, decode_balance,
}
use spacesvm.Storage.Expiry.{expire_next, expire_loop}
use spacesvm.Storage.Values.{set_transaction}
use spacesvm.Tx.{base, contains_id, execute_base}
use spacesvm.Tx.Fees.{load_units, fee_units, Loads}
use spacesvm.Tx.Actions.{execute_unsigned, execute_transfer}
use spacesvm.Tx.Execute.{execute, lottery, dummy}
use spacesvm.Storage.Protected.{Protected}
use spacesvm.Block.{check_size, on_accept, is_accepted, Node, Vm, run_block, execute_txs, verify}
use spacesvm.Block.Rules.{AllSmall, verify-Loads}
use spacesvm.Block.Ownership.{AllForeign, execute_txs-Protected}
use spacesvm.Tests.{empty_db, address, id32, base_tx, from, genesis, block_of, window}

-- the space `a` of the owner 1
abbrev info : SpaceInfo
info = record {
  owner = address 1;
  created = 5;
  updated = 5;
  expiry = 100;
  units = 100;
  raw_space = address 40;
}

abbrev one_space : Sorted
one_space =
    sample_database.put empty_db (space_info_key (b'a' ∷ [])) (sample_platform.marshal_info info)

no_values : Bytes → Option Bytes
no_values key = none

one_space-Protected : Protected (b'a' ∷ []) info no_values one_space
unfolding no_values
one_space-Protected = record {
  held = (100, rw (bytes_eq_self (space_info_key (b'a' ∷ []))) refl);
  values = λ key. rw (info-value (b'a' ∷ []) (address 40) key) refl;
  others = λ s' n. rw (info-info (b'a' ∷ []) s' (λ e. n (sym e))) tt;
}

-- the sender 2 tries to take the space, prolongs it, and claims another one
abbrev attack : List Transaction
attack =
    from 2 (move_tx (base_tx 1) (b'a' ∷ []) (address 2))
    ∷ from 2 (lifeline_tx (base_tx 1) (b'a' ∷ []) 3)
    ∷ from 2 (claim_tx (base_tx 1) (b'b' ∷ []))
    ∷ []

attack-AllForeign : AllForeign (b'a' ∷ []) info no_values 10 attack
unfolding raw_space big_endian
attack-AllForeign = (
  (λ e. ground arith, tt),
  (
    (λ e. ground arith, tt),
    ((λ e. ground arith, (refl, λ e. ground arith, λ e. ground arith)), tt),
  ),
)

execute_txs-Protected_example : Protected (b'a' ∷ []) info no_values (
    after
      (execute_txs genesis (block_of 1 10 1 (id32 6) (id32 5) attack) window 0 [] attack)
      one_space)
execute_txs-Protected_example =
    execute_txs-Protected (b'a' ∷ []) info no_values sample-IsLawful refl (λ e. ground arith)
      genesis (block_of 1 10 1 (id32 6) (id32 5) attack) window attack attack-AllForeign one_space
      one_space-Protected

-- the account of 1 has 50
abbrev before_payment : Sorted
before_payment = after (set_balance (address 1) 50) empty_db

abbrev parent : Node Sorted
parent = record { stateless = block_of 0 0 1 (id32 0) (id32 1) []; on_accept_db = none }

abbrev pub vm : Vm Sorted
vm = record {
  genesis = genesis;
  is_bootstrapped = true;
  state = before_payment;
  get_stateless_block = λ id. ok parent;
  execution_context = λ time b. ok window;
}

abbrev pub payment_block : StatelessBlock
payment_block =
    block_of 1 10 1 (id32 1) (id32 5) (from 1 (transfer_tx (base_tx 1) (address 2) 20) ∷ [])

abbrev after_payment : Sorted
after_payment = after (run_block vm parent payment_block window) before_payment

payment_block-verified : verify vm 12 payment_block ≡ ok (parent, after_payment, none ∷ [])
unfolding verify run_block check_size load_units add64 sub64 mul64 on_accept is_accepted Exec.◌>>=◌
    expire_next expire_loop set_balance get_balance modify_balance write_balance decode_balance
    bytes_compare bytes_eq range_time_key prefix_balance_key prefix_tx_key big_endian
    from_big_endian execute_txs execute base contains_id execute_base fee_units execute_unsigned
    execute_transfer set_transaction lottery dummy
payment_block-verified = refl

payment_block-AllSmall : AllSmall genesis payment_block.txs
unfolding load_units
payment_block-AllSmall = (λ n e. ground (arith, e), tt)

verify-Loads_example :
    (total : ℕ) × Loads genesis payment_block.txs total × (total ≤ genesis.max_block_size)
verify-Loads_example =
    verify-Loads vm 12 payment_block parent after_payment (none ∷ []) payment_block-AllSmall
      payment_block-verified
