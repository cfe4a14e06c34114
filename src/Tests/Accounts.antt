-- ===== src/Tests/Accounts.antt =====
-- Balances, fees and signatures.
use spacesvm.Prelude.{◌≡◌, ◌≤◌, ◌^◌, refl, ap, false, bytes_eq, add64, [], ◌∷◌, Bytes, arith}
use spacesvm.Errors.{ok, err, invalid_balance, bad_signature, ◌>>=◌}
use spacesvm.Exec
use spacesvm.Exec.{after, continue}
use spacesvm.Platform.Sample.{Sorted, fit, sample_database, sample_platform, sample-IsLawful}
use spacesvm.Types.{transfer_tx, set_tx, Transaction}
use spacesvm.Storage.{require}
use spacesvm.Storage.Balances.{get_balance, set_balance, modify_balance}
use spacesvm.Storage.Balances.Accounts.{
  Holds, get-set_balance, get-set_balance_ne, modify_balance_lem,
}
use spacesvm.Tx.{TransactionContext, base, contains_id, execute_base}
use spacesvm.Tx.Fees.{value_units, fee_units}
use spacesvm.Tx.Actions.{execute_transfer}
use spacesvm.Tx.Actions.Transfers.{execute_transfer_lem, execute_transfer-conserves}
use spacesvm.Tx.Execute.{derive_sender, sign, execute}
use spacesvm.Tx.Execute.Charges.{
  admit, charge, perform, execute_lem, execute-free, derive_sender-sign,
}
use spacesvm.Tests.{empty_db, address, id32, base_tx, from, genesis, block_of, window}

-- the account of 1 has 50
abbrev accounts : Sorted
accounts = after (set_balance (address 1) 50) empty_db

no_account : (a : Bytes) → Holds empty_db a 0
unfolding get_balance Exec.◌>>=◌
no_account a = (refl, omega arith)

accounts_1 : Holds accounts (address 1) 50
accounts_1 = get-set_balance empty_db (address 1) 50 (omega arith)

accounts_2 : Holds accounts (address 2) 0
accounts_2 =
    get-set_balance_ne empty_db (address 1) (address 2) 50 0 (λ e. ground arith)
      (no_account (address 2))

accounts_3 : Holds accounts (address 3) 0
accounts_3 =
    get-set_balance_ne empty_db (address 1) (address 3) 50 0 (λ e. ground arith)
      (no_account (address 3))

abbrev sender : TransactionContext
sender = record { genesis = genesis; block_time = 10; tx_id = id32 9; sender = address 1 }

modify_balance_lem_example :
    modify_balance (address 1) false 60 accounts ≡ (err invalid_balance, accounts)
modify_balance_lem_example =
    modify_balance_lem sample-IsLawful accounts (address 1) false 50 60 accounts_1 (omega arith)

execute_transfer_lem_example :
    execute_transfer sender (address 2) 20 accounts
    ≡ (ok tt, after (set_balance (address 2) 20) (after (set_balance (address 1) 30) accounts))
unfolding bytes_eq
execute_transfer_lem_example =
    execute_transfer_lem sample-IsLawful sender accounts (address 2) 20 50 0 accounts_1 accounts_2
      (omega arith)

transfer_ok : (execute_transfer sender (address 2) 20 accounts).0 ≡ ok tt
unfolding bytes_eq
transfer_ok =
    ap (λ r. r.0)
      (execute_transfer_lem sample-IsLawful sender accounts (address 2) 20 50 0 accounts_1
        accounts_2 (omega arith))

execute_transfer-conserves_example :
    (let after_transfer = after (execute_transfer sender (address 2) 20) accounts in
      (20 ≤ 50)
      × Holds after_transfer (address 1) 30
      × Holds after_transfer (address 2) 20
      × Holds after_transfer (address 3) 0)
execute_transfer-conserves_example =
    execute_transfer-conserves sample-IsLawful sender accounts (address 2) (address 3) 20 50 0 0
      accounts_1 accounts_2 accounts_3 (λ e. ground arith) (λ e. ground arith) (omega arith)
      transfer_ok

-- a transfer at the price 3, in a block at the time 10
abbrev payment : Transaction
payment = from 1 (transfer_tx (base_tx 3) (address 2) 20)

execute_lem_example :
    execute genesis (block_of 1 10 1 (id32 6) (id32 5) []) window payment accounts
    ≡ continue
        (admit genesis window payment)
        (charge genesis (block_of 1 10 1 (id32 6) (id32 5) []) window payment 50)
        accounts
execute_lem_example =
    execute_lem sample-IsLawful genesis (block_of 1 10 1 (id32 6) (id32 5) []) window payment
      accounts 50 accounts_1

-- a set by an account that holds nothing, at the price 2^63: two fee units
abbrev free_set : Transaction
free_set = from 3 (set_tx (base_tx (2 ^ 63)) (b'a' ∷ []) (b'k' ∷ []) (1 ∷ []))

free_set-admitted : admit genesis window free_set ≡ ok 2
unfolding execute_base fee_units value_units contains_id bytes_eq base add64
free_set-admitted = refl

free_set-price : (base free_set.unsigned).price ≡ 2 ^ 63
unfolding base
free_set-price = refl

execute-free_example :
    execute genesis (block_of 1 10 1 (id32 6) (id32 5) []) window free_set accounts
    ≡ perform genesis
        (block_of 1 10 1 (id32 6) (id32 5) [])
        window
        free_set
        2
        (after (set_balance (address 3) 0) accounts)
execute-free_example =
    execute-free sample-IsLawful genesis (block_of 1 10 1 (id32 6) (id32 5) []) window free_set
      accounts 1 accounts_3 free_set-admitted free_set-price (omega arith)

derive_sender-sign_example :
    (sign (ok (fit 65 [])) >>= derive_sender [])
    ≡ require bad_signature (sample_platform.recover [] (fit 65 []))
derive_sender-sign_example = derive_sender-sign [] (fit 65 []) refl (omega arith)
