-- ===== src/Tests/VirtualMachine.antt =====
-- A VM on its genesis block, which verifies and accepts a block with one payment.
use spacesvm.Prelude.{
  inl, refl, true, none, some, [], ◌∷◌, Bytes, bytes_eq, bytes_compare, add64, sub64, mul64, arith,
}
use spacesvm.Errors.{Result, ok}
use spacesvm.Exec
use spacesvm.Exec.{after}
use spacesvm.Platform.Sample.{Sorted, fit, sample_database, sample_platform}
use spacesvm.Types.{StatelessBlock, Transaction, transfer_tx, accepted}
use spacesvm.Genesis.{stateful_block}
use spacesvm.Keys.{
  range_time_key, prefix_balance_key, prefix_tx_key, prefix_block_key, big_endian, from_big_endian,
}
use spacesvm.Storage.{store}
use spacesvm.Storage.Balances.{
  set_balance, get_balance, modify_balance, write_balance, decode_balance,
}
use spacesvm.Storage.Expiry.{expire_next, expire_loop}
use spacesvm.Storage.Values.{set_transaction}
use spacesvm.Tx.{base, contains_id, execute_base}
use spacesvm.Tx.Fees.{load_units, fee_units}
use spacesvm.Tx.Actions.{execute_unsigned, execute_transfer}
use spacesvm.Tx.Execute.{execute, lottery, dummy}
use spacesvm.Block.{check_size, on_accept, is_accepted, run_block, execute_txs, verify}
use spacesvm.Block.Accepted.{
  BlockCodec, set_last_accepted, link_values, link_unsigned, get_block, restore_values,
}
use spacesvm.Fees.{
  add_id, collect, collect_txs, lookback, lookback_loop, execution_context, next_cost, next_price,
  elapsed_windows,
}
use spacesvm.Mempool.{new, remove, remove_found}
use spacesvm.Mempool.Heap.{with}
use spacesvm.Mempool.Package.Sample.{sample_heap}
use spacesvm.VirtualMachine.{
  Live, State, mark, accept, accept_on, accepted_block, get_stateless_block, get_from_disk,
  parse_stateful_block, source_of, init_txs, seen,
}
use spacesvm.VirtualMachine.Life.{verify_block, store_block, verified, on_mempool, remove_txs}
use spacesvm.VirtualMachine.Replay.{World, Replays, Move, IsStart, Reach}
use spacesvm.VirtualMachine.Safety.{Reach-Replays}
use spacesvm.Tests.{empty_db, address, id32, from, genesis, block_of}

-- writes the height of a block and reads the genesis block
abbrev genesis_codec : BlockCodec
genesis_codec = record {
  marshal_block = λ x. some (7 ∷ x.hght ∷ []);
  unmarshal_block = λ v. some (stateful_block genesis);
}

abbrev genesis_id : Bytes
genesis_id = fit 32 (7 ∷ 0 ∷ [])

abbrev genesis_db : Sorted
genesis_db =
    after (store (prefix_block_key genesis_id) (7 ∷ 0 ∷ []))
      (after (set_balance (address 1) 50) empty_db)

abbrev genesis_live : Live Sorted
genesis_live = record {
  node = record {
    stateless = record {
      block = stateful_block genesis;
      id = genesis_id;
      st = accepted;
      bytes = 7 ∷ 0 ∷ [];
    };
    on_accept_db = none;
  };
  winners = [];
}

abbrev first_world : World Sorted
first_world = record {
  state = record {
    genesis = genesis;
    target_range_units = 13500;
    lookback_fuel = 2;
    bootstrapped = true;
    db = genesis_db;
    blocks = λ id. none;
    verified_blocks = λ id. none;
    preferred = genesis_id;
    last_accepted = genesis_live;
    mempool = new genesis 4;
    activity_cache_cursor = 0;
    activity_cache = [];
  };
  decided = λ id. bytes_eq genesis_id id;
  log = [];
}

abbrev payment : Transaction
payment =
    from 1 (transfer_tx (record { block_id = genesis_id; magic = 1; price = 1 }) (address 2) 20)

abbrev next_block : StatelessBlock
next_block = block_of 1 100 1 genesis_id (id32 5) (payment ∷ [])

-- the block that a call returned
abbrev returned : Result (Live Sorted) → Live Sorted
returned (ok b) = b
returned _ = genesis_live

abbrev after_verify : Result (Live Sorted) × State Sorted
after_verify = verify_block genesis_codec 105 next_block first_world.state

abbrev second_world : World Sorted
second_world = record first_world { state = after_verify.1 }

abbrev after_accept : Result (Live Sorted) × State Sorted
after_accept = accept (returned after_verify.0) second_world.state

abbrev third_world : World Sorted
third_world = record {
  state = after_accept.1;
  decided = with second_world.decided (returned after_verify.0).id true;
  log = returned after_verify.0 ∷ [];
}

first_world-IsStart : IsStart genesis_codec first_world
unfolding bytes_eq
first_world-IsStart = record {
  no_blocks = λ id. refl;
  no_verified = λ id. refl;
  no_log = refl;
  decided_last = refl;
}

next_block-verified : Move genesis_codec first_world second_world
unfolding verify_block verified on_mempool remove_txs remove remove_found store_block
    set_last_accepted link_values link_unsigned verify run_block check_size load_units add64 sub64
    mul64 on_accept is_accepted Exec.◌>>=◌ Exec.return Exec.lift Exec.gets Exec.modify expire_next
    expire_loop set_balance get_balance modify_balance write_balance decode_balance bytes_compare
    bytes_eq range_time_key prefix_balance_key prefix_tx_key big_endian prefix_block_key
    from_big_endian execute_txs execute base contains_id execute_base fee_units execute_unsigned
    execute_transfer set_transaction lottery dummy execution_context lookback lookback_loop collect
    collect_txs add_id next_cost next_price elapsed_windows seen get_stateless_block get_from_disk
    get_block parse_stateful_block source_of init_txs stateful_block restore_values
next_block-verified =
    Move.verify_move 105 next_block (returned after_verify.0) after_verify.1 refl (omega arith) refl
      refl (inl refl) refl

next_block-accepted : Move genesis_codec second_world third_world
unfolding verify_block verified on_mempool remove_txs remove remove_found store_block
    set_last_accepted link_values link_unsigned verify run_block check_size load_units add64 sub64
    mul64 on_accept is_accepted Exec.◌>>=◌ Exec.return Exec.lift Exec.gets Exec.modify expire_next
    expire_loop set_balance get_balance modify_balance write_balance decode_balance bytes_compare
    bytes_eq range_time_key prefix_balance_key prefix_tx_key big_endian prefix_block_key
    from_big_endian execute_txs execute base contains_id execute_base fee_units execute_unsigned
    execute_transfer set_transaction lottery dummy execution_context lookback lookback_loop collect
    collect_txs add_id next_cost next_price elapsed_windows seen get_stateless_block get_from_disk
    get_block parse_stateful_block source_of init_txs stateful_block restore_values accept accept_on
    accepted_block mark
next_block-accepted =
    Move.accept_move (returned after_verify.0) (returned after_accept.0) after_accept.1 refl refl
      refl

Reach-Replays_example :
    Replays genesis_codec first_world third_world.log third_world.state.last_accepted.id
      third_world.state.db
Reach-Replays_example = Reach-Replays genesis_codec first_world third_world first_world-IsStart (
    Reach.next second_world third_world
      (Reach.next first_world second_world Reach.here next_block-verified) next_block-accepted)
