-- ===== src/Fees.antt =====
-- vm/chain_vm.go and vm/helpers.go: the window of recent blocks, and the cost and the price of the
-- next block. Timestamps are int64 in Go; they are not negative here, and their differences, which
-- may be, are written out by cases.
pub mod Bounds
pub mod Walk
use spacesvm.Prelude.{
  ℕ, zero, suc, ◌+◌, ◌-◌, ◌/◌, Bool, true, false, not, ◌||◌, ◌&&◌, List, [], ◌∷◌, ◌++◌, Bytes,
  bytes_eq, ltb, leb, ◌==◌, add64, sub64, if◌then◌else◌,
}
use spacesvm.Errors.{Result, ok, err, panic, out_of_fuel, ◌>>=◌, ◌>>◌}
use spacesvm.Types.{Transaction, StatelessBlock}
use spacesvm.Genesis.{Genesis, min_block_cost}
use spacesvm.Tx.{Context, contains_id}
use spacesvm.Tx.Fees.{load_units}
use spacesvm.Block.{Node}

-- What the callback of ExecutionContext collects.
pub record Window : Type 0 where
  pub recent_block_ids : List Bytes
  pub recent_tx_ids : List Bytes
  pub recent_units : ℕ
  pub prices : List ℕ
  pub costs : List ℕ

abbrev pub empty_window : Window
empty_window = record {
  recent_block_ids = [];
  recent_tx_ids = [];
  recent_units = 0;
  prices = [];
  costs = [];
}

-- ids.Set's Add
unfoldable pub add_id : List Bytes → Bytes → List Bytes
unfolding contains_id
add_id s id = if contains_id s id then s else id ∷ s

unfoldable pub collect_txs : Genesis → List Transaction → Window → Result Window
collect_txs g [] w = ok w
collect_txs g (tx ∷ txs) w = do
  load ← load_units g tx.unsigned
  collect_txs g txs (record w {
    recent_tx_ids = add_id w.recent_tx_ids tx.id;
    recent_units = add64 w.recent_units load;
  })

-- the callback of ExecutionContext
unfoldable pub collect : Genesis → StatelessBlock → Window → Result Window
unfolding add_id collect_txs
collect g b w = do
  w' ← collect_txs g b.txs (record w { recent_block_ids = add_id w.recent_block_ids b.id })
  ok (record w' { prices = w'.prices ++ b.price ∷ []; costs = w'.costs ++ b.cost ∷ [] })

module _ {D : Type 0} (g : Genesis) (get_stateless_block : Bytes → Result (Node D)) where
  -- The loop of `lookback` under the callback of ExecutionContext. The code has no bound on its rounds.
  unfoldable pub lookback_loop : ℕ → ℕ → Bytes → Node D → Window → Result Window
  lookback_loop zero curr_time last_id curr w = out_of_fuel
  lookback_loop (suc fuel) curr_time last_id curr w =
      let more : Result Window = do
        w' ← collect g curr.stateless w
        let further : Result Window = do
          b ← get_stateless_block curr.prnt
          lookback_loop fuel curr_time last_id b w'
        if curr.hght == 0 then ok w' else further
      in if leb curr_time (curr.tmstmp + g.lookback_window) || bytes_eq curr.id last_id
        then more
        else ok w

  unfoldable pub lookback : ℕ → ℕ → Bytes → Result Window
  lookback fuel curr_time last_id = do
    curr ← get_stateless_block last_id
    lookback_loop fuel curr_time last_id curr empty_window

-- the cost of the next block
unfoldable pub next_cost : Genesis → ℕ → ℕ → ℕ → ℕ
next_cost g curr_time last_time last_cost =
    let rate = g.target_block_rate in
    let possible_diff = curr_time - (last_time + rate) in
    let cost =
      if ltb curr_time (last_time + rate)
      then add64 last_cost (last_time + rate - curr_time)
      else if leb min_block_cost last_cost && ltb possible_diff (last_cost - min_block_cost)
      then last_cost - possible_diff
      else min_block_cost in
    if not g.block_cost_enabled then last_cost else cost

-- `uint64(secondsSinceLast/g.LookbackWindow) + 1`: Go's division of signed numbers drops the
-- fraction, and a negative quotient wraps.
unfoldable pub elapsed_windows : Genesis → ℕ → ℕ → Result ℕ
elapsed_windows g curr_time last_time =
    if g.lookback_window == 0
    then panic
    else if leb last_time curr_time
    then ok (add64 ((curr_time - last_time) / g.lookback_window) 1)
    else ok (add64 (sub64 0 ((last_time - curr_time) / g.lookback_window)) 1)

-- the price of the next block
unfoldable pub next_price : Genesis → ℕ → ℕ → ℕ → ℕ → ℕ → Result ℕ
next_price g target_range_units recent_units curr_time last_time last_price =
    if ltb target_range_units recent_units
    then ok (add64 last_price 1)
    else if ltb recent_units target_range_units
    then (do
      windows ← elapsed_windows g curr_time last_time
      ok (
          if leb g.min_price last_price && ltb windows (last_price - g.min_price)
          then last_price - windows
          else g.min_price))
    else ok last_price

unfoldable pub execution_context :
    {D : Type 0} → Genesis → (Bytes → Result (Node D)) → ℕ → ℕ → ℕ → Node D → Result Context
execution_context g get_stateless_block fuel target_range_units curr_time last_block = do
  w ← lookback g get_stateless_block fuel curr_time last_block.id
  price ←
      next_price g target_range_units w.recent_units curr_time last_block.tmstmp last_block.price
  ok (record {
    recent_block_ids = w.recent_block_ids;
    recent_tx_ids = w.recent_tx_ids;
    recent_load_units = w.recent_units;
    prices = w.prices;
    costs = w.costs;
    next_cost = next_cost g curr_time last_block.tmstmp last_block.cost;
    next_price = price;
  })
