-- ===== src/Fees/Bounds.antt =====
-- The cost and the price of the next block as formulas, and the end of the walk over the recent
-- blocks: vm/chain_vm.go and vm/helpers.go.
use spacesvm.Prelude.{
  ℕ, ◌+◌, ◌-◌, ◌/◌, ◌≤◌, ◌<◌, ◌≡◌, ◌⊎◌, inl, inr, ◌&&◌, true, Bool-cases, ltb, leb, arith,
  if◌then◌else◌, u64, add64-exact,
}
use native.Mathlib.Nat.{div-le_self}
use spacesvm.Errors.{ok}
use spacesvm.Genesis.{Genesis}
use spacesvm.Fees.{next_cost, elapsed_windows, next_price}

next_cost-exact :
    (g : Genesis) (curr_time last_time last_cost : ℕ)
    → g.block_cost_enabled ≡ true
    → last_cost + g.target_block_rate < u64
    → last_time ≤ curr_time
    → next_cost g curr_time last_time last_cost
      ≡ last_time + last_cost + g.target_block_rate - curr_time
unfolding next_cost
next_cost-exact g curr_time last_time last_cost on small later =
    elim (Bool-cases (ltb curr_time (last_time + g.target_block_rate))) [
      | inl early ↦ ground (
        arith,
        on,
        add64-exact last_cost (last_time + g.target_block_rate - curr_time) (ground arith),
      )
      | inr late ↦ ground (arith, on)
    ]

-- With block costs enabled and no overflow, a block at the time of the last one costs the target rate
-- more than it, and each second that the block comes later takes one off the cost, until it is 0.
pub next_cost-decays :
    (g : Genesis) (last_time last_cost : ℕ)
    → g.block_cost_enabled ≡ true
    → last_cost + g.target_block_rate < u64
    → (next_cost g last_time last_time last_cost ≡ last_cost + g.target_block_rate)
      × ((t : ℕ)
          → last_time ≤ t
          → next_cost g (t + 1) last_time last_cost ≡ next_cost g t last_time last_cost - 1)
next_cost-decays g last_time last_cost on small =
    let exact : (t : ℕ)
        → last_time ≤ t
        → next_cost g t last_time last_cost ≡ last_time + last_cost + g.target_block_rate - t =
      λ t later. next_cost-exact g t last_time last_cost on small later in
    (
      omega (arith, exact last_time (omega arith)),
      λ t later. omega (arith, exact t later, exact (t + 1) (omega arith)),
    )

-- How a price compares to the last one, by the use of the recent blocks.
abbrev pub Follows : ℕ → ℕ → ℕ → ℕ → ℕ → Type 0
Follows target recent floor last price =
    if ltb target recent
    then price ≡ last + 1
    else if ltb recent target
    then (price < last) ⊎ (price ≡ floor)
    else price ≡ last

elapsed_windows_lem :
    (g : Genesis) (curr_time last_time : ℕ)
    → 0 < g.lookback_window
    → last_time ≤ curr_time
    → curr_time + 1 < u64
    → (windows : ℕ) × (elapsed_windows g curr_time last_time ≡ ok windows) × (0 < windows)
unfolding elapsed_windows
elapsed_windows_lem g curr_time last_time w o c =
    let q = (curr_time - last_time) / g.lookback_window in
    let small : q + 1 < u64 =
      omega (arith, div-le_self (curr_time - last_time) g.lookback_window) in
    (q + 1, ground (arith, add64-exact q 1 small), omega arith)

-- The price of the next block exists, and stays between the minimum and one more than the last
-- price: it goes up by one above the target, stays at it, and falls below it unless it becomes the
-- minimum. The window is not empty, the block is not before the last one, the last price is not
-- below the minimum, and neither the time nor the last price is at the end of uint64.
pub next_price-Follows :
    (g : Genesis) (target recent curr_time last_time last_price : ℕ)
    → 0 < g.lookback_window
    → last_time ≤ curr_time
    → curr_time + 1 < u64
    → g.min_price ≤ last_price
    → last_price + 1 < u64
    → (price : ℕ) × (next_price g target recent curr_time last_time last_price ≡ ok price)
      × (g.min_price ≤ price)
      × (price ≤ last_price + 1)
      × Follows target recent g.min_price last_price price
unfolding next_price
next_price-Follows g target recent curr_time last_time last_price w o c f l =
    let (windows, e, more) = elapsed_windows_lem g curr_time last_time w o c in
    let up = add64-exact last_price 1 l in
    let fallen =
      if leb g.min_price last_price && ltb windows (last_price - g.min_price)
      then last_price - windows
      else g.min_price in
    elim (Bool-cases (ltb target recent)) [
      | inl above ↦ (last_price + 1, ground (arith, up), ground arith, ground arith, ground arith)
      | inr not_above ↦ elim (Bool-cases (ltb recent target)) [
        | inl below ↦ (fallen, ground (arith, e), ground arith, ground arith, ground arith)
        | inr same ↦ (last_price, ground arith, ground arith, ground arith, ground arith)
      ]
    ]
