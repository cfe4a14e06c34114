-- ===== src/Mempool/Gossip.antt =====
-- NewTxs of mempool/mempool.go: what is handed to the gossip.
use spacesvm.Prelude.{
  ℕ, ◌+◌, ◌<◌, ◌≤◌, ◌≡◌, refl, inl, inr, true, false, List, [], ◌∷◌, u64, add64, sub64, mul64,
  add64-exact, sub64-exact, length, ◌/◌, ◌==◌, ltb, arith, Bool-cases, ltb-false→le,
}
use spacesvm.Errors.{ok, ◌>>=◌}
use spacesvm.Types.{
  Transaction, UnsignedTransaction, claim_tx, lifeline_tx, set_tx, delete_tx, move_tx, transfer_tx,
}
use spacesvm.Tx.Fees.{load_units, value_units, Loads, none, more}
use spacesvm.Genesis.{Genesis}
use spacesvm.Mempool.{Mempool, has, select, take_new_txs}

-- With that many units taken before, the list splits, in its order, into what is selected, what is in
-- the mempool no more, and a rest: every transaction of the mempool is selected up to the first one
-- that would load more than the limit, where the rest begins.
pub data Selected (m : Mempool) (max_units : ℕ)
    : ℕ → List Transaction → List Transaction → List Transaction → Type 0 where
  at_end : (units : ℕ) → Selected m max_units units [] [] []
  at_limit :
      (units n : ℕ) (tx : Transaction) (txs : List Transaction)
      → has m tx.id ≡ true
      → load_units m.g tx.unsigned ≡ ok n
      → max_units < units + n
      → Selected m max_units units [] (tx ∷ txs) (tx ∷ txs)
  take :
      (units n : ℕ) (tx : Transaction) (selected left txs : List Transaction)
      → has m tx.id ≡ true
      → load_units m.g tx.unsigned ≡ ok n
      → units + n ≤ max_units
      → Selected m max_units (units + n) selected left txs
      → Selected m max_units units (tx ∷ selected) left (tx ∷ txs)
  skip :
      (units : ℕ) (tx : Transaction) (selected left txs : List Transaction)
      → has m tx.id ≡ false
      → Selected m max_units units selected left txs
      → Selected m max_units units selected left (tx ∷ txs)

load_units-total :
    (g : Genesis) (u : UnsignedTransaction)
    → 0 < g.value_unit_size
    → (n : ℕ) × (load_units g u ≡ ok n)
unfolding load_units value_units
load_units-total g (claim_tx b s) h = (mul64 g.base_tx_units g.claim_load_multiplier, refl)
load_units-total g (lifeline_tx b s n) h = (mul64 g.base_tx_units g.claim_load_multiplier, refl)
load_units-total g (set_tx b s k v) h =
    let divides : (g.value_unit_size == 0) ≡ false = ground arith in
    (add64 g.base_tx_units (add64 (length v / g.value_unit_size) 1), rw divides refl)
load_units-total g (delete_tx b s k) h = (g.base_tx_units, refl)
load_units-total g (move_tx b s t) h = (g.base_tx_units, refl)
load_units-total g (transfer_tx b t n) h = (g.base_tx_units, refl)

abbrev Selects : Mempool → ℕ → ℕ → List Transaction → Type 0
Selects m max_units units txs =
    (selected : List Transaction) × (left : List Transaction) × (total : ℕ) × (select m max_units
        units txs
      ≡ ok (selected, left))
    × Selected m max_units units selected left txs
    × Loads m.g selected total
    × (units + total ≤ max_units)

select-Selects :
    (m : Mempool) (max_units units : ℕ) (txs : List Transaction)
    → 0 < m.g.value_unit_size
    → max_units < u64
    → units ≤ max_units
    → Selects m max_units units txs
unfolding select
select-Selects m max_units units [] v w b = ([], [], 0, refl, at_end units, none, omega arith)
select-Selects m max_units units (tx ∷ txs) v w b =
    let (n, loads) = load_units-total m.g tx.unsigned v in
    let room = sub64-exact max_units units w b in
    elim (Bool-cases (has m tx.id)) [
      | inr gone ↦
          let (s, left, total, ran, sel, ls, bound) = select-Selects m max_units units txs v w b in
          (
            s,
            left,
            total,
            rw (select, gone, ran) refl,
            skip units tx s left txs gone sel,
            ls,
            bound,
          )
      | inl held ↦ elim (Bool-cases (ltb (sub64 max_units units) n)) [
        | inl over ↦ (
          [],
          tx ∷ txs,
          0,
          rw (select, held, loads, ◌>>=◌, over) refl,
          at_limit units n tx txs held loads (ground (arith, room, over)),
          none,
          omega arith,
        )
        | inr fits ↦
            let within : units + n ≤ max_units =
              omega (arith, room, ltb-false→le (sub64 max_units units) n fits) in
            let exact : add64 units n ≡ units + n = add64-exact units n (omega arith) in
            let (s, left, total, ran, sel, ls, bound) =
              select-Selects m max_units (units + n) txs v w within in
            (
              tx ∷ s,
              left,
              n + total,
              rw (select, held, loads, ◌>>=◌, fits, exact, ran) refl,
              take units n tx s left txs held loads within sel,
              more tx s n total loads ls,
              omega arith,
            )
      ]
    ]

-- When values are measured in units that are not 0, NewTxs with a limit below 2^64 ends. It goes over
-- the new transactions in their order, drops those that the mempool no longer has, and returns the
-- others up to the first one with which they would load more than the limit; that one and all behind
-- it stay queued. What it returns loads at most the limit.
pub take_new_txs-Selected :
    (m : Mempool) (max_units : ℕ)
    → 0 < m.g.value_unit_size
    → max_units < u64
    → (selected : List Transaction) × (r : Mempool) × (total : ℕ) × (take_new_txs m max_units
        ≡ ok (selected, r))
      × Selected m max_units 0 selected r.new_txs m.new_txs
      × Loads m.g selected total
      × (total ≤ max_units)
unfolding take_new_txs
take_new_txs-Selected m max_units v w =
    let (s, left, total, ran, sel, ls, bound) =
      select-Selects m max_units 0 m.new_txs v w (omega arith) in
    (s, record m { new_txs = left }, total, rw (take_new_txs, ran) refl, sel, ls, omega arith)
