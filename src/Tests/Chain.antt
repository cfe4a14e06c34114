-- ===== src/Tests/Chain.antt =====
-- Blocks, their costs and prices, and the queue of expiries.
use spacesvm.Prelude.{
  ℕ, ◌+◌, ◌-◌, ◌≡◌, ◌⊎◌, ◌↔◌, Bool-cases, inr, List, ◌≤◌, ◌<◌, if◌then◌else◌, inl, refl, true, none,
  some, [], ◌∷◌, Bytes, bytes_eq, arith,
}
use spacesvm.Errors.{Result, ok, err, not_found, ◌>>=◌}
use spacesvm.Platform.{In}
use spacesvm.Platform.Sample.{Sorted, sample_database, sample_platform, sample-IsLawful}
use spacesvm.Keys.{
  prefix_expiry_key, prefix_pruning_key, prefix_owned_key, range_time_key, space_info_key,
  expiry_prefix,
}
use spacesvm.Storage.Spaces.{expiry_data_value}
use spacesvm.Storage.Expiry.{expire_entry, expire_next}
use spacesvm.Storage.Expiry.Window.{due, expire_all, expire_next_lem, expire_entry_lem}
use spacesvm.Block.{Node}
use spacesvm.Fees.{empty_window, lookback, next_cost, next_price}
use spacesvm.Fees.Walk.{Visits, collect_all, finish, IsLinked, lookback-Visits, lookback-ends}
use spacesvm.Fees.Bounds.{next_cost-decays, next_price-Follows, Follows}
use spacesvm.Tests.{empty_db, address, id32, genesis, block_of}

next_cost-decays_example :
    (next_cost genesis 100 100 9 ≡ 10)
    × ((t : ℕ) → 100 ≤ t → next_cost genesis (t + 1) 100 9 ≡ next_cost genesis t 100 9 - 1)
next_cost-decays_example = next_cost-decays genesis 100 9 refl (omega arith)

next_price-Follows_example :
    (price : ℕ) × (next_price genesis 13500 9 161 100 5 ≡ ok price)
    × (1 ≤ price)
    × (price ≤ 6)
    × Follows 13500 9 1 5 price
next_price-Follows_example =
    next_price-Follows genesis 13500 9 161 100 5 (omega arith) (omega arith) (omega arith)
      (omega arith) (omega arith)

-- a genesis block and a block on it
abbrev first_block : Node Sorted
first_block = record { stateless = block_of 0 0 1 (id32 0) (id32 1) []; on_accept_db = none }

abbrev second_block : Node Sorted
second_block = record { stateless = block_of 1 50 1 (id32 1) (id32 2) []; on_accept_db = none }

stored : Bytes → Result (Node Sorted)
stored id =
    if bytes_eq id (id32 1)
    then ok first_block
    else if bytes_eq id (id32 2)
    then ok second_block
    else err not_found

lookback-Visits_example : lookback genesis stored 3 55 (id32 2) ≡ (
    collect_all genesis stored (second_block ∷ first_block ∷ []) empty_window
    >>= finish genesis stored (ok tt))
unfolding stored bytes_eq
lookback-Visits_example =
    lookback-Visits genesis stored 3 55 second_block (id32 2) (second_block ∷ first_block ∷ [])
      (ok tt) refl
      (Visits.at_parent second_block first_block (first_block ∷ []) (ok tt) (inl (omega arith))
        (omega arith) refl (Visits.at_genesis first_block (inl (omega arith)) refl))
      (omega arith)

stored-cases :
    (id : Bytes) (b : Node Sorted) → stored id ≡ ok b → (b ≡ first_block) ⊎ (b ≡ second_block)
unfolding stored
stored-cases id b h = ground arith

stored-IsLinked : IsLinked genesis stored (λ b. b.tmstmp)
unfolding stored bytes_eq
stored-IsLinked = record {
  returns = λ id. elim (Bool-cases (bytes_eq id (id32 1))) [
    | inl one ↦ inl (first_block, rw one refl)
    | inr other ↦ elim (Bool-cases (bytes_eq id (id32 2))) [
      | inl two ↦ inl (second_block, rw (other, two) refl)
      | inr none_of ↦ inr (not_found, rw (other, none_of) refl)
    ]
  ];
  falls = λ id b parent held found. elim (stored-cases id b held) [
    | inl e ↦ let missing : stored (id32 0) ≡ ok parent = rw e at found in absurd (cc)
    | inr e ↦
        let below : stored (id32 1) ≡ ok parent = rw e at found in
        let first : first_block ≡ parent = cc in rw (← first, e) (omega arith)
  ];
}

lookback-ends_example :
    (l : List (Node Sorted)) × (end : Result (Unit {0})) × Visits genesis stored 55
      (id32 2)
      second_block
      l
      end
    × (lookback genesis stored 52 55 (id32 2)
        ≡ (collect_all genesis stored l empty_window >>= finish genesis stored end))
unfolding stored bytes_eq
lookback-ends_example =
    lookback-ends genesis stored (λ b. b.tmstmp) 52 55 second_block (id32 2) stored-IsLinked refl
      (omega arith)

-- one space in the queue, at the time 20
abbrev queue : Sorted
queue =
    sample_database.put empty_db (prefix_expiry_key 20 (address 3))
      (expiry_data_value (address 1) (b'a' ∷ []))

expire_next_lem_example :
    (let entries =
        due
          (range_time_key expiry_prefix 25)
          (sample_database.iterate queue (range_time_key expiry_prefix 15)) in
      let key = prefix_expiry_key 20 (address 3) in
      let v = expiry_data_value (address 1) (b'a' ∷ []) in
      (expire_next 15 25 true queue ≡ expire_all true entries queue)
      × (In (key, v) entries ↔ ((sample_database.get queue key ≡ some v) × (15 ≤ 20) × (20 < 25))))
expire_next_lem_example =
    expire_next_lem queue true 15 25 20 (address 3) (expiry_data_value (address 1) (b'a' ∷ []))
      (omega arith) (omega arith) (omega arith) refl

expire_entry_lem_example :
    expire_entry true
      (prefix_expiry_key 20 (address 3))
      (expiry_data_value (address 1) (b'a' ∷ []))
      queue
    ≡ (
      ok tt,
      sample_database.put
          (sample_database.delete
            (sample_database.delete
              (sample_database.delete queue (prefix_expiry_key 20 (address 3)))
              (prefix_owned_key (address 1) (b'a' ∷ [])))
            (space_info_key (b'a' ∷ [])))
          (prefix_pruning_key 20 (address 3))
          [],
    )
expire_entry_lem_example =
    expire_entry_lem sample-IsLawful queue true 20 (address 3) (address 1) (b'a' ∷ []) (omega arith)
      refl refl
