-- ===== src/Tests/Spaces.antt =====
-- A set by the owner of a space, half of whose life has passed.
use spacesvm.Prelude.{
  ℕ, ◌≡◌, refl, some, List, [], ◌∷◌, bytes_eq, bytes_compare, add64, sub64, mul64,
}
use spacesvm.Errors.{ok, div64}
use spacesvm.Exec
use spacesvm.Exec.{after}
use spacesvm.Platform.Sample.{Sorted, sample_database, sample_platform, sample-IsLawful}
use spacesvm.Types.{SpaceInfo, UnsignedTransaction, set_tx}
use spacesvm.Parser.{check_contents}
use spacesvm.Keys.{space_info_key, space_value_key, prefix_expiry_key, big_endian}
use spacesvm.Storage.Spaces.{
  decode_info, get_space_info, with_raw_space, unqueue, put_space_info, expiry_data_value,
}
use spacesvm.Storage.Values.{get_value_meta, meta_in, put_space_key, put_in}
use spacesvm.Tx.{TransactionContext}
use spacesvm.Tx.Fees.{value_units}
use spacesvm.Tx.Actions.{
  verify_space, check_space, authorized, update_space, without_old, discounted_units, execute_set,
  execute_unsigned,
}
use spacesvm.Tx.Actions.Permissions.{IsPermitted, execute_unsigned-IsPermitted}
use spacesvm.Tx.Actions.Renewals.{execute_set-renews}
use spacesvm.Tests.{address, id32, base_tx, genesis, empty_db}

-- the space `a` of the owner 1, from the time 5 to the time 100
abbrev space_a : Sorted
space_a = sample_database.put empty_db (space_info_key (b'a' ∷ [])) (
    sample_platform.marshal_info (record {
      owner = address 1;
      created = 5;
      updated = 5;
      expiry = 100;
      units = 100;
      raw_space = address 40;
    }))

abbrev owner_1 : TransactionContext
owner_1 = record { genesis = genesis; block_time = 50; tx_id = id32 9; sender = address 1 }

abbrev set_k : UnsignedTransaction
set_k = set_tx (base_tx 1) (b'a' ∷ []) (b'k' ∷ []) (1 ∷ 2 ∷ [])

set_k-runs :
    execute_set owner_1 (b'a' ∷ []) (b'k' ∷ []) (1 ∷ 2 ∷ []) space_a
    ≡ (ok tt, after (execute_set owner_1 (b'a' ∷ []) (b'k' ∷ []) (1 ∷ 2 ∷ [])) space_a)
unfolding execute_set check_contents verify_space check_space authorized get_space_info decode_info
    space_info_key get_value_meta meta_in space_value_key without_old discounted_units value_units
    put_space_key put_in update_space put_space_info with_raw_space unqueue prefix_expiry_key
    expiry_data_value big_endian bytes_eq bytes_compare add64 sub64 mul64 Exec.◌>>=◌
set_k-runs = refl

set_k-succeeds :
    execute_unsigned owner_1 set_k space_a ≡ (ok tt, after (execute_unsigned owner_1 set_k) space_a)
unfolding execute_unsigned
set_k-succeeds = set_k-runs

execute_unsigned-IsPermitted_example : IsPermitted owner_1 (b'a' ∷ []) space_a
execute_unsigned-IsPermitted_example =
    execute_unsigned-IsPermitted owner_1 set_k (b'a' ∷ []) space_a
      (after (execute_unsigned owner_1 set_k) space_a) refl set_k-succeeds

execute_set-renews_example :
    (i : SpaceInfo) × (units : ℕ) × (life : ℕ) × (r : List ℕ) × (get_space_info (b'a' ∷ []) space_a
      ≡ (ok (some i), space_a))
    × (div64 (mul64 (sub64 i.expiry i.updated) i.units) units ≡ ok life)
    × (get_space_info
          (b'a' ∷ [])
          (after (execute_set owner_1 (b'a' ∷ []) (b'k' ∷ []) (1 ∷ 2 ∷ [])) space_a)
        ≡ (
          ok (
              some (record {
                owner = i.owner;
                created = i.created;
                updated = 50;
                expiry = add64 50 life;
                units = units;
                raw_space = r;
              })),
          after (execute_set owner_1 (b'a' ∷ []) (b'k' ∷ []) (1 ∷ 2 ∷ [])) space_a,
        ))
execute_set-renews_example =
    execute_set-renews sample-IsLawful owner_1 (b'a' ∷ []) (b'k' ∷ []) (1 ∷ 2 ∷ []) space_a
      (after (execute_set owner_1 (b'a' ∷ []) (b'k' ∷ []) (1 ∷ 2 ∷ [])) space_a) set_k-runs
