-- ===== src/Tx/Actions/Renewals.antt =====
-- The life that a space has after its owner wrote to it: chain/set_tx.go with updateSpace and
-- PutSpaceInfo.
use spacesvm.Prelude.{
  ℕ, ◌≡◌, refl, sym, ap, ◌∙◌, not, ◌&&◌, some, Bytes, bytes_eq, bytes_eq_self, length, ltb, ◌==◌,
  arith, add64, sub64, mul64,
}
use spacesvm.Errors.{
  Result, ok, err, panic, out_of_fuel, div64, value_empty, value_too_big, invalid_key,
}
use spacesvm.Exec.{bind-ok, ◌>>=◌}
use spacesvm.Platform.{Database, Platform, IsLawful}
use spacesvm.Types.{SpaceInfo, ValueMeta}
use spacesvm.Parser.{check_contents}
use spacesvm.Keys.{raw_space, space_info_key, prefix_expiry_key}
use spacesvm.Storage.Spaces.{
  expiry_data_value, decode_info, get_space_info, with_raw_space, unqueue, put_space_info,
}
use spacesvm.Storage.Values.{get_value_meta, put_space_key}
use spacesvm.Tx.{TransactionContext}
use spacesvm.Tx.Actions.{
  hash_len, value_hash, verify_space, update_space, without_old, discounted_units, execute_set,
}
use spacesvm.Tx.Actions.Permissions.{reject_if-ok, lift-ok, verify_space-ok}

module _ ⦃db : Database⦄ ⦃p : Platform⦄ where
  with_raw_space-ok :
      (space : Bytes) (i j : SpaceInfo) (d : db.Db)
      → (with_raw_space space i d).0 ≡ ok j
      → record i { raw_space = j.raw_space } ≡ j
  unfolding with_raw_space ◌>>=◌
  with_raw_space-ok space i j d h = split (raw_space space i.created) refl
    where
      split :
          (r : Result Bytes)
          → raw_space space i.created ≡ r
          → record i { raw_space = j.raw_space } ≡ j
      split (ok r) e = ground (arith, e)
      split (err x) e = ground (arith, e)
      split panic e = ground (arith, e)
      split out_of_fuel e = ground (arith, e)

  decode_info-marshal :
      IsLawful p → (j : SpaceInfo) → decode_info (some (p.marshal_info j)) ≡ ok (some j)
  unfolding decode_info
  decode_info-marshal laws j = rw (decode_info, laws.unmarshal-marshal_info j) refl

  put_space_info-ok :
      IsLawful p
      → (space : Bytes) (i : SpaceInfo) (last : ℕ) (d d' : db.Db)
      → put_space_info space i last d ≡ (ok tt, d')
      → (r : Bytes) × (get_space_info space d' ≡ (ok (some (record i { raw_space = r })), d'))
  unfolding put_space_info get_space_info ◌>>=◌
  put_space_info-ok laws space i last d d' h =
      let (j, h1, k1) = bind-ok _ tt d' (with_raw_space space i) d h in
      let (_, h2, k2) = bind-ok _ tt d' (unqueue last j) (with_raw_space space i d).1 k1 in
      let before = (unqueue last j (with_raw_space space i d).1).1 in
      let queued =
        db.put before (prefix_expiry_key j.expiry j.raw_space) (expiry_data_value j.owner space) in
      let stored : db.put queued (space_info_key space) (p.marshal_info j) ≡ d' = cc in
      let found : db.get d' (space_info_key space) ≡ some (p.marshal_info j) =
        rw
          (
            ← stored,
            db.get-put queued (space_info_key space) (p.marshal_info j) (space_info_key space),
            bytes_eq_self (space_info_key space),
          )
          refl in
      (
        j.raw_space,
        ap (λ v. (decode_info v, d')) found
            ∙ ap (λ r. (r, d')) (decode_info-marshal laws j)
            ∙ ap (λ x. (ok (some x), d')) (sym (with_raw_space-ok space i j d h1)),
      )

  update_space-ok :
      IsLawful p
      → (t : TransactionContext) (space : Bytes) (time_remaining : ℕ) (i : SpaceInfo) (d d' : db.Db)
      → update_space space t time_remaining i d ≡ (ok tt, d')
      → (life : ℕ) × (r : Bytes) × (div64 time_remaining i.units ≡ ok life)
        × (get_space_info space d' ≡ (
          ok (
              some (record i {
                updated = t.block_time;
                expiry = add64 t.block_time life;
                raw_space = r;
              })),
          d',
        ))
  unfolding update_space
  update_space-ok laws t space time_remaining i d d' h =
      let (life, divided, k) = lift-ok (div64 time_remaining i.units) _ tt d d' h in
      let (r, found) =
        put_space_info-ok laws space
          (record i { updated = t.block_time; expiry = add64 t.block_time life }) i.expiry d d' k in
      (life, r, divided, found)

  -- A set that succeeds has found the space `i`. It leaves the owner and the time of creation, and
  -- sets the time of the update to the block's time. The space then expires at the block's time
  -- plus its whole life since the last update, from `updated` to `expiry`, times its old units and
  -- divided by its new ones, all modulo 2^64: what has passed of that life does not count.
  pub execute_set-renews :
      IsLawful p
      → (t : TransactionContext) (space key value : Bytes) (d d' : db.Db)
      → execute_set t space key value d ≡ (ok tt, d')
      → (i : SpaceInfo) × (units : ℕ) × (life : ℕ) × (r : Bytes) × (get_space_info space d
          ≡ (ok (some i), d))
        × (div64 (mul64 (sub64 i.expiry i.updated) i.units) units ≡ ok life)
        × (get_space_info space d' ≡ (
          ok (
              some (record {
                owner = i.owner;
                created = i.created;
                updated = t.block_time;
                expiry = add64 t.block_time life;
                units = units;
                raw_space = r;
              })),
          d',
        ))
  unfolding execute_set
  execute_set-renews laws t space key value d d' h =
      let (_, _, k1) = lift-ok (check_contents space) _ tt d d' h in
      let (_, _, k2) = lift-ok (check_contents key) _ tt d d' k1 in
      let k3 = reject_if-ok (length value == 0) value_empty _ tt d d' k2 in
      let k4 =
        reject_if-ok (ltb t.genesis.max_value_size (length value)) value_too_big _ tt d d' k3 in
      let (i, found, k5) = bind-ok _ tt d' (verify_space space t) d k4 in
      let d5 = (verify_space space t d).1 in
      let k6 =
        reject_if-ok (length key == hash_len && not (bytes_eq key (value_hash value))) invalid_key _
          tt d5 d' k5 in
      let (v, _, k7) = bind-ok _ tt d' (get_value_meta space key) d5 k6 in
      let d7 = (get_value_meta space key d5).1 in
      let (kept, _, k8) = bind-ok _ tt d' (without_old t i v) d7 k7 in
      let d8 = (without_old t i v d7).1 in
      let (more, _, k9) = lift-ok (discounted_units t.genesis (length value)) _ tt d8 d' k8 in
      let vmeta : ValueMeta = record {
        size = length value;
        tx_id = t.tx_id;
        created = kept.1;
        updated = t.block_time;
      } in
      let (_, _, k10) = bind-ok _ tt d' (put_space_key space key vmeta) d8 k9 in
      let d10 = (put_space_key space key vmeta d8).1 in
      let units = add64 kept.0 more in
      let (life, r, divided, after_set) =
        update_space-ok laws t space (mul64 (sub64 i.expiry i.updated) i.units)
          (record i { units = units }) d10 d' k10 in
      (i, units, life, r, (verify_space-ok t space i d found).0, divided, after_set)
