-- ===== src/Storage/Balances/Accounts.antt =====
-- Balances of chain/storage.go as an account book: what ModifyBalance does to an account.
use spacesvm.Prelude.{
  ℕ, ◌+◌, ◌-◌, ◌<◌, ◌≡◌, ◌≢◌, Bool, true, false, Bytes, bytes_eq_self, take-all, ltb, leb, arith,
  if◌then◌else◌, u64, add64-exact, sub64-exact,
}
use spacesvm.Errors.{ok, err, invalid_balance}
use spacesvm.Exec.{◌>>=◌, after}
use spacesvm.Platform.{Database, Platform, IsLawful}
use spacesvm.Keys.{put_uint64, prefix_balance_key}
use spacesvm.Keys.Encoding.{StoreKey, encode, encode_ne}
use spacesvm.Keys.Times.{length-put_uint64, uint64-put_uint64}
use spacesvm.Storage.{read_uint64}
use spacesvm.Storage.Balances.{get_balance, set_balance, write_balance, modify_balance}

read-put_uint64 : (n : ℕ) → n < u64 → read_uint64 (put_uint64 n) ≡ ok n
read-put_uint64 n h =
    rw (length-put_uint64 n, take-all 8 (put_uint64 n) (length-put_uint64 n), uint64-put_uint64 n h)

module _ ⦃db : Database⦄ where
  -- The account of `a` in `d` stands at `n`.
  abbrev pub Holds : db.Db → Bytes → ℕ → Type 0
  Holds d a n = ((get_balance a d).0 ≡ ok n) × (n < u64)

  -- A balance that is set is read back.
  pub get-set_balance :
      (d : db.Db) (a : Bytes) (n : ℕ) → n < u64 → Holds (after (set_balance a n) d) a n
  unfolding get_balance set_balance ◌>>=◌
  get-set_balance d a n h = (
    rw
        (
          db.get-put d (prefix_balance_key a) (put_uint64 n) (prefix_balance_key a),
          bytes_eq_self (prefix_balance_key a),
        )
        (read-put_uint64 n h),
    h,
  )

  pub get-set_balance_ne :
      (d : db.Db) (a b : Bytes) (n m : ℕ)
      → a ≢ b
      → Holds d b m
      → Holds (after (set_balance a n) d) b m
  unfolding get_balance set_balance encode ◌>>=◌
  get-set_balance_ne d a b n m h k = (
    rw
        (
          db.get-put d (prefix_balance_key a) (put_uint64 n) (prefix_balance_key b),
          encode_ne (StoreKey.balance a) (StoreKey.balance b) tt tt (λ e. h (cc)),
        )
        (k.0),
    k.1,
  )

  module _ ⦃p : Platform⦄ (laws : IsLawful p) where
    -- What ModifyBalance does, with a change less than 2^64, on an account that stands at `b`: the
    -- sum or the difference is written and returned, unless it does not fit, when nothing is
    -- written.
    pub modify_balance_lem :
        (d : db.Db) (a : Bytes) (add : Bool) (b change : ℕ)
        → Holds d a b
        → change < u64
        → modify_balance a add change d ≡ (
            if (if add then leb u64 (b + change) else ltb b change)
            then (err invalid_balance, d)
            else (let n = if add then b + change else b - change in
                (ok n, after (set_balance a n) d)))
    unfolding modify_balance write_balance get_balance set_balance ◌>>=◌
    modify_balance_lem d a true b change h c =
        ground (arith, h.0, laws.safe_add_lem b change h.1 c, add64-exact b change)
    modify_balance_lem d a false b change h c =
        ground (arith, h.0, laws.safe_sub_lem b change h.1 c, sub64-exact b change h.1)
