-- ===== src/Storage.antt =====
-- chain/storage.go: what the chain reads from and writes to the database. This module has the
-- single reads and writes as actions on the database; the children have the functions of the file.
pub mod Spaces
pub mod Values
pub mod Balances
pub mod Expiry
pub mod Apart
pub mod Protected
use spacesvm.Prelude.{ℕ, Bool, Option, none, some, Bytes, length, take, leb, if◌then◌else◌}
use spacesvm.Errors.{Error, Result, ok, err, panic}
use spacesvm.Exec.{Exec, gets, modify}
use spacesvm.Platform.{Database}
use spacesvm.Keys.{uint64}

module _ ⦃db : Database⦄ where
  -- db.Get, with `none` for database.ErrNotFound
  abbrev pub load : Bytes → Exec db.Db (Option Bytes)
  load k = gets (λ d. db.get d k)

  abbrev pub store : Bytes → Bytes → Exec db.Db Unit
  store k v = modify (λ d. db.put d k v)

  abbrev pub erase : Bytes → Exec db.Db Unit
  erase k = modify (λ d. db.delete d k)

  abbrev pub erase_prefix : Bytes → Exec db.Db Unit
  erase_prefix p = modify (λ d. db.clear_prefix d p)

-- The result of a call of another package that returns a value or an error.
abbrev pub require {ℓ} : {A : Type ℓ} → Error → Option A → Result A
require e none = err e
require e (some a) = ok a

-- binary.BigEndian.Uint64 reads eight bytes, and panics if there are fewer.
abbrev pub read_uint64 : Bytes → Result ℕ
read_uint64 v = if leb 8 (length v) then ok (uint64 (take 8 v)) else panic
