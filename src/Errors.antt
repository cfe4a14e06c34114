-- ===== src/Errors.antt =====
-- chain/errors.go: the errors of the program as values, and how a call ends.
-- The module Exec has the functions that also write to a state.
use spacesvm.Prelude.{refl, ◌≡◌, ◌≢◌, ℕ, ◌/◌, Bool, true, false, ◌==◌, if◌then◌else◌}

pub data Error : Type 0 where
  -- genesis
  invalid_magic invalid_block_rate : Error
  -- block
  timestamp_too_early timestamp_too_late no_txs invalid_cost invalid_price : Error
  insufficient_surplus parent_block_not_verified : Error
  -- transaction
  invalid_block_id invalid_signature duplicate_tx insufficient_price invalid_type : Error
  typed_data_key_missing : Error
  -- execution
  value_empty value_too_big space_expired key_missing invalid_key address_mismatch : Error
  space_not_expired space_missing unauthorized invalid_balance non_actionable : Error
  block_too_big : Error
  -- parser/space_key.go and chain/storage.go
  invalid_contents invalid_path invalid_key_format : Error
  -- chain/genesis.go: the airdrop data has another hash than the genesis says
  airdrop_mismatch : Error
  -- errors of the packages that the program calls
  not_found bad_id bad_encoding bad_signature : Error

-- A returned value, a returned error, a run-time panic (a division by zero, or a slice that is out
-- of range), or a loop of the model that ran out of fuel.
pub data Result {ℓ} (A : Type ℓ) : Type ℓ where
  ok : A → Result A
  err : Error → Result A
  panic out_of_fuel : Result A

infixl 5 ◌>>=◌ ◌>>◌
abbrev pub ◌>>=◌ {ℓ κ} : {A : Type ℓ} {B : Type κ} → Result A → (A → Result B) → Result B
ok a >>= f = f a
err e >>= f = err e
panic >>= f = panic
out_of_fuel >>= f = out_of_fuel

abbrev pub ◌>>◌ {ℓ} : {B : Type ℓ} → Result (Unit {0}) → Result B → Result B
m >> k = m >>= λ _. k

-- `if failed { return e }`
abbrev pub fail_if : Bool → Error → Result (Unit {0})
fail_if true e = err e
fail_if false e = ok tt

-- Go's division of unsigned numbers.
abbrev pub div64 : ℕ → ℕ → Result ℕ
div64 a b = if b == 0 then panic else ok (a / b)

-- What is known when a chain of calls has returned a value.
pub bind-ok {ℓ κ} :
    {A : Type ℓ} {B : Type κ} (m : Result A) (f : A → Result B) (b : B)
    → (m >>= f) ≡ ok b
    → (a : A) × (m ≡ ok a) × (f a ≡ ok b)
bind-ok (ok a) f b h = (a, refl, h)
bind-ok (err e) f b h = absurd (cc)
bind-ok panic f b h = absurd (cc)
bind-ok out_of_fuel f b h = absurd (cc)

pub fail_if-ok {ℓ} :
    {B : Type ℓ} (c : Bool) (e : Error) (m : Result B) (b : B)
    → (fail_if c e >> m) ≡ ok b
    → (c ≡ false) × (m ≡ ok b)
fail_if-ok true e m b h = absurd (cc)
fail_if-ok false e m b h = (refl, h)

-- A chain runs out of fuel only where one of its calls does.
pub bind-fuelled {ℓ κ} :
    {A : Type ℓ} {B : Type κ} (m : Result A) (f : A → Result B)
    → m ≢ out_of_fuel
    → ((a : A) → m ≡ ok a → f a ≢ out_of_fuel)
    → (m >>= f) ≢ out_of_fuel
bind-fuelled (ok a) f h k = k a refl
bind-fuelled (err e) f h k = λ e. cc
bind-fuelled panic f h k = λ e. cc
bind-fuelled out_of_fuel f h k = λ e. h refl

pub if-fuelled {ℓ} :
    {A : Type ℓ} (b : Bool) {x y : Result A}
    → (b ≡ true → x ≢ out_of_fuel)
    → (b ≡ false → y ≢ out_of_fuel)
    → (if b then x else y) ≢ out_of_fuel
if-fuelled true h k = h refl
if-fuelled false h k = k refl
