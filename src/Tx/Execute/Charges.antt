-- ===== src/Tx/Execute/Charges.antt =====
-- What executing a transaction costs its sender, and whose signature it carries: chain/tx.go and
-- chain/crypto.go.
use spacesvm.Prelude.{
  ℕ, zero, suc, ◌+◌, ◌-◌, ◌*◌, ◌^◌, ◌%◌, ◌≤◌, ◌<◌, ◌≡◌, refl, ap, false, not, Option, Bytes, [],
  ◌∷◌, length, ltb, arith, if◌then◌else◌, u64, mul64,
}
use spacesvm.Errors.{
  Result, ok, err, panic, out_of_fuel, fail_if, invalid_block_id, duplicate_tx, insufficient_price,
  bad_signature, invalid_balance, ◌>>=◌, ◌>>◌,
}
use spacesvm.Exec
use spacesvm.Exec.{Exec, return, fail, lift, continue, after}
use spacesvm.Platform.{Database, Platform, IsLawful}
use spacesvm.Types.{Transaction, StatelessBlock, Activity}
use spacesvm.Genesis.{Genesis}
use spacesvm.Storage.{require}
use spacesvm.Storage.Values.{set_transaction}
use spacesvm.Storage.Balances.{set_balance}
use spacesvm.Storage.Balances.Accounts.{Holds, modify_balance_lem}
use spacesvm.Tx.{Context, base, contains_id, execute_base}
use spacesvm.Tx.Fees.{fee_units}
use spacesvm.Tx.Actions.{execute_unsigned}
use spacesvm.Tx.Execute.{
  change_at, sign, remove_offset, derive_sender, signature_length, v_offset, legacy_sig_adj,
  lottery, execute,
}

mul64-lt : (a b : ℕ) → mul64 a b < u64
unfolding mul64
mul64-lt a b = omega arith

-- The byte at one place, if there is one, is such.
abbrev pub At : ℕ → (ℕ → Type 0) → Bytes → Type 0
At n low [] = Unit
At zero low (b ∷ s) = low b
At (suc n) low (b ∷ s) = At n low s

-- What is checked before the fee is known: the transaction against the genesis and the window.
abbrev pub admit : Genesis → Context → Transaction → Result ℕ
admit g context t = do
  execute_base g (base t.unsigned)
  fail_if (not (contains_id context.recent_block_ids (base t.unsigned).block_id)) invalid_block_id
  fail_if (contains_id context.recent_tx_ids t.id) duplicate_tx
  fee_units g t.unsigned

module _ ⦃db : Database⦄ ⦃p : Platform⦄ where
  -- What follows when the fee is paid.
  abbrev pub perform :
      Genesis → StatelessBlock → Context → Transaction → ℕ → Exec db.Db (Option Activity)
  perform g blk context t fee =
      Exec.◌>>=◌
        (execute_unsigned
          (record { genesis = g; block_time = blk.tmstmp; tx_id = t.id; sender = t.sender })
          t.unsigned)
        λ _. Exec.◌>>=◌ (set_transaction t.id) λ _. lottery g blk t fee

  -- The fee is its units times the transaction's price, modulo 2^64. It must be in the account,
  -- which holds `b`, and is taken out of it before the price is compared with the block's.
  abbrev pub charge :
      Genesis → StatelessBlock → Context → Transaction → ℕ → ℕ → Exec db.Db (Option Activity)
  charge g blk context t b fee s =
      let amount = mul64 fee (base t.unsigned).price in
      let charged = after (set_balance t.sender (b - amount)) s in
      if ltb b amount
      then (err invalid_balance, s)
      else if ltb (base t.unsigned).price context.next_price
      then (err insufficient_price, charged)
      else perform g blk context t fee charged

module _ ⦃db : Database⦄ ⦃p : Platform⦄ (laws : IsLawful p) where
  -- Executing a transaction whose sender holds `b`: one that is not admitted is refused with
  -- nothing written; else the fee, which is the fee units times its own price modulo 2^64, must be
  -- in the account, is taken out of it before the price is compared with the block's, and only
  -- then the transaction is performed.
  pub execute_lem :
      (g : Genesis) (blk : StatelessBlock) (context : Context) (t : Transaction) (d : db.Db) (b : ℕ)
      → Holds d t.sender b
      → execute g blk context t d ≡ continue (admit g context t) (charge g blk context t b) d
  unfolding execute Exec.◌>>=◌
  execute_lem g blk context t d b h = split (fee_units g t.unsigned) refl
    where
      split :
          (r : Result ℕ)
          → fee_units g t.unsigned ≡ r
          → execute g blk context t d ≡ continue (admit g context t) (charge g blk context t b) d
      split (ok fee) e =
          let price = (base t.unsigned).price in
          ground (
            arith,
            e,
            modify_balance_lem laws d t.sender false b (mul64 fee price) h (mul64-lt fee price),
          )
      split (err x) e = ground (arith, e)
      split panic e = ground (arith, e)
      split out_of_fuel e = ground (arith, e)

  -- A price of 2^63 costs nothing when the fee units are even, because their product is 0 modulo
  -- 2^64: a transaction that is admitted with them is performed for a sender who holds nothing,
  -- whenever the block's price is not above 2^63.
  pub execute-free :
      (g : Genesis) (blk : StatelessBlock) (context : Context) (t : Transaction) (d : db.Db)
      (half : ℕ)
      → Holds d t.sender 0
      → admit g context t ≡ ok (2 * half)
      → (base t.unsigned).price ≡ 2 ^ 63
      → context.next_price ≤ 2 ^ 63
      → execute g blk context t d
        ≡ perform g blk context t (2 * half) (after (set_balance t.sender 0) d)
  unfolding mul64
  execute-free g blk context t d half h fee price low =
      let product : mul64 (2 * half) (2 ^ 63) ≡ 0 = omega arith in
      ground (arith, execute_lem g blk context t d 0 h, fee, price, product)

remove-add : (v : ℕ) → v < 2 → remove_offset ((v + 27) % 256) ≡ v
unfolding remove_offset
remove-add v h = ground arith

-- The bytes that differ in one place, where `g` undoes `f`.
change-change :
    (n : ℕ) (f g : ℕ → ℕ) (low : ℕ → Type 0)
    → ((v : ℕ) → low v → g (f v) ≡ v)
    → (s : Bytes) → At n low s
    → change_at n g (change_at n f s) ≡ s
unfolding change_at
change-change n f g low undo [] h = refl
change-change zero f g low undo (b ∷ s) h = ap (λ c. c ∷ s) (undo b h)
change-change (suc n) f g low undo (b ∷ s) h = ap (◌∷◌ b) (change-change n f g low undo s h)

length-change_at : (n : ℕ) (f : ℕ → ℕ) (s : Bytes) → length (change_at n f s) ≡ length s
unfolding change_at
length-change_at n f [] = refl
length-change_at zero f (b ∷ s) = refl
length-change_at (suc n) f (b ∷ s) = ap suc (length-change_at n f s)

module _ ⦃p : Platform⦄ where
  -- The sender of a signature that `sign` made is whom the unchanged signature of crypto.Sign
  -- recovers to. That signature has 65 bytes, of which the last is 0 or 1.
  pub derive_sender-sign :
      (dh sig : Bytes)
      → length sig ≡ signature_length
      → At v_offset (λ v. v < 2) sig
      → (sign (ok sig) >>= derive_sender dh) ≡ require bad_signature (p.recover dh sig)
  unfolding sign derive_sender
  derive_sender-sign dh sig n v =
      let shifted = change_at v_offset (λ v. (v + legacy_sig_adj) % 256) sig in
      let same : length shifted ≡ signature_length =
        rw (length-change_at v_offset (λ v. (v + legacy_sig_adj) % 256) sig) n in
      rw
        (
          same,
          change-change v_offset (λ v. (v + legacy_sig_adj) % 256) remove_offset (λ v. v < 2)
              remove-add sig v,
        )
        refl
