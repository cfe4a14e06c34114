-- ===== src/Tx/Actions/Transfers.antt =====
-- A transfer as a change of the account book: chain/transfer_tx.go over ModifyBalance.
use spacesvm.Prelude.{
  ℕ, ◌+◌, ◌-◌, ◌≤◌, ◌<◌, ◌≡◌, ◌≢◌, sym, Bool, true, false, ◌||◌, Bytes, bytes_eq, bytes_eq_self,
  ltb, leb, ◌==◌, arith, if◌then◌else◌, u64, Bool-cases, inl, inr,
}
use spacesvm.Errors.{ok, err, non_actionable, invalid_balance}
use spacesvm.Exec.{◌>>=◌, after}
use spacesvm.Platform.{Database, Platform, IsLawful}
use spacesvm.Storage.Balances.{set_balance}
use spacesvm.Storage.Balances.Accounts.{
  Holds, get-set_balance, get-set_balance_ne, modify_balance_lem,
}
use spacesvm.Tx.{TransactionContext}
use spacesvm.Tx.Actions.{execute_transfer, zero_address}

module _ ⦃db : Database⦄ ⦃p : Platform⦄ (laws : IsLawful p) (t : TransactionContext) where
  -- The transfer is refused before it reads a balance.
  abbrev pub refused : Bytes → ℕ → Bool
  refused to units = bytes_eq to zero_address || bytes_eq to t.sender || units == 0

  -- What a transfer of less than 2^64 units does to a database in which its sender has `b` and its
  -- recipient `m`: it is refused for the zero address, for the sender, and for no units; it fails
  -- with nothing written when the sender has too little, and with only the sender's account written
  -- when the recipient's would overflow; else the units are taken from one and given to the other.
  pub execute_transfer_lem :
      (d : db.Db) (to : Bytes) (units b m : ℕ)
      → Holds d t.sender b
      → Holds d to m
      → units < u64
      → execute_transfer t to units d ≡ (
          let debited = after (set_balance t.sender (b - units)) d in
          if refused to units
          then (err non_actionable, d)
          else if ltb b units
          then (err invalid_balance, d)
          else if leb u64 (m + units)
          then (err invalid_balance, debited)
          else (ok tt, after (set_balance to (m + units)) debited))
  unfolding execute_transfer ◌>>=◌
  execute_transfer_lem d to units b m hb hm c =
      let debited = after (set_balance t.sender (b - units)) d in
      let first = modify_balance_lem laws d t.sender false b units hb c in
      elim (Bool-cases (bytes_eq to t.sender)) [
        | inl e ↦ ground arith
        | inr e ↦
            let second =
              modify_balance_lem laws debited to true m units
                (get-set_balance_ne d t.sender to (b - units) m
                  (λ same. ground (arith, bytes_eq_self to)) hm)
                c in
            ground (arith, first, second)
      ]

  -- A transfer that succeeds takes its units from the sender, who has enough, gives them to the
  -- recipient, and leaves an account of anybody else at what it held. The three accounts are known,
  -- and the units are less than 2^64.
  pub execute_transfer-conserves :
      (d : db.Db) (to other : Bytes) (units b m n : ℕ)
      → Holds d t.sender b
      → Holds d to m
      → Holds d other n
      → other ≢ t.sender
      → other ≢ to
      → units < u64
      → (execute_transfer t to units d).0 ≡ ok tt
      → (let after_transfer = after (execute_transfer t to units) d in
          (units ≤ b)
          × Holds after_transfer t.sender (b - units)
          × Holds after_transfer to (m + units)
          × Holds after_transfer other n)
  execute_transfer-conserves d to other units b m n hb hm hn h k c e =
      let debited = after (set_balance t.sender (b - units)) d in
      let credited = after (set_balance to (m + units)) debited in
      let all = execute_transfer_lem d to units b m hb hm c in
      let passed : refused to units ≡ false = ground arith in
      let enough : units ≤ b = ground arith in
      let fits : m + units < u64 = ground arith in
      let apart : to ≢ t.sender = λ same. ground (arith, bytes_eq_self to) in
      let result : after (execute_transfer t to units) d ≡ credited = ground arith in
      rw (result) (
        enough,
        get-set_balance_ne debited to t.sender (m + units) (b - units) apart
            (get-set_balance d t.sender (b - units) (omega (arith, hb.1))),
        get-set_balance debited to (m + units) fits,
        get-set_balance_ne debited to other (m + units) n (λ same. k (sym same))
            (get-set_balance_ne d t.sender other (b - units) n (λ same. h (sym same)) hn),
      )
