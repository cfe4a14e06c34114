-- ===== src/Tx/Actions/Authority/Anyone.antt =====
-- The actions that do not ask who owns a space, of transfer_tx.go, lifeline_tx.go and claim_tx.go,
-- seen from a space of another sender.
use spacesvm.Prelude.{
  ℕ, ◌≡◌, ◌≢◌, refl, ap, inl, inr, Bool, true, false, Option, none, some, Bytes, length, add64,
}
use spacesvm.Errors.{Error, space_missing}
use spacesvm.Exec.{Exec}
use spacesvm.Exec.Keeps.{
  Keeps, Ends, Any, Keeps-return, Keeps-fail, Keeps-pure, Keeps-bind, Keeps-if,
}
use spacesvm.Platform.{Database, Platform, IsLawful}
use spacesvm.Types.{SpaceInfo}
use spacesvm.Keys.{raw_space}
use spacesvm.Storage.Spaces.{short_empty}
use spacesvm.Storage.Protected.{IsOther, Protected}
use spacesvm.Storage.Protected.Actions.{
  FoundAt, get_space_info-Keeps, put_space_info-Keeps, has_space-Keeps,
}
use spacesvm.Storage.Protected.Accounts.{modify_balance-Keeps}
use spacesvm.Tx.{TransactionContext}
use spacesvm.Tx.Actions.{reject_if, execute_claim, lengthen, execute_lifeline, execute_transfer}

module _ ⦃db : Database⦄ ⦃p : Platform⦄ (laws : IsLawful p) (s : Bytes) (i : SpaceInfo)
    (vals : Bytes → Option Bytes) (t : TransactionContext) (raw20 : length i.raw_space ≡ 20)
    (nonempty : i.raw_space ≢ short_empty) (foreign : i.owner ≢ t.sender) where
  abbrev K : {A : Type 0} → (A → Type 0) → Exec db.Db A → Type 0
  K Q m = Keeps (Protected s i vals) Q m

  reject_if-Keeps : (b : Bool) (e : Error) → K Any (reject_if b e)
  reject_if-Keeps b e = Keeps-if b (λ _. Keeps-fail e) (λ _. Keeps-return tt tt)

  pub execute_transfer-Keeps : (to : Bytes) (units : ℕ) → K Any (execute_transfer t to units)
  unfolding execute_transfer
  execute_transfer-Keeps to units = Keeps-bind (reject_if-Keeps _ _) λ _ _.
      Keeps-bind (reject_if-Keeps _ _) λ _ _. Keeps-bind (reject_if-Keeps _ _) λ _ _.
        Keeps-bind (modify_balance-Keeps s i vals t.sender false units)
          λ _ _. Keeps-bind (modify_balance-Keeps s i vals to true units) λ _ _. Keeps-return tt tt

  lengthen-Keeps :
      (x : Bytes) (units : ℕ) (o : Option SpaceInfo)
      → FoundAt s i vals x o
      → K Any (lengthen t x units o)
  unfolding lengthen
  lengthen-Keeps x units none f = Keeps-fail space_missing
  lengthen-Keeps x units (some j) (inl (e, q, f)) = Keeps-bind (Keeps-pure _) λ more _.
      put_space_info-Keeps s i vals laws nonempty x _ j.expiry (
        inl (
          inl (
            add64 j.expiry more,
            q,
            ap (λ (k : SpaceInfo). record k { expiry = add64 j.expiry more }) f,
          )))
  lengthen-Keeps x units (some j) (inr f) =
      Keeps-bind (Keeps-pure _)
        λ more _. put_space_info-Keeps s i vals laws nonempty x _ j.expiry (inl (inr f))

  pub execute_lifeline-Keeps : (x : Bytes) (units : ℕ) → K Any (execute_lifeline t x units)
  unfolding execute_lifeline
  execute_lifeline-Keeps x units = Keeps-bind (reject_if-Keeps _ _) λ _ _.
      Keeps-bind (Keeps-pure _)
        λ _ _. Keeps-bind (get_space_info-Keeps s i vals laws x) λ o f. lengthen-Keeps x units o f

  -- What goes on after the check knows that it passed.
  reject_if-Passed : (b : Bool) (e : Error) → K (λ _. b ≡ false) (reject_if b e)
  reject_if-Passed b e = Keeps-if b (λ _. Keeps-fail e) (λ h. Keeps-return tt h)

  pub execute_claim-Keeps :
      (x : Bytes)
      → Ends (IsOther i.raw_space) (raw_space x t.block_time)
      → K Any (execute_claim t x)
  unfolding execute_claim
  execute_claim-Keeps x fresh = Keeps-bind (Keeps-pure _) λ _ _.
      Keeps-bind (reject_if-Keeps _ _) λ _ _. Keeps-bind (has_space-Keeps s i vals x) λ exists n.
        Keeps-bind (reject_if-Passed exists _) λ _ e.
          Keeps-bind (Keeps-pure _)
            λ life _. put_space_info-Keeps s i vals laws nonempty x _ 0 (inr (n e, refl, fresh))
