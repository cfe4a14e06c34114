-- ===== src/Exec.antt =====
-- Functions that write to a state `S` and may return an error. In Go what was written before the
-- error stays written, so the state comes back beside the error too.
pub mod Keeps
use spacesvm.Prelude.{◌≡◌, refl}
use spacesvm.Errors.{Error, Result, ok, err, panic, out_of_fuel}

abbrev pub Exec : Type 0 → Type 0 → Type 0
Exec S A = S → Result A × S

module _ {S A : Type 0} where
  unfoldable pub return : A → Exec S A
  return a s = (ok a, s)

  unfoldable pub fail : Error → Exec S A
  fail e s = (err e, s)

  -- A pure step that may fail.
  unfoldable pub lift : Result A → Exec S A
  lift r s = (r, s)

  unfoldable pub gets : (S → A) → Exec S A
  gets f s = (ok (f s), s)

unfoldable pub modify : {S : Type 0} → (S → S) → Exec S (Unit {0})
modify f s = (ok tt, f s)

module _ {S A B : Type 0} where
  abbrev pub continue : Result A → (A → Exec S B) → Exec S B
  continue (ok a) f s = f a s
  continue (err e) f s = (err e, s)
  continue panic f s = (panic, s)
  continue out_of_fuel f s = (out_of_fuel, s)

  infixl 5 ◌>>=◌
  -- opening this opens the actions above too
  unfoldable pub ◌>>=◌ : Exec S A → (A → Exec S B) → Exec S B
  unfolding return fail lift gets modify
  ◌>>=◌ m f s = continue (m s).0 f (m s).1

infixl 5 ◌>>◌
abbrev pub ◌>>◌ : {S B : Type 0} → Exec S (Unit {0}) → Exec S B → Exec S B
m >> k = m >>= λ _. k

-- The final state of a call.
abbrev pub after : {S A : Type 0} → Exec S A → S → S
after m s = (m s).1

-- A call whose writes are thrown away unless it succeeds.
abbrev pub run : {S A : Type 0} → Exec S A → S → Result (A × S)
run {S} {A} m s = keep (m s).0 (m s).1
  where
    keep : Result A → S → Result (A × S)
    keep (ok a) s' = ok (a, s')
    keep (err e) s' = err e
    keep panic s' = panic
    keep out_of_fuel s' = out_of_fuel

-- What is known when a chain of calls has returned a value.
module _ {S A B : Type 0} (f : A → Exec S B) (b : B) (s' : S) where
  continue-ok :
      (r : Result A) (s : S)
      → continue r f s ≡ (ok b, s')
      → (a : A) × (r ≡ ok a) × (f a s ≡ (ok b, s'))
  continue-ok (ok a) s h = (a, refl, h)
  continue-ok (err e) s h = absurd (cc)
  continue-ok panic s h = absurd (cc)
  continue-ok out_of_fuel s h = absurd (cc)

  pub bind-ok :
      (m : Exec S A) (s : S)
      → (m >>= f) s ≡ (ok b, s')
      → (a : A) × ((m s).0 ≡ ok a) × (f a (m s).1 ≡ (ok b, s'))
  unfolding ◌>>=◌
  bind-ok m s h = continue-ok (m s).0 (m s).1 h
