-- ===== src/Exec/Keeps.antt =====
-- Invariants of actions with what is known of their results, one rule for each way to build one.
use spacesvm.Prelude.{◌≡◌, refl, Bool, true, false, if◌then◌else◌}
use spacesvm.Errors.{Error, Result, ok, err, panic, out_of_fuel}
use spacesvm.Exec.{Exec, return, fail, lift, gets, modify, continue, ◌>>=◌}

-- a returned value satisfies `Q`
abbrev pub Ends : {A : Type 0} → (A → Type 0) → Result A → Type 0
Ends Q (ok a) = Q a
Ends Q (err e) = Unit
Ends Q panic = Unit
Ends Q out_of_fuel = Unit

-- `m` keeps `P` however it ends, and what it returns satisfies `Q`.
pub record Keeps {S A : Type 0} (P : S → Type 0) (Q : A → Type 0) (m : Exec S A) : Type 0 where
  pub at : (s : S) → P s → P (m s).1 × Ends Q (m s).0

abbrev pub Any : {A : Type 0} → A → Type 0
Any _ = Unit

pub Ends-Any : {A : Type 0} (r : Result A) → Ends Any r
Ends-Any (ok a) = tt
Ends-Any (err e) = tt
Ends-Any panic = tt
Ends-Any out_of_fuel = tt

module _ {S A : Type 0} {P : S → Type 0} where
  pub Keeps-return : {Q : A → Type 0} (a : A) → Q a → Keeps P Q (return a)
  unfolding return
  Keeps-return a q = record { at = λ s h. (h, q) }

  pub Keeps-fail : {Q : A → Type 0} (e : Error) → Keeps P Q (fail {A = A} e)
  unfolding fail
  Keeps-fail e = record { at = λ s h. (h, tt) }

  pub Keeps-lift : {Q : A → Type 0} (r : Result A) → Ends Q r → Keeps P Q (lift r)
  unfolding lift
  Keeps-lift r q = record { at = λ s h. (h, q) }

  pub Keeps-pure : (r : Result A) → Keeps P Any (lift r)
  unfolding lift
  Keeps-pure r = record { at = λ s h. (h, Ends-Any r) }

  pub Keeps-gets : {Q : A → Type 0} (f : S → A) → ((s : S) → P s → Q (f s)) → Keeps P Q (gets f)
  unfolding gets
  Keeps-gets f q = record { at = λ s h. (h, q s h) }

  pub Keeps-weaken :
      {Q R : A → Type 0} {m : Exec S A} → ((a : A) → Q a → R a) → Keeps P Q m → Keeps P R m
  Keeps-weaken {Q} {R} {m} f k = record {
    at = λ s h. let (h', q) = k.at s h in (h', map_end (m s).0 q);
  }
    where
      map_end : (r : Result A) → Ends Q r → Ends R r
      map_end (ok a) q = f a q
      map_end (err e) q = tt
      map_end panic q = tt
      map_end out_of_fuel q = tt

  pub Keeps-if :
      {Q : A → Type 0} {m n : Exec S A} (b : Bool)
      → (b ≡ true → Keeps P Q m)
      → (b ≡ false → Keeps P Q n)
      → Keeps P Q (if b then m else n)
  Keeps-if true k l = k refl
  Keeps-if false k l = l refl

pub Keeps-modify :
    {S : Type 0} {P : S → Type 0} (f : S → S) → ((s : S) → P s → P (f s)) → Keeps P Any (modify f)
unfolding modify
Keeps-modify f k = record { at = λ s h. (k s h, tt) }

module _ {S A B : Type 0} {P : S → Type 0} where
  pub Keeps-bind :
      {Q : A → Type 0} {R : B → Type 0} {m : Exec S A} {f : A → Exec S B}
      → Keeps P Q m
      → ((a : A) → Q a → Keeps P R (f a))
      → Keeps P R (m >>= f)
  unfolding ◌>>=◌
  Keeps-bind {Q} {R} {m} {f} k l = record {
    at = λ s h. let (h', q) = k.at s h in go (m s).0 (m s).1 h' q;
  }
    where
      go :
          (r : Result A) (s' : S)
          → P s'
          → Ends Q r
          → P (continue r f s').1 × Ends R (continue r f s').0
      go (ok a) s' h q = (l a q).at s' h
      go (err e) s' h q = (h, tt)
      go panic s' h q = (h, tt)
      go out_of_fuel s' h q = (h, tt)
