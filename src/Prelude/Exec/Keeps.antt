-- ===== src/Prelude/Exec/Keeps.antt =====
-- State predicates that an action leaves true, whether it returns or raises: one rule for each way in
-- which the program builds an action.
use mathlib.Core.Bool.{Bool, true, false}
use okam_ha_proxy.Prelude.Outcome.{Error, Result, ok, err}
use okam_ha_proxy.Prelude.Tests.{if◌then◌else◌}
use okam_ha_proxy.Prelude.Exec.{Exec, pure, raise, lift, gets, modify, continue, ◌>>=◌}

pub record Keeps {ℓ} {S A : Type ℓ} (P : S → Type ℓ) (m : Exec S A) : Type ℓ where
  pub after : (s : S) → P s → P (m s).1

module _ {ℓ} {S A : Type ℓ} {P : S → Type ℓ} where
  pub pure-Keeps : (a : A) → Keeps P (pure a)
  unfolding pure
  pure-Keeps a = record { after = λ _ p. p }

  pub raise-Keeps : (e : Error) → Keeps P (raise {A = A} e)
  unfolding raise
  raise-Keeps e = record { after = λ _ p. p }

  pub lift-Keeps : (r : Result A) → Keeps P (lift r)
  unfolding lift
  lift-Keeps r = record { after = λ _ p. p }

  pub gets-Keeps : (f : S → A) → Keeps P (gets f)
  unfolding gets
  gets-Keeps f = record { after = λ _ p. p }

  pub if-Keeps :
      (test : Bool) (m n : Exec S A) → Keeps P m → Keeps P n → Keeps P (if test then m else n)
  if-Keeps true m n p q = p
  if-Keeps false m n p q = q

pub modify-Keeps :
    {S : Type 0} {P : S → Type 0} (f : S → S) → ((s : S) → P s → P (f s)) → Keeps P (modify f)
unfolding modify
modify-Keeps f h = record { after = h }

module _ {ℓ} {S A B : Type ℓ} {P : S → Type ℓ} where
  continue-holds :
      (r : Result A) (f : A → Exec S B) (s : S)
      → P s
      → ((a : A) → Keeps P (f a))
      → P (continue r f s).1
  continue-holds (ok a) f s p q = (q a).after s p
  continue-holds (err _) f s p q = p

  pub bind-Keeps :
      (m : Exec S A) (f : A → Exec S B) → Keeps P m → ((a : A) → Keeps P (f a)) → Keeps P (m >>= f)
  unfolding ◌>>=◌
  bind-Keeps m f p q = record {
    after = λ s h. let (r, s') = m s in continue-holds r f s' (p.after s h) q;
  }

pub ruleset keeps_rules = (pure-Keeps, raise-Keeps, lift-Keeps, gets-Keeps, if-Keeps, bind-Keeps)
