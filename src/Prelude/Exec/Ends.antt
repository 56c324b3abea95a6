-- ===== src/Prelude/Exec/Ends.antt =====
-- Actions that never run out of the rounds that the model gives to a loop.
use mathlib.Core.Bool.{Bool, true, false}
use mathlib.Core.Path.{◌≡◌, refl}
use okam_ha_proxy.Prelude.Outcome.{Error, Result, ok, err, out_of_fuel}
use okam_ha_proxy.Prelude.Tests.{if◌then◌else◌}
use okam_ha_proxy.Prelude.Exec.{Exec, pure, raise, lift, gets, modify, continue, ◌>>=◌}

abbrev pub is_out_of_fuel : Error → Bool
is_out_of_fuel out_of_fuel = true
is_out_of_fuel _ = false

abbrev pub ran_out {ℓ} : {A : Type ℓ} → Result A → Bool
ran_out (ok _) = false
ran_out (err e) = is_out_of_fuel e

pub record Ends {ℓ} {S A : Type ℓ} (m : Exec S A) : Type ℓ where
  pub ends : (s : S) → ran_out (m s).0 ≡ false

module _ {ℓ} {S A : Type ℓ} where
  pub pure-Ends : (a : A) → Ends {S = S} (pure a)
  unfolding pure
  pure-Ends a = record { ends = λ _. refl }

  pub raise-Ends : (e : Error) → is_out_of_fuel e ≡ false → Ends {S = S} (raise {A = A} e)
  unfolding raise
  raise-Ends e h = record { ends = λ _. h }

  pub lift-Ends : (r : Result A) → ran_out r ≡ false → Ends {S = S} (lift r)
  unfolding lift
  lift-Ends r h = record { ends = λ _. h }

  pub gets-Ends : (f : S → A) → Ends (gets f)
  unfolding gets
  gets-Ends f = record { ends = λ _. refl }

  pub if-Ends : (test : Bool) (m n : Exec S A) → Ends m → Ends n → Ends (if test then m else n)
  if-Ends true m n p q = p
  if-Ends false m n p q = q

pub modify-Ends : {S : Type 0} (f : S → S) → Ends (modify f)
unfolding modify
modify-Ends f = record { ends = λ _. refl }

module _ {ℓ} {S A B : Type ℓ} where
  continue-Ends :
      (r : Result A) (f : A → Exec S B) (s : S)
      → ran_out r ≡ false
      → ((a : A) → Ends (f a))
      → ran_out (continue r f s).0 ≡ false
  continue-Ends (ok a) f s h q = (q a).ends s
  continue-Ends (err e) f s h q = h

  -- The same where what follows ends in the state that is reached.
  pub ran_out-continue :
      (outcome : Result A × S) (f : A → Exec S B)
      → ran_out outcome.0 ≡ false
      → ((a : A) → ran_out (f a outcome.1).0 ≡ false)
      → ran_out (continue outcome.0 f outcome.1).0 ≡ false
  ran_out-continue (ok a, s) f h q = q a
  ran_out-continue (err e, s) f h q = h

  pub bind-Ends :
      (m : Exec S A) (f : A → Exec S B) → Ends m → ((a : A) → Ends (f a)) → Ends (m >>= f)
  unfolding ◌>>=◌
  bind-Ends m f p q = record { ends = λ s. continue-Ends (m s).0 f (m s).1 (p.ends s) q }

pub ruleset ends_rules =
    (pure-Ends, raise-Ends, lift-Ends, gets-Ends, if-Ends, modify-Ends, bind-Ends)
