-- ===== src/Prelude/Exec/Returns.antt =====
-- What holds of the result and the state of an action that returns.
use okam_ha_proxy.Prelude.Outcome.{Result, ok, err}
use okam_ha_proxy.Prelude.Exec.{Exec, continue, ◌>>=◌}
use okam_ha_proxy.Prelude.Exec.Keeps.{Keeps}

module _ {ℓ} {S A : Type ℓ} where
  -- Nothing is said of an action that raises.
  abbrev pub Returns : (A → S → Type ℓ) → Result A × S → Type ℓ
  Returns Q (ok a, s) = Q a s
  Returns Q (err _, s) = Unit

  pub holds-Returns :
      (P : S → Type ℓ) (outcome : Result A × S) → P outcome.1 → Returns (λ _ t. P t) outcome
  holds-Returns P (ok a, s) p = p
  holds-Returns P (err _, s) p = tt

  pub Keeps-Returns :
      (P : S → Type ℓ) (m : Exec S A) (s : S) → Keeps P m → P s → Returns (λ _ t. P t) (m s)
  Keeps-Returns P m s keeps p = holds-Returns P (m s) (keeps.after s p)

module _ {ℓ} {S A B : Type ℓ} where
  pub continue-Returns :
      (Q : A → S → Type ℓ) (R : B → S → Type ℓ) (outcome : Result A × S) (f : A → Exec S B)
      → Returns Q outcome
      → ((a : A) (t : S) → Q a t → Returns R (f a t))
      → Returns R (continue outcome.0 f outcome.1)
  continue-Returns Q R (ok a, s) f q next = next a s q
  continue-Returns Q R (err _, s) f q next = tt

  pub bind-Returns :
      (Q : A → S → Type ℓ) (R : B → S → Type ℓ) (m : Exec S A) (f : A → Exec S B) (s : S)
      → Returns Q (m s)
      → ((a : A) (t : S) → Q a t → Returns R (f a t))
      → Returns R ((m >>= f) s)
  unfolding ◌>>=◌
  bind-Returns Q R m f s q next = continue-Returns Q R (m s) f q next

module _ {ℓ} {S A : Type ℓ} where
  pub any-Returns : (outcome : Result A × S) → Returns (λ _ _. Unit {ℓ}) outcome
  any-Returns (ok a, s) = tt
  any-Returns (err _, s) = tt

  pub both-Returns :
      (Q : A → S → Type ℓ) (P : S → Type ℓ) (outcome : Result A × S)
      → Returns Q outcome
      → P outcome.1
      → Returns (λ a t. Q a t × P t) outcome
  both-Returns Q P (ok a, s) q p = (q, p)
  both-Returns Q P (err _, s) q p = tt

  pub then-Returns :
      (Q R : A → S → Type ℓ) (outcome : Result A × S)
      → Returns Q outcome
      → ((a : A) (t : S) → Q a t → R a t)
      → Returns R outcome
  then-Returns Q R (ok a, s) q next = next a s q
  then-Returns Q R (err _, s) q next = tt

  pub two-Returns :
      (Q R : A → S → Type ℓ) (outcome : Result A × S)
      → Returns Q outcome
      → Returns R outcome
      → Returns (λ a t. Q a t × R a t) outcome
  two-Returns Q R (ok a, s) q r = (q, r)
  two-Returns Q R (err _, s) q r = tt

  -- What holds of the state that is reached, said of that state by name.
  pub reached-Returns :
      (P : S → Type ℓ) (outcome : Result A × S)
      → Returns (λ _ t. P t) outcome
      → Returns (λ _ _. P outcome.1) outcome
  reached-Returns P (ok a, s) p = p
  reached-Returns P (err _, s) p = tt
