-- ===== src/Rules/Inversion.antt =====
-- What an action that returned has done before.
use az_lab.Exec.{Exec, lift, ◌>>=◌}
use az_lab.Event.{Result, Trace, Env, ok, err}
use az_lab.Prelude.{◌≡◌, refl}

-- The trace after an action, and what it came to.
abbrev pub after {ℓ} : {A : Type ℓ} → (Env → Trace → Result A × Trace) → Env → Trace → Trace
after m env h = (m env h).1

abbrev pub outcome {ℓ} : {A : Type ℓ} → (Env → Trace → Result A × Trace) → Env → Trace → Result A
outcome m env h = (m env h).0

module _ {A B : Type 0} where
  continue-ok :
      (f : A → Exec B) (r : Result A) (env : Env) (h : Trace) (b : B) (h' : Trace)
      → (lift r >>= f) env h ≡ (ok b, h')
      → (a : A) × (r ≡ ok a) × (f a env h ≡ (ok b, h'))
  unfolding ◌>>=◌
  continue-ok f (ok a) env h b h' e = (a, refl, e)
  continue-ok f (err x) env h b h' e = cc

  pub bind-ok :
      (m : Exec A) (f : A → Exec B) (env : Env) (h : Trace) (b : B) (h' : Trace)
      → (m >>= f) env h ≡ (ok b, h')
      → (a : A) × (outcome m env h ≡ ok a) × (f a env (after m env h) ≡ (ok b, h'))
  unfolding ◌>>=◌
  bind-ok m f env h b h' e = continue-ok f (m env h).0 env (m env h).1 b h' e

  known :
      (f : A → Exec B) (r : Result A) (env : Env) (h : Trace) (a : A)
      → r ≡ ok a
      → (lift r >>= f) env h ≡ f a env h
  unfolding ◌>>=◌
  known f (ok b) env h a e = let same : b ≡ a = cc in rw same
  known f (err x) env h a e = cc

  -- An action whose first step is known to return goes on with what it returned.
  pub bind-after :
      (m : Exec A) (f : A → Exec B) (env : Env) (h : Trace) (a : A)
      → outcome m env h ≡ ok a
      → (m >>= f) env h ≡ f a env (after m env h)
  unfolding ◌>>=◌
  bind-after m f env h a e = known f (m env h).0 env (m env h).1 a e
