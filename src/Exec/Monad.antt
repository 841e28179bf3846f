-- ===== src/Exec/Monad.antt =====
-- The monad of actions.
use az_lab.Event.{Exn, Result, ok, err, Trace, Env}
use az_lab.Prelude.{List, [], ◌∷◌}

abbrev pub Exec : Type 0 → Type 0
Exec A = Env → Trace → Result A × Trace

module _ {A : Type 0} where
  unfoldable pub pure : A → Exec A
  pure a env h = (ok a, h)

  unfoldable pub raise : Exn → Exec A
  raise e env h = (err e, h)

  -- a value that was computed, or the exception of its computation
  unfoldable pub lift : Result A → Exec A
  lift r env h = (r, h)

  -- what a pure library function of the environment returns
  unfoldable pub using : (Env → A) → Exec A
  using f env h = (ok (f env), h)

module _ {A B : Type 0} where
  abbrev continue : Result A → (A → Exec B) → Exec B
  continue (ok a) f env h = f a env h
  continue (err e) f env h = (err e, h)

  infixl 5 ◌>>=◌ ◌>>◌
  -- opening this opens `pure`, `raise`, `lift` and `using` too
  unfoldable pub ◌>>=◌ : Exec A → (A → Exec B) → Exec B
  unfolding pure raise lift using
  ◌>>=◌ m f env h = let (r, h') = m env h in continue r f env h'

  abbrev pub ◌>>◌ : Exec A → Exec B → Exec B
  m >> n = m >>= λ _. n

module _ {A : Type 0} where
  abbrev handle : Result A → (Exn → Exec A) → Exec A
  handle (ok a) f env h = (ok a, h)
  handle (err e) f env h = f e env h

  -- try: m  except Exception as e: f(e)
  unfoldable pub catch : Exec A → (Exn → Exec A) → Exec A
  catch m f env h = let (r, h') = m env h in handle r f env h'

-- for x in xs: body(x)
unfoldable pub for_each {ℓ} : {A : Type ℓ} → List A → (A → Exec (Unit {0})) → Exec (Unit {0})
unfolding pure
for_each [] body = pure tt
for_each (x ∷ xs) body = let rest = for_each xs body in body x >>= λ _. rest
