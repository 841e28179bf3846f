-- ===== src/Rules.antt =====
-- Rules for actions, one for each way to build one: `Quiet m` says that `m` never raises, and
-- `Emits P m` that each request of `m` has the property `P`, however the world answers.
pub mod Each
pub mod Happens
pub mod Inversion
pub mod Returns
use az_lab.Exec.{Exec, pure, raise, lift, using, ◌>>=◌, catch}
use az_lab.Event.{Exn, Result, Event, Trace, Env, ok, err}
use az_lab.Prelude.{Bool, true, false, ◌∷◌, if◌then◌else◌}

abbrev pub IsOk {ℓ} : {A : Type ℓ} → Result A → Type 0
IsOk (ok a) = Unit
IsOk (err e) = ⊥

pub record Quiet {A : Type 0} (m : Exec A) : Type 0 where
  pub at : (env : Env) (h : Trace) → IsOk (m env h).0

-- `t` is `h` with later events, each of which has the property.
pub data Adds (P : Event → Type 0) (h : Trace) : Trace → Type 0 where
  here : Adds P h h
  more : {t : Trace} {e : Event} → P e → Adds P h t → Adds P h (e ∷ t)

pub record Emits {A : Type 0} (P : Event → Type 0) (m : Exec A) : Type 0 where
  pub at : (env : Env) (h : Trace) → Adds P h (m env h).1

pub Adds-trans : {P : Event → Type 0} {h t u : Trace} → Adds P h t → Adds P t u → Adds P h u
Adds-trans a here = a
Adds-trans a (more p b) = more p (Adds-trans a b)

module _ {A : Type 0} where
  pub Quiet-pure : (a : A) → Quiet (pure a)
  unfolding pure
  Quiet-pure a = record { at = λ env h. tt }

  pub Quiet-using : (f : Env → A) → Quiet (using f)
  unfolding using
  Quiet-using f = record { at = λ env h. tt }

  pub Quiet-if : (b : Bool) (m n : Exec A) → Quiet m → Quiet n → Quiet (if b then m else n)
  Quiet-if true m n qm qn = qm
  Quiet-if false m n qm qn = qn

  handle-Quiet :
      (f : Exn → Exec A)
      → ((e : Exn) → Quiet (f e))
      → (r : Result A) (env : Env) (h : Trace) → IsOk (catch (lift r) f env h).0
  unfolding catch lift
  handle-Quiet f q (ok a) env h = tt
  handle-Quiet f q (err e) env h = (q e).at env h

  -- A handler that does not raise makes any action quiet.
  pub Quiet-catch : (m : Exec A) (f : Exn → Exec A) → ((e : Exn) → Quiet (f e)) → Quiet (catch m f)
  unfolding catch lift
  Quiet-catch m f q = record { at = λ env h. let (r, h') = m env h in handle-Quiet f q r env h' }

module _ {A B : Type 0} where
  continue-Quiet :
      (f : A → Exec B)
      → ((a : A) → Quiet (f a))
      → (r : Result A) → IsOk r
      → (env : Env) (h : Trace) → IsOk ((lift r >>= f) env h).0
  unfolding ◌>>=◌
  continue-Quiet f q (ok a) i env h = (q a).at env h
  continue-Quiet f q (err e) i env h = i

  pub Quiet-bind :
      (m : Exec A) (f : A → Exec B) → Quiet m → ((a : A) → Quiet (f a)) → Quiet (m >>= f)
  unfolding ◌>>=◌
  Quiet-bind m f qm qf = record {
    at = λ env h. let (r, h') = m env h in continue-Quiet f qf r (qm.at env h) env h';
  }

pub ruleset quiet_rules = (Quiet-pure, Quiet-using, Quiet-if, Quiet-catch, Quiet-bind)

module _ {A : Type 0} {P : Event → Type 0} where
  pub Emits-pure : (a : A) → Emits P (pure a)
  unfolding pure
  Emits-pure a = record { at = λ env h. here }

  pub Emits-raise : (e : Exn) → Emits P (raise {A = A} e)
  unfolding raise
  Emits-raise e = record { at = λ env h. here }

  pub Emits-lift : (r : Result A) → Emits P (lift r)
  unfolding lift
  Emits-lift r = record { at = λ env h. here }

  pub Emits-using : (f : Env → A) → Emits P (using f)
  unfolding using
  Emits-using f = record { at = λ env h. here }

  pub Emits-if : (b : Bool) (m n : Exec A) → Emits P m → Emits P n → Emits P (if b then m else n)
  Emits-if true m n em en = em
  Emits-if false m n em en = en

  handle-Emits :
      (f : Exn → Exec A)
      → ((e : Exn) → Emits P (f e))
      → (r : Result A) (env : Env) (h : Trace) → Adds P h (catch (lift r) f env h).1
  unfolding catch lift
  handle-Emits f q (ok a) env h = here
  handle-Emits f q (err e) env h = (q e).at env h

  pub Emits-catch :
      (m : Exec A) (f : Exn → Exec A)
      → Emits P m
      → ((e : Exn) → Emits P (f e))
      → Emits P (catch m f)
  unfolding catch lift
  Emits-catch m f em q = record {
    at = λ env h. let (r, h') = m env h in Adds-trans (em.at env h) (handle-Emits f q r env h');
  }

  -- A handler adds to the trace.
  pub Adds-handled :
      (m : Exec A) (f : Exn → Exec A) (env : Env) (h : Trace)
      → ((e : Exn) → Emits P (f e))
      → Adds P (m env h).1 (catch m f env h).1
  unfolding catch lift
  Adds-handled m f env h q = handle-Emits f q (m env h).0 env (m env h).1

  -- The rule for one world and one trace.
  pub Adds-catch :
      (m : Exec A) (f : Exn → Exec A) (env : Env) (h : Trace)
      → Adds P h (m env h).1
      → ((e : Exn) → Emits P (f e))
      → Adds P h (catch m f env h).1
  unfolding catch lift
  Adds-catch m f env h em q = Adds-trans em (handle-Emits f q (m env h).0 env (m env h).1)

module _ {A B : Type 0} {P : Event → Type 0} where
  continue-Emits :
      (f : A → Exec B)
      → ((a : A) → Emits P (f a))
      → (r : Result A) (env : Env) (h : Trace) → Adds P h ((lift r >>= f) env h).1
  unfolding ◌>>=◌
  continue-Emits f q (ok a) env h = (q a).at env h
  continue-Emits f q (err e) env h = here

  continue_at :
      (f : A → Exec B) (env : Env) (r : Result A) (h : Trace)
      → ((a : A) (h1 : Trace) → Adds P h1 (f a env h1).1)
      → Adds P h ((lift r >>= f) env h).1
  unfolding ◌>>=◌
  continue_at f env (ok a) h ef = ef a h
  continue_at f env (err e) h ef = here

  pub Emits-bind :
      (m : Exec A) (f : A → Exec B) → Emits P m → ((a : A) → Emits P (f a)) → Emits P (m >>= f)
  unfolding ◌>>=◌
  Emits-bind m f em ef = record {
    at = λ env h. let (r, h') = m env h in Adds-trans (em.at env h) (continue-Emits f ef r env h');
  }

  -- What follows an action adds to its trace.
  pub Adds-after :
      (m : Exec A) (f : A → Exec B) (env : Env) (h : Trace)
      → ((a : A) → Emits P (f a))
      → Adds P (m env h).1 ((m >>= f) env h).1
  unfolding ◌>>=◌
  Adds-after m f env h ef = continue_at f env (m env h).0 (m env h).1 (λ a h1. (ef a).at env h1)

  -- The rule for one world and one trace.
  pub Adds-bind :
      (m : Exec A) (f : A → Exec B) (env : Env) (h : Trace)
      → Adds P h (m env h).1
      → ((a : A) (h1 : Trace) → Adds P h1 (f a env h1).1)
      → Adds P h ((m >>= f) env h).1
  unfolding ◌>>=◌
  Adds-bind m f env h em ef = Adds-trans em (continue_at f env (m env h).0 (m env h).1 ef)

pub ruleset emits_rules =
    (Emits-pure, Emits-raise, Emits-lift, Emits-using, Emits-if, Emits-catch, Emits-bind)
