-- ===== src/Rules/Returns.antt =====
-- Rules for what an action returns: `Returns Q m` says that each value `m` returns has `Q`.
use az_lab.Exec.{Exec, pure, lift, using, ◌>>=◌, catch}
use az_lab.Event.{Exn, Result, Event, Trace, Env, ok, err}
use az_lab.Rules.{Adds, Emits, Adds-trans, here}
use az_lab.Rules.Inversion.{after, outcome, bind-ok}
use az_lab.Prelude.{◌≡◌, refl, Bool, true, false, if◌then◌else◌}

pub record Returns {A : Type 0} (Q : A → Type 0) (m : Exec A) : Type 0 where
  pub returned : (env : Env) (h : Trace) (a : A) → outcome m env h ≡ ok a → Q a

module _ {A : Type 0} {Q : A → Type 0} where
  pub Returns-pure : (a : A) → Q a → Returns Q (pure a)
  unfolding pure
  Returns-pure a q = record { returned = λ env h b e. let same : a ≡ b = cc in rw same at q }

  pub Returns-using : (f : Env → A) → ((env : Env) → Q (f env)) → Returns Q (using f)
  unfolding using
  Returns-using f q = record {
    returned = λ env h b e. let same : f env ≡ b = cc in rw same at (q env);
  }

  pub Returns-if :
      (b : Bool) (m n : Exec A) → Returns Q m → Returns Q n → Returns Q (if b then m else n)
  Returns-if true m n qm qn = qm
  Returns-if false m n qm qn = qn

  handle-Returns :
      (f : Exn → Exec A)
      → ((e : Exn) → Returns Q (f e))
      → (r : Result A) → ((a : A) → r ≡ ok a → Q a)
      → (env : Env) (h : Trace) (a : A) → outcome (catch (lift r) f) env h ≡ ok a
      → Q a
  unfolding catch lift
  handle-Returns f q (ok b) g env h a e = g a e
  handle-Returns f q (err x) g env h a e = (q x).returned env h a e

  pub Returns-catch :
      (m : Exec A) (f : Exn → Exec A)
      → Returns Q m
      → ((e : Exn) → Returns Q (f e))
      → Returns Q (catch m f)
  unfolding catch lift
  Returns-catch m f qm qf = record {
    returned = λ env h. handle-Returns f qf (m env h).0 (qm.returned env h) env (m env h).1;
  }

module _ {A B : Type 0} where
  pub Returns-bind :
      {Q : B → Type 0} (m : Exec A) (f : A → Exec B)
      → ((a : A) → Returns Q (f a))
      → Returns Q (m >>= f)
  Returns-bind m f qf = record {
    returned = λ env h b e.
        let (a, q, e1) = bind-ok m f env h b (after (m >>= f) env h) cc in
        (qf a).returned env (after m env h) b cc;
  }

  pub Returns-bind-Returns :
      {Q : A → Type 0} {R : B → Type 0} (m : Exec A) (f : A → Exec B)
      → Returns Q m
      → ((a : A) → Q a → Returns R (f a))
      → Returns R (m >>= f)
  Returns-bind-Returns m f qm qf = record {
    returned = λ env h b e.
        let (a, q, e1) = bind-ok m f env h b (after (m >>= f) env h) cc in
        (qf a (qm.returned env h a q)).returned env (after m env h) b cc;
  }

  -- A continuation need only be followed from values that are returned.
  pub Emits-bind-Returns :
      {P : Event → Type 0} {Q : A → Type 0} (m : Exec A) (f : A → Exec B)
      → Returns Q m
      → Emits P m
      → ((a : A) → Q a → Emits P (f a))
      → Emits P (m >>= f)
  unfolding ◌>>=◌
  Emits-bind-Returns {P} {Q} m f rm em ef = record {
    at = λ env h. Adds-trans (em.at env h) (go env h (m env h).0 (m env h).1 (rm.returned env h));
  }
    where
      go :
          (env : Env) (h0 : Trace) (r : Result A) (h : Trace)
          → ((a : A) → r ≡ ok a → Q a)
          → Adds P h ((lift r >>= f) env h).1
      go env h0 (ok a) h g = (ef a (g a refl)).at env h
      go env h0 (err x) h g = here
