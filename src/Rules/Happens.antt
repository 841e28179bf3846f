-- ===== src/Rules/Happens.antt =====
-- Rules for what has happened once an action has returned: `Does P m` says that a request with the
-- property `P` is then in the trace.
use az_lab.Exec.{Exec, pure, catch, ◌>>=◌, ◌>>◌, for_each, select_tasks, update_tasks}
use az_lab.Event.{Event, Exn, Trace, Env, ok}
use az_lab.Queue.{Task, Query, Cond, Assign}
use az_lab.Rules.{Adds, Adds-after, Adds-handled, Emits, Emits-pure, Emits-bind, here, more}
use az_lab.Rules.Inversion.{after, outcome, bind-ok, bind-after}
use az_lab.Prelude.{
  ℕ, ◌≡◌, sym, ap, ◌∙◌, subst, length, Bool, true, false, List, [], ◌∷◌, if◌then◌else◌, All,
}

pub data Happened (P : Event → Type 0) : Trace → Type 0 where
  last : {e : Event} {t : Trace} → P e → Happened P (e ∷ t)
  earlier : {e : Event} {t : Trace} → Happened P t → Happened P (e ∷ t)

-- Any request at all: an action only adds to the trace.
abbrev pub Anything : Event → Type 0
Anything e = Unit

pub Happened-Adds : {P Q : Event → Type 0} {h t : Trace} → Happened P h → Adds Q h t → Happened P t
Happened-Adds p here = p
Happened-Adds p (more q a) = earlier (Happened-Adds p a)

pub Adds-map :
    {P Q : Event → Type 0} → ((e : Event) → P e → Q e) → {h t : Trace} → Adds P h t → Adds Q h t
Adds-map f here = here
Adds-map f (more {e = e} p a) = more (f e p) (Adds-map f a)

pub Emits-Anything : {A : Type 0} {P : Event → Type 0} {m : Exec A} → Emits P m → Emits Anything m
Emits-Anything em = record { at = λ env h. Adds-map (λ e p. tt) (em.at env h) }

-- What an action has done, whether or not it returns, stays done.
pub Happened-first :
    {A B : Type 0} {P : Event → Type 0} (m : Exec A) (f : A → Exec B) (env : Env) (h : Trace)
    → Happened P (after m env h)
    → ((a : A) → Emits Anything (f a))
    → Happened P (after (m >>= f) env h)
Happened-first m f env h p ef = Happened-Adds p (Adds-after m f env h ef)

pub Happened-catch :
    {A : Type 0} {P : Event → Type 0} (m : Exec A) (f : Exn → Exec A) (env : Env) (h : Trace)
    → Happened P (m env h).1
    → ((e : Exn) → Emits Anything (f e))
    → Happened P (catch m f env h).1
Happened-catch m f env h p ef = Happened-Adds p (Adds-handled m f env h ef)

pub record Does {A : Type 0} (P : Event → Type 0) (m : Exec A) : Type 0 where
  pub done : (env : Env) (h : Trace) (a : A) → outcome m env h ≡ ok a → Happened P (after m env h)

pub Does-update_tasks :
    {P : Event → Type 0} (cs : List Cond) (p : List Assign)
    → P (Event.update_tasks cs p)
    → Does P (update_tasks cs p)
unfolding update_tasks
Does-update_tasks cs p q = record { done = λ env h a e. last q }

module _ {A B : Type 0} where
  -- What is known of an action that returned, and of the rest of it.
  pub bind-step :
      (m : Exec A) (f : A → Exec B) (env : Env) (h : Trace) (b : B)
      → outcome (m >>= f) env h ≡ ok b
      → (a : A) × (outcome m env h ≡ ok a)
        × (outcome (f a) env (after m env h) ≡ ok b)
        × (after (m >>= f) env h ≡ after (f a) env (after m env h))
  bind-step m f env h b e =
      let (a, q, e1) = bind-ok m f env h b (after (m >>= f) env h) cc in
      (a, q, cc, ap (λ r. r.1) (bind-after m f env h a q))

module _ {A B : Type 0} {P : Event → Type 0} where
  -- The step that does it is the first one ...
  pub Does-first :
      (m : Exec A) (f : A → Exec B) → Does P m → ((a : A) → Emits Anything (f a)) → Does P (m >>= f)
  Does-first m f d ef = record {
    done = λ env h b e.
        let (a, q, q1, same) = bind-step m f env h b e in
        subst (λ t. Happened P t) (sym same)
          (Happened-Adds (d.done env h a q) ((ef a).at env (after m env h)));
  }

  -- ... or a later one.
  pub Does-then : (m : Exec A) (f : A → Exec B) → ((a : A) → Does P (f a)) → Does P (m >>= f)
  Does-then m f d = record {
    done = λ env h b e.
        let (a, q, q1, same) = bind-step m f env h b e in
        subst (λ t. Happened P t) (sym same) ((d a).done env (after m env h) b q1);
  }

module _ {A : Type 0} {P : Event → Type 0} where
  pub Does-if : (b : Bool) (m n : Exec A) → Does P m → Does P n → Does P (if b then m else n)
  Does-if true m n dm dn = dm
  Does-if false m n dm dn = dn

pub Emits-each :
    {A : Type 0} {P : Event → Type 0} (xs : List A) (body : A → Exec (Unit {0}))
    → ((x : A) → Emits P (body x))
    → Emits P (for_each xs body)
unfolding for_each
Emits-each [] body em = Emits-pure tt
Emits-each (x ∷ xs) body em = Emits-bind (body x) _ (em x) (λ u. Emits-each xs body em)

-- A loop that returned has done for each element what its body does.
pub Does-each :
    {A : Type 0} {P : A → Event → Type 0} (xs : List A) (body : A → Exec (Unit {0}))
    → ((x : A) → Does (P x) (body x))
    → ((x : A) → Emits Anything (body x))
    → (env : Env) (h : Trace) → outcome (for_each xs body) env h ≡ ok tt
    → All (λ x. Happened (P x) (after (for_each xs body) env h)) xs
unfolding for_each
Does-each [] body d em env h e = tt
Does-each {P = P} (x ∷ xs) body d em env h e =
    let (u, q, q1, same) = bind-step (body x) (λ u. for_each xs body) env h tt e in
    let h1 = after (body x) env h in
    subst (λ t. All (λ y. Happened (P y) t) (x ∷ xs)) (sym same)
      (
        Happened-Adds ((d x).done env h u q) ((Emits-each xs body em).at env h1),
        Does-each xs body d em env h1 q1,
      )

-- A sweep: the selected rows that `pick` leaves are worked off, and counted.
module _ {P : Task → Event → Type 0} (pick : List Task → List Task) (body : Task → Exec (Unit {0}))
    (d : (t : Task) → Does (P t) (body t)) (em : (t : Task) → Emits Anything (body t)) where
  abbrev swept : List Task → Exec ℕ
  swept rows = do for_each (pick rows) body; pure (length (pick rows))

  swept-All :
      (rows : List Task) (env : Env) (h : Trace) (n : ℕ)
      → outcome (swept rows) env h ≡ ok n
      → All (λ t. Happened (P t) (after (swept rows) env h)) (pick rows) × (n ≡ length (pick rows))
  unfolding pure
  swept-All rows env h n r =
      let (u, q, q1, same) =
        bind-step (for_each (pick rows) body) (λ u. pure (length (pick rows))) env h n r in
      (
        subst (λ t. All (λ y. Happened (P y) t) (pick rows)) (sym same)
            (Does-each (pick rows) body d em env h q),
        cc,
      )

  pub sweep-All :
      (q : Query) (env : Env) (h : Trace) (rows : List Task) (n : ℕ)
      → outcome (select_tasks q) env h ≡ ok rows
      → outcome (select_tasks q >>= swept) env h ≡ ok n
      → All (λ t. Happened (P t) (after (select_tasks q >>= swept) env h)) (pick rows)
        × (n ≡ length (pick rows))
  sweep-All q env h rows n e r =
      let go = bind-after (select_tasks q) swept env h rows e in
      let (all, m) =
        swept-All rows env (after (select_tasks q) env h) n (ap (λ x. x.0) (sym go) ∙ r) in
      (subst (λ t. All (λ y. Happened (P y) t) (pick rows)) (ap (λ x. x.1) (sym go)) all, m)
