-- ===== src/Recover/Alive.antt =====
-- Tasks that are alive are left alone by the recovery.
use az_lab.Recover.{ready_patch, recover_step, recover_each}
use az_lab.Rules.{Adds, Emits, Adds-trans, Emits-pure, Adds-bind, emits_rules, here, more}
use az_lab.Rules.Each.{Emits-update_tasks, Emits-select_activity, request_rules}
use az_lab.Rules.Inversion.{after}
use az_lab.Exec.{◌>>=◌, update_tasks, select_activity}
use az_lab.Event.{Event, Trace, Env, ok}
use az_lab.Queue.{Task, Cond, Activity, text}
use az_lab.Time.{Time}
use az_lab.Report.{log_activity}
use az_lab.Prelude.{
  String, ◌≡◌, inl, inr, Bool, true, false, not, Option, some, List, [], ◌∷◌, ◌==◌, eq_iff,
  Bool-cases, is_empty,
}

-- The row of this task is not written.
abbrev pub Spares : String → Event → Type 0
Spares id (Event.update_tasks (Cond.id_eq i ∷ cs) p) = (i == id) ≡ false
Spares id (Event.update_tasks _ _) = ⊥
Spares id _ = Unit

log-Spares :
    (id kind content : String) (i : Option String) → Emits (Spares id) (log_activity kind content i)
unfolding log_activity
log-Spares id kind content i = search (emits_rules, request_rules)

alive_step :
    (t : Task) (ts : List Task) (since : Time) (env : Env) (h : Trace) (a : Activity)
    (rest : List Activity)
    → env.select_activity h t.id (some since) 1 ≡ ok (a ∷ rest)
    → recover_each since (t ∷ ts) env h
      ≡ recover_each since ts env (Event.select_activity t.id (some since) 1 ∷ h)
unfolding recover_each recover_step ◌>>=◌ select_activity
alive_step t ts since env h a rest found = rw found

module _ (env : Env) (id : String) (since : Time) where
  each_step :
      (b : Bool) (t : Task) (ts : List Task) (h : Trace)
      → (t.id == id) ≡ false
      → ((h1 : Trace) → Adds (Spares id) h1 (after (recover_each since ts) env h1))
      → Adds (Spares id) h (after (recover_step b t (recover_each since ts)) env h)
  unfolding recover_step
  each_step true t ts h other later = later h
  each_step false t ts h other later =
      Adds-bind (update_tasks (Cond.id_eq t.id ∷ []) ready_patch) _ env h
        ((Emits-update_tasks {P = Spares id} (Cond.id_eq t.id ∷ []) ready_patch other).at env h)
        (λ rows h1.
          Adds-bind (log_activity "status" "Auto-recovered stuck task → ready" (some t.id)) _ env h1
            ((log-Spares id "status" "Auto-recovered stuck task → ready" (some t.id)).at env h1)
            (λ u h2.
              Adds-bind (recover_each since ts) _ env h2 (later h2)
                (λ rest h3. (Emits-pure {P = Spares id} (text t.title ∷ rest)).at env h3)))

  -- A task for which each lookup of its activity since the cutoff finds a row is not written by the
  -- recovery, wherever it stands among the tasks that look stuck.
  pub recover_each-Spares :
      (ts : List Task) (h : Trace)
      → ((h1 : Trace)
          → (a : Activity) × (rest : List Activity) × (env.select_activity h1 id (some since) 1
              ≡ ok (a ∷ rest)))
      → Adds (Spares id) h (after (recover_each since ts) env h)
  unfolding recover_each
  recover_each-Spares [] h alive = (Emits-pure {P = Spares id} []).at env h
  recover_each-Spares (t ∷ ts) h alive = elim (Bool-cases (t.id == id)) [
    | inl same ↦
        let (a, rest, found) = alive h in
        let q : t.id ≡ id = (eq_iff t.id id).0 same in
        rw (alive_step t ts since env h a rest (rw (← q) at found), after)
          (Adds-trans (more tt here)
            (recover_each-Spares ts (Event.select_activity t.id (some since) 1 ∷ h) alive))
    | inr other ↦
        Adds-bind (select_activity t.id (some since) 1) _ env h
          ((Emits-select_activity {P = Spares id} t.id (some since) 1 tt).at env h)
          (λ recent h1.
            each_step (not (is_empty recent)) t ts h1 other (λ h2. recover_each-Spares ts h2 alive))
  ]
