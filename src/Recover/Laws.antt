-- ===== src/Recover/Laws.antt =====
-- Which tasks the recovery resets, and what it writes.
use az_lab.Recover.{
  is_stuck, stuck_tasks, ready_patch, recover_step, recover_each, report_recovered,
  recover_stuck_tasks,
}
use az_lab.Rules.{Adds, Emits, Emits-pure, Emits-bind, emits_rules, here}
use az_lab.Rules.Each.{Emits-update_tasks, Emits-select_activity, request_rules}
use az_lab.Event.{Event, Trace, Env, ok}
use az_lab.Exec.{Exec, pure, ◌>>=◌, update_tasks, select_activity}
use az_lab.Queue.{Task, Cond, Assign, text}
use az_lab.Rules.Inversion.{after, outcome, bind-ok}
use az_lab.Time.{Time}
use az_lab.Report.{log_activity, discord_notify}
use az_lab.Prelude.{
  String, ◌≡◌, refl, Bool, true, false, not, Option, none, some, List, [], ◌∷◌, if◌then◌else◌,
  is_empty, All,
}

-- A PATCH of `task_queue` frees one row and makes it ready; no task is made, no goal is changed and no
-- session is run.
abbrev pub IsReset : Event → Type 0
IsReset (Event.update_tasks (Cond.id_eq i ∷ []) p) =
    p ≡ Assign.status "ready" ∷ Assign.claimed_by none ∷ Assign.claimed_at none ∷ []
IsReset (Event.update_tasks _ _) = ⊥
IsReset (Event.insert_task t) = ⊥
IsReset (Event.update_goal i p) = ⊥
IsReset (Event.run_claude p m t) = ⊥
IsReset _ = Unit

ruleset resets = (emits_rules, request_rules, refl)

log-IsReset :
    (kind content : String) (id : Option String) → Emits IsReset (log_activity kind content id)
unfolding log_activity
log-IsReset kind content id = search resets

discord-IsReset : (s : String) → Emits IsReset (discord_notify s)
unfolding discord_notify
discord-IsReset s = search resets

report-IsReset : (ts : List String) → Emits IsReset (report_recovered ts)
unfolding report_recovered
report-IsReset [] = search resets
report-IsReset (t ∷ ts) = search discord-IsReset

stuck-IsReset : (cutoff : Time) (ts : List Task) → Emits IsReset (stuck_tasks cutoff ts)
unfolding stuck_tasks
stuck-IsReset cutoff [] = search resets
stuck-IsReset cutoff (t ∷ ts) =
    Emits-bind _ _ (record { at = λ env h. here })
      (λ stuck.
        Emits-bind (stuck_tasks cutoff ts) _ (stuck-IsReset cutoff ts) (λ rest. Emits-pure _))

step-IsReset :
    (b : Bool) (t : Task) (later : Exec (List String))
    → Emits IsReset later
    → Emits IsReset (recover_step b t later)
unfolding recover_step
step-IsReset true t later e = e
step-IsReset false t later e =
    Emits-bind (update_tasks (Cond.id_eq t.id ∷ []) ready_patch) _
      (Emits-update_tasks (Cond.id_eq t.id ∷ []) ready_patch refl)
      (λ rows.
        Emits-bind (log_activity "status" "Auto-recovered stuck task → ready" (some t.id)) _
          (log-IsReset "status" "Auto-recovered stuck task → ready" (some t.id))
          (λ u.
            Emits-bind later (λ rest. pure (text t.title ∷ rest)) e
              (λ rest. Emits-pure (text t.title ∷ rest))))

each-IsReset : (since : Time) (ts : List Task) → Emits IsReset (recover_each since ts)
unfolding recover_each
each-IsReset since [] = search resets
each-IsReset since (t ∷ ts) =
    let later = each-IsReset since ts in
    Emits-bind (select_activity t.id (some since) 1) _
      (Emits-select_activity t.id (some since) 1 tt)
      (λ recent. step-IsReset (not (is_empty recent)) t (recover_each since ts) later)

-- The recovery of stuck tasks writes nothing of `task_queue` but resets to `ready`, which clear the
-- claim, makes no task, changes no goal and runs no session, however the world answers.
pub recover_stuck_tasks-IsReset :
    (env : Env) (h : Trace) → Adds IsReset h (recover_stuck_tasks env h).1
unfolding recover_stuck_tasks
recover_stuck_tasks-IsReset env h =
    let e : Emits IsReset recover_stuck_tasks =
      search (resets, stuck-IsReset, each-IsReset, report-IsReset) depth 14 in
    e.at env h

chosen-All :
    (env : Env) (cutoff : Time) (t : Task) (b : Bool) (rest stuck : List Task)
    → is_stuck env cutoff t ≡ ok b
    → (if b then t ∷ rest else rest) ≡ stuck
    → All (λ (t : Task). is_stuck env cutoff t ≡ ok true) rest
    → All (λ (t : Task). is_stuck env cutoff t ≡ ok true) stuck
chosen-All env cutoff t true rest stuck q e a = rw (← e) (q, a)
chosen-All env cutoff t false rest stuck q e a = rw (← e) a

-- Each task that is taken as stuck passes the test of its age: it has one, and that lies before the
-- cutoff.
stuck_tasks-All :
    (cutoff : Time) (ts : List Task) (env : Env) (h : Trace) (stuck : List Task)
    → outcome (stuck_tasks cutoff ts) env h ≡ ok stuck
    → All (λ (t : Task). is_stuck env cutoff t ≡ ok true) stuck
unfolding stuck_tasks pure
stuck_tasks-All cutoff [] env h stuck e = let same : [] ≡ stuck = cc in rw (← same) tt
stuck_tasks-All cutoff (t ∷ ts) env h stuck e =
    let h' = after (stuck_tasks cutoff (t ∷ ts)) env h in
    let whole : stuck_tasks cutoff (t ∷ ts) env h ≡ (ok stuck, h') = cc in
    let (b, q, e1) =
      bind-ok (λ env h. (is_stuck env cutoff t, h))
        (λ b. do rest ← stuck_tasks cutoff ts; pure (if b then t ∷ rest else rest)) env h stuck h'
        whole in
    let (rest, q2, e2) =
      bind-ok (stuck_tasks cutoff ts) (λ rest. pure (if b then t ∷ rest else rest)) env h stuck h'
        e1 in
    let last : (if b then t ∷ rest else rest) ≡ stuck = cc in
    chosen-All env cutoff t b rest stuck q last (stuck_tasks-All cutoff ts env h rest q2)
