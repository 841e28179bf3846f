-- ===== src/Sage/Screening/Danger.antt =====
-- A task that the safety scan flags.
use az_lab.Event.{Event, Trace, Env, ok}
use az_lab.Exec.{lift, using}
use az_lab.Rules.{Adds, Emits, emits_rules}
use az_lab.Rules.Each.{request_rules}
use az_lab.Rules.Inversion.{after, outcome, bind-after}
use az_lab.Rules.Happens.{Happened, last, Happened-first, Emits-Anything}
use az_lab.Exec.{update_tasks}
use az_lab.Report.{log_activity, discord_notify}
use az_lab.Sage.Judgement.{is_dangerous}
use az_lab.Sage.Screening.{flag_danger, screened, screen_one}
use az_lab.Routing.{required}
use az_lab.Queue.{Task, Cond, Assign, text}
use az_lab.Prelude.{String, ◌<>◌, ◌≡◌, refl, ap, Option, some, [], ◌∷◌}

-- Of `task_queue`, only this row is written, and its status becomes Jeff's; the model is not asked, and
-- nothing is run.
abbrev pub IsParked : String → Event → Type 0
IsParked id (Event.update_tasks (Cond.id_eq i ∷ []) (Assign.status s ∷ p)) =
    (i ≡ id) × (s ≡ "pending_jeff_action")
IsParked id (Event.update_tasks _ _) = ⊥
IsParked id (Event.insert_task t) = ⊥
IsParked id (Event.run_nemotron s) = ⊥
IsParked id (Event.run_claude p m t) = ⊥
IsParked id _ = Unit

log-IsParked :
    (id kind content : String) (i : Option String)
    → Emits (IsParked id) (log_activity kind content i)
unfolding log_activity
log-IsParked id kind content i = search (emits_rules, request_rules)

discord-IsParked : (id s : String) → Emits (IsParked id) (discord_notify s)
unfolding discord_notify
discord-IsParked id s = search (emits_rules, request_rules)

flag_danger-IsParked :
    (t : Task) (title snippet : String) → Emits (IsParked t.id) (flag_danger t title snippet)
unfolding flag_danger
flag_danger-IsParked t title snippet =
    search (emits_rules, request_rules, log-IsParked, discord-IsParked) depth 10

-- The PATCH that parks the row.
abbrev pub Parks : Task → Event → Type 0
Parks t (Event.update_tasks (Cond.id_eq i ∷ []) (Assign.status s ∷ p)) =
    (i ≡ t.id) × (s ≡ "pending_jeff_action")
Parks t _ = ⊥

flag_danger-Parks :
    (t : Task) (title snippet : String) (env : Env) (h : Trace)
    → Happened (Parks t) (after (flag_danger t title snippet) env h)
unfolding flag_danger update_tasks
flag_danger-Parks t title snippet env h =
    Happened-first (update_tasks _ _) _ env h (last (refl, refl)) (λ rows.
      Emits-Anything {P = IsParked t.id} (search (emits_rules, log-IsParked, discord-IsParked)))

-- A task whose description and title match a pattern of danger is parked for Jeff: the PATCH that gives
-- its row the status `pending_jeff_action` is made, its row is written only so, and neither the model
-- nor a session is asked.
pub screen_one-IsParked :
    (t : Task) (title snippet : String) (env : Env) (h : Trace)
    → t.title ≡ some title
    → is_dangerous env (text t.description <> (" " <> title)) ≡ some snippet
    → Adds (IsParked t.id) h (screen_one t env h).1 × Happened (Parks t) (screen_one t env h).1
unfolding screen_one screened lift using required
screen_one-IsParked t title snippet env h e danger =
    let named : outcome (lift (required t.title)) env h ≡ ok title = rw e refl in
    rw (bind-after (lift (required t.title)) _ env h title named) (
      rw
        (bind-after (using (λ w. is_dangerous w (text t.description <> (" " <> title)))) _ env h
          (some snippet) (ap ok danger))
        ((flag_danger-IsParked t title snippet).at env h, flag_danger-Parks t title snippet env h))
