-- ===== src/Poller/Ends.antt =====
-- The requests of what a settlement calls.
use az_lab.Notes.{note_to_jeff_from_result}
use az_lab.Goals.{update_goal_notes}
use az_lab.Episodes.{end_episode}
use az_lab.Recurring.{requeue_recurring}
use az_lab.Report.{log_activity, discord_notify}
use az_lab.Rules.{Emits, emits_rules}
use az_lab.Rules.Each.{request_rules}
use az_lab.Event.{Event}
use az_lab.Queue.{Task, Cond, Assign, Audit}
use az_lab.Poller.{refresh_container_updates}
use az_lab.Outcomes.{
  today, complete_goal, mark_completed, note_goal, requeue_original, mark_pending_eval,
  mark_pending_jeff_action,
}
use az_lab.Skills.{
  fetch_skill_triggers, match_skill, resolve_task_skill, record_outcome, record_skill_outcome,
}
use az_lab.Guardian.{store_guardian_audit, alert, audited, guardian_audit, run_guardian_on}
use az_lab.Guardian.Evidence.{work_evidence}
use az_lab.Guardian.Evidence.Laws.{evidence-Emits}
use az_lab.Prelude.{ℕ, String, ◌≡◌, Bool, true, Option, none, some, List, [], ◌∷◌, elem}

-- A PATCH of `task_queue`, or the call that stores a recurring result, is of this row, and the status
-- that it gives is allowed; new rows and requests to other tables are free.
abbrev pub IsEnd : String → List String → Event → Type 0
IsEnd id allowed (Event.update_tasks (Cond.id_eq i ∷ []) (Assign.status s ∷ p)) =
    (i ≡ id) × (elem s allowed ≡ true)
IsEnd id allowed (Event.update_tasks _ _) = ⊥
IsEnd id allowed (Event.recurring_result i _) = (i ≡ id) × (elem "completed" allowed ≡ true)
IsEnd id allowed _ = Unit

module _ (id : String) (allowed : List String) where
  ruleset ends = (emits_rules, request_rules)

  pub log-IsEnd :
      (kind content : String) (i : Option String)
      → Emits (IsEnd id allowed) (log_activity kind content i)
  unfolding log_activity
  log-IsEnd kind content i = search ends

  pub discord-IsEnd : (s : String) → Emits (IsEnd id allowed) (discord_notify s)
  unfolding discord_notify
  discord-IsEnd s = search ends

  note-IsEnd : (i result : String) → Emits (IsEnd id allowed) (note_to_jeff_from_result i result)
  unfolding note_to_jeff_from_result
  note-IsEnd i result = search ends depth 12

  goal-IsEnd :
      (i line : String) (n : Option ℕ) (s : Option String)
      → Emits (IsEnd id allowed) (update_goal_notes i line n s)
  unfolding update_goal_notes
  goal-IsEnd i line n s = search ends depth 8

  pub episode-IsEnd :
      (e : Option String) (status : String) (a b : Option String)
      → Emits (IsEnd id allowed) (end_episode e status a b)
  unfolding end_episode
  episode-IsEnd none status a b = search ends
  episode-IsEnd (some i) status a b = search ends depth 8

  pub requeue-IsEnd : (t : Task) → Emits (IsEnd id allowed) (requeue_recurring t)
  unfolding requeue_recurring
  requeue-IsEnd t = search ends depth 12

  pub refresh-IsEnd : (t : Task) → Emits (IsEnd id allowed) (refresh_container_updates t)
  unfolding refresh_container_updates
  refresh-IsEnd t = search ends

  triggers-IsEnd : Emits (IsEnd id allowed) fetch_skill_triggers
  unfolding fetch_skill_triggers
  triggers-IsEnd = search ends depth 8

  match-IsEnd : (t : Task) → Emits (IsEnd id allowed) (match_skill t)
  unfolding match_skill
  match-IsEnd t = search (ends, triggers-IsEnd) depth 8

  name-IsEnd : (t : Task) → Emits (IsEnd id allowed) (resolve_task_skill t)
  unfolding resolve_task_skill
  name-IsEnd t = search (ends, match-IsEnd)

  recorded-IsEnd :
      (b : Bool) (note : String) (n : Option String)
      → Emits (IsEnd id allowed) (record_outcome b note n)
  unfolding record_outcome
  recorded-IsEnd b note none = search ends
  recorded-IsEnd b note (some n) = search ends

  pub outcome-IsEnd :
      (t : Task) (b : Bool) (s : String) → Emits (IsEnd id allowed) (record_skill_outcome t b s)
  unfolding record_skill_outcome
  outcome-IsEnd t b s = search (ends, name-IsEnd, recorded-IsEnd)

  store-IsEnd : (i : String) (a : Audit) → Emits (IsEnd id allowed) (store_guardian_audit i a)
  unfolding store_guardian_audit
  store-IsEnd i a = search ends

  alert-IsEnd : (t : Task) (i : String) (a : Audit) → Emits (IsEnd id allowed) (alert t i a)
  unfolding alert
  alert-IsEnd t i a = search (ends, discord-IsEnd)

  audited-IsEnd :
      (t : Task) (i : String) (a : Option Audit) → Emits (IsEnd id allowed) (audited t i a)
  unfolding audited
  audited-IsEnd t i none = search ends
  audited-IsEnd t i (some a) = search (ends, store-IsEnd, alert-IsEnd, log-IsEnd) depth 12

  audit_evidence-IsEnd : (t : Task) → Emits (IsEnd id allowed) (work_evidence t)
  audit_evidence-IsEnd t =
      evidence-Emits (IsEnd id allowed) (λ path. tt) (λ args input. tt) (λ i n. tt) t

  pub guardian-IsEnd :
      (t : Task) (result i : String) → Emits (IsEnd id allowed) (run_guardian_on t result i)
  unfolding run_guardian_on guardian_audit
  guardian-IsEnd t result i = search (ends, audit_evidence-IsEnd, audited-IsEnd) depth 12

  pub jeff-IsEnd :
      elem "pending_jeff_action" allowed ≡ true
      → (result reason title : String)
      → Emits (IsEnd id allowed) (mark_pending_jeff_action id result reason title)
  unfolding mark_pending_jeff_action
  jeff-IsEnd a result reason title = search (ends, log-IsEnd, discord-IsEnd) depth 12

  orig-IsEnd : (o : Option Task) → Emits (IsEnd id allowed) (requeue_original o)
  unfolding requeue_original
  orig-IsEnd none = search ends
  orig-IsEnd (some t) = search (ends, requeue-IsEnd) depth 8

  today-IsEnd : Emits (IsEnd id allowed) today
  unfolding today
  today-IsEnd = search ends

  goal-note-IsEnd : (g : Option String) (a b : String) → Emits (IsEnd id allowed) (note_goal g a b)
  unfolding note_goal
  goal-note-IsEnd none a b = search ends
  goal-note-IsEnd (some g) a b = search (ends, goal-IsEnd, today-IsEnd) depth 8

  pub goal-done-IsEnd :
      (g : Option String) (s : String) → Emits (IsEnd id allowed) (complete_goal g s)
  unfolding complete_goal
  goal-done-IsEnd none s = search ends
  goal-done-IsEnd (some g) s = search (ends, goal-IsEnd, today-IsEnd) depth 8

  pub eval-IsEnd :
      elem "pending_eval" allowed ≡ true
      → (result : String) (g : Option String) (o : Option Task)
      → Emits (IsEnd id allowed) (mark_pending_eval id result g o)
  unfolding mark_pending_eval
  eval-IsEnd a result g o =
      search (ends, log-IsEnd, note-IsEnd, orig-IsEnd, goal-note-IsEnd) depth 12

  pub completed-IsEnd :
      elem "completed" allowed ≡ true
      → (result : String) (g : Option String) (r : Bool)
      → Emits (IsEnd id allowed) (mark_completed id result g r)
  unfolding mark_completed
  completed-IsEnd a result g r = search (ends, log-IsEnd, note-IsEnd, goal-done-IsEnd) depth 12
