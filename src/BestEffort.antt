-- ===== src/BestEffort.antt =====
-- The helpers of poll_queue.py that promise never to raise.
use az_lab.Rules.{IsOk, Quiet, Quiet-pure, Quiet-bind, quiet_rules}
use az_lab.Skills.{
  match_skill, resolve_task_skill, stamp, stamp_task_skill, record_outcome, record_skill_outcome,
}
use az_lab.Notes.{note_to_jeff_from_result}
use az_lab.Goals.{update_goal_notes}
use az_lab.Episodes.{start_episode, end_episode}
use az_lab.Recover.{recover_stuck_tasks}
use az_lab.Cowork.{notify_cowork_tasks}
use az_lab.Backlog.{promote_planned_milestones}
use az_lab.Recurring.{requeue_recurring}
use az_lab.Report.{log_activity, discord_notify}
use az_lab.Exec.{Exec, for_each, now}
use az_lab.Queue.{Task, Audit}
use az_lab.Waiting.{hold, pass, Check, release, release_if, sweep_one, sweep_waiting_tasks}
use az_lab.Guardian.{store_guardian_audit, alert, audited, guardian_audit, run_guardian_on}
use az_lab.Guardian.Evidence.Laws.{evidence-Quiet}
use az_lab.Rules.Inversion.{outcome}
use az_lab.Event.{Trace, Env}
use az_lab.Prelude.{ℕ, String, Bool, Option, none, some, List, [], ◌∷◌}

Quiet-now : Quiet now
unfolding now
Quiet-now = record { at = λ env h. tt }

Quiet-for_each :
    {A : Type 0} (xs : List A) (body : A → Exec Unit)
    → ((x : A) → Quiet (body x))
    → Quiet (for_each xs body)
unfolding for_each
Quiet-for_each [] body q = Quiet-pure tt
Quiet-for_each (x ∷ xs) body q = Quiet-bind (body x) _ (q x) (λ _. Quiet-for_each xs body q)

ruleset quiet = (quiet_rules, Quiet-now, Quiet-for_each)

log_activity-Quiet :
    (kind content : String) (id : Option String) → Quiet (log_activity kind content id)
unfolding log_activity
log_activity-Quiet kind content id = search quiet

discord_notify-Quiet : (s : String) → Quiet (discord_notify s)
unfolding discord_notify
discord_notify-Quiet s = search quiet

note-Quiet : (id result : String) → Quiet (note_to_jeff_from_result id result)
unfolding note_to_jeff_from_result
note-Quiet id result = search quiet

goal-Quiet :
    (id line : String) (progress : Option ℕ) (status : Option String)
    → Quiet (update_goal_notes id line progress status)
unfolding update_goal_notes
goal-Quiet id line progress status = search quiet

start_episode-Quiet : (t : Task) → Quiet (start_episode t)
unfolding start_episode
start_episode-Quiet t = search quiet

end_episode-Quiet :
    (id : Option String) (status : String) (summary result : Option String)
    → Quiet (end_episode id status summary result)
unfolding end_episode
end_episode-Quiet none status summary result = search quiet
end_episode-Quiet (some id) status summary result = search quiet

requeue-Quiet : (t : Task) → Quiet (requeue_recurring t)
unfolding requeue_recurring
requeue-Quiet t = search quiet

match_skill-Quiet : (t : Task) → Quiet (match_skill t)
unfolding match_skill
match_skill-Quiet t = search quiet

resolve-Quiet : (t : Task) → Quiet (resolve_task_skill t)
unfolding resolve_task_skill
resolve-Quiet t = search (quiet, match_skill-Quiet)

recover-Quiet : Quiet recover_stuck_tasks
unfolding recover_stuck_tasks
recover-Quiet = search quiet

cowork-Quiet : Quiet notify_cowork_tasks
unfolding notify_cowork_tasks
cowork-Quiet = search quiet

promote-Quiet : Quiet promote_planned_milestones
unfolding promote_planned_milestones
promote-Quiet = search quiet

record_outcome-Quiet :
    (success : Bool) (note : String) (name : Option String)
    → Quiet (record_outcome success note name)
unfolding record_outcome
record_outcome-Quiet success note none = search quiet
record_outcome-Quiet success note (some name) = search quiet

skill_outcome-Quiet :
    (t : Task) (success : Bool) (note : String) → Quiet (record_skill_outcome t success note)
unfolding record_skill_outcome
skill_outcome-Quiet t success note = search (quiet, resolve-Quiet, record_outcome-Quiet)

stamp-Quiet : (t : Task) (name : Option String) → Quiet (stamp t name)
unfolding stamp
stamp-Quiet t none = search quiet
stamp-Quiet t (some name) = search quiet

stamp_task-Quiet : (t : Task) → Quiet (stamp_task_skill t)
unfolding stamp_task_skill
stamp_task-Quiet t = search (quiet, match_skill-Quiet, stamp-Quiet)

store-Quiet : (id : String) (a : Audit) → Quiet (store_guardian_audit id a)
unfolding store_guardian_audit
store-Quiet id a = search quiet

audited-Quiet : (t : Task) (id : String) (a : Option Audit) → Quiet (audited t id a)
unfolding audited alert
audited-Quiet t id none = search quiet
audited-Quiet t id (some a) =
    search (quiet, store-Quiet, log_activity-Quiet, discord_notify-Quiet) depth 8

guardian-Quiet : (t : Task) (result id : String) → Quiet (run_guardian_on t result id)
unfolding run_guardian_on guardian_audit
guardian-Quiet t result id = search (quiet, evidence-Quiet, audited-Quiet) depth 8

release-Quiet : (t : Task) (detail : String) → Quiet (release t detail)
unfolding release
release-Quiet t detail = search (quiet, log_activity-Quiet, discord_notify-Quiet) depth 8

release_if-Quiet : (t : Task) (check : Check) → Quiet (release_if t check)
unfolding release_if
release_if-Quiet t (hold why) = search quiet
release_if-Quiet t (pass done) = search release-Quiet

sweep_one-Quiet : (t : Task) → Quiet (sweep_one t)
unfolding sweep_one
sweep_one-Quiet t = search (quiet, release_if-Quiet)

waiting-Quiet : Quiet sweep_waiting_tasks
unfolding sweep_waiting_tasks
waiting-Quiet = search (quiet, sweep_one-Quiet)

-- However the world answers, none of the accessories of a run raises: the activity log, Discord, the
-- notes to Jeff, the goal's notes, the episode, the skill, the next occurrence and Guardian.
accessories_never_raise :
    (t : Task) (a b : String) (o p : Option String) (n : Option ℕ) (success : Bool) (env : Env)
    (h : Trace)
    → IsOk (outcome (log_activity a b o) env h)
      × IsOk (outcome (discord_notify a) env h)
      × IsOk (outcome (note_to_jeff_from_result a b) env h)
      × IsOk (outcome (update_goal_notes a b n o) env h)
      × IsOk (outcome (start_episode t) env h)
      × IsOk (outcome (end_episode o a o p) env h)
      × IsOk (outcome (stamp_task_skill t) env h)
      × IsOk (outcome (record_skill_outcome t success a) env h)
      × IsOk (outcome (requeue_recurring t) env h)
      × IsOk (outcome (run_guardian_on t a b) env h)
accessories_never_raise t a b o p n success env h = (
  (log_activity-Quiet a b o).at env h,
  (discord_notify-Quiet a).at env h,
  (note-Quiet a b).at env h,
  (goal-Quiet a b n o).at env h,
  (start_episode-Quiet t).at env h,
  (end_episode-Quiet o a o p).at env h,
  (stamp_task-Quiet t).at env h,
  (skill_outcome-Quiet t success a).at env h,
  (requeue-Quiet t).at env h,
  (guardian-Quiet t a b).at env h,
)

-- However the world answers, none of these sweeps raises: the recovery of stuck tasks, the release
-- of waiting tasks, the news for Cowork and the promotion of milestones.
sweeps_never_raise :
    (env : Env) (h : Trace)
    → IsOk (outcome recover_stuck_tasks env h)
      × IsOk (outcome sweep_waiting_tasks env h)
      × IsOk (outcome notify_cowork_tasks env h)
      × IsOk (outcome promote_planned_milestones env h)
sweeps_never_raise env h =
    (recover-Quiet.at env h, waiting-Quiet.at env h, cowork-Quiet.at env h, promote-Quiet.at env h)
