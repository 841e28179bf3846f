-- ===== src/Poller.antt =====
-- infrastructure/task-queue/poll_queue.py: `main`, from the sweeps to the end of the run.
pub mod Ends
pub mod Runs
use az_lab.Claude.{run_claude}
use az_lab.Text
use az_lab.Json
use az_lab.Json.{Json}
use az_lab.Clip.{notify_summary}
use az_lab.Skills.{stamp_task_skill, record_skill_outcome}
use az_lab.Routing.{is_internal_housekeeping, compared, route_task, route_auto_tasks}
use az_lab.Context.{build_prompt}
use az_lab.Claim.{claim_next_task}
use az_lab.Waiting.{sweep_waiting_tasks}
use az_lab.Recover.{recover_stuck_tasks}
use az_lab.Stale.{sweep_stale_tasks}
use az_lab.Cowork.{notify_cowork_tasks}
use az_lab.Backlog.{auto_queue_from_goals}
use az_lab.JeffLoop.{needs_jeff_input}
use az_lab.Guardian.{run_guardian_on}
use az_lab.Outcomes.{mark_completed, mark_pending_eval, mark_pending_jeff_action, mark_failed}
use az_lab.Episodes.{start_episode, end_episode}
use az_lab.Recurring.{context_of, priority_of, requeue_recurring}
use az_lab.Report.{log_activity, discord_notify}
use az_lab.Exec.{Exec, pure, lift, ◌>>=◌, ◌>>◌, catch, start_unit, heartbeat}
use az_lab.Event.{Exn, message, Result}
use az_lab.Queue.{Task, text, tags_of}
use az_lab.Prelude.{
  ℕ, String, ◌<>◌, Bool, true, false, Option, none, some, ◌==◌, leb, if◌then◌else◌, or_else, elem,
}

-- `refresh_container_updates`
unfoldable pub refresh_container_updates : Task → Exec (Unit {0})
unfolding catch start_unit
refresh_container_updates t =
    if elem "container-update" (tags_of t)
    then catch (start_unit "dashboard-update-check.service") (λ _. pure tt)
    else pure tt

abbrev guardian_concern : String
guardian_concern = "Guardian CRITICAL alignment concern detected — review before approving"

-- CRIT and HIGH go to Iris, the rest is completed.
unfoldable pub finish_as : Bool → Task → Option String → String → String → Exec (Unit {0})
finish_as true t episode result summary = do
  mark_pending_eval t.id result t.goal_id (some t)
  discord_notify ("🔍 Pending eval: " <> (text t.title <> (" — " <> summary)))
  end_episode episode "pending_eval" (some summary) none
finish_as false t episode result summary = do
  mark_completed t.id result t.goal_id (or_else t.recurring false)
  if or_else t.recurring false then pure tt else (do requeue_recurring t; pure tt)
  discord_notify ("✅ Done: " <> (text t.title <> (" — " <> summary)))
  end_episode episode "completed" (some summary) (some summary)
  record_skill_outcome t true summary

-- `priority <= 1`, with the column's default.
unfoldable pub needs_eval : Task → Result Bool
needs_eval t = compared (λ p. leb p 1) (priority_of t.priority)

unfoldable pub finish : Task → Option String → String → String → Exec (Unit {0})
finish t episode result summary = do
  eval ← lift (needs_eval t)
  finish_as eval t episode result summary

unfoldable pub settle_audited : String → Task → Option String → String → String → Exec (Unit {0})
settle_audited severity t episode result summary =
    if severity == "critical"
    then (do
      mark_pending_jeff_action t.id result guardian_concern (text t.title)
      discord_notify ("🚨 **Guardian CRITICAL:** " <> (text t.title <> " — escalated to Jeff"))
      end_episode episode "pending_jeff_action" (some summary) (some "Guardian CRITICAL"))
    else finish t episode result summary

-- A result that asks for Jeff goes to him; any other goes to Guardian first.
unfoldable pub settle_as : Option String → Task → Option String → String → String → Exec (Unit {0})
settle_as (some reason) t episode result summary = do
  mark_pending_jeff_action t.id result reason (text t.title)
  end_episode episode "pending_jeff_action" (some summary) (some reason)
settle_as none t episode result summary = do
  severity ← run_guardian_on t result t.id
  settle_audited severity t episode result summary

unfoldable pub jeff_reason : Task → String → Option String
jeff_reason t result = if is_internal_housekeeping t then none else needs_jeff_input result

unfoldable pub settle : Task → Option String → String → Exec (Unit {0})
settle t episode result = do
  refresh_container_updates t
  settle_as (jeff_reason t result) t episode result (notify_summary result)

-- The session, between the claim and the end of the run.
unfoldable pub work : Task → Option String → Exec (Unit {0})
work t episode = do
  model ← lift (route_task t)
  prompt ← build_prompt t
  log_activity "thinking"
      ("Starting: " <> (text t.title <> (" [model: " <> (or_else model "sonnet (default)" <> "]"))))
      (some t.id)
  let wanted = Json.get "timeout_secs" (context_of t)
  result ← run_claude prompt (some t.id) model (some wanted)
  settle t episode result

-- The exit status: 1 after a failed run.
unfoldable pub failed_run : Task → Option String → Exn → Exec ℕ
failed_run t episode e = do
  mark_failed t.id (message e) t.goal_id (some t)
  record_skill_outcome t false (message e)
  log_activity "error" (Text.take 200 (message e)) (some t.id)
  end_episode episode "failed" none (some (message e))
  pure 1

unfoldable pub run_task : Task → Exec ℕ
run_task t = do
  t' ← stamp_task_skill t
  log_activity "status" ("Claimed: " <> text t.title) (some t.id)
  if is_internal_housekeeping t
      then pure tt
      else discord_notify ("🟡 Claimed: " <> (text t.title <> " — starting now"))
  episode ← start_episode t'
  catch (do work t' episode; pure 0) (failed_run t' episode)

unfoldable pub run_claimed : Option Task → Exec ℕ
run_claimed none = do auto_queue_from_goals; pure 0
run_claimed (some t) = run_task t

unfoldable pub main : String → Exec ℕ
main host = do
  heartbeat "active"
  recover_stuck_tasks
  route_auto_tasks
  notify_cowork_tasks
  sweep_stale_tasks
  sweep_waiting_tasks
  heartbeat "active"
  claimed ← claim_next_task host
  run_claimed claimed
