-- ===== src/Argus/Worker.antt =====
-- infrastructure/task-queue/argus.py: `_worker`. The wall-clock limit of the session stands where the
-- poller gives the task's own limit.
pub mod Laws
use az_lab.Claude.{run_claude}
use az_lab.Text
use az_lab.Json.{Json}
use az_lab.Event.{Exn, message}
use az_lab.Recurring.{priority_of}
use az_lab.Routing.{route_task}
use az_lab.Context.{build_prompt}
use az_lab.JeffLoop.{needs_jeff_input}
use az_lab.Poller.{needs_eval, refresh_container_updates}
use az_lab.Outcomes.{
  by_id, headline, mark_completed, mark_pending_eval, mark_pending_jeff_action, mark_failed,
}
use az_lab.Report.{log_activity, discord_notify}
use az_lab.Exec.{Exec, pure, lift, ◌>>=◌, ◌>>◌, catch, now, update_tasks}
use az_lab.Queue.{Task, Assign, text, shown}
use az_lab.Prelude.{
  ℕ, ◌*◌, String, ◌<>◌, Bool, true, false, Option, none, some, List, [], ◌∷◌, or_else,
}

-- CRIT and HIGH go to Sage, the rest is completed.
unfoldable pub conclude_as : Bool → Task → String → Exec (Unit {0})
conclude_as true t result = do
  mark_pending_eval t.id result t.goal_id none
  discord_notify
      ("🔍 **Pending eval:** " <> (shown t.title <> (" — " <> headline 120 "done" result)))
conclude_as false t result = do
  mark_completed t.id result t.goal_id false
  discord_notify ("✅ **Done:** " <> (shown t.title <> (" — " <> headline 120 "done" result)))

unfoldable pub conclude : Option String → Task → String → Exec (Unit {0})
conclude (some reason) t result = mark_pending_jeff_action t.id result reason (text t.title)
conclude none t result = do eval ← lift (needs_eval t); conclude_as eval t result

-- The session and what becomes of its result.
unfoldable pub run_session : Task → ℕ → Exec (Unit {0})
run_session t threshold = do
  model ← lift (route_task t)
  prompt ← build_prompt t
  log_activity "thinking"
      ("Starting [claude / " <> (or_else model "sonnet (default)" <> ("]: " <> shown t.title)))
      (some t.id)
  result ← run_claude prompt (some t.id) model (some (Json.num (threshold * 3)))
  refresh_container_updates t
  conclude (needs_jeff_input result) t result

unfoldable pub fail : Task → Exn → Exec (Unit {0})
fail t e = do
  mark_failed t.id (message e) t.goal_id none
  log_activity "error" (Text.take 200 (message e)) (some t.id)
  discord_notify ("❌ **Failed:** " <> (shown t.title <> (" — " <> Text.take 120 (message e))))

unfoldable pub announce : String → Task → Exec (Unit {0})
announce host t = do
  at ← now
  update_tasks (by_id t.id) (
      Assign.status "in_progress_agent"
      ∷ Assign.claimed_by (some host)
      ∷ Assign.claimed_at (some at)
      ∷ [])
  pure tt

-- The end of the thread takes the task off the registry: `finally` of the caller, `Argus.pop`.
unfoldable pub worker : String → Task → ℕ → Exec (Unit {0})
worker host t threshold = do
  catch (announce host t) (λ _. pure tt)
  log_activity "status" ("Argus dispatched: " <> shown t.title) (some t.id)
  discord_notify ("🟡 **Argus:** Dispatched `" <> (shown t.title <> "`"))
  catch (run_session t threshold) (fail t)
