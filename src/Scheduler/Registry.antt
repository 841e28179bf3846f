-- ===== src/Scheduler/Registry.antt =====
-- scripts/scheduled_control_daemon.py: a row of `scheduled_activity`, what a reconciliation reports,
-- and `reconcile_task_queue_recurring`. Of a report's `before` and `after`, only what the audit's
-- action is decided by is kept: the actions and the notes.
use az_lab.Event.{message}
use az_lab.Outcomes.{by_id, first_row}
use az_lab.Exec.{Exec, pure, ◌>>=◌, ◌>>◌, catch, select_tasks, update_tasks}
use az_lab.Queue.{Task, Assign, text, all_rows}
use az_lab.Prelude.{
  String, ◌<>◌, Bool, true, false, ◌&&◌, Option, none, some, List, [], ◌∷◌, ◌==◌, if◌then◌else◌,
  elem,
}

-- The keys of `source_ref` that the handlers read; a missing key reads as an empty text.
pub record Source : Type 0 where
  pub unit : String
  pub line : String
  pub service : String
  pub task_id : String

pub record Scheduled : Type 0 where
  pub id : String
  pub name : String
  pub kind : String
  pub schedule : String
  pub enabled : Bool
  pub paused_at : Option String
  pub unpause_at : Option String
  pub source_ref : Source
  pub last_run_at : Option String

pub record Report : Type 0 where
  pub actions : List String
  pub notes : Option String

-- bool(row["enabled"]) and not row.get("paused_at")
abbrev pub wants_active : Scheduled → Bool
wants_active r = r.enabled && text r.paused_at == ""

-- The status that the task is to be given, if it is not in step.
unfoldable pub target_status : Bool → String → Option String
target_status true actual = if actual == "cancelled" then some "ready" else none
target_status false actual =
    if elem actual ("cancelled" ∷ "completed" ∷ "archived" ∷ []) then none else some "cancelled"

unfoldable pub patch_task : String → Option String → Exec (Option Report)
patch_task id none = pure none
patch_task id (some status) =
    catch
      (do
        update_tasks (by_id id) (Assign.status status ∷ [])
        pure (some (record { actions = "task_queue-patch=ok" ∷ []; notes = none })))
      (λ e. pure (
        some (record {
          actions = "task_queue-patch=fail" ∷ [];
          notes = some ("PATCH failed: " <> message e);
        })))

unfoldable pub sync_task : String → Bool → Option Task → Exec (Option Report)
sync_task id active none = pure none
sync_task id active (some t) = patch_task id (target_status active (text t.status))

unfoldable pub reconcile_task_queue_recurring : Scheduled → Exec (Option Report)
reconcile_task_queue_recurring r =
    let id = r.source_ref.task_id in
    if id == "" then pure none else do
      rows ← select_tasks (all_rows (by_id id))
      sync_task id (wants_active r) (first_row rows)
