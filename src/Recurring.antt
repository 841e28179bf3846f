-- ===== src/Recurring.antt =====
-- infrastructure/task-queue/poll_queue.py: `requeue_recurring`.
use az_lab.Text
use az_lab.Json
use az_lab.Json.{Json, Dict}
use az_lab.Cron.{next_cron}
use az_lab.Report.{log_activity}
use az_lab.Exec.{Exec, pure, lift, ◌>>=◌, ◌>>◌, catch, now, insert_task}
use az_lab.Event.{Result, ok, err, index_error}
use az_lab.Queue.{Column, Task, NewTask, text, or_text, tags_of}
use az_lab.Prelude.{
  ℕ, String, ◌<>◌, Bool, true, false, not, Option, none, some, List, [], ◌∷◌, ◌==◌, if◌then◌else◌,
  is_some, elem,
}

-- task.get("context") or {}, of a context that is an object
abbrev pub context_of : Task → Dict
context_of t = elim t.context [ Json.obj d ↦ d | _ ↦ Json.end ]

-- ctx.get("recurring_schedule") or task.get("recurring_schedule") or "", stripped
unfoldable pub schedule_of : Task → String
unfolding Text.strip Json.text_of Json.get
schedule_of t = Text.strip (
    or_text (Json.text_of (Json.get "recurring_schedule" (context_of t)))
      (text t.recurring_schedule))

abbrev dropped_keys : List String
dropped_keys =
    "checklist" ∷ "archived_at" ∷ "pre_archive_status" ∷ "_retry_hint" ∷ "_prior_failure" ∷ []

pub next_context : Task → String → Dict
unfolding Json.keep_keys Json.set
next_context t schedule = Json.set "recurring_parent_id" (Json.str t.id) (
    Json.set "recurring_schedule" (Json.str schedule)
      (Json.keep_keys (λ k. not (elem k dropped_keys)) (context_of t)))

-- task.get("priority", 2)
unfoldable pub priority_of : Column ℕ → Option ℕ
priority_of Column.absent = some 2
priority_of Column.null = none
priority_of (Column.value n) = some n

pub next_occurrence : Task → String → NewTask
unfolding next_context priority_of
next_occurrence t schedule = record {
  title = or_text (text t.title) "(recurring task)";
  description =
      or_text (text t.description)
        (or_text (text t.title) "(recurring re-queue — original description missing)");
  priority = priority_of t.priority;
  target = t.target;
  tags = tags_of t;
  source = "recurring";
  status = "ready";
  goal_id = t.goal_id;
  context = some (next_context t schedule);
}

-- created[0]["id"]
unfoldable pub first_id : List String → Result String
first_id [] = err (index_error "list index out of range")
first_id (id ∷ _) = ok id

queue_next : Task → String → Exec Bool
unfolding catch insert_task ◌>>=◌ first_id log_activity next_occurrence
queue_next t schedule =
    catch
      (do
        created ← insert_task (next_occurrence t schedule)
        new_id ← lift (first_id created)
        log_activity "status" ("Recurring re-queue: " <> (schedule <> (" → task " <> new_id)))
            (some t.id)
        pure true)
      (λ _. pure false)

-- The context is taken to be an object: on another value `.get` would raise.
unfoldable pub requeue_recurring : Task → Exec Bool
unfolding schedule_of now ◌>>=◌ next_cron queue_next
requeue_recurring t =
    let schedule = schedule_of t in
    if schedule == "" then pure false else do
      time ← now
      if is_some (next_cron time schedule) then queue_next t schedule else pure false
