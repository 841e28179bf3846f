-- ===== src/Backlog.antt =====
-- infrastructure/task-queue/poll_queue.py: the autonomous work loop, from `_in_morning_window` to
-- `auto_queue_due_goals`.
pub mod Laws
use az_lab.Text
use az_lab.Json
use az_lab.Json.{Json}
use az_lab.Time.{Time, hours, hour, Stamp, aware, naive, unparseable}
use az_lab.Recurring.{priority_of, first_id}
use az_lab.Report.{log_activity, discord_notify}
use az_lab.Exec.{
  Exec, pure, lift, using, ◌>>=◌, ◌>>◌, catch, for_each, now, select_tasks, insert_task,
  select_goals, update_goal,
}
use az_lab.Event.{Result, ok, err, type_error, value_error}
use az_lab.Queue.{NewTask, Goal, Cond, Order, Assign, text, or_text}
use az_lab.Prelude.{
  ◌+◌, String, ◌<>◌, Bool, true, false, not, ◌&&◌, ◌||◌, Option, none, some, List, [], ◌∷◌, ◌==◌,
  ltb, leb, if◌then◌else◌, or_else, is_empty, keep, any, elem,
}

unfoldable pub in_morning_window : Time → Bool
in_morning_window t = leb 14 (hour t) && ltb (hour t) 15

-- A lookup that fails reads as a task that is there.
unfoldable pub has_recent_pending_task : String → Exec Bool
unfolding catch select_tasks ◌>>=◌
has_recent_pending_task goal =
    catch
      (do
        tasks ← select_tasks (record {
          conds =
              Cond.goal_eq goal
              ∷ Cond.status_in (
                  "ready" ∷ "pending" ∷ "claimed" ∷ "failed" ∷ "pending_eval" ∷ "in_progress_agent"
                  ∷ "pending_jeff_action" ∷ "waiting" ∷ [])
              ∷ [];
          order = [];
          limit = some 1;
        })
        pure (not (is_empty tasks)))
      (λ _. pure true)

-- The parents of the milestones, in order of their first milestone.
unfoldable pub parents : List String → List Goal → List String
parents seen [] = []
parents seen (m ∷ ms) =
    let p = text m.parent_id in
    let rest = parents (p ∷ seen) ms in if p == "" || elem p seen then rest else p ∷ rest

unfoldable pub siblings : String → List Goal → List Goal
siblings p ms = keep (λ (m : Goal). text m.parent_id == p) ms

unfoldable pub has_status : String → Goal → Bool
has_status s m = text m.status == s

unfoldable pub first_goal : List Goal → Option Goal
first_goal [] = none
first_goal (m ∷ _) = some m

-- The first planned milestone of a strategy that has no active one.
unfoldable pub to_promote : List Goal → Option Goal
unfolding has_status first_goal
to_promote ms =
    if any (has_status "active") ms then none else first_goal (keep (has_status "planned") ms)

promote_one : Option Goal → Exec (Unit {0})
unfolding update_goal
promote_one none = pure tt
promote_one (some m) = update_goal m.id (Assign.status "active" ∷ [])

unfoldable pub promote_planned_milestones : Exec (Unit {0})
unfolding catch select_goals ◌>>=◌ for_each promote_one parents siblings to_promote
promote_planned_milestones =
    catch
      (do
        milestones ← select_goals (record {
          conds =
              Cond.level_eq "milestone"
              ∷ Cond.status_in ("active" ∷ "planned" ∷ [])
              ∷ Cond.auto_queue
              ∷ [];
          order = Order.priority_asc ∷ Order.sort_asc ∷ [];
          limit = none;
        })
        for_each (parents [] milestones) (λ p. promote_one (to_promote (siblings p milestones))))
      (λ _. pure tt)

-- Whether the goal was queued in the last six hours.
cooled : Time → Stamp → Result Bool
cooled current (aware t) = ok (ltb current (t + hours 6))
cooled current (naive t) = err (type_error "can't subtract offset-naive and offset-aware datetimes")
cooled current unparseable = err (value_error "Invalid isoformat string")

unfoldable pub queued_recently : Goal → Exec Bool
unfolding ◌>>=◌ now cooled
queued_recently g = if text g.last_queued_at == "" then pure false else do
  stamp ← using (λ env. env.parse (text g.last_queued_at))
  current ← now
  lift (cooled current stamp)

-- A NULL in an f-string
abbrev shown : Option String → String
shown o = or_else o "None"

-- The insert, the mark on the goal and the reports; `none` where one of the first two fails.
queue_goal : Goal → NewTask → List Assign → String → String → Exec (Option String)
unfolding ◌>>=◌ catch insert_task first_id now update_goal log_activity discord_notify
queue_goal g t extra activity notice =
    catch
      (do
        created ← insert_task t
        id ← lift (first_id created)
        current ← now
        update_goal g.id (Assign.last_queued_at current ∷ extra)
        log_activity "status" activity (some id)
        discord_notify notice
        pure (some id))
      (λ _. pure none)

auto_task : Goal → NewTask
unfolding priority_of
auto_task g = record {
  title = "[Auto] " <> shown g.title;
  description = text g.implementation_prompt;
  priority = priority_of g.priority;
  target = some "claude-code";
  tags = "auto-queued" ∷ "goal-milestone" ∷ [];
  source = "wren-scheduler";
  status = "pending";
  goal_id = some g.id;
  context = none;
}

abbrev stop_or : Exec (Option String) → Option String → Exec (Option String)
stop_or next none = next
stop_or next (some id) = pure (some id)

unfoldable pub queue_first : List Goal → Exec (Option String)
unfolding ◌>>=◌ queued_recently has_recent_pending_task queue_goal auto_task
queue_first [] = pure none
queue_first (g ∷ gs) =
    let next = queue_first gs in
    do
      recent ← queued_recently g
      if recent then next else do
        pending ← has_recent_pending_task g.id
        if pending then next else do
          queued ←
              queue_goal g (auto_task g) [] ("Auto-queued: " <> shown g.title)
                ("📋 Auto-queued: " <> (shown g.title <> " — picked from goals backlog"))
          stop_or next queued

due_task : Goal → NewTask
unfolding priority_of Text.take Json.set
due_task g =
    let title = or_text (text g.title) (Text.take 8 g.id) in
    record {
      title = "[Scheduled] " <> title;
      description = or_text (text g.implementation_prompt) (or_text (text g.description) title);
      priority = priority_of g.priority;
      target = some "claude-code";
      tags = "auto-queued" ∷ "scheduled" ∷ "due-date" ∷ [];
      source = "wren-scheduler";
      status = "pending";
      goal_id = some g.id;
      context =
          some (Json.field "scheduled_for" (Json.str (or_text (text g.target_date) "?")) Json.end);
    }

unfoldable pub queue_first_due : List Goal → Exec (Option String)
unfolding ◌>>=◌ catch queued_recently has_recent_pending_task queue_goal due_task Text.take
queue_first_due [] = pure none
queue_first_due (g ∷ gs) =
    let next = queue_first_due gs in
    let title = or_text (text g.title) (Text.take 8 g.id) in
    do
      recent ← catch (queued_recently g) (λ _. pure false)
      if recent then next else do
        pending ← has_recent_pending_task g.id
        if pending then next else do
          queued ←
              queue_goal g (due_task g) (Assign.status "active" ∷ [])
                ("Scheduled goal fired: " <> title)
                ("📅 Scheduled task fired: "
                  <> (title
                      <> (" — target was " <> Text.take 10 (or_text (text g.target_date) "?"))))
          stop_or next queued

unfoldable pub auto_queue_due_goals : Exec (Option String)
unfolding ◌>>=◌ catch now select_goals queue_first_due
auto_queue_due_goals = do
  goals ←
      catch
        (do
          current ← now
          select_goals (record {
            conds = Cond.target_due current ∷ Cond.status_in ("planned" ∷ "active" ∷ []) ∷ [];
            order = Order.priority_asc ∷ Order.target_date_asc ∷ [];
            limit = some 10;
          }))
        (λ _. pure [])
  queue_first_due goals

from_backlog : Exec (Option String)
unfolding ◌>>=◌ catch now select_goals queue_first in_morning_window
from_backlog = do
  current ← now
  if in_morning_window current then pure none else do
    milestones ←
        catch
          (select_goals (record {
            conds =
                Cond.level_eq "milestone"
                ∷ Cond.status_eq "active"
                ∷ Cond.auto_queue
                ∷ Cond.prompt_not_null
                ∷ [];
            order = Order.priority_asc ∷ Order.sort_asc ∷ [];
            limit = some 5;
          }))
          (λ _. pure [])
    queue_first milestones

unfoldable pub auto_queue_from_goals : Exec (Option String)
unfolding ◌>>=◌ promote_planned_milestones auto_queue_due_goals from_backlog
auto_queue_from_goals = do
  promote_planned_milestones
  due ← auto_queue_due_goals
  stop_or from_backlog due
