-- ===== src/Waiting.antt =====
-- infrastructure/task-queue/poll_queue.py: the release of waiting tasks, `_gate_state` and
-- `sweep_waiting_tasks`.
pub mod Laws
use az_lab.Text
use az_lab.Json
use az_lab.Json.{Json, Dict}
use az_lab.Time.{Time, Stamp, aware, naive, unparseable}
use az_lab.Goals.{texts_of}
use az_lab.Dependencies.{declared, dependencies_incomplete}
use az_lab.Report.{log_activity, discord_notify}
use az_lab.Exec.{
  Exec, pure, lift, using, ◌>>=◌, ◌>>◌, catch, for_each, now, select_tasks, update_tasks, mtime,
}
use az_lab.Event.{Exn, message, Result, Env, ok, err, type_error, shown_json}
use az_lab.Queue.{Task, Cond, Order, Assign, text, or_text}
use az_lab.Prelude.{
  ℕ, String, ◌<>◌, ◌||◌, Option, none, some, List, [], ◌∷◌, ◌++◌, ◌==◌, ltb, leb, if◌then◌else◌,
  or_else, length, is_empty,
}

-- A check of the gate (the sweep drops the reason, whose quotes are left out): it holds the task with a reason, or lets it pass with what it checked.
pub data Check : Type 0 where
  hold : String → Check
  pass : List String → Check

abbrev naive_error : Exn
naive_error = type_error "can't compare offset-naive and offset-aware datetimes"

unfoldable pub at_time : Time → String → Stamp → Result Check
at_time current nb (aware t) =
    if ltb current t
    then ok (hold ("not_before " <> (nb <> " not reached")))
    else ok (pass (("not_before " <> (nb <> " passed")) ∷ []))
at_time current nb (naive t) = err naive_error
at_time current nb unparseable = ok (hold ("unparseable not_before " <> nb))

unfoldable pub time_check : Time → Option String → Exec Check
time_check current none = pure (pass [])
time_check current (some nb) =
    if nb == ""
    then pure (pass [])
    else do stamp ← using (λ env. env.parse nb); lift (at_time current nb stamp)

-- Of ids that are declared, all must be finished.
unfoldable pub complete_check : String → ℕ → List String → Exec Check
complete_check what count ids = do
  missing ← dependencies_incomplete ids
  let n = Text.show count
  if is_empty missing
      then pure (pass (("all " <> (n <> (what <> " complete"))) ∷ []))
      else pure (hold (Text.show (length missing) <> ("/" <> (n <> (what <> " incomplete")))))

-- After the file's time is known.
unfoldable pub file_at : String → String → String → Time → Stamp → Result Check
unfolding Text.take
file_at iso path after m (aware t) =
    if leb m t
    then ok (hold (path <> (" not modified since " <> after)))
    else ok (pass ((path <> (" modified " <> (Text.take 19 iso <> ("Z > " <> after)))) ∷ []))
file_at iso path after m (naive t) = err naive_error
file_at iso path after m unparseable = ok (hold ("unparseable after " <> after))

unfoldable pub file_of : String → String → Option Time → Exec Check
file_of path after none = pure (hold ("cannot stat " <> path))
file_of path after (some m) = do
  stamp ← using (λ env. env.parse after)
  iso ← using (λ env. env.isoformat m)
  lift (file_at iso path after m stamp)

-- A file that cannot be read holds the task.
unfoldable pub file_check : String → String → Exec Check
file_check path after =
    if path == "" || after == ""
    then pure (hold "gate type=file_newer_than needs both path and after")
    else (do
      found ← catch (do m ← mtime path; pure (some m)) (λ _. pure none)
      file_of path after found)

-- cond.get("task_ids") as texts
unfoldable pub gate_ids : Env → Dict → List String
unfolding texts_of Json.items Json.get
gate_ids env cond = elim (Json.get "task_ids" cond) [
  | Json.arr xs ↦ texts_of env (Json.items xs)
  | _ ↦ []
]

unfoldable pub tasks_check : List String → Exec Check
tasks_check [] = pure (hold "gate type=tasks_complete with no task_ids")
tasks_check (id ∷ ids) = complete_check " gate task(s)" (length (id ∷ ids)) (id ∷ ids)

-- str(v or "")
unfoldable pub str_or : Env → Json → String
unfolding Json.truthy shown_json
str_or env v = if Json.truthy v then shown_json env v else ""

unfoldable pub typed_check : Option String → Dict → Json → Exec Check
typed_check nb cond Json.null = pure (pass [])
typed_check nb cond (Json.str kind) =
    if kind == "time"
    then (if text nb == ""
        then pure (hold "gate type=time but not_before is unset")
        else pure (pass []))
    else if kind == "tasks_complete"
    then (do ids ← using (λ env. gate_ids env cond); tasks_check ids)
    else if kind == "file_newer_than"
    then (do
      path ← using (λ env. env.expanduser (str_or env (Json.get "path" cond)))
      after ← using (λ env. str_or env (Json.get "after" cond))
      file_check path after)
    else pure (hold ("unknown gate type " <> kind))
typed_check nb cond _ = pure (hold "unknown gate type")

unfoldable pub cond_check : Option String → Json → Exec Check
unfolding typed_check Json.get
cond_check nb Json.null = pure (pass [])
cond_check nb (Json.obj cond) = typed_check nb cond (Json.get "type" cond)
cond_check nb _ = pure (hold "unblock_condition is not an object")

unfoldable pub deps_check : Option (List String) → Exec Check
deps_check ids =
    if is_empty (or_else ids [])
    then pure (pass [])
    else complete_check " dependenc(ies)" (length (or_else ids [])) (declared ids)

-- A check that passes goes on to the next with what has been checked.
abbrev pub and_then : Check → (List String → Exec Check) → Exec Check
and_then (hold why) k = pure (hold why)
and_then (pass done) k = k done

unfoldable pub last_check : List String → Exec Check
last_check done =
    if is_empty done then pure (hold "no gate declared (waiting_no_gate)") else pure (pass done)

unfoldable pub gate_state : Task → Exec Check
gate_state t = do
  current ← now
  first ← time_check current t.not_before
  and_then first λ timed. do
    second ← cond_check t.not_before t.unblock_condition
    and_then second λ typed. do
      third ← deps_check t.blocked_by_task_ids
      and_then third λ deps. last_check (timed ++ (typed ++ deps))

unfoldable pub release : Task → String → Exec (Unit {0})
release t detail = do
  released ←
      catch
        (update_tasks (Cond.id_eq t.id ∷ Cond.status_eq "waiting" ∷ [])
          (Assign.status "ready" ∷ Assign.blocked_reason none ∷ []))
        (λ _. pure [])
  if is_empty released then pure tt else do
    log_activity "status" ("Gate released → ready: " <> detail) (some t.id)
    discord_notify (
        "⏰ **Gate released:** "
        <> (or_text (text t.title) (Text.take 8 t.id)
            <> ("\n" <> (detail <> " — task is now `ready`."))))

unfoldable pub release_if : Task → Check → Exec (Unit {0})
release_if t (hold why) = pure tt
release_if t (pass done) = release t (Text.join "; " done)

-- A gate whose evaluation raises holds its task.
unfoldable pub sweep_one : Task → Exec (Unit {0})
sweep_one t = do check ← catch (gate_state t) (λ e. pure (hold (message e))); release_if t check

unfoldable pub sweep_waiting_tasks : Exec (Unit {0})
sweep_waiting_tasks = do
  rows ←
      catch
        (select_tasks (record {
          conds = Cond.status_eq "waiting" ∷ [];
          order = Order.created_asc ∷ [];
          limit = some 50;
        }))
        (λ _. pure [])
  for_each rows sweep_one
