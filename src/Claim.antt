-- ===== src/Claim.antt =====
-- infrastructure/task-queue/poll_queue.py: `claim_next_task`.
pub mod Laws
pub mod Guards
use az_lab.Text
use az_lab.Time.{Time, Stamp, aware, naive, unparseable}
use az_lab.Dependencies.{declared, dependencies_incomplete}
use az_lab.Preflight.{preflight_task, block_task}
use az_lab.Report.{log_activity}
use az_lab.Exec.{Exec, pure, raise, catch, using, ◌>>=◌, ◌>>◌, now, select_tasks, update_tasks}
use az_lab.Event.{Exn, type_error, value_error}
use az_lab.Queue.{Task, Cond, Order, Query, Assign, text, shown, tags_of}
use az_lab.Prelude.{
  ℕ, String, ◌<>◌, Bool, true, false, not, ◌&&◌, Option, none, some, List, [], ◌∷◌, ◌==◌, ltb,
  if◌then◌else◌, or_else, is_empty, elem,
}

-- id=eq.…&status=eq.…: the PATCH changes the row only in the status that was read.
abbrev pub guarded : String → String → List Cond
guarded id current = Cond.id_eq id ∷ Cond.status_eq current ∷ []

-- A deadline that has passed. A text that is no timestamp is ignored; one without an offset cannot
-- be compared with the clock.
past_stamp : Stamp → Exec Bool
unfolding ◌>>=◌ now
past_stamp (aware t) = do current ← now; pure (ltb t current)
past_stamp (naive t) = do
  now
  raise (type_error "can't compare offset-naive and offset-aware datetimes")
past_stamp unparseable = pure false

unfoldable pub is_past : Option String → Exec Bool
unfolding ◌>>=◌ past_stamp
is_past none = pure false
is_past (some s) =
    if s == "" then pure false else do stamp ← using (λ env. env.parse s); past_stamp stamp

-- Finished work: a result on a task that neither recurs nor was sanctioned to run again.
unfoldable pub is_finished : Task → Bool
unfolding Text.strip
is_finished t =
    not (or_else t.recurring false)
    && (not (Text.strip (text t.result) == "") && not (elem "premise-accepted" (tags_of t)))

abbrev pub idempotency_reason : String
idempotency_reason =
    "idempotency guard: non-recurring task already has a result; re-run refused. Reopen it (which clears result) to run again."

unfoldable pub expire : Task → String → Exec (Unit {0})
unfolding ◌>>=◌ update_tasks log_activity
expire t current = do
  update_tasks (guarded t.id current) (
      Assign.status "expired"
      ∷ Assign.blocked_reason
          (some ("expires_at " <> (text t.expires_at <> " passed before the task was claimed")))
      ∷ [])
  log_activity "status" ("Expired unclaimed: " <> shown t.title) (some t.id)

-- `verb` is what the caller calls a second run.
unfoldable pub bounce : String → Task → String → Exec (Unit {0})
unfolding ◌>>=◌ update_tasks log_activity Text.take
bounce verb t current = do
  bounced ←
      update_tasks (guarded t.id current)
        (Assign.status "pending_jeff_action" ∷ Assign.blocked_reason (some idempotency_reason) ∷ [])
  if is_empty bounced
      then pure tt
      else log_activity "status"
          ("Idempotency guard: refused "
            <> (verb
                <> (" of finished task, bounced "
                    <> (current <> (" -> pending_jeff_action: " <> Text.take 120 (text t.title))))))
          (some t.id)

abbrev pub claim_patch : String → Time → List Assign
claim_patch owner t =
    Assign.status "claimed" ∷ Assign.claimed_by (some owner) ∷ Assign.claimed_at (some t) ∷ []

-- The claim itself: it is lost if the PATCH changed no row.
unfoldable pub take_task : String → Task → String → Exec (Option Task)
take_task host t current = do
  at ← now
  claimed ← update_tasks (guarded t.id current) (claim_patch host at)
  stamp ← using (λ env. env.isoformat at)
  pure (if is_empty claimed then none else some (record t { claimed_at = some stamp }))

unfoldable pub after_preflight : String → Task → String → List String → Exec (Option Task)
after_preflight host t current [] = take_task host t current
after_preflight host t current (r ∷ rs) = do block_task t current (r ∷ rs); pure none

unfoldable pub after_deps : String → Task → String → List String → Exec (Option Task)
after_deps host t current (d ∷ ds) = pure none
after_deps host t current [] =
    if is_finished t
    then (do bounce "re-run" t current; pure none)
    else (do reasons ← preflight_task t; after_preflight host t current reasons)

-- except ValueError: the deadline is ignored, also if the ValueError comes from the PATCH
unfoldable pub ignore_value_error : Exn → Exec Bool
ignore_value_error (value_error s) = pure false
ignore_value_error e = raise e

-- Whether the task was expired.
unfoldable pub expired_if : Task → String → Bool → Exec Bool
expired_if t current false = pure false
expired_if t current true = catch (do expire t current; pure true) ignore_value_error

unfoldable pub after_deadline : String → Task → String → Bool → Exec (Option Task)
after_deadline host t current true = pure none
after_deadline host t current false = do
  missing ← dependencies_incomplete (declared t.blocked_by_task_ids)
  after_deps host t current missing

-- Whether the task has passed its deadline, and was expired.
unfoldable pub deadline : Task → String → Exec Bool
deadline t current = do past ← is_past t.expires_at; expired_if t current past

-- What the loop does with one candidate: `none` goes on to the next.
unfoldable pub try_claim : String → Task → Exec (Option Task)
try_claim host t = do
  expired ← deadline t (or_else t.status "pending")
  after_deadline host t (or_else t.status "pending") expired

abbrev found_or : Exec (Option Task) → Option Task → Exec (Option Task)
found_or next none = next
found_or next (some t) = pure (some t)

unfoldable pub claim_first : String → List Task → Exec (Option Task)
claim_first host [] = pure none
claim_first host (t ∷ ts) =
    let next = claim_first host ts in do claimed ← try_claim host t; found_or next claimed

abbrev pub preflight_scan_limit : ℕ
preflight_scan_limit = 5

abbrev pub runnable : Time → Query
runnable at = record {
  conds =
      Cond.status_in ("ready" ∷ "pending" ∷ "delegated" ∷ [])
      ∷ Cond.target_in ("claude-code" ∷ "wren" ∷ [])
      ∷ Cond.archived_null
      ∷ Cond.not_before_null_or_due at
      ∷ [];
  order = Order.priority_asc ∷ Order.created_asc ∷ [];
  limit = some preflight_scan_limit;
}

unfoldable pub claim_next_task : String → Exec (Option Task)
claim_next_task host = do at ← now; tasks ← select_tasks (runnable at); claim_first host tasks
