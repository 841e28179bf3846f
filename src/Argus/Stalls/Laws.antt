-- ===== src/Argus/Stalls/Laws.antt =====
-- What the monitor writes for a task that stalled.
use az_lab.Event.{Event, Trace, Env, ok}
use az_lab.Exec.{select_tasks}
use az_lab.Rules.{Adds, Adds-catch, Emits, Adds-trans, Emits-pure, emits_rules}
use az_lab.Rules.Each.{Emits-select_tasks, request_rules}
use az_lab.Rules.Inversion.{after, outcome, bind-after}
use az_lab.Rules.Happens.{Happened, last, Happened-first, Happened-catch, Emits-Anything}
use az_lab.Exec.{update_tasks}
use az_lab.Report.{log_activity, discord_notify}
use az_lab.Argus.Stalls.{stall_patch, report_stall, reset_row, reset_task_to_pending}
use az_lab.Outcomes.{by_id, first_row, attempts_before, max_attempts_of}
use az_lab.Queue.{Task, Cond, Assign, all_rows, shown}
use az_lab.Prelude.{
  ℕ, ◌+◌, ◌≤◌, ◌<◌, String, ◌≡◌, inl, inr, Bool, true, false, Option, none, some, List, [], ◌∷◌,
  arith, leb, Bool-cases,
}

-- The PATCH of a stall: it counts the attempt and frees the row, which goes back to the queue while
-- attempts are left and to Jeff after that.
pub data IsStall (n m : ℕ) : List Assign → Type 0 where
  retried :
      (e : String)
      → n < m
      → IsStall n m (
          Assign.status "pending"
          ∷ Assign.claimed_by none
          ∷ Assign.claimed_at none
          ∷ Assign.attempt_count n
          ∷ Assign.error e
          ∷ [])
  escalated :
      (e : String)
      → m ≤ n
      → IsStall n m (
          Assign.status "pending_jeff_action"
          ∷ Assign.claimed_by none
          ∷ Assign.claimed_at none
          ∷ Assign.attempt_count n
          ∷ Assign.error e
          ∷ [])

-- Of `task_queue`, only this row is written, by such a PATCH.
abbrev pub IsGivenUp : String → ℕ → ℕ → Event → Type 0
IsGivenUp id n m (Event.update_tasks (Cond.id_eq i ∷ []) p) = (i ≡ id) × IsStall n m p
IsGivenUp id n m (Event.update_tasks _ _) = ⊥
IsGivenUp id n m (Event.insert_task t) = ⊥
IsGivenUp id n m _ = Unit

leb→le : (a b : ℕ) → leb a b ≡ true → a ≤ b
leb→le a b e = ground arith

leb→lt : (a b : ℕ) → leb a b ≡ false → b < a
leb→lt a b e = ground arith

stall_patch-IsStall : (n m : ℕ) (reason : String) → IsStall n m (stall_patch n m reason)
unfolding stall_patch
stall_patch-IsStall n m reason = elim (Bool-cases (leb m n)) [
  | inl done ↦ rw done (escalated _ (leb→le m n done))
  | inr left ↦ rw left (retried _ (leb→lt m n left))
]

module _ (id : String) (n m : ℕ) where
  log-IsGivenUp :
      (kind content : String) (i : Option String)
      → Emits (IsGivenUp id n m) (log_activity kind content i)
  unfolding log_activity
  log-IsGivenUp kind content i = search (emits_rules, request_rules)

  discord-IsGivenUp : (s : String) → Emits (IsGivenUp id n m) (discord_notify s)
  unfolding discord_notify
  discord-IsGivenUp s = search (emits_rules, request_rules)

  report-IsGivenUp :
      (b : Bool) (a c : ℕ) (title reason : String)
      → Emits (IsGivenUp id n m) (report_stall b id a c title reason)
  unfolding report_stall
  report-IsGivenUp true a c title reason = search (emits_rules, log-IsGivenUp, discord-IsGivenUp)
  report-IsGivenUp false a c title reason = search (emits_rules, log-IsGivenUp, discord-IsGivenUp)

row-IsGivenUp :
    (id reason : String) (t : Task)
    → Emits
        (IsGivenUp id (attempts_before (some t) + 1) (max_attempts_of (some t)))
        (reset_row id reason (some t))
unfolding reset_row
row-IsGivenUp id reason t =
    let p = stall_patch-IsStall (attempts_before (some t) + 1) (max_attempts_of (some t)) reason in
    search (emits_rules, request_rules, report-IsGivenUp, p) depth 8

-- The PATCH of the stall.
abbrev pub GivesUp : String → ℕ → ℕ → Event → Type 0
GivesUp id n m (Event.update_tasks (Cond.id_eq i ∷ []) p) = (i ≡ id) × IsStall n m p
GivesUp id n m _ = ⊥

row-GivesUp :
    (id reason : String) (t : Task) (env : Env) (h : Trace)
    → Happened
        (GivesUp id (attempts_before (some t) + 1) (max_attempts_of (some t)))
        (after (reset_row id reason (some t)) env h)
unfolding reset_row update_tasks
row-GivesUp id reason t env h =
    let n = attempts_before (some t) + 1 in
    let m = max_attempts_of (some t) in
    Happened-first (update_tasks (by_id id) (stall_patch n m reason)) _ env h
      (last ((λ i. id), stall_patch-IsStall n m reason))
      (λ rows. Emits-Anything (report-IsGivenUp id n m (leb m n) n m (shown t.title) reason))

-- A stalled task whose row can be read has one attempt counted: a PATCH of that row is made that
-- counts it and frees the row, for another claim if that leaves attempts, and else for Jeff. Every
-- write of the queue is such a PATCH of that row.
pub reset_task-IsGivenUp :
    (id reason : String) (env : Env) (h : Trace) (rows : List Task) (t : Task)
    → outcome (select_tasks (all_rows (by_id id))) env h ≡ ok rows
    → first_row rows ≡ some t
    → Adds
        (IsGivenUp id (attempts_before (some t) + 1) (max_attempts_of (some t)))
        h
        (reset_task_to_pending id reason env h).1
      × Happened
          (GivesUp id (attempts_before (some t) + 1) (max_attempts_of (some t)))
          (reset_task_to_pending id reason env h).1
unfolding reset_task_to_pending
reset_task-IsGivenUp id reason env h rows t e f =
    let row : first_row rows ≡ some t = f in
    (
      Adds-catch _ _ env h
          (rw (bind-after (select_tasks (all_rows (by_id id))) _ env h rows e) (
            rw row (
              Adds-trans ((Emits-select_tasks (all_rows (by_id id)) tt).at env h) (
                (row-IsGivenUp id reason t).at env
                  (after (select_tasks (all_rows (by_id id))) env h)))))
          (λ x. Emits-pure tt),
      Happened-catch _ _ env h
          (rw (bind-after (select_tasks (all_rows (by_id id))) _ env h rows e) (
            rw row
              (row-GivesUp id reason t env (after (select_tasks (all_rows (by_id id))) env h))))
          (λ x. Emits-pure tt),
    )
