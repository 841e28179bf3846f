-- ===== src/Outcomes/Failure.antt =====
-- What a failed run writes: the attempt is counted, and the task is queued again while attempts are
-- left.
use az_lab.Text
use az_lab.Outcomes.{
  by_id, today, note_goal, requeue_original, attempts_before, max_attempts_of, title_of,
  failure_patch, report_failure, failing_row, charge, mark_failed,
}
use az_lab.Rules.{Adds, Emits, Adds-trans, Emits-bind, emits_rules}
use az_lab.Rules.Each.{Emits-update_tasks, request_rules}
use az_lab.Event.{Event, Trace, Env, ok}
use az_lab.Exec.{pure, update_tasks}
use az_lab.Rules.Happens.{Happened, last, Happened-first, Emits-Anything}
use az_lab.Report.{log_activity, discord_notify}
use az_lab.Goals.{update_goal_notes}
use az_lab.Recurring.{requeue_recurring}
use az_lab.Queue.{Task, Cond, Assign, or_text}
use az_lab.Rules.Inversion.{after, outcome, bind-after}
use az_lab.Prelude.{
  ℕ, ◌+◌, ◌≤◌, ◌<◌, String, ◌≡◌, refl, inl, inr, Bool, true, false, Option, none, some, List, [],
  ◌∷◌, ltb, if◌then◌else◌, ltb→le, lt→ltb, le→ltb, lt-cases,
}

-- The PATCH of a failure: it counts the attempt, and either frees the row for the next poll or ends it.
pub data IsCounted (n m : ℕ) : List Assign → Type 0 where
  retried :
      (e : String)
      → n < m
      → IsCounted n m (
          Assign.error e
          ∷ Assign.attempt_count n
          ∷ Assign.status "ready"
          ∷ Assign.claimed_by none
          ∷ Assign.claimed_at none
          ∷ [])
  exhausted :
      (e : String)
      → m ≤ n
      → IsCounted n m (Assign.error e ∷ Assign.attempt_count n ∷ Assign.status "failed" ∷ [])

-- Of `task_queue`, only this row is written, by such a PATCH; a new row is made only after the last
-- attempt.
abbrev pub IsFailure : String → ℕ → ℕ → Event → Type 0
IsFailure id n m (Event.update_tasks (Cond.id_eq i ∷ []) p) = (i ≡ id) × IsCounted n m p
IsFailure id n m (Event.update_tasks _ _) = ⊥
IsFailure id n m (Event.recurring_result _ _) = ⊥
IsFailure id n m (Event.insert_task t) = m ≤ n
IsFailure id n m _ = Unit

failure_patch-IsCounted : (n m : ℕ) (e : String) → IsCounted n m (failure_patch n m e)
unfolding failure_patch
failure_patch-IsCounted n m e = elim (lt-cases n m) [
  | inl below ↦ rw (lt→ltb n m below) (retried _ below)
  | inr done ↦ rw (le→ltb n m done) (exhausted _ done)
]

module _ (id : String) (n m : ℕ) where
  ruleset counts = (emits_rules, request_rules, refl)

  log-IsFailure :
      (kind content : String) (i : Option String)
      → Emits (IsFailure id n m) (log_activity kind content i)
  unfolding log_activity
  log-IsFailure kind content i = search counts

  discord-IsFailure : (s : String) → Emits (IsFailure id n m) (discord_notify s)
  unfolding discord_notify
  discord-IsFailure s = search counts

  goal-IsFailure :
      (i line : String) (o : Option ℕ) (s : Option String)
      → Emits (IsFailure id n m) (update_goal_notes i line o s)
  unfolding update_goal_notes
  goal-IsFailure i line o s = search counts depth 8

  requeue-IsFailure : m ≤ n → (t : Task) → Emits (IsFailure id n m) (requeue_recurring t)
  unfolding requeue_recurring
  requeue-IsFailure done t = search counts depth 12

  original-IsFailure : m ≤ n → (o : Option Task) → Emits (IsFailure id n m) (requeue_original o)
  unfolding requeue_original
  original-IsFailure done none = search counts
  original-IsFailure done (some t) = search (counts, requeue-IsFailure) depth 8

  today-IsFailure : Emits (IsFailure id n m) today
  unfolding today
  today-IsFailure = search counts

  note-IsFailure : (g : Option String) (a b : String) → Emits (IsFailure id n m) (note_goal g a b)
  unfolding note_goal
  note-IsFailure none a b = search counts
  note-IsFailure (some g) a b = search (counts, goal-IsFailure, today-IsFailure) depth 8

  report-IsFailure :
      (b : Bool) (x y : ℕ) (title error : String)
      → Emits (IsFailure id n m) (report_failure b id x y title error)
  unfolding report_failure
  report-IsFailure true x y title error = search (counts, log-IsFailure, discord-IsFailure)
  report-IsFailure false x y title error = search (counts, log-IsFailure, discord-IsFailure)

  row-IsFailure : Emits (IsFailure id n m) (failing_row id)
  unfolding failing_row
  row-IsFailure = search counts depth 8

  again-IsFailure :
      (b : Bool)
      → ltb n m ≡ b
      → (o : Option Task) → Emits (IsFailure id n m) (if b then pure tt else requeue_original o)
  again-IsFailure true e o = search counts
  again-IsFailure false e o = original-IsFailure (ltb→le n m e) o

module _ (id error : String) (goal : Option String) (original row : Option Task) where
  charge-IsFailure :
      Emits
        (IsFailure id (attempts_before row + 1) (max_attempts_of row))
        (charge id error goal original row)
  unfolding charge
  charge-IsFailure =
      let n = attempts_before row + 1 in
      let m = max_attempts_of row in
      let b = ltb n m in
      let title = or_text (title_of row) (or_text (title_of original) (Text.take 8 id)) in
      Emits-bind (update_tasks (by_id id) (failure_patch n m error)) _
        (Emits-update_tasks (by_id id) (failure_patch n m error)
          (refl, failure_patch-IsCounted n m error))
        (λ rows.
          Emits-bind (report_failure b id n m title error) _
            (report-IsFailure id n m b n m title error)
            (λ u.
              Emits-bind (if b then pure tt else requeue_original original) _
                (again-IsFailure id n m b refl original)
                (λ v. search (emits_rules, note-IsFailure))))

-- The PATCH of the failure.
abbrev pub Charges : String → ℕ → ℕ → Event → Type 0
Charges id n m (Event.update_tasks (Cond.id_eq i ∷ []) p) = (i ≡ id) × IsCounted n m p
Charges id n m _ = ⊥

module _ (id error : String) (goal : Option String) (original row : Option Task) where
  charge-Charges :
      (env : Env) (h : Trace)
      → Happened
          (Charges id (attempts_before row + 1) (max_attempts_of row))
          (after (charge id error goal original row) env h)
  unfolding charge update_tasks
  charge-Charges env h =
      let n = attempts_before row + 1 in
      let m = max_attempts_of row in
      let b = ltb n m in
      let title = or_text (title_of row) (or_text (title_of original) (Text.take 8 id)) in
      Happened-first (update_tasks (by_id id) (failure_patch n m error)) _ env h
        (last (refl, failure_patch-IsCounted n m error))
        (λ rows. Emits-Anything {P = IsFailure id n m} (
          Emits-bind (report_failure b id n m title error) _
            (report-IsFailure id n m b n m title error)
            (λ u.
              Emits-bind (if b then pure tt else requeue_original original) _
                (again-IsFailure id n m b refl original)
                (λ v. search (emits_rules, note-IsFailure)))))

-- A failed run counts one attempt on its row, as the row stood when the failure was recorded: a PATCH
-- of the row is made that counts it, and frees the row for another claim if that leaves attempts, and
-- otherwise ends it as failed. Every write of `task_queue` is such a PATCH of that row, and only after
-- the last attempt is the next occurrence of a recurring task made.
pub mark_failed-IsFailure :
    (id error : String) (goal : Option String) (original : Option Task) (env : Env) (h : Trace)
    (row : Option Task)
    → outcome (failing_row id) env h ≡ ok row
    → Adds
        (IsFailure id (attempts_before row + 1) (max_attempts_of row))
        h
        (mark_failed id error goal original env h).1
      × Happened
          (Charges id (attempts_before row + 1) (max_attempts_of row))
          (mark_failed id error goal original env h).1
unfolding mark_failed
mark_failed-IsFailure id error goal original env h row e =
    rw (bind-after (failing_row id) (charge id error goal original) env h row e) (
      (Adds-trans ((row-IsFailure id (attempts_before row + 1) (max_attempts_of row)).at env h)
          ((charge-IsFailure id error goal original row).at env (after (failing_row id) env h))),
      charge-Charges id error goal original row env (after (failing_row id) env h),
    )
