-- ===== src/Outcomes.antt =====
-- infrastructure/task-queue/poll_queue.py: how a run ends, `mark_completed`, `mark_pending_eval`,
-- `mark_failed` and `mark_pending_jeff_action`. Dates are the first ten characters of `isoformat`.
pub mod Failure
use az_lab.Text
use az_lab.Clip.{result_max_chars, clip_result}
use az_lab.Notes.{note_to_jeff_from_result}
use az_lab.Goals.{update_goal_notes}
use az_lab.Recurring.{requeue_recurring}
use az_lab.Report.{log_activity, discord_notify}
use az_lab.Exec.{
  Exec, pure, using, ◌>>=◌, ◌>>◌, catch, now, select_tasks, update_tasks, recurring_result,
}
use az_lab.Queue.{Task, Cond, Assign, text, or_text, all_rows}
use az_lab.Prelude.{
  ℕ, ◌+◌, String, ◌<>◌, Bool, true, false, Option, none, some, List, [], ◌∷◌, ◌==◌, ltb, eqb,
  if◌then◌else◌, or_else,
}

abbrev pub by_id : String → List Cond
by_id id = Cond.id_eq id ∷ []

-- `result.splitlines()[0][:n] if result else default`
unfoldable pub headline : ℕ → String → String → String
unfolding Text.take Text.first_line
headline n default result = if result == "" then default else Text.take n (Text.first_line result)

unfoldable pub today : Exec String
unfolding now ◌>>=◌ Text.take
today = do t ← now; using (λ env. Text.take 10 (env.isoformat t))

abbrev pub completed_patch : Option String → List Assign
completed_patch stored =
    Assign.status "completed" ∷ Assign.result stored ∷ Assign.blocked_reason none ∷ []

unfoldable pub complete_goal : Option String → String → Exec (Unit {0})
complete_goal none summary = pure tt
complete_goal (some goal) summary = do
  date ← today
  update_goal_notes goal ("Completed " <> (date <> (": " <> summary))) (some 100) (some "completed")

unfoldable pub mark_completed : String → String → Option String → Bool → Exec (Unit {0})
mark_completed id result goal recurring =
    let stored = clip_result (some result) result_max_chars in
    let plain : Exec Unit = (do update_tasks (by_id id) (completed_patch stored); pure tt) in
    let summary = headline 200 "done" result in
    do
      note_to_jeff_from_result id result
      if recurring then catch (recurring_result id stored) (λ _. plain) else plain
      log_activity "result" ("Completed: " <> summary) (some id)
      complete_goal goal summary

-- IRIS_EVAL_GUIDANCE
unfoldable pub iris_eval_guidance : String → String
iris_eval_guidance id =
    "\n\n---\n**Iris — Eval Actions** (update task_queue directly via execute_sql or Supabase MCP):\n- **Approve**: Set status → `completed`\n- **Split** (task too large): Create subtasks with `parent_task_id='"
    <> (id
        <> "'`, then set this task → `completed` with result \"Split into N subtasks\"\n- **Needs changes / Send back**: Set status → `ready`, add notes in result — the poller re-claims `ready` on the next 5-min cycle and build_prompt injects the notes.\n- **Reject**: Set status → `cancelled`, add reason in result\n\nDo NOT use `review_needed`. Retired 2026-08-15: nothing claims it (the poller\ntakes ready/pending/delegated), nothing sweeps it, and task_queue_attention did\nnot surface it — so a row set to review_needed was done-but-open forever and\nsilently understated the delegation success rate. It duplicated `ready` anyway.\n")

unfoldable pub note_goal : Option String → String → String → Exec (Unit {0})
note_goal none state text = pure tt
note_goal (some goal) state text = do
  date ← today
  update_goal_notes goal (state <> (" " <> (date <> (": " <> text)))) none none

unfoldable pub requeue_original : Option Task → Exec (Unit {0})
requeue_original none = pure tt
requeue_original (some t) = do requeue_recurring t; pure tt

abbrev pub pending_eval_patch : String → List Assign
pending_eval_patch stored =
    Assign.status "pending_eval" ∷ Assign.result (some stored) ∷ Assign.target "cowork" ∷ []

unfoldable pub mark_pending_eval : String → String → Option String → Option Task → Exec (Unit {0})
mark_pending_eval id result goal original = do
  note_to_jeff_from_result id result
  update_tasks (by_id id) (
      pending_eval_patch
        (text (clip_result (some result) result_max_chars) <> iris_eval_guidance id))
  log_activity "status" "Pending Iris eval" (some id)
  requeue_original original
  note_goal goal "Pending eval" (headline 200 "pending" result)

unfoldable pub mark_pending_jeff_action : String → String → String → String → Exec (Unit {0})
mark_pending_jeff_action id result reason title =
    let stored = clip_result (some result) result_max_chars in
    let body = Text.strip (text stored) in
    do
      update_tasks (by_id id) (Assign.status "pending_jeff_action" ∷ Assign.result stored ∷ [])
      log_activity "status" ("Pending Jeff action: " <> Text.take 100 reason) (some id)
      discord_notify (
          "🙋 **Jeff input needed:** "
          <> (or_text title id
              <> ("\n**Signal:** `"
                  <> (Text.take 120 reason
                      <> ("`\n"
                          <> ((if body == "" then "" else "\n" <> (body <> "\n"))
                              <> "\nSet task status back to `ready` once you've provided direction."))))))

-- The row's attempts, and `row.get("max_attempts") or 3`.
unfoldable pub attempts_before : Option Task → ℕ
attempts_before none = 0
attempts_before (some t) = or_else t.attempt_count 0

unfoldable pub max_attempts_of : Option Task → ℕ
max_attempts_of none = 3
max_attempts_of (some t) = let n = or_else t.max_attempts 0 in if eqb n 0 then 3 else n

unfoldable pub title_of : Option Task → String
title_of none = ""
title_of (some t) = text t.title

unfoldable pub first_row : List Task → Option Task
first_row [] = none
first_row (t ∷ _) = some t

-- "attempt n/m"
unfoldable pub fraction : ℕ → ℕ → String
unfolding Text.show
fraction n m = Text.show n <> ("/" <> Text.show m)

unfoldable pub failure_patch : ℕ → ℕ → String → List Assign
unfolding fraction Text.take
failure_patch n m error =
    Assign.error (Text.take 500 ("attempt " <> (fraction n m <> (": " <> error))))
    ∷ Assign.attempt_count n
    ∷ (if ltb n m
        then Assign.status "ready" ∷ Assign.claimed_by none ∷ Assign.claimed_at none ∷ []
        else Assign.status "failed" ∷ [])

unfoldable pub report_failure : Bool → String → ℕ → ℕ → String → String → Exec (Unit {0})
unfolding log_activity discord_notify fraction Text.take ◌>>=◌
report_failure true id n m title error = do
  log_activity "status" ("Retry " <> (fraction n m <> (" queued: " <> Text.take 100 error)))
      (some id)
  discord_notify (
      "🔁 **Retry "
      <> (fraction n m
          <> (":** "
              <> (title
                  <> ("\nError: `"
                      <> (Text.take 120 error <> "` — requeued, next poll picks it up."))))))
report_failure false id n m title error = do
  log_activity "error" ("Retries exhausted (" <> (fraction n m <> ")")) (some id)
  discord_notify (
      "🛑 **Retries exhausted:** "
      <> (title
          <> ("\nFailed "
              <> (fraction n m
                  <> (" times. Last error: `"
                      <> (Text.take 150 error
                          <> ("`\nTask `"
                              <> (Text.take 8 id <> "` is now `failed` — needs a human."))))))))

-- The row as it stands; a lookup that fails reads as an empty row.
unfoldable pub failing_row : String → Exec (Option Task)
failing_row id =
    catch (do rows ← select_tasks (all_rows (by_id id)); pure (first_row rows)) (λ _. pure none)

-- The run that failed, counted on the row.
unfoldable pub charge : String → String → Option String → Option Task → Option Task → Exec Bool
charge id error goal original row =
    let n = attempts_before row + 1 in
    let m = max_attempts_of row in
    let title = or_text (title_of row) (or_text (title_of original) (Text.take 8 id)) in
    do
      update_tasks (by_id id) (failure_patch n m error)
      report_failure (ltb n m) id n m title error
      if ltb n m then pure tt else requeue_original original
      note_goal goal (if ltb n m then "Retry " <> fraction n m else "Failed") (Text.take 100 error)
      pure (ltb n m)

unfoldable pub mark_failed : String → String → Option String → Option Task → Exec Bool
mark_failed id error goal original = do row ← failing_row id; charge id error goal original row
