-- ===== src/Argus/Stalls.antt =====
-- infrastructure/task-queue/argus.py: `_reset_task_to_pending` and `_check_stalls`. Times are
-- microseconds, thresholds seconds; a clock that runs backwards counts as one that stands still.
pub mod Laws
use az_lab.Text
use az_lab.Time.{Time}
use az_lab.Argus.{Entry, Registry, seconds, discord_progress_secs, pop}
use az_lab.Outcomes.{by_id, first_row, attempts_before, max_attempts_of, fraction}
use az_lab.Report.{log_activity, discord_notify}
use az_lab.Exec.{
  Exec, pure, ◌>>=◌, ◌>>◌, catch, now, select_tasks, update_tasks, thread_alive, proc_running,
  kill_proc,
}
use az_lab.Queue.{Task, Assign, text, all_rows, shown}
use az_lab.Prelude.{
  ℕ, ◌+◌, ◌-◌, ◌/◌, String, ◌<>◌, Bool, true, false, Option, none, some, List, [], ◌∷◌, ltb, leb,
  if◌then◌else◌, or_else,
}

unfoldable pub stall_patch : ℕ → ℕ → String → List Assign
stall_patch n m reason =
    if leb m n
    then Assign.status "pending_jeff_action"
      ∷ Assign.claimed_by none
      ∷ Assign.claimed_at none
      ∷ Assign.attempt_count n
      ∷ Assign.error
          ("Stalled after " <> (Text.show n <> (" attempt(s): " <> Text.take 200 reason)))
      ∷ []
    else Assign.status "pending"
      ∷ Assign.claimed_by none
      ∷ Assign.claimed_at none
      ∷ Assign.attempt_count n
      ∷ Assign.error ("Stall retry " <> (fraction n m <> (": " <> Text.take 200 reason)))
      ∷ []

unfoldable pub report_stall : Bool → String → ℕ → ℕ → String → String → Exec (Unit {0})
report_stall true id n m title reason = do
  log_activity "error"
      ("Stall escalated to Jeff after " <> (Text.show n <> (" attempts: " <> Text.take 100 reason)))
      (some id)
  discord_notify (
      "⚠\u{fe0f} **Stall → Jeff:** "
      <> (title
          <> ("\nStalled "
              <> (fraction n m
                  <> (" attempts. Reason: `"
                      <> (Text.take 120 reason <> "`\nTask is now `pending_jeff_action`."))))))
report_stall false id n m title reason = do
  log_activity "error"
      ("Stall — reset to pending (attempt " <> (fraction n m <> ("): " <> Text.take 100 reason)))
      (some id)
  discord_notify (
      "🔄 **Stall retry "
      <> (fraction n m <> (":** " <> (title <> ("\nReason: `" <> (Text.take 120 reason <> "`"))))))

unfoldable pub reset_row : String → String → Option Task → Exec (Unit {0})
reset_row id reason none = pure tt
reset_row id reason (some t) =
    let n = attempts_before (some t) + 1 in
    let m = max_attempts_of (some t) in
    do
      update_tasks (by_id id) (stall_patch n m reason)
      report_stall (leb m n) id n m (shown t.title) reason

unfoldable pub reset_task_to_pending : String → String → Exec (Unit {0})
reset_task_to_pending id reason =
    catch (do rows ← select_tasks (all_rows (by_id id)); reset_row id reason (first_row rows))
      (λ _. pure tt)

unfoldable pub minutes_of : ℕ → ℕ
minutes_of us = us / 60000000

-- The "still running" message, and when it was last sent.
unfoldable pub progress : Time → String × Entry → Exec Entry
progress at (id, e) =
    if leb (seconds discord_progress_secs) (at - e.last_discord_at)
    then (do
      discord_notify (
          "⏳ **Still running ("
          <> (Text.show (minutes_of (at - e.started_at)) <> ("min):** " <> shown e.task.title)))
      pure (record e { last_discord_at = at }))
    else pure e

-- One entry: whether it stays, and whether it has stalled.
unfoldable pub is_stalled : Time → Entry → Bool
is_stalled at e = ltb (seconds e.stall_threshold) (at - e.started_at)

abbrev pub scanned : String → Entry → Bool → Bool → Registry × Registry → Registry × Registry
scanned id e false stalled rest = rest
scanned id e true false rest = ((id, e) ∷ rest.0, rest.1)
scanned id e true true rest = ((id, e) ∷ rest.0, (id, e) ∷ rest.1)

-- The registry without the threads that ended, and the entries that stalled.
unfoldable pub scan : Time → Registry → Exec (Registry × Registry)
scan at [] = pure ([], [])
scan at ((id, e) ∷ r) =
    let later = scan at r in
    do
      e' ← progress at (id, e)
      alive ← thread_alive id
      rest ← later
      pure (scanned id e' alive (is_stalled at e') rest)

unfoldable pub stall_reason : Time → Entry → String
stall_reason at e =
    "No completion after "
    <> (Text.show (minutes_of (at - e.started_at))
        <> ("min ("
            <> ((if e.is_complex then "complex" else "simple")
                <> (" task, threshold=" <> (Text.show (e.stall_threshold / 60) <> "min)")))))

unfoldable pub kill_running : String → String → Exec (Unit {0})
kill_running id pid =
    catch
      (do
        running ← proc_running pid
        if running
            then (do kill_proc pid; log_activity "error" ("Stall: killed PID " <> pid) (some id))
            else pure tt)
      (λ _. pure tt)

unfoldable pub kill_of : String → Option String → Exec (Unit {0})
kill_of id none = pure tt
kill_of id (some pid) = kill_running id pid

unfoldable pub stop_stalled : Time → Registry → Registry → Exec Registry
stop_stalled at [] running = pure running
stop_stalled at ((id, e) ∷ stalled) running =
    let later = stop_stalled at stalled (pop id running) in
    do kill_of id e.proc; reset_task_to_pending id (stall_reason at e); later

unfoldable pub check_stalls : Registry → Exec Registry
check_stalls running = do at ← now; found ← scan at running; stop_stalled at (found.1) (found.0)
