-- ===== src/Stale.antt =====
-- infrastructure/task-queue/poll_queue.py: `sweep_stale_tasks`, with its file of the times at which
-- tasks were reported. STALE_AFTER_DAYS and STALE_RENOTIFY_DAYS are parameters.
pub mod Laws
use az_lab.Text
use az_lab.Time.{Time, days, Stamp, aware, naive, unparseable}
use az_lab.Routing.{is_internal_housekeeping}
use az_lab.Report.{log_activity, discord_notify}
use az_lab.Exec.{Exec, pure, using, ◌>>=◌, ◌>>◌, catch, now, select_tasks, load_state, save_state}
use az_lab.Event.{Result, Env, ok, err, type_error}
use az_lab.Queue.{Column, Task, Cond, Order, text, or_text}
use az_lab.Prelude.{
  ℕ, ◌-◌, ◌/◌, String, ◌<>◌, Bool, true, false, not, Option, none, some, List, [], ◌∷◌, map, ◌==◌,
  ltb, leb, if◌then◌else◌, or_else, length, take, is_empty, keep, elem,
}

abbrev pub Reports : Type 0
Reports = List (String × String)

unfoldable pub reported_at : String → Reports → Option String
reported_at id [] = none
reported_at id ((k, v) ∷ s) = if k == id then some v else reported_at id s

-- state[id] = v
unfoldable pub set_report : String → String → Reports → Reports
set_report id v [] = (id, v) ∷ []
set_report id v ((k, w) ∷ s) = if k == id then (k, v) ∷ s else (k, w) ∷ set_report id v s

-- Reports of rows that are no longer stale are dropped.
unfoldable pub live : List Task → Reports → Reports
live rows s = keep (λ (r : String × String). elem r.0 (map (λ (t : Task). t.id) rows)) s

-- (now - t).days, which is negative where t lies ahead
abbrev days_since : Time → Time → ℕ
days_since current t = (current - t) / 86400000000

-- Whether the last report is young; a text that is no timestamp counts as no report.
unfoldable pub recent_stamp : Time → ℕ → Stamp → Result Bool
recent_stamp current renotify (aware t) =
    if ltb current t then ok true else ok (ltb (days_since current t) renotify)
recent_stamp current renotify (naive t) =
    err (type_error "can't subtract offset-naive and offset-aware datetimes")
recent_stamp current renotify unparseable = ok false

unfoldable pub is_recent : Env → Time → ℕ → Option String → Result Bool
unfolding recent_stamp
is_recent env current renotify none = ok false
is_recent env current renotify (some last) =
    if last == "" then ok false else recent_stamp current renotify (env.parse last)

unfoldable pub due_rows : Time → ℕ → Reports → List Task → Exec (List Task)
due_rows current renotify s [] = pure []
due_rows current renotify s (t ∷ ts) = do
  recent ← λ env h. (is_recent env current renotify (reported_at t.id s), h)
  rest ← due_rows current renotify s ts
  pure (if recent then rest else t ∷ rest)

-- An age that cannot be computed is 0.
stamp_age : Time → Stamp → ℕ
stamp_age current (aware t) = days_since current t
stamp_age current _ = 0

unfoldable pub age_days : Env → Time → Task → ℕ
unfolding stamp_age
age_days env current t = stamp_age current (env.parse (text t.created_at))

-- due.sort(key=_age_days, reverse=True), which keeps the order of equal rows
insert_row : Env → Time → Task → List Task → List Task
unfolding age_days
insert_row env current t [] = t ∷ []
insert_row env current t (u ∷ us) =
    let later = u ∷ insert_row env current t us in
    if leb (age_days env current u) (age_days env current t) then t ∷ (u ∷ us) else later

unfoldable pub oldest_first : Env → Time → List Task → List Task
unfolding insert_row
oldest_first env current [] = []
oldest_first env current (t ∷ ts) = insert_row env current t (oldest_first env current ts)

-- row.get("priority", "?") in an f-string
unfoldable pub shown_priority : Column ℕ → String
unfolding Text.show
shown_priority Column.absent = "?"
shown_priority Column.null = "None"
shown_priority (Column.value n) = Text.show n

unfoldable pub row_line : Env → Time → Task → String
unfolding age_days Text.take Text.show shown_priority
row_line env current t =
    "• `"
    <> (text t.status
        <> ("` **"
            <> (Text.take 70 (or_text (text t.title) (Text.take 8 t.id))
                <> ("** — "
                    <> (Text.show (age_days env current t)
                        <> ("d old, P"
                            <> (shown_priority t.priority
                                <> (", "
                                    <> (Text.show (or_else t.attempt_count 0)
                                        <> (" attempt(s), `" <> (Text.take 8 t.id <> "`")))))))))))

unfoldable pub report_stale : Time → ℕ → ℕ → List Task → Exec (Unit {0})
report_stale current after renotify due = do
  lines ← using (λ env. map (row_line env current) (take 10 (oldest_first env current due)))
  let n = length due
  let overflow =
      if ltb 10 n
      then "\n• …and " <> (Text.show (n - 10) <> " more (query task_queue for the full list)")
      else ""
  discord_notify (
      "🧹 **Stale queue sweep — "
      <> (Text.show n
          <> (" task(s) idle >"
              <> (Text.show after
                  <> ("d:**\n"
                      <> (Text.join "\n" lines
                          <> (overflow
                              <> ("\nNothing was requeued. Re-reported every "
                                  <> (Text.show renotify <> "d until resolved.")))))))))
  log_activity "status"
      ("Stale sweep: " <> (Text.show n <> (" task(s) idle >" <> (Text.show after <> "d")))) none

unfoldable pub set_all : String → List Task → Reports → Reports
unfolding set_report
set_all v [] s = s
set_all v (t ∷ ts) s = set_all v ts (set_report t.id v s)

abbrev sweep_statuses : List String
sweep_statuses = "ready" ∷ "failed" ∷ "pending_jeff_action" ∷ "pending_eval" ∷ []

unfoldable pub sweep_rows : ℕ → ℕ → List Task → Exec (Unit {0})
sweep_rows after renotify fetched = do
  let rows = keep (λ (t : Task). not (is_internal_housekeeping t)) fetched
  loaded ← load_state
  current ← now
  let state = live rows loaded
  due ← due_rows current renotify state rows
  if is_empty due then save_state state else do
    report_stale current after renotify due
    stamp ← using (λ env. env.isoformat current)
    save_state (set_all stamp due state)

unfoldable pub fetched_or : ℕ → ℕ → Option (List Task) → Exec (Unit {0})
fetched_or after renotify none = pure tt
fetched_or after renotify (some rows) = sweep_rows after renotify rows

unfoldable pub sweep_stale_with : ℕ → ℕ → Exec (Unit {0})
sweep_stale_with after renotify = do
  rows ←
      catch
        (do
          current ← now
          rows ← select_tasks (record {
            conds = Cond.status_in sweep_statuses ∷ Cond.created_before (current - days after) ∷ [];
            order = Order.created_asc ∷ [];
            limit = some 50;
          })
          pure (some rows))
        (λ _. pure none)
  fetched_or after renotify rows

-- with the defaults of the environment variables
unfoldable pub sweep_stale_tasks : Exec (Unit {0})
unfolding sweep_stale_with
sweep_stale_tasks = sweep_stale_with 7 7
