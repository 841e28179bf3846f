-- ===== src/Recover.antt =====
-- infrastructure/task-queue/poll_queue.py: `recover_stuck_tasks`. A timestamp without an offset is
-- read as UTC.
pub mod Laws
pub mod Alive
use az_lab.Text
use az_lab.Time.{Time, minutes, Stamp, aware, naive, unparseable}
use az_lab.Report.{log_activity, discord_notify}
use az_lab.Exec.{Exec, pure, ◌>>=◌, ◌>>◌, catch, now, select_tasks, update_tasks, select_activity}
use az_lab.Event.{Result, Env, ok, err, value_error}
use az_lab.Queue.{Task, Cond, Assign, text, or_text}
use az_lab.Prelude.{
  ◌-◌, String, ◌<>◌, Bool, true, false, not, none, some, List, [], ◌∷◌, ◌==◌, ltb, if◌then◌else◌,
  length, take, is_empty,
}

-- claimed_at, else updated_at, else created_at
pub age_text : Task → String
age_text t = or_text (text t.claimed_at) (or_text (text t.updated_at) (text t.created_at))

-- `_parse_iso`, and the offset that is filled in
pub age_of : Stamp → Result Time
age_of (aware t) = ok t
age_of (naive t) = ok t
age_of unparseable = err (value_error "Invalid isoformat string")

unfoldable pub is_stuck : Env → Time → Task → Result Bool
unfolding age_text age_of
is_stuck env cutoff t =
    if age_text t == ""
    then ok false
    else elim (age_of (env.parse (age_text t))) [ ok age ↦ ok (ltb age cutoff) | err e ↦ err e ]

unfoldable pub stuck_tasks : Time → List Task → Exec (List Task)
stuck_tasks cutoff [] = pure []
stuck_tasks cutoff (t ∷ ts) = do
  stuck ← λ env h. (is_stuck env cutoff t, h)
  rest ← stuck_tasks cutoff ts
  pure (if stuck then t ∷ rest else rest)

abbrev pub ready_patch : List Assign
ready_patch = Assign.status "ready" ∷ Assign.claimed_by none ∷ Assign.claimed_at none ∷ []

-- A task with activity in the last ten minutes is alive (`true`); the others go back to `ready`.
unfoldable pub recover_step : Bool → Task → Exec (List String) → Exec (List String)
recover_step true t later = later
recover_step false t later = do
  update_tasks (Cond.id_eq t.id ∷ []) ready_patch
  log_activity "status" "Auto-recovered stuck task → ready" (some t.id)
  rest ← later
  pure (text t.title ∷ rest)

unfoldable pub recover_each : Time → List Task → Exec (List String)
recover_each since [] = pure []
recover_each since (t ∷ ts) =
    let later = recover_each since ts in
    do recent ← select_activity t.id (some since) 1; recover_step (not (is_empty recent)) t later

unfoldable pub report_recovered : List String → Exec (Unit {0})
report_recovered [] = pure tt
report_recovered titles =
    let n = length titles in
    discord_notify (
      "♻\u{fe0f} **Stuck task recovery:** "
      <> (Text.show n
          <> (" task(s) reset to ready\n"
              <> (Text.join ", " (take 3 titles)
                  <> (if ltb 3 n then " (+" <> (Text.show (n - 3) <> " more)") else "")))))

unfoldable pub recover_stuck_tasks : Exec (Unit {0})
recover_stuck_tasks =
    catch
      (do
        t ← now
        s ← now
        inflight ← select_tasks (record {
          conds = Cond.status_in ("claimed" ∷ "in_progress_agent" ∷ []) ∷ Cond.archived_null ∷ [];
          order = [];
          limit = some 100;
        })
        stuck ← stuck_tasks (t - minutes 30) inflight
        recovered ← recover_each (s - minutes 10) stuck
        report_recovered recovered)
      (λ _. pure tt)
