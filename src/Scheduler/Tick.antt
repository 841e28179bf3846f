-- ===== src/Scheduler/Tick.antt =====
-- scripts/scheduled_control_daemon.py: `reconcile_one`, `auto_unpause` and `tick`, whose rows are a
-- parameter: the registry's, in the order of their names.
use az_lab.Text
use az_lab.Time.{Time, Stamp, aware, naive, unparseable}
use az_lab.Event.{Result, ok, err, type_error, message}
use az_lab.Scheduler.Registry.{Scheduled, Report, reconcile_task_queue_recurring}
use az_lab.Scheduler.Cron.{reconcile_cron}
use az_lab.Scheduler.Systemd.{reconcile_systemd, reconcile_agent_loop}
use az_lab.Scheduler.History.{poll_systemd_run_history}
use az_lab.Exec.{Exec, pure, raise, using, ◌>>=◌, ◌>>◌, catch, for_each, now, patch_row, audit_row}
use az_lab.Queue.{text}
use az_lab.Prelude.{
  String, ◌<>◌, not, ◌||◌, Option, none, some, List, [], ◌∷◌, ◌==◌, ltb, if◌then◌else◌, any,
}

-- KIND_HANDLERS: a kind without a handler is left alone.
unfoldable pub handler : String → Option (Scheduled → Exec (Option Report))
handler kind =
    if kind == "systemd"
    then some reconcile_systemd
    else if kind == "cron"
    then some reconcile_cron
    else if kind == "agent_loop"
    then some reconcile_agent_loop
    else if kind == "task_queue_recurring"
    then some reconcile_task_queue_recurring
    else none

-- A failed audit is only logged.
unfoldable pub insert_audit : Scheduled → String → Option String → Exec (Unit {0})
insert_audit r action notes = catch (audit_row r.id r.name action notes) (λ _. pure tt)

-- "native_sync_ok" if every action has "=ok"
unfoldable pub action_of : List String → String
action_of actions =
    if any (λ a. not (Text.contains "=ok" a)) actions
    then "native_sync_partial"
    else "native_sync_ok"

unfoldable pub audit : Scheduled → Result (Option Report) → Exec (Unit {0})
audit r (err e) = insert_audit r "native_sync_failed" (some (Text.take 300 (message e)))
audit r (ok none) = pure tt
audit r (ok (some report)) = insert_audit r (action_of report.actions) report.notes

unfoldable pub handle_row : Scheduled → Option (Scheduled → Exec (Option Report)) → Exec (Unit {0})
handle_row r none = pure tt
handle_row r (some h) = do
  result ← catch (do report ← h r; pure (ok report)) (λ e. pure (err e))
  audit r result

unfoldable pub reconcile_one : Scheduled → Exec (Unit {0})
reconcile_one r = handle_row r (handler r.kind)

-- The row without its pause.
abbrev pub unpaused : Scheduled → Scheduled
unpaused r = record r { paused_at = none; unpause_at = none }

-- The pause is cleared in the registry, and then here; a failure leaves the row as it was.
unfoldable pub clear_pause : Scheduled → Exec Scheduled
clear_pause r =
    catch
      (do
        patch_row r.id (("paused_at", none) ∷ ("unpause_at", none) ∷ ("pause_reason", none) ∷ [])
        insert_audit r "auto_unpaused" (some ("unpause_at=" <> (text r.unpause_at <> " reached")))
        pure (unpaused r))
      (λ _. pure r)

-- A text that is no timestamp is passed over; one without an offset cannot be compared with the clock.
unfoldable pub unpause_at_stamp : Time → Scheduled → Stamp → Exec Scheduled
unpause_at_stamp at r (aware t) = if ltb at t then pure r else clear_pause r
unpause_at_stamp at r (naive t) =
    raise (type_error "can't compare offset-naive and offset-aware datetimes")
unpause_at_stamp at r unparseable = pure r

unfoldable pub unpause_row : Time → Scheduled → Exec Scheduled
unpause_row at r =
    if text r.unpause_at == "" || text r.paused_at == ""
    then pure r
    else do stamp ← using (λ env. env.parse (text r.unpause_at)); unpause_at_stamp at r stamp

unfoldable pub unpause_each : Time → List Scheduled → Exec (List Scheduled)
unpause_each at [] = pure []
unpause_each at (r ∷ rs) =
    let later = unpause_each at rs in do r' ← unpause_row at r; rest ← later; pure (r' ∷ rest)

unfoldable pub auto_unpause : List Scheduled → Exec (List Scheduled)
auto_unpause rows = do at ← now; unpause_each at rows

unfoldable pub tick_row : Scheduled → Exec (Unit {0})
tick_row r = do reconcile_one r; catch (poll_systemd_run_history r) (λ _. pure tt)

unfoldable pub tick : List Scheduled → Exec (Unit {0})
tick rows = do rows' ← auto_unpause rows; for_each rows' tick_row
