-- ===== src/Scheduler/Systemd.antt =====
-- scripts/scheduled_control_daemon.py: the handlers of systemd units, `systemd_is_enabled` to
-- `reconcile_systemd` and `reconcile_agent_loop`. Paths are relative to the user's systemd directory.
pub mod Schedule
use az_lab.Text
use az_lab.Event.{Command, Exn, os_error}
use az_lab.Scheduler.Registry.{Source, Scheduled, Report, wants_active}
use az_lab.Scheduler.Systemd.Schedule.{effective_schedule, directive_of, dropin_body, Directive}
use az_lab.Exec.{Exec, pure, raise, using, ◌>>=◌, ◌>>◌, catch, run_command, read_file, write_file}
use az_lab.Queue.{text}
use az_lab.Prelude.{
  String, ◌<>◌, Bool, true, false, not, ◌&&◌, ◌||◌, Option, none, some, List, [], ◌∷◌, ◌++◌, ◌==◌,
  if◌then◌else◌, is_empty,
}

-- ["systemctl", "--user", …]
unfoldable pub systemctl : List String → Exec Command
systemctl args = run_command ("systemctl" ∷ "--user" ∷ args) none

unfoldable pub systemd_is_enabled : String → Exec Bool
systemd_is_enabled unit = do
  c ← systemctl ("is-enabled" ∷ unit ∷ [])
  pure (Text.strip c.out == "enabled")

unfoldable pub systemd_is_active : String → Exec Bool
systemd_is_active unit = do
  c ← systemctl ("is-active" ∷ unit ∷ [])
  pure (Text.strip c.out == "active" || Text.strip c.out == "activating")

unfoldable pub systemd_current_schedule : String → Exec (Option String)
systemd_current_schedule unit = do
  c ← systemctl ("cat" ∷ unit ∷ [])
  pure (if c.success then effective_schedule c.out else none)

abbrev pub dropin_path : String → String
dropin_path unit = unit <> ".d/wren-override.conf"

-- What became of a drop-in: whether it is in force, and a note.
abbrev pub Written : Type 0
Written = Bool × String

unfoldable pub restart : String → Directive → Exec Written
restart unit d = do
  reload ← systemctl ("daemon-reload" ∷ [])
  if not reload.success
      then pure (false, "daemon-reload failed: " <> Text.take 100 (Text.strip reload.errors))
      else (do
        c ← systemctl ("restart" ∷ unit ∷ [])
        pure (
            if not c.success
            then (
              false,
              "restart " <> (unit <> (" failed: " <> Text.take 100 (Text.strip c.errors))),
            )
            else (true, "wrote drop-in wren-override.conf, set " <> (d.name <> ("=" <> d.value)))))

abbrev is_current : Option String → String → Bool
is_current none body = false
is_current (some held) body = held == body

-- An OSError is reported, and nothing else is caught.
unfoldable pub write_failed : String → Exn → Exec (Option Written)
write_failed path (os_error m) = pure (some (false, "failed to write " <> (path <> (": " <> m))))
write_failed path e = raise e

-- `none` if the file had to be written.
unfoldable pub write_if_new : String → String → Exec (Option Written)
write_if_new path body =
    catch
      (do
        held ← read_file path
        if is_current held body
            then pure (some (true, "drop-in already current"))
            else (do write_file path body; pure none))
      (write_failed path)

unfoldable pub restart_if_new : String → Directive → Option Written → Exec Written
restart_if_new unit d (some w) = pure w
restart_if_new unit d none = restart unit d

unfoldable pub write_directive : String → Option Directive → String → Exec Written
write_directive unit none desired = do
  quote ← using (λ env. env.quote)
  pure (false, "unsupported schedule format for systemd: " <> quote desired)
write_directive unit (some d) desired = do
  written ← write_if_new (dropin_path unit) (dropin_body d)
  restart_if_new unit d written

unfoldable pub systemd_write_dropin : String → String → Exec Written
systemd_write_dropin unit desired =
    if not (Text.is_suffix ".timer" unit)
    then pure (false, "schedule edit only supported for .timer units")
    else write_directive unit (directive_of desired) desired

-- The actions and notes so far, and one more command.
abbrev Log : Type 0
Log = List String × List String

abbrev outcome_word : Bool → String
outcome_word true = "ok"
outcome_word false = "fail"

unfoldable pub switch : Bool → Bool → String → String → String → Log → Exec Log
switch desired actual on off unit log =
    let verb = if desired then on else off in
    if (desired && actual) || (not desired && not actual) then pure log else do
      c ← systemctl (verb ∷ unit ∷ [])
      pure (
        (log.0) ++ ((verb <> ("=" <> outcome_word c.success)) ∷ []),
        (if c.success
            then log.1
            else (log.1) ++ ((verb <> (" stderr: " <> Text.take 100 (Text.strip c.errors))) ∷ [])),
      )

unfoldable pub rewrite_schedule : String → String → Option String → Log → Exec Log
rewrite_schedule unit desired none log = pure log
rewrite_schedule unit desired (some actual) log = if actual == desired then pure log else do
  w ← systemd_write_dropin unit desired
  pure ((log.0) ++ (("schedule=" <> outcome_word (w.0)) ∷ []), (log.1) ++ ((w.1) ∷ []))

-- Only the schedule of a timer, in one of the two formats, is brought in line.
unfoldable pub sync_schedule : String → String → Log → Exec Log
sync_schedule unit desired log =
    if Text.is_suffix ".timer" unit
      && (Text.is_prefix "oncalendar:" desired || Text.is_prefix "every:" desired)
    then (do actual ← systemd_current_schedule unit; rewrite_schedule unit desired actual log)
    else pure log

unfoldable pub report_of : Log → Option Report
report_of (actions, notes) =
    if is_empty actions && is_empty notes
    then none
    else some (record {
      actions = actions;
      notes = if is_empty notes then none else some (Text.join "; " notes);
    })

unfoldable pub reconcile_unit : String → Scheduled → Exec (Option Report)
reconcile_unit unit r = if unit == "" then pure none else do
  enabled ← systemd_is_enabled unit
  running ← systemd_is_active unit
  one ← switch r.enabled enabled "enable" "disable" unit ([], [])
  two ← switch (wants_active r) running "start" "stop" unit one
  three ← sync_schedule unit r.schedule two
  pure (report_of three)

unfoldable pub reconcile_systemd : Scheduled → Exec (Option Report)
reconcile_systemd r = reconcile_unit r.source_ref.unit r

-- The loop's service stands for the unit.
unfoldable pub reconcile_agent_loop : Scheduled → Exec (Option Report)
reconcile_agent_loop r = reconcile_unit r.source_ref.service r
