-- ===== src/Examples/Scheduler.antt =====
-- The theorems on scripts/scheduled_control_daemon.py at concrete inputs.
use az_lab.Text
use az_lab.Scheduler.Retry.{Reply, response, http_error, url_error, urlopen_retry}
use az_lab.Scheduler.Retry.Laws.{IsTried, urlopen_retry-IsTried}
use az_lab.Scheduler.Cron.{
  is_disabled_line, reconcile_lines, entry_of, reconcile_line, is_active_line,
}
use az_lab.Scheduler.Cron.Lines.{toggled, reconcile_lines_restores}
use az_lab.Scheduler.Systemd.Schedule.{effective_schedule, dropin_body}
use az_lab.Scheduler.Systemd.Schedule.RoundTrip.{calendar, effective-dropin, one_line}
use az_lab.Prelude.{ℕ, zero, suc, ◌≡◌, refl, String, ◌<>◌, true, false, List, [], ◌∷◌, some, arith}

-- A server that is reloading twice and then answers.
abbrev reloading : ℕ → Reply String
reloading zero = http_error 503
reloading (suc zero) = url_error
reloading (suc (suc n)) = response "rows"

urlopen_retry-IsTried_example : IsTried reloading 4 (urlopen_retry reloading 4)
urlopen_retry-IsTried_example = urlopen_retry-IsTried reloading 4 (omega arith)

abbrev backup : String
backup = "0 3 * * * /bin/backup -v"

abbrev table : List String
table = "# nightly" ∷ " 0 3 * * * /bin/backup -v" ∷ "5 4 * * 0 /bin/scrub" ∷ []

switched_off :
    reconcile_lines (toggled backup false) table
    ≡ "# nightly" ∷ "# DISABLED-BY-WREN:  0 3 * * * /bin/backup -v" ∷ "5 4 * * 0 /bin/scrub" ∷ []
unfolding reconcile_lines reconcile_line is_active_line is_disabled_line
switched_off = refl

reconcile_lines_restores_example :
    reconcile_lines (toggled backup true) (reconcile_lines (toggled backup false) table) ≡ table
unfolding Text.is_prefix is_disabled_line
reconcile_lines_restores_example =
    reconcile_lines_restores backup refl table (refl, (refl, (refl, tt)))

effective-dropin_example :
    effective_schedule ("[Timer]\nOnCalendar=daily" <> ("\n" <> dropin_body (calendar "Mon 03:00")))
    ≡ some ("oncalendar:" <> "Mon 03:00")
unfolding one_line Text.strip
effective-dropin_example = effective-dropin "[Timer]\nOnCalendar=daily" "Mon 03:00" refl refl refl

-- A schedule that is a nickname: the line that was written for it is read as another entry.
nickname_eats_command :
    entry_of (Text.fields 5 "@hourly /bin/backup -v -a -b -c -d")
    ≡ some ("@hourly /bin/backup -v -a -b", "-c -d")
unfolding entry_of Text.fields Text.join
nickname_eats_command = refl
