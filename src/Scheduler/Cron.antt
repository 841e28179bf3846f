-- ===== src/Scheduler/Cron.antt =====
-- scripts/scheduled_control_daemon.py: `reconcile_cron`. The flags of the loop over the lines are read
-- off the lines after it.
pub mod Lines
use az_lab.Text
use az_lab.Scheduler.Registry.{Source, Scheduled, Report, wants_active}
use az_lab.Exec.{Exec, pure, using, ◌>>=◌, ◌>>◌, catch, run_command, patch_row}
use az_lab.Event.{Command}
use az_lab.Prelude.{
  ◌+◌, ℕ, zero, suc, String, ◌<>◌, ◌≡◌, refl, Bool, true, false, not, ◌&&◌, Option, none, some,
  List, [], ◌∷◌, map, ◌==◌, if◌then◌else◌, take,
}

abbrev pub disabled_marker : String
disabled_marker = "# DISABLED-BY-WREN: "

-- What a row asks of its line.
pub record Plan : Type 0 where
  pub target : String
  pub active : Bool
  -- the whole new line, if the schedule is to change
  pub new_line : Option String

unfoldable pub is_active_line : Plan → String → Bool
unfolding Text.strip
is_active_line p line = Text.strip line == p.target

unfoldable pub is_disabled_line : Plan → String → Bool
unfolding Text.is_prefix Text.strip Text.drop Text.length
is_disabled_line p line =
    Text.is_prefix disabled_marker line
    && Text.strip (Text.drop (Text.length disabled_marker) line) == p.target

abbrev based : Option String → String → String
based none line = line
based (some new) line = new

abbrev placed : Plan → String → String
placed p line = if p.active then based p.new_line line else disabled_marker <> based p.new_line line

-- One line of the crontab.
unfoldable pub reconcile_line : Plan → String → String
unfolding Text.drop Text.length
reconcile_line p line =
    if is_active_line p line
    then placed p line
    else if is_disabled_line p line
    then placed p (Text.drop (Text.length disabled_marker) line)
    else line

unfoldable pub reconcile_lines : Plan → List String → List String
reconcile_lines p lines = map (reconcile_line p) lines

-- " ".join(parts[:5]) and parts[5]: a line with fewer parts is no entry.
unfoldable pub entry_of : List String → Option (String × String)
entry_of (a ∷ b ∷ c ∷ d ∷ e ∷ cmd ∷ _) = some (Text.join " " (a ∷ b ∷ c ∷ d ∷ e ∷ []), cmd)
entry_of _ = none

-- Whether the registry's schedule is to replace the line's.
unfoldable pub schedule_changed : String → String → Bool
unfolding Text.is_prefix
schedule_changed desired expr =
    not (desired == "")
    && not (desired == expr)
    && not (Text.is_prefix "oncalendar:" desired)
    && not (Text.is_prefix "every:" desired)
    && not (Text.is_prefix "loop:" desired)

unfoldable pub plan_of : Scheduled → String → String → String → Plan
plan_of r target expr cmd =
    let desired = Text.strip r.schedule in
    record {
      target = target;
      active = wants_active r;
      new_line = if schedule_changed desired expr then some (desired <> (" " <> cmd)) else none;
    }

-- The crontab that is written, and the present one in the same form.
unfoldable pub new_crontab : Plan → String → String
unfolding Text.splitlines Text.join Text.rstrip
new_crontab p current =
    Text.rstrip (Text.join "\n" (reconcile_lines p (Text.splitlines current))) <> "\n"

unfoldable pub same_crontab : String → String
unfolding Text.rstrip
same_crontab current = Text.rstrip current <> "\n"

-- source_ref.line follows the line; a failure is only logged.
unfoldable pub follow_line : Scheduled → Option String → Exec (Unit {0})
follow_line r none = pure tt
follow_line r (some new) =
    catch (patch_row r.id (("source_ref.line", some new) ∷ [])) (λ _. pure tt)

unfoldable pub cron_note :
    (String → String) → Option String → String → String → String → String → String
unfolding Text.take
cron_note quote none target expr desired cmd =
    "toggled cron line: '" <> (Text.take 60 target <> "…'")
cron_note quote (some new) target expr desired cmd =
    "changed schedule "
    <> (quote expr <> (" → " <> (quote desired <> (" on '" <> (Text.take 50 cmd <> "…'")))))

unfoldable pub wrote : Scheduled → Plan → String → String → Command → Exec (Option Report)
wrote r p expr cmd c =
    if not c.success
    then pure (
        some (record {
          actions = "crontab-write=fail" ∷ [];
          notes = some ("stderr: " <> Text.take 120 (Text.strip c.errors));
        }))
    else do
      follow_line r p.new_line
      quote ← using (λ env. env.quote)
      pure (
          some (record {
            actions = elim p.new_line [
              | none ↦ "crontab-write=ok" ∷ []
              | some new ↦ "crontab-write=ok" ∷ "schedule=ok" ∷ []
            ];
            notes = some (cron_note quote p.new_line p.target expr (Text.strip r.schedule) cmd);
          }))

unfoldable pub apply_plan : Scheduled → Plan → String → String → Command → Exec (Option Report)
apply_plan r p expr cmd listed =
    if not listed.success
    then pure none
    else if new_crontab p listed.out == same_crontab listed.out
    then pure none
    else do
      c ← run_command ("crontab" ∷ "-" ∷ []) (some (new_crontab p listed.out))
      wrote r p expr cmd c

unfoldable pub with_entry :
    Scheduled → String → Command → Option (String × String) → Exec (Option Report)
with_entry r target listed none = pure none
with_entry r target listed (some (expr, cmd)) =
    apply_plan r (plan_of r target expr cmd) expr cmd listed

unfoldable pub reconcile_cron : Scheduled → Exec (Option Report)
reconcile_cron r =
    let target = Text.strip r.source_ref.line in
    if target == "" then pure none else do
      listed ← run_command ("crontab" ∷ "-l" ∷ []) none
      with_entry r target listed (entry_of (Text.fields 5 target))

cron_tests :
    (entry_of (Text.fields 5 "0 3 * * * /bin/backup -v now")
      ≡ some ("0 3 * * *", "/bin/backup -v now"))
    × (reconcile_line
          (record { target = "0 3 * * * b"; active = false; new_line = none })
          " 0 3 * * * b"
        ≡ "# DISABLED-BY-WREN:  0 3 * * * b")
unfolding entry_of Text.fields reconcile_line is_active_line Text.strip Text.join
cron_tests = (refl, refl)
