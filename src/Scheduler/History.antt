-- ===== src/Scheduler/History.antt =====
-- scripts/scheduled_control_daemon.py: `_systemd_service_for_row`, `_parse_systemd_ts` and
-- `poll_systemd_run_history`.
use az_lab.Text
use az_lab.Time.{Time, Stamp, aware, naive}
use az_lab.Event.{Env}
use az_lab.Scheduler.Registry.{Scheduled}
use az_lab.Scheduler.Systemd.{systemctl}
use az_lab.Exec.{Exec, pure, using, ◌>>=◌, catch, record_run}
use az_lab.Event.{Command}
use az_lab.Queue.{text, or_text}
use az_lab.Prelude.{
  ℕ, ◌+◌, ◌-◌, ◌/◌, String, ◌<>◌, Bool, false, not, ◌&&◌, ◌||◌, Option, none, some, List, [], ◌∷◌,
  ◌==◌, leb, eqb, if◌then◌else◌, elem,
}

unfoldable pub systemd_service_for_row : Scheduled → Option String
unfolding Text.is_suffix Text.take Text.length
systemd_service_for_row r =
    let service = r.source_ref.service in
    let unit = r.source_ref.unit in
    if r.kind == "agent_loop"
    then if Text.is_suffix ".service" service then some service else none
    else if Text.is_suffix ".timer" unit
    then some (Text.take (Text.length unit - 6) unit <> ".service")
    else if Text.is_suffix ".service" unit
    then some unit
    else none

-- A weekday of three letters in front is dropped.
unfoldable pub without_weekday : String → List String → String
without_weekday s (day ∷ rest ∷ []) = if eqb (Text.length day) 3 then rest else s
without_weekday s _ = s

abbrev iso_of_time : Env → Option Time → Option String
iso_of_time env none = none
iso_of_time env (some t) = some (env.isoformat t)

unfoldable pub iso_of_tokens : Env → String → List String → Option String
iso_of_tokens env s (date ∷ clock ∷ zone ∷ _) =
    if Text.upper zone == "UTC"
    then iso_of_time env (env.strptime (date <> (" " <> clock)))
    else env.reformat s
iso_of_tokens env s _ = env.reformat s

-- An empty timestamp, and the ones of a unit that never ran, are none.
unfoldable pub parse_systemd_ts : Env → String → Option String
parse_systemd_ts env ts =
    let s = Text.strip ts in
    if s == "" || elem s ("0" ∷ "n/a" ∷ [])
    then none
    else let u = without_weekday s (Text.fields 1 s) in iso_of_tokens env u (Text.words u)

abbrev split_at : String → Option ℕ → Option (String × String)
split_at line none = none
split_at line (some i) = some (Text.take i line, Text.drop (i + 1) line)

-- fields.get(key): the last line `key=…`
unfoldable pub property : String → List String → Option String
property key [] = none
property key (l ∷ ls) =
    let later = property key ls in
    elim later [
      | some v ↦ some v
      | none ↦ elim (split_at l (Text.find "=" l)) [
        | none ↦ none
        | some (k, v) ↦ if k == key then some v else none
      ]
    ]

-- a <= b and b - a, where both are aware or both are not
unfoldable pub not_after : Stamp → Stamp → Bool
not_after (aware a) (aware b) = leb a b
not_after (naive a) (naive b) = leb a b
not_after _ _ = false

unfoldable pub seconds_between : Stamp → Stamp → Option ℕ
seconds_between (aware a) (aware b) = some ((b - a) / 1000000)
seconds_between (naive a) (naive b) = some ((b - a) / 1000000)
seconds_between _ _ = none

-- The row's last run is this one or a later one; what cannot be compared counts as earlier.
unfoldable pub already_recorded : Env → Option String → String → Bool
already_recorded env last start =
    not (text last == "") && not_after (env.parse start) (env.parse (text last))

unfoldable pub record_history : Scheduled → String → String → String → Exec (Unit {0})
record_history r start stop word = do
  duration ← using (λ env. seconds_between (env.parse start) (env.parse stop))
  catch
      (record_run r.name (if word == "success" then "success" else "failed")
        ("systemd Result=" <> word) start duration)
      (λ _. pure tt)

unfoldable pub if_new : Scheduled → Option String → Option String → String → Exec (Unit {0})
if_new r (some start) (some stop) word = do
  known ← using (λ env. already_recorded env r.last_run_at start)
  if known then pure tt else record_history r start stop word
if_new r _ _ word = pure tt

unfoldable pub read_history : Scheduled → Command → Exec (Unit {0})
read_history r c =
    if not c.success
    then pure tt
    else (let lines = Text.splitlines c.out in
        do
          start ←
              using (λ env. parse_systemd_ts env (text (property "ExecMainStartTimestamp" lines)))
          stop ← using (λ env. parse_systemd_ts env (text (property "ExecMainExitTimestamp" lines)))
          if_new r start stop (or_text (Text.strip (text (property "Result" lines))) "unknown"))

unfoldable pub history_of : Scheduled → Option String → Exec (Unit {0})
history_of r none = pure tt
history_of r (some service) = do
  c ←
      systemctl
        ("show" ∷ service ∷ "--property=ExecMainStartTimestamp,ExecMainExitTimestamp,Result" ∷ [])
  read_history r c

unfoldable pub poll_systemd_run_history : Scheduled → Exec (Unit {0})
poll_systemd_run_history r =
    if not (elem r.kind ("systemd" ∷ "agent_loop" ∷ []))
    then pure tt
    else history_of r (systemd_service_for_row r)
