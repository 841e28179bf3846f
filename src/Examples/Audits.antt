-- ===== src/Examples/Audits.antt =====
-- The theorems on the audits and the reaction guard under infrastructure/ at concrete inputs.
use az_lab.Text
use az_lab.Time.{Time, unparseable}
use az_lab.Containers.{Container, Host, audit}
use az_lab.Containers.Timers.{Timers}
use az_lab.Containers.Laws.{AllHealthy, NoOrphan, audit_quiet}
use az_lab.Durability
use az_lab.Durability.{Finding, finding, unpushed, dirty, untracked, answered, Repo}
use az_lab.Durability.Migrations.{ledgered_migrations_under, applied_migration_head}
use az_lab.Durability.Lines.{judge_line, judge_lines}
use az_lab.Durability.Lines.Laws.{QuietLine}
use az_lab.Durability.Lines.Accounts.{count_reported, judge_line_decides}
use az_lab.Durability.Repos.{audit_repo}
use az_lab.Durability.Repos.Laws.{Pushed, audit_repo_quiet}
use az_lab.Durability.Runs.{Seen}
use az_lab.Durability.Runs.Laws.{runs_of, is_present}
use az_lab.Durability.Escalation.{Queue, consider_all, run}
use az_lab.Durability.Escalation.Laws.{
  Steps, Past, after, streak, consider_all-Steps, runs_of-after,
}
use az_lab.Reactions.{World, Guard, pass, max_seen}
use az_lab.Reactions.Laws.{InTime, eyes_of, pass_bounded, pass_eyes}
use az_lab.Prelude.{
  ◌+◌, ◌≤◌, ◌≡◌, ◌↔◌, refl, true, false, none, some, List, [], ◌∷◌, All, length, is_empty, elem,
  if◌then◌else◌,
}

abbrev noon : Time
noon = 63000000000000000

abbrev host : Host
host = record {
  now = noon;
  from_iso = λ s. some noon;
  show_hours = λ n. "1.0";
  show_minutes = λ n. "60";
  show_seconds = λ n. "30";
}

-- A container whose health check came with its image, so that nothing runs it.
abbrev frozen : Container
frozen = record {
  id = "c0ffee";
  name = "cadvisor-host";
  has_test = true;
  interval = 0;
  start_period = 0;
  status = "starting";
  streak = "0";
  started_at = "2026-08-11T19:48:00Z";
  ends = [];
}

abbrev timers : Timers
timers = record { ids = []; names = [] }

audit_quiet_example :
    audit host timers (frozen ∷ []) ≡ []
    ↔ AllHealthy host timers (frozen ∷ []) × NoOrphan timers (frozen ∷ [])
audit_quiet_example = audit_quiet host timers (frozen ∷ [])

frozen_found : is_empty (audit host timers (frozen ∷ [])) ≡ false
unfolding audit
frozen_found = refl

abbrev laptop : Durability.Host
laptop = record {
  now = noon;
  ledger = answered "123_views";
  quote = λ s. s;
  show_days = λ n. "1.9";
  show_whole_days = λ n. "2";
}

-- A clean repository, and one with an applied migration that is not committed.
abbrev clean : Repo
clean = record {
  name = "azlab";
  root = "home" ∷ "azlab" ∷ [];
  is_git = true;
  branch = some "beta";
  fetch_error = none;
  porcelain = "";
  has_upstream = true;
  ahead = 0;
  oldest = none;
  mtime = λ p. some noon;
  sql_below = λ p. none;
  resolve = λ p. none;
  is_dir = λ p. false;
}

abbrev stranded : Repo
stranded = record clean { porcelain = "?? services/memory-mcp-server/migrations/122_decay.sql" }

audit_repo_quiet_example :
    audit_repo laptop [] stranded ≡ []
    ↔ (stranded.fetch_error ≡ none)
      × (stranded.has_upstream ≡ true)
      × Pushed laptop stranded
      × All (QuietLine laptop stranded []) (Text.splitlines stranded.porcelain)
audit_repo_quiet_example = audit_repo_quiet laptop [] stranded "beta" refl refl

-- The clean one has no finding, and the migration is one although it has no age.
repo_tests :
    (is_empty (audit_repo laptop [] clean) ≡ true)
    × (is_empty (audit_repo laptop [] stranded) ≡ false)
unfolding audit_repo judge_lines ledgered_migrations_under applied_migration_head
repo_tests = (refl, refl)

judge_line_decides_example :
    (is_empty (judge_line laptop stranded [] stranded.porcelain).decisions ≡ false)
    × (count_reported (judge_line laptop stranded [] stranded.porcelain).decisions
        ≡ length (judge_line laptop stranded [] stranded.porcelain).findings)
judge_line_decides_example = judge_line_decides laptop stranded [] stranded.porcelain

abbrev stray : Finding
stray = record {
  kind = untracked;
  repo = "dashboard";
  ident = "UNTRACKED:dashboard:.claude/";
  detail = ".claude/ — uncommitted for 41d";
}

abbrev queue : Queue
queue = record {
  open_rows = λ h title. some [];
  insert = λ h row. some ("t1" ∷ []);
  parse = λ s. unparseable;
}

abbrev found : Past
found = record { now = noon; at = "noon"; findings = stray ∷ [] }

abbrev missed : Past
missed = record { now = noon; at = "noon"; findings = [] }

abbrev history : List Past
history = found ∷ found ∷ found ∷ found ∷ missed ∷ found ∷ []

abbrev noted : Seen
noted = ((after queue history).0).seen

consider_all-Steps_example :
    Steps queue noon "noon" noted []
      ((consider_all queue noon "noon" (stray ∷ []) noted []).0)
      ((consider_all queue noon "noon" (stray ∷ []) noted []).1)
consider_all-Steps_example = consider_all-Steps queue noon "noon" (stray ∷ []) noted []

runs_of-after_example :
    runs_of stray.ident ((after queue history).0).seen ≡ streak stray.ident history
runs_of-after_example = runs_of-after queue stray.ident history

-- The fourth run in a row queues the task and posts; what was found before the gap does not count.
escalated : (streak stray.ident history ≡ 4) × (length ((after queue history).1) ≡ 3)
unfolding streak after run is_present
escalated = (refl, refl)

abbrev discord : World
discord = record {
  messages = λ h. record { id = "m1"; by_bot = false } ∷ record { id = "m1"; by_bot = false } ∷ [];
  reacts = λ h id e. true;
  heartbeat = λ h. none;
}

abbrev guard : Guard
guard = record {
  seen_ids = "m0" ∷ [];
  pending = ("m0", 0) ∷ [];
  last_heartbeat = none;
  last_read = 0;
}

pass_bounded_example :
    (length ((pass discord noon guard []).0).seen_ids ≤ max_seen)
    × InTime noon ((pass discord noon guard []).0).pending
pass_bounded_example = pass_bounded discord noon guard []

pass_eyes_example :
    eyes_of "m1" ((pass discord noon guard []).1)
    ≤ eyes_of "m1" [] + (if elem "m1" guard.seen_ids then 0 else 1)
pass_eyes_example = pass_eyes discord noon "m1" guard []

guard_tests :
    (((pass discord noon guard []).0).pending ≡ ("m1", noon) ∷ [])
    × (eyes_of "m1" ((pass discord noon guard []).1) ≡ 1)
unfolding pass eyes_of
guard_tests = (refl, refl)
