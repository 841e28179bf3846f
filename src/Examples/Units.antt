-- ===== src/Examples/Units.antt =====
-- The theorems on infrastructure/unit-integrity/unit_source_audit.py at concrete inputs.
use az_lab.Units.{
  has_suffix, exec_paths, candidates, FilePath, directory, no_folder, folder, Machine, Finding,
  same_path, repo_index, check, finding_of,
}
use az_lab.Units.Audit.{audit, is_unit}
use az_lab.Units.Laws.{IsStale, check-IsStale}
use az_lab.Units.Audit.Laws.{Reports, audit-Reports}
use az_lab.Prelude.{String, ◌≡◌, refl, inl, inr, true, some, [], ◌∷◌, ◌++◌, if◌then◌else◌}

abbrev home : FilePath
home = "home" ∷ "a" ∷ []

abbrev user_unit : String → FilePath
user_unit name = home ++ (".config" ∷ "systemd" ∷ "user" ∷ name ∷ [])

-- A stale copy of the poller, which two units run.
abbrev copy : FilePath
copy = home ++ ("claude-queue" ∷ "poll_queue.py" ∷ [])

abbrev machine : Machine
machine = record {
  home = home;
  tree = directory ("README.md" ∷ []) (
      folder ".git" (directory ("poll_queue.py" ∷ []) no_folder)
        (folder "task-queue" (directory ("poll_queue.py" ∷ []) no_folder) no_folder));
  unit_files = user_unit "poll.service" ∷ user_unit "poll.timer" ∷ user_unit "retry.service" ∷ [];
  resolve = λ p. some p;
  sha = λ p. some (if same_path p copy then "old" else "new");
  is_file = λ p. true;
  exec_start = λ unit. "/home/a/claude-queue/poll_queue.py --once";
  argvs = λ out. out ∷ [];
}

abbrev stale : Finding
stale = finding_of machine copy ((home ++ ("azlab" ∷ "task-queue" ∷ "poll_queue.py" ∷ [])) ∷ [])

found : check machine copy (repo_index machine) ≡ some stale
unfolding check repo_index same_path
found = refl

once : audit machine ≡ record { finding = stale; unit = "poll.service" } ∷ []
unfolding audit
once = refl

shown_path : stale.path ≡ "~/claude-queue/poll_queue.py"
unfolding finding_of
shown_path = refl

audit-Reports_example : Reports stale (audit machine)
unfolding is_unit has_suffix exec_paths
audit-Reports_example =
    audit-Reports machine (user_unit "retry.service") copy stale (inr (inr (inl refl)))
      (inr (refl, inl refl)) found

check-IsStale_example : IsStale machine copy (candidates machine copy (repo_index machine)) stale
check-IsStale_example = check-IsStale machine copy (repo_index machine) stale found
