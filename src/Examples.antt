-- ===== src/Examples.antt =====
-- A world with fixed answers, and the theorems at concrete inputs.
mod Sage
mod Argus
mod Scheduler
mod Units
mod Audits
mod Ports
mod Lifecycle
mod Retirement
mod Claude
use az_lab.Json
use az_lab.Text
use az_lab.Dependencies.{declared, done_ids, dependencies_incomplete}
use az_lab.Exec.{pure, using, ◌>>=◌, catch, now, select_tasks, update_tasks}
use az_lab.Rules.Inversion.{after, outcome}
use az_lab.Claim.Laws.{IsFrom, claim_next_task_sound}
use az_lab.Claim.Guards.{IsCareful, claim_next_task-IsCareful}
use az_lab.Rules.{IsOk, Adds, Emits}
use az_lab.Poller.{settle}
use az_lab.Poller.Ends.{IsEnd}
use az_lab.Poller.Runs.{settle-IsEnd, settle_guards_high}
use az_lab.Outcomes.{attempts_before, max_attempts_of, first_row, failing_row, mark_failed}
use az_lab.Outcomes.Failure.{IsFailure, Charges, mark_failed-IsFailure}
use az_lab.Rules.Happens.{Happened}
use az_lab.Waiting.{
  at_time, time_check, cond_check, deps_check, last_check, gate_state, sweep_waiting_tasks, pass,
}
use az_lab.Waiting.Laws.{IsRelease, sweep_waiting_tasks-IsRelease, IsOpen, gate_state-IsOpen}
use az_lab.Context.{sanitize_context}
use az_lab.Context.Laws.{get-sanitize_context}
use az_lab.Cron.{next_at}
use az_lab.Cron.Laws.{Fires, next_at_first}
use az_lab.Dependencies.{done_ids}
use az_lab.Routing.Laws.{IsRouted, route_auto_tasks-IsRouted}
use az_lab.Routing.{route_auto_tasks}
use az_lab.Time.{days}
use az_lab.Recover.{is_stuck, stuck_tasks, recover_each, recover_stuck_tasks}
use az_lab.Recover.Laws.{IsReset, recover_stuck_tasks-IsReset}
use az_lab.Routing.{is_internal_housekeeping, route_auto_tasks}
use az_lab.Routing.Laws.{IsRouted}
use az_lab.Skills.{
  Skill, match_min_score, skill_score, best_match, stamp_task_skill, record_skill_outcome,
}
use az_lab.Skills.Matching.{Listed, best_match_best}
use az_lab.Stale.{reported_at, is_recent, set_all, sweep_stale_with}
use az_lab.Backlog.{has_status, first_goal, to_promote, promote_planned_milestones}
use az_lab.Clip.{elision, clip_result}
use az_lab.Clip.Laws.{clip_result_keeps}
use az_lab.Report.{log_activity, discord_notify}
use az_lab.Notes.{note_to_jeff_from_result}
use az_lab.Goals.{update_goal_notes}
use az_lab.Episodes.{start_episode, end_episode}
use az_lab.Recurring.{priority_of, requeue_recurring}
use az_lab.Guardian.{run_guardian_on}
use az_lab.Cowork.{notify_cowork_tasks}
use az_lab.JeffLoop.{needs_jeff_input}
use az_lab.Prelude.{
  ℕ, ◌+◌, ◌≤◌, ◌<◌, String, ◌≡◌, refl, inl, true, false, none, some, List, [], ◌∷◌, arith, ◌==◌,
  if◌then◌else◌, All, Among,
}
use az_lab.Json.{Json, Dict, str, arr, obj, nil, cons, end, field}
use az_lab.Queue.{Column, Task, Goal, Activity, text}
use az_lab.Event.{Env, Session, ok, err, runtime_error, os_error}
use az_lab.Time.{Time, days, aware, unparseable}
use az_lab.References.{memory_refs}
use az_lab.Preflight.{
  gate_reasons, missing_refs, distinct, memory_reasons, declared_list, unknown_hosts, reason_for,
  gone_paths, preflight_rest, preflight_task,
}
use az_lab.Preflight.Laws.{IsAgentWork}
use az_lab.Recover.Alive.{Spares, recover_each-Spares}
use az_lab.Claim.{
  is_past, is_finished, take_task, after_preflight, after_deps, after_deadline, deadline,
  expired_if, try_claim, claim_first, runnable, claim_next_task,
}

abbrev reported : ℕ
reported = days 739000

abbrev stamp_text : String
stamp_text = "2024-04-30T00:00:00+00:00"

abbrev job : Task
job = record {
  id = "8c1d2e3f-job";
  title = some "Rotate the backup keys";
  description = some "Rotate the keys of the nightly backup and verify a restore.";
  context = Json.null;
  priority = Column.value 1;
  tags = none;
  status = some "ready";
  target = some "claude-code";
  goal_id = none;
  attempt_count = some 1;
  max_attempts = some 3;
  error = none;
  claimed_at = some stamp_text;
  updated_at = none;
  created_at = some stamp_text;
  expires_at = none;
  not_before = some stamp_text;
  unblock_condition = Json.null;
  blocked_by_task_ids = none;
  result = none;
  recurring = none;
  recurring_schedule = none;
  jeff_notes = none;
}

-- A session that says something and ends with its result.
abbrev pub session : Session
session = record {
  pid = "4711";
  timeout = 600;
  lines =
      record { late = false; text = "{assistant}" }
      ∷ record { late = false; text = "{result}" }
      ∷ [];
  success = true;
  status = "0";
  errors = "";
}

abbrev calm : Env
calm = record {
  clock = λ h. reported + days 2;
  select_tasks = λ h q. ok (job ∷ []);
  update_tasks = λ h cs p. ok (job ∷ []);
  insert_task = λ h t. ok ("9a-next" ∷ []);
  insert_activity = λ h k c i. ok tt;
  select_activity = λ h i s n. ok [];
  send = λ h s. ok tt;
  select_goals = λ h q. ok [];
  update_goal = λ h i p. ok tt;
  insert_episode = λ h i s. ok (some "e1");
  update_episode = λ h i e. ok tt;
  select_skills = λ h. ok [];
  skill_outcome = λ h n b s. ok tt;
  recurring_result = λ h i r. ok tt;
  select_memory = λ h n. ok (n ∷ []);
  select_notes = λ h i. ok [];
  insert_note = λ h n. ok tt;
  insert_audit = λ h i a. ok tt;
  run_claude = λ h p m t. ok session;
  run_haiku = λ h p. err (runtime_error "no model");
  run_guardian = λ h p. err (runtime_error "no model");
  run_nemotron = λ h p. ok "cowork";
  start_unit = λ h u. ok tt;
  exists = λ h p. true;
  is_dir = λ h p. true;
  expanduser = λ p. p;
  mtime = λ h p. ok reported;
  load_state = λ h. [];
  load_cowork = λ h. [];
  parse = λ s. if s == stamp_text then aware reported else unparseable;
  isoformat = λ t. stamp_text;
  dumps = λ j. "{}";
  dumps_flat = λ j. "{}";
  loads = λ s.
      if s == "{assistant}"
      then some (
          obj (
            field "type" (str "assistant") (
              field "message"
                (obj (
                  field "content"
                    (arr (
                      cons (obj (field "type" (str "text") (field "text" (str " On it. ") end)))
                        nil))
                    end))
                end)))
      else if s == "{result}"
      then some (obj (field "type" (str "result") (field "result" (str "Rotated. ") end)))
      else none;
  dumps_compact = λ j. "{}";
  repr = λ j. "value";
  quote = λ s. s;
  research = λ p s. none;
  thread_alive = λ h i. true;
  proc_running = λ h p. ok true;
  kill = λ h p. ok tt;
  run_command = λ h a i. err (os_error "no command");
  read_file = λ h p. ok none;
  write_file = λ h p b. ok tt;
  patch_row = λ h i p. ok tt;
  strptime = λ s. none;
  reformat = λ s. none;
  audit_row = λ h i n a s. ok tt;
  record_run = λ h n s m t d. ok tt;
}

claimed : claim_next_task "poller" calm [] ≡ (
  ok (some (record job { claimed_at = some stamp_text })),
  after (claim_next_task "poller") calm [],
)
unfolding claim_next_task claim_first try_claim is_past after_deadline deadline expired_if
    dependencies_incomplete declared after_deps is_finished preflight_task preflight_rest
    gate_reasons missing_refs gone_paths distinct memory_refs declared_list memory_reasons
    reason_for unknown_hosts after_preflight take_task now select_tasks update_tasks using pure
    ◌>>=◌
claimed = refl

claim_next_task_sound_example :
    (at : Time) × (rows : List Task) × (calm.select_tasks (after now calm []) (runnable at)
      ≡ ok rows)
    × IsFrom calm "poller" rows
        (record job { claimed_at = some stamp_text })
        (after (claim_next_task "poller") calm [])
claim_next_task_sound_example =
    claim_next_task_sound "poller" calm [] (record job { claimed_at = some stamp_text })
      (after (claim_next_task "poller") calm []) claimed

cleared : outcome (preflight_task job) calm [] ≡ ok []
unfolding preflight_task preflight_rest gate_reasons missing_refs gone_paths distinct memory_refs
    declared_list memory_reasons reason_for unknown_hosts using pure ◌>>=◌
cleared = refl

claim_next_task-IsCareful_example : Adds IsCareful [] (claim_next_task "poller" calm []).1
claim_next_task-IsCareful_example = claim_next_task-IsCareful "poller" calm []

job_priority : priority_of job.priority ≡ some 1
unfolding priority_of
job_priority = refl

settle_guards_high_example :
    Emits
      (IsEnd job.id ("pending_jeff_action" ∷ "pending_eval" ∷ []))
      (settle job (some "e1") "Rotated.")
settle_guards_high_example = settle_guards_high job (some "e1") "Rotated." 1 job_priority refl

settle-IsEnd_example :
    Emits
      (IsEnd job.id ("pending_jeff_action" ∷ "pending_eval" ∷ "completed" ∷ []))
      (settle job none "Rotated.")
settle-IsEnd_example = settle-IsEnd job none "Rotated."

job_outside : is_internal_housekeeping job ≡ false
unfolding is_internal_housekeeping
job_outside = refl

question : needs_jeff_input "Should I merge it?" ≡ some "Should I merge it?"
unfolding needs_jeff_input
question = refl

failing : outcome (failing_row job.id) calm [] ≡ ok (some job)
unfolding failing_row catch ◌>>=◌ select_tasks first_row
failing = refl

mark_failed-IsFailure_example :
    Adds
      (IsFailure job.id (attempts_before (some job) + 1) (max_attempts_of (some job)))
      []
      (mark_failed job.id "exit 1" none (some job) calm []).1
    × Happened
        (Charges job.id (attempts_before (some job) + 1) (max_attempts_of (some job)))
        (mark_failed job.id "exit 1" none (some job) calm []).1
mark_failed-IsFailure_example =
    mark_failed-IsFailure job.id "exit 1" none (some job) calm [] (some job) failing

abbrev job_checks : List String
job_checks = "not_before 2024-04-30T00:00:00+00:00 passed" ∷ []

job_gate : gate_state job calm [] ≡ (ok (pass job_checks), after (gate_state job) calm [])
unfolding gate_state ◌>>=◌ now time_check at_time cond_check deps_check last_check
job_gate = refl

gate_state-IsOpen_example : IsOpen calm [] job job_checks
gate_state-IsOpen_example =
    gate_state-IsOpen job calm [] job_checks (after (gate_state job) calm []) job_gate

sweep_waiting_tasks-IsRelease_example : Adds IsRelease [] (sweep_waiting_tasks calm []).1
sweep_waiting_tasks-IsRelease_example = sweep_waiting_tasks-IsRelease calm []

abbrev job_context : Dict
job_context =
    Json.field "message" (Json.str "hello") (Json.field "stdout" (Json.str "log") Json.end)

abbrev clean_context : Dict
clean_context = Json.field "message" (Json.str "hello") Json.end

sanitized : outcome (sanitize_context job_context 0 none) calm [] ≡ ok clean_context
unfolding sanitize_context
sanitized = refl

get-sanitize_context_example : Json.get "message" clean_context ≡ Json.get "message" job_context
get-sanitize_context_example =
    get-sanitize_context "message" job_context 0 none calm [] clean_context refl sanitized

on_sunday : (target : ℕ) → some 0 ≡ some target → target < 7
on_sunday target e = let same : 0 ≡ target = cc in omega arith

next_at_first_example :
    (reported < next_at reported 6 30 (some 0))
    × Fires 30 6 (some 0) (next_at reported 6 30 (some 0))
    × ((v : Time) → reported < v → Fires 30 6 (some 0) v → next_at reported 6 30 (some 0) ≤ v)
next_at_first_example = next_at_first reported 6 30 (some 0) (omega arith) (omega arith) on_sunday

recover_stuck_tasks-IsReset_example : Adds IsReset [] (recover_stuck_tasks calm []).1
recover_stuck_tasks-IsReset_example = recover_stuck_tasks-IsReset calm []

abbrev ping : Activity
ping = record { activity_type = some "thinking"; content = some "restoring" }

-- A world in which each task has been active lately.
abbrev lively : Env
lively = record calm { select_activity = λ h i s n. ok (ping ∷ []) }

recover_each-Spares_example :
    Adds (Spares job.id) [] (after (recover_each reported (job ∷ [])) lively [])
recover_each-Spares_example =
    recover_each-Spares lively job.id reported (job ∷ []) [] (λ h. (ping, [], refl))

abbrev skills : List Skill
skills = ("keys", "rotate keys" ∷ []) ∷ ("backup", "backup" ∷ []) ∷ []

matched : best_match "please rotate keys of the backup" skills ≡ some "keys"
unfolding best_match
matched = refl

best_match_best_example :
    (n : ℕ) × Listed "please rotate keys of the backup" "keys" n skills
    × (match_min_score ≤ n)
    × All (λ (s : Skill). skill_score "please rotate keys of the backup" s.1 ≤ n) skills
best_match_best_example = best_match_best "please rotate keys of the backup" skills "keys" matched

abbrev milestone : Goal
milestone = record {
  id = "m1";
  title = some "Backups";
  description = none;
  implementation_prompt = some "Verify the backups.";
  priority = Column.value 2;
  status = some "planned";
  parent_id = some "s1";
  target_date = none;
  last_queued_at = none;
  notes = none;
}

promoted : to_promote (milestone ∷ []) ≡ some milestone
unfolding to_promote has_status first_goal
promoted = refl

looked_up : outcome (dependencies_incomplete ("d1" ∷ [])) calm [] ≡ ok ("d1" ∷ [])
unfolding dependencies_incomplete
looked_up = refl

clip_result_keeps_example :
    ((Text.length "Rotated." ≤ 20000) → clip_result (some "Rotated.") 20000 ≡ some "Rotated.")
    × (20000 < Text.length "Rotated."
        → (r : String) × (clip_result (some "Rotated.") 20000 ≡ some r)
          × (Text.take 14000 r ≡ Text.take 14000 "Rotated.")
          × (Text.take_last 6000 r ≡ Text.take_last 6000 "Rotated.")
          × (Text.length r ≡ 20000 + Text.length (elision (Text.length "Rotated."))))
clip_result_keeps_example = clip_result_keeps "Rotated." 20000 (omega arith)

route_auto_tasks-IsRouted_example : Adds IsRouted [] (route_auto_tasks calm []).1
route_auto_tasks-IsRouted_example = route_auto_tasks-IsRouted calm []
