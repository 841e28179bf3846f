-- ===== src/Lib.antt =====
-- The programs of az-lab that run its task queue, the daemon that keeps its schedules and
-- the audits that watch its host:
-- `infrastructure/task-queue/poll_queue.py` claims a task, has an agent work on it and settles the
-- result; `argus.py` beside it is the standing orchestrator, which runs the same machinery in threads
-- and gives up tasks that stall; `sage.py` there screens tasks before they run and reviews results
-- after. `scripts/scheduled_control_daemon.py` brings systemd, cron and recurring tasks in line with
-- a registry. The queue is a table behind PostgREST, shared by these programs and others.
--
-- An action is a function of a world and of the trace of the requests made so far (Exec, Event). The
-- world, an `Env`, answers each request: PostgREST, Discord, the clock, the agents' subprocesses and
-- the file system, and it holds the library functions that the program calls. An answer may depend
-- on all of the trace, so that other programs may change the queue between two requests, and each
-- request may fail.
--
-- The parts, and the functions that each file models, of poll_queue.py where no other file is named:
--   Claim         claim_next_task: the loop over candidates is `claim_first`, its body `try_claim`,
--                 and each `continue` ends an `after_` function. Dependencies, Preflight and
--                 References hold _dependencies_incomplete, preflight_task and block_task
--   Poller        main, from the sweeps to the exit status: `settle` is what follows run_claude.
--                 JeffLoop, Guardian, Context, Routing and Skills hold what it calls on the way:
--                 _needs_jeff_input, run_guardian, build_prompt, route_task, the skill matcher
--   Outcomes      mark_completed, mark_pending_eval, mark_failed, mark_pending_jeff_action, over
--                 Notes (note_to_jeff), Goals (update_goal_notes), Episodes, Recurring
--                 (requeue_recurring), Cron (_next_cron_str), Clip (_clip_result), Report
--   Waiting, Recover, Stale, Cowork   the sweeps of a poll; Backlog is auto_queue_from_goals
--   Sage          sage.py. Tags is _add_tags; Judgement is what a text shows, with the markers that
--                 are cut off first (_strip_eval_boilerplate); Screening is pre_evaluate_pending,
--                 whose body is `screen_one`; Review is post_evaluate_pending_eval, whose branches
--                 are the `Verdict` of a task and whose body is `evaluate_one`; `sweep` is one pass
--                 of main
--   Argus         argus.py. `Registry` is _running; Claiming is _claim_next_for_argus, Worker is
--                 _worker, Stalls is _reset_task_to_pending and _check_stalls, Loop is one pass of
--                 main (`orchestrate`), Loop/Refines that pass as seen from outside.
--   Scheduler     scheduled_control_daemon.py. Retry is _urlopen_retry, Registry a row and
--                 reconcile_task_queue_recurring, Cron is reconcile_cron, Systemd is
--                 reconcile_systemd with its drop-in, History is poll_systemd_run_history, Tick is
--                 reconcile_one, auto_unpause and tick
--   Units         infrastructure/unit-integrity/unit_source_audit.py: check; Units/Audit is audit
--                 and Units/Changes what main posts
--   Claude        run_claude: the events of the agent's stream, the activities that they leave, and
--                 the text that is returned. Guardian/Prompt is GUARDIAN_PROMPT, Guardian/Evidence
--                 _guardian_work_evidence
--   Containers    infrastructure/container-health/container_health_audit.py: audit, with
--                 Containers/Stamps for parse_ts and Containers/Timers for active_timers
--   Durability    infrastructure/git-durability/git_durability_audit.py: Repos is audit_repo, Lines
--                 its loop over git status, Migrations and Targets the two classes that bypass the
--                 age, Runs the findings seen in a row, Escalation is escalate and its loop in main
--   Keys          what the audits of units and of containers post when their key changes
--   Lifecycle     infrastructure/episode-lifecycle/episode_lifecycle_sweep.py: `sweep` is main, given the
--                 key that the state file holds
--   Ports         infrastructure/qbit-port-sync/sync_qbit_port.py: `sync` is main
--   Retirement    services/memory-mcp-server/memory_lifecycle_pass.py: retrieval_gate and main, up to
--                 the retirement; its notice to Discord is left out
--   Reactions     infrastructure/reaction-guard/reaction_guard.py: `pass` is one round of main
--   Queue         the rows that the program reads and writes, its filters and the columns it sets
--   Text, Json, Time   the Python texts, dicts and datetimes that these use
--   Rules, BestEffort  rules for actions that never raise and for what an action may ask
--   Examples      a world with fixed answers, and the theorems at concrete inputs
--
-- Numbers are natural. A time is a count of microseconds since the first day of year 1 in UTC.
-- Loops are recursion on the rows, so no fuel is needed; the loop of _urlopen_retry is recursion
-- on the tries that are left. Lower case, word characters, digits and blanks are those of ASCII.
-- A context that is no object reads as the empty one.
--
-- Not modelled: the text that is printed, save the decisions of the git durability audit; the
-- process of run_claude, its watchdog, the thread of its heartbeat and its kill, whose output
-- and exit code, with what was read after the deadline, are the answer of the world, and the
-- Guardian's model call with the parse of its answer, which is a request; the files in which the
-- sweeps keep their state, which are read and written whole; verify_supabase_auth and the
-- loading of keys. Of argus.py, how its threads interleave. Of sage.py and argus.py, the
-- heartbeat's count of failures, which only prints, and the start of the program. Of the audits
-- and the reaction guard, the files of their state and the call of Discord; git, systemctl and
-- podman are parameters. Of the daemon, the `before` and `after` columns of an audit. Python's
-- `re`, `datetime`, `subprocess` and `threading` are parameters of the world, save where a
-- pattern is a list of words or a run of digits. The other services and scripts of the
-- repository are other programs.
pub mod Prelude
pub mod Scheduler
pub mod Text
pub mod Json
pub mod Time
pub mod Queue
pub mod Event
pub mod Exec
pub mod Rules
pub mod Report
pub mod Cron
pub mod Clip
pub mod Notes
pub mod Goals
pub mod Episodes
pub mod Recurring
pub mod Outcomes
pub mod Skills
pub mod Routing
pub mod Sage
pub mod Dependencies
pub mod References
pub mod Preflight
pub mod Claim
pub mod Waiting
pub mod Recover
pub mod JeffLoop
pub mod Context
pub mod Guardian
pub mod Claude
pub mod Stale
pub mod Cowork
pub mod Argus
pub mod Keys
pub mod Units
pub mod Containers
pub mod Durability
pub mod Reactions
pub mod Ports
pub mod Lifecycle
pub mod Retirement
pub mod Backlog
pub mod Poller
pub mod BestEffort
pub mod Examples
