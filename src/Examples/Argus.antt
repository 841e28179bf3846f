-- ===== src/Examples/Argus.antt =====
-- The theorems on infrastructure/task-queue/argus.py at concrete inputs.
use az_lab.Recurring.{priority_of}
use az_lab.Routing.{compared}
use az_lab.Claim.{is_finished}
use az_lab.Exec.{◌>>=◌, select_tasks, now, update_tasks, thread_alive}
use az_lab.Examples.{calm, job, reported}
use az_lab.Rules.{Adds}
use az_lab.Rules.Inversion.{after, outcome}
use az_lab.Event.{ok}
use az_lab.Outcomes.{attempts_before, max_attempts_of, first_row}
use az_lab.Poller.{needs_eval}
use az_lab.Argus.{spawn, threshold_of, is_complex}
use az_lab.Argus.Claiming.{claim_next_for_argus, claim_top, take_for_argus}
use az_lab.Argus.Claiming.Laws.{IsClaimed, claim_next-IsClaimed}
use az_lab.Argus.Stalls.{
  reset_task_to_pending, check_stalls, scan, progress, stop_stalled, is_stalled,
}
use az_lab.Argus.Stalls.Laws.{IsGivenUp, GivesUp, reset_task-IsGivenUp}
use az_lab.Rules.Happens.{Happened}
use az_lab.Argus.Loop.{LoopState, orchestrate, fill}
use az_lab.Argus.Loop.Refines.{held, Pass, orchestrate-Pass}
use az_lab.Time.{days}
use az_lab.Prelude.{◌+◌, ◌≡◌, refl, true, [], ◌∷◌, some}

claims : outcome (claim_next_for_argus "host") calm [] ≡ ok (some job)
unfolding claim_next_for_argus ◌>>=◌ select_tasks claim_top is_finished take_for_argus now
    update_tasks
claims = refl

claim_next-IsClaimed_example :
    IsClaimed calm "host" job (after (claim_next_for_argus "host") calm [])
claim_next-IsClaimed_example = claim_next-IsClaimed "host" job calm [] claims

reset_task-IsGivenUp_example :
    Adds
      (IsGivenUp job.id (attempts_before (some job) + 1) (max_attempts_of (some job)))
      []
      (reset_task_to_pending job.id "No completion" calm []).1
    × Happened
        (GivesUp job.id (attempts_before (some job) + 1) (max_attempts_of (some job)))
        (reset_task_to_pending job.id "No completion" calm []).1
unfolding select_tasks first_row
reset_task-IsGivenUp_example =
    reset_task-IsGivenUp job.id "No completion" calm [] (job ∷ []) job refl refl

high : needs_eval job ≡ ok true
unfolding needs_eval compared priority_of
high = refl

abbrev fresh : LoopState
fresh = record { last_heartbeat = 0; last_sweep = 0; running = [] }

-- At the capacity, with a thread that has just been started.
abbrev full : LoopState
full = record {
  last_heartbeat = reported + days 2;
  last_sweep = reported + days 2;
  running = spawn job (reported + days 2) [];
}

passes : outcome (orchestrate "host" full) calm [] ≡ ok full
unfolding orchestrate ◌>>=◌ now check_stalls scan spawn progress thread_alive stop_stalled
    is_stalled threshold_of is_complex fill
passes = refl

orchestrate-Pass_example : Pass (held full.running) (held full.running)
orchestrate-Pass_example = orchestrate-Pass "host" full full calm [] passes
