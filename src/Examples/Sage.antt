-- ===== src/Examples/Sage.antt =====
-- The theorems on infrastructure/task-queue/sage.py at concrete inputs.
use az_lab.Report.{log_activity, discord_notify}
use az_lab.Outcomes.{mark_pending_jeff_action}
use az_lab.Routing.{is_internal_housekeeping, required}
use az_lab.Examples.{calm, job}
use az_lab.Rules.{Adds}
use az_lab.Rules.Happens.{Happened}
use az_lab.Rules.Inversion.{after, outcome}
use az_lab.Event.{Env, Exn, ok, err}
use az_lab.Exec.{select_tasks, ◌>>=◌, for_each, update_tasks}
use az_lab.Poller.Ends.{IsEnd}
use az_lab.Queue.{Task, text}
use az_lab.Sage.Judgement.{
  is_dangerous, has_verification_proof, result_looks_incomplete, is_deployable_change,
  result_needs_review,
}
use az_lab.Sage.Judgement.Boilerplate.{proof-append}
use az_lab.Sage.Screening.{
  screen_one, not_evaluated, pre_evaluate_pending, screened, score_complexity_nemotron, local_or,
  tag_complexity,
}
use az_lab.Sage.Screening.Laws.{Marks, pre_evaluate_pending-Marks}
use az_lab.Sage.Screening.Danger.{IsParked, Parks, screen_one-IsParked}
use az_lab.Sage.Review.{evaluate_one, post_evaluate_pending_eval, carry_out, verdict, incomplete_or}
use az_lab.Sage.Review.Laws.{status_for, Settles, evaluate_one-IsEnd, post_evaluate-Settles}
use az_lab.Prelude.{◌≡◌, refl, ◌⊎◌, false, ◌<>◌, [], ◌∷◌, some, All, length}

-- A result that claims a deployment and proves it.
abbrev reviewed : Task
reviewed = record job { result = some "Container rebuilt; curl says HTTP 200." }

evaluate_one-IsEnd_example :
    Adds (IsEnd reviewed.id (status_for reviewed ∷ [])) [] (evaluate_one reviewed calm []).1
    × (Happened (Settles reviewed) (after (evaluate_one reviewed) calm [])
        ⊎ (x : Exn) × (outcome (evaluate_one reviewed) calm [] ≡ err x))
evaluate_one-IsEnd_example = evaluate_one-IsEnd reviewed calm []

earned : status_for reviewed ≡ "completed"
unfolding is_internal_housekeeping result_looks_incomplete is_deployable_change
    has_verification_proof result_needs_review
earned = refl

gate_stays_shut :
    has_verification_proof ("Deployed.\n\n---\n**Sage " <> "verify-gate:** no curl/HTTP 200")
    ≡ false
unfolding has_verification_proof
gate_stays_shut = refl

proof-append_example :
    has_verification_proof
      ("Deployed." <> ("\n\n---\n**Sage " <> "verify-gate:** no curl/HTTP 200"))
    ≡ has_verification_proof "Deployed."
proof-append_example = proof-append "Deployed." "verify-gate:** no curl/HTTP 200"

reviews : outcome (post_evaluate_pending_eval 5) calm [] ≡ ok 1
unfolding post_evaluate_pending_eval ◌>>=◌ select_tasks for_each evaluate_one carry_out verdict
    is_internal_housekeeping incomplete_or result_looks_incomplete mark_pending_jeff_action
    update_tasks log_activity discord_notify
reviews = refl

post_evaluate-Settles_example :
    All
      (λ (t : Task). Happened (Settles t) (after (post_evaluate_pending_eval 5) calm []))
      (job ∷ [])
    × (1 ≡ length (job ∷ []))
unfolding select_tasks
post_evaluate-Settles_example = post_evaluate-Settles 5 calm [] (job ∷ []) 1 refl reviews

screens : outcome (pre_evaluate_pending 10) calm [] ≡ ok 1
unfolding pre_evaluate_pending ◌>>=◌ select_tasks for_each not_evaluated screen_one required
    screened is_dangerous score_complexity_nemotron local_or tag_complexity update_tasks
screens = refl

pre_evaluate_pending-Marks_example :
    All
      (λ (t : Task). Happened (Marks t) (after (pre_evaluate_pending 10) calm []))
      (not_evaluated (job ∷ []))
    × (1 ≡ length (not_evaluated (job ∷ [])))
unfolding select_tasks
pre_evaluate_pending-Marks_example = pre_evaluate_pending-Marks 10 calm [] (job ∷ []) 1 refl screens

-- A world in which the pattern of danger matches the beginning of each text.
abbrev wary : Env
wary = record calm { research = λ p s. some (0, 6) }

alarmed :
    is_dangerous wary (text job.description <> (" " <> "Rotate the backup keys"))
    ≡ some "Rotate the keys of the nightly backu"
unfolding is_dangerous
alarmed = refl

screen_one-IsParked_example :
    Adds (IsParked job.id) [] (screen_one job wary []).1
    × Happened (Parks job) (screen_one job wary []).1
screen_one-IsParked_example =
    screen_one-IsParked job "Rotate the backup keys" "Rotate the keys of the nightly backu" wary []
      refl alarmed
