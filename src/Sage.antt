-- ===== src/Sage.antt =====
-- infrastructure/task-queue/sage.py: the evaluator of tasks, before and after they run. A sweep is
-- one pass of the loop of `main`.
pub mod Tags
pub mod Judgement
pub mod Screening
pub mod Review
use az_lab.Exec.{Exec, pure, ◌>>=◌, ◌>>◌, catch, heartbeat}
use az_lab.Sage.Screening.{pre_evaluate_pending}
use az_lab.Sage.Review.{post_evaluate_pending_eval}
use az_lab.Prelude.{ℕ, Bool, if◌then◌else◌}

-- PRE_EVAL_BATCH and POST_EVAL_BATCH
abbrev pub pre_eval_batch : ℕ
pre_eval_batch = 10

abbrev pub post_eval_batch : ℕ
post_eval_batch = 5

-- The body of the loop; the flag says that a heartbeat is due.
unfoldable pub sweep : Bool → Exec (Unit {0})
unfolding catch heartbeat ◌>>=◌
sweep due =
    catch
      (do
        if due then heartbeat "active" else pure tt
        pre_evaluate_pending pre_eval_batch
        post_evaluate_pending_eval post_eval_batch
        pure tt)
      (λ _. heartbeat "error")
