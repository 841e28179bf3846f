-- ===== src/Sage/Screening.antt =====
-- infrastructure/task-queue/sage.py: `_score_complexity_nemotron` and `pre_evaluate_pending`. A
-- missing API key counts as a call of the model that fails; the variation selectors behind two signs
-- of its messages are left out.
pub mod Laws
pub mod Danger
use az_lab.Text
use az_lab.Event.{Result}
use az_lab.Sage.Tags.{add_tags}
use az_lab.Sage.Judgement.{is_dangerous, score_complexity_local}
use az_lab.Report.{log_activity, discord_notify}
use az_lab.Routing.{named_target, required}
use az_lab.Outcomes.{by_id}
use az_lab.Exec.{
  Exec, pure, lift, using, ◌>>=◌, ◌>>◌, catch, for_each, select_tasks, update_tasks, run_nemotron,
}
use az_lab.Queue.{Task, Cond, Order, Query, Assign, text, tags_of}
use az_lab.Prelude.{
  ℕ, String, ◌<>◌, Bool, true, false, not, Option, none, some, List, [], ◌∷◌, ◌==◌, if◌then◌else◌,
  length, keep, elem,
}

complexity_prompt : String → String → String
complexity_prompt title description =
    "Classify this task's complexity for an AI coding agent. Reply with exactly one word: simple, complex, or split.\n- simple: can be done in one session under 30 minutes\n- complex: requires extended work (30min–2hr)\n- split: scope is too large for one session; should be broken into subtasks\n\nTask: "
    <> (title <> ("\nDescription: " <> description))

abbrev pub labels : List String
labels = "simple" ∷ "complex" ∷ "split" ∷ []

unfoldable pub score_complexity_nemotron : Task → Exec (Option String)
unfolding catch run_nemotron ◌>>=◌ named_target complexity_prompt Text.take Text.lower Text.strip
score_complexity_nemotron t =
    catch
      (do
        answer ←
            run_nemotron (complexity_prompt (text t.title) (Text.take 600 (text t.description)))
        pure (named_target (Text.lower (Text.strip answer)) labels))
      (λ _. pure none)

-- _score_complexity_nemotron(task) or _score_complexity_local(task)
unfoldable pub local_or : Task → Option String → Result String
unfolding score_complexity_local
local_or t (some label) = Result.ok label
local_or t none = score_complexity_local t

abbrev pub split_reason : String
split_reason = "Task scope too large for one session — please split into subtasks."

abbrev pub evaluated_tags : Task → List String → List String
evaluated_tags t more = add_tags (some (add_tags t.tags ("sage-evaluated" ∷ []))) more

unfoldable pub flag_danger : Task → String → String → Exec (Unit {0})
flag_danger t title snippet = do
  update_tasks (by_id t.id) (
      Assign.status "pending_jeff_action"
      ∷ Assign.tags (evaluated_tags t ("safety-flagged" ∷ []))
      ∷ Assign.blocked_reason (some ("Safety flag: `" <> (Text.take 150 snippet <> "`")))
      ∷ [])
  log_activity "error" ("Safety flagged: " <> Text.take 100 snippet) (some t.id)
  discord_notify (
      "🛡\u{fe0f} **Safety flag — needs Jeff:** "
      <> (title <> ("\nBlocked: `" <> (Text.take 120 snippet <> "`"))))

unfoldable pub tag_complexity : Task → String → String → Exec (Unit {0})
tag_complexity t title complexity =
    let tags = evaluated_tags t (complexity ∷ []) in
    if complexity == "split"
    then (do
      update_tasks (by_id t.id) (
          Assign.status "pending_jeff_action"
          ∷ Assign.tags (add_tags (some tags) ("needs-split" ∷ []))
          ∷ Assign.blocked_reason (some split_reason)
          ∷ [])
      log_activity "status" "Flagged for splitting" (some t.id)
      discord_notify (
          "✂\u{fe0f} **Too large — needs split:** "
          <> (title <> "\nPlease break this into smaller subtasks, then set back to `ready`.")))
    else (do update_tasks (by_id t.id) (Assign.tags tags ∷ []); pure tt)

unfoldable pub screened : Task → String → Option String → Exec (Unit {0})
screened t title (some snippet) = flag_danger t title snippet
screened t title none = do
  answer ← score_complexity_nemotron t
  complexity ← lift (local_or t answer)
  tag_complexity t title complexity

-- A NULL title is no text to join.
unfoldable pub screen_one : Task → Exec (Unit {0})
screen_one t = do
  title ← lift (required t.title)
  danger ← using (λ env. is_dangerous env (text t.description <> (" " <> title)))
  screened t title danger

unfoldable pub not_evaluated : List Task → List Task
not_evaluated ts = keep (λ t. not (elem "sage-evaluated" (tags_of t))) ts

abbrev pub to_screen : ℕ → Query
to_screen batch = record {
  conds =
      Cond.status_in ("pending" ∷ "ready" ∷ []) ∷ Cond.target_in ("claude-code" ∷ "wren" ∷ []) ∷ [];
  order = Order.priority_asc ∷ Order.created_asc ∷ [];
  limit = some batch;
}

unfoldable pub pre_evaluate_pending : ℕ → Exec ℕ
pre_evaluate_pending batch = do
  rows ← select_tasks (to_screen batch)
  for_each (not_evaluated rows) screen_one
  pure (length (not_evaluated rows))
