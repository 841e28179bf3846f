-- ===== src/Routing.antt =====
-- infrastructure/task-queue/poll_queue.py: `_is_internal_housekeeping`, `route_task`,
-- `_route_by_keywords`, `_route_via_nemotron` and `route_auto_tasks`. A missing API key counts as a
-- call of the model that fails.
pub mod Laws
use az_lab.Text
use az_lab.Recurring.{priority_of}
use az_lab.Exec.{
  Exec, pure, lift, ◌>>=◌, ◌>>◌, catch, for_each, select_tasks, update_tasks, run_nemotron,
}
use az_lab.Event.{Result, ok, err, type_error}
use az_lab.Queue.{Task, Cond, Order, Assign, text, tags_of}
use az_lab.Prelude.{
  ℕ, String, ◌<>◌, Bool, ◌||◌, Option, none, some, List, [], ◌∷◌, map, leb, eqb, if◌then◌else◌,
  or_else, any, elem,
}

unfoldable pub lower_tags : Task → List String
unfolding Text.lower
lower_tags t = map Text.lower (tags_of t)

unfoldable pub is_internal_housekeeping : Task → Bool
unfolding lower_tags
is_internal_housekeeping t = any (λ tag. elem tag ("transcript" ∷ [])) (lower_tags t)

abbrev pub model_haiku : String
model_haiku = "claude-haiku-4-5-20251001"

abbrev pub model_opus : String
model_opus = "claude-opus-5"

-- A comparison of the priority with a number: NULL is not comparable.
unfoldable pub compared : (ℕ → Bool) → Option ℕ → Result Bool
compared test none = err (type_error "'NoneType' and 'int'")
compared test (some n) = ok (test n)

by_priority : Option ℕ → Result (Option String)
by_priority none = err (type_error "'NoneType' and 'int'")
by_priority (some n) =
    if eqb n 0 then ok (some model_opus) else if leb 3 n then ok (some model_haiku) else ok none

unfoldable pub route_task : Task → Result (Option String)
unfolding lower_tags by_priority priority_of
route_task t =
    let tags = lower_tags t in
    if elem "opus" tags
    then ok (some model_opus)
    else if elem "haiku" tags || elem "quick" tags
    then ok (some model_haiku)
    else by_priority (priority_of t.priority)

abbrev pub routing_targets : List String
routing_targets = "claude-code" ∷ "wren" ∷ "cowork" ∷ "atlas" ∷ []

abbrev atlas_signals : List String
atlas_signals =
    "windows" ∷ "onedrive" ∷ "obsidian" ∷ "office" ∷ "excel" ∷ "word" ∷ "outlook" ∷ "c:\\"
    ∷ "appdata" ∷ []

abbrev cowork_signals : List String
cowork_signals =
    "plan" ∷ "research" ∷ "write up" ∷ "document" ∷ "memory" ∷ "draft" ∷ "review" ∷ "summarize"
    ∷ "brainstorm" ∷ []

unfoldable pub route_by_keywords : String → String → String
unfolding Text.lower Text.contains
route_by_keywords title description =
    let text = Text.lower (title <> (" " <> description)) in
    if any (λ s. Text.contains s text) atlas_signals
    then "atlas"
    else if any (λ s. Text.contains s text) cowork_signals
    then "cowork"
    else "claude-code"

-- ROUTING_PROMPT
routing_prompt : String → String → String
routing_prompt title description =
    "You are a task router for a homelab AI system. Classify the task below to exactly one target agent.\n\nTargets:\n- claude-code: Linux server ops, git, docker/podman, deployments, file edits, code, networking, infrastructure, APIs, scripting, anything on the homelab server\n- atlas: Windows-only tasks, OneDrive, local Office files, anything requiring a Windows app or GUI\n- cowork: Planning, research, writing docs, memory management, multi-turn conversational tasks, anything that needs discussion not execution\n\nRespond with ONLY the target name, nothing else. No punctuation, no explanation.\n\nTask title: "
    <> (title <> ("\nTask description: " <> description))

-- The first target that the answer names.
unfoldable pub named_target : String → List String → Option String
unfolding Text.contains
named_target answer [] = none
named_target answer (t ∷ ts) = if Text.contains t answer then some t else named_target answer ts

unfoldable pub route_via_nemotron : String → String → Exec (Option String)
unfolding catch run_nemotron ◌>>=◌ named_target routing_prompt Text.take Text.lower Text.strip
route_via_nemotron title description =
    catch
      (do
        answer ← run_nemotron (routing_prompt title (Text.take 500 description))
        pure (named_target (Text.lower (Text.strip answer)) routing_targets))
      (λ _. pure none)

-- A NULL description is no text to slice or to join.
unfoldable pub required : Option String → Result String
required none = err (type_error "'NoneType'")
required (some s) = ok s

unfoldable pub route_one : Task → Exec (Unit {0})
unfolding required ◌>>=◌ route_via_nemotron route_by_keywords update_tasks
route_one t = do
  description ← lift (required t.description)
  answer ← route_via_nemotron (text t.title) description
  update_tasks (Cond.id_eq t.id ∷ [])
      (Assign.target (or_else answer (route_by_keywords (text t.title) description)) ∷ [])
  pure tt

unfoldable pub route_auto_tasks : Exec (Unit {0})
unfolding select_tasks ◌>>=◌ for_each route_one
route_auto_tasks = do
  tasks ← select_tasks (record {
    conds = Cond.status_in ("ready" ∷ "pending" ∷ []) ∷ Cond.target_eq "auto" ∷ [];
    order = Order.created_asc ∷ [];
    limit = some 5;
  })
  for_each tasks route_one
