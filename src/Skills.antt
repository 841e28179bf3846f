-- ===== src/Skills.antt =====
-- infrastructure/task-queue/poll_queue.py: the skill outcome loop, from `_fetch_skill_triggers` to
-- `record_skill_outcome`. Case and word boundaries are those of ASCII.
pub mod Matching
use az_lab.Text
use az_lab.Json
use az_lab.Json.{Json}
use az_lab.Recurring.{context_of}
use az_lab.Exec.{Exec, pure, ◌>>=◌, ◌>>◌, catch, update_tasks, select_skills, skill_outcome}
use az_lab.Queue.{Task, Cond, Assign, text}
use az_lab.Prelude.{
  ℕ, ◌+◌, ◌*◌, String, ◌<>◌, Bool, true, false, not, ◌&&◌, ◌||◌, Option, none, some, List, [], ◌∷◌,
  ◌==◌, ltb, leb, if◌then◌else◌, length, is_empty, keep,
}

abbrev pub Skill : Type 0
Skill = String × List String

abbrev pub match_min_score : ℕ
match_min_score = 4

-- Skills without triggers are left out; a failed fetch gives none.
unfoldable pub fetch_skill_triggers : Exec (List Skill)
unfolding catch select_skills ◌>>=◌
fetch_skill_triggers =
    catch (do rows ← select_skills; pure (keep (λ (s : Skill). not (is_empty s.1)) rows))
      (λ _. pure [])

pub trigger_score : String → String → ℕ
unfolding Text.lower Text.strip Text.has_word Text.words
trigger_score haystack raw =
    let trig = Text.lower (Text.strip raw) in
    let n = length (Text.words trig) in
    if trig == "" then 0 else if Text.has_word trig haystack then n * n else 0

unfoldable pub skill_score : String → List String → ℕ
unfolding trigger_score
skill_score haystack [] = 0
skill_score haystack (t ∷ ts) = trigger_score haystack t + skill_score haystack ts

-- The loop over the skills: the best name so far, with its score.
unfoldable pub best_skill : String → List Skill → Option String → ℕ → Option String × ℕ
unfolding skill_score
best_skill haystack [] best score = (best, score)
best_skill haystack ((name, triggers) ∷ rest) best score =
    let new = skill_score haystack triggers in
    let better = ltb score new in
    best_skill haystack rest (if better then some name else best) (if better then new else score)

pub haystack_of : Task → String
unfolding Text.take Text.lower
haystack_of t = Text.take 4000 (Text.lower (text t.title <> ("\n" <> text t.description)))

unfoldable pub best_match : String → List Skill → Option String
unfolding best_skill
best_match haystack skills =
    let (best, score) = best_skill haystack skills none 0 in
    if leb match_min_score score then best else none

unfoldable pub match_skill : Task → Exec (Option String)
unfolding haystack_of Text.strip fetch_skill_triggers ◌>>=◌ best_match
match_skill t =
    let haystack = haystack_of t in
    if Text.strip haystack == ""
    then pure none
    else do skills ← fetch_skill_triggers; pure (best_match haystack skills)

is_dict : Json → Bool
is_dict (Json.obj d) = true
is_dict _ = false

-- An explicit `skill_name` wins over the matcher.
unfoldable pub resolve_task_skill : Task → Exec (Option String)
unfolding Text.strip Json.text_of Json.get match_skill
resolve_task_skill t =
    let explicit = Text.strip (Json.text_of (Json.get "skill_name" (context_of t))) in
    if explicit == "" then match_skill t else pure (some explicit)

unfoldable pub stamp : Task → Option String → Exec Task
unfolding catch update_tasks ◌>>=◌ Json.set
stamp t none = pure t
stamp t (some name) =
    let ctx =
      Json.set "skill_matched_by" (Json.str "poller-triggers")
        (Json.set "skill_name" (Json.str name) (context_of t)) in
    catch
      (do
        update_tasks (Cond.id_eq t.id ∷ []) (Assign.context ctx ∷ [])
        pure (record t { context = Json.obj ctx }))
      (λ _. pure t)

-- `task.get("context") or {}`: a value that is false stands for the empty object.
stampable : Task → Bool
unfolding is_dict Json.truthy Json.get
stampable t =
    (not (Json.truthy t.context) || is_dict t.context)
    && not (Json.truthy (Json.get "skill_name" (context_of t)))

-- Returns the task, with the context that was written to its row.
unfoldable pub stamp_task_skill : Task → Exec Task
unfolding stampable match_skill ◌>>=◌ stamp
stamp_task_skill t = if stampable t then (do matched ← match_skill t; stamp t matched) else pure t

unfoldable pub record_outcome : Bool → String → Option String → Exec (Unit {0})
unfolding catch skill_outcome Text.take
record_outcome success note none = pure tt
record_outcome success note (some name) =
    catch (skill_outcome name success (Text.take 500 note)) (λ _. pure tt)

unfoldable pub record_skill_outcome : Task → Bool → String → Exec (Unit {0})
unfolding resolve_task_skill ◌>>=◌ record_outcome
record_skill_outcome t success note = do
  name ← resolve_task_skill t
  record_outcome success note name
