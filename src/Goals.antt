-- ===== src/Goals.antt =====
-- infrastructure/task-queue/poll_queue.py: `update_goal_notes`.
use az_lab.Text
use az_lab.Json
use az_lab.Json.{Json}
use az_lab.Exec.{Exec, pure, using, ◌>>=◌, catch, select_goals, update_goal}
use az_lab.Event.{Env}
use az_lab.Queue.{Goal, Cond, Assign, text, all_rows}
use az_lab.Prelude.{
  ℕ, String, not, ◌||◌, Option, none, some, List, [], ◌∷◌, ◌++◌, ◌==◌, if◌then◌else◌, elem,
}

-- str(x)
unfoldable pub text_of_json : Env → Json → String
text_of_json env (Json.str s) = s
text_of_json env j = env.repr j

-- [str(x) for x in xs if x]
unfoldable pub texts_of : Env → List Json → List String
unfolding Json.truthy text_of_json
texts_of env [] = []
texts_of env (x ∷ xs) =
    let rest = texts_of env xs in if Json.truthy x then text_of_json env x ∷ rest else rest

parsed_items : Env → String → Option Json → List String
unfolding texts_of Json.items Text.strip
parsed_items env raw none = if Text.strip raw == "" then [] else raw ∷ []
parsed_items env raw (some (Json.arr xs)) = texts_of env (Json.items xs)
parsed_items env raw (some _) = []

-- The notes so far, of a JSON array or of legacy plain text.
unfoldable pub note_items : Env → String → List String
unfolding parsed_items
note_items env raw = if raw == "" then [] else parsed_items env raw (env.loads raw)

json_texts : List String → Json.Items
json_texts [] = Json.nil
json_texts (s ∷ ss) = Json.cons (Json.str s) (json_texts ss)

-- `(rows[0].get("notes") or "") if rows else ""`, and the same for the status
notes_of : List Goal → String
notes_of [] = ""
notes_of (g ∷ _) = text g.notes

status_of : List Goal → String
status_of [] = ""
status_of (g ∷ _) = text g.status

progress_patch : Option ℕ → List Assign
progress_patch none = []
progress_patch (some n) = Assign.progress n ∷ []

-- Only a goal that is under way is completed.
abbrev auto_completable : List String
auto_completable = "in_progress" ∷ "active" ∷ "claimed" ∷ []

pub status_patch : Option String → String → List Assign
status_patch none current = []
status_patch (some s) current =
    if not (s == "completed") || elem current auto_completable then Assign.status s ∷ [] else []

unfoldable pub update_goal_notes : String → String → Option ℕ → Option String → Exec (Unit {0})
unfolding catch select_goals ◌>>=◌ note_items update_goal json_texts notes_of status_of
    progress_patch status_patch
update_goal_notes id line progress status =
    catch
      (do
        rows ← select_goals (all_rows (Cond.id_eq id ∷ []))
        updated ← using (λ env.
            env.dumps_flat (Json.arr (json_texts (note_items env (notes_of rows) ++ (line ∷ [])))))
        update_goal id (
            Assign.notes updated
            ∷ (progress_patch progress ++ status_patch status (status_of rows))))
      (λ _. pure tt)
