-- ===== src/Dependencies.antt =====
-- infrastructure/task-queue/poll_queue.py: `_dependencies_incomplete`.
pub mod Laws
use az_lab.Exec.{Exec, pure, ◌>>=◌, ◌>>◌, catch, select_tasks}
use az_lab.Queue.{Task, Cond, text, all_rows}
use az_lab.Prelude.{
  String, Bool, not, Option, List, [], ◌∷◌, map, ◌==◌, if◌then◌else◌, or_else, is_empty, keep, elem,
}

-- [str(d) for d in (ids or []) if d]
unfoldable pub declared : Option (List String) → List String
declared ids = keep (λ d. not (d == "")) (or_else ids [])

pub is_done : Task → Bool
is_done t = elem (text t.status) ("completed" ∷ "archived" ∷ [])

unfoldable pub done_ids : List Task → List String
unfolding is_done
done_ids rows = map (λ (t : Task). t.id) (keep is_done rows)

-- The dependencies that no row shows as finished.
unfoldable pub missing_of : List String → List Task → List String
unfolding done_ids
missing_of ids rows = keep (λ d. not (elem d (done_ids rows))) ids

-- A lookup that fails counts every dependency as finished.
unfoldable pub dependencies_incomplete : List String → Exec (List String)
unfolding catch select_tasks ◌>>=◌ missing_of
dependencies_incomplete ids =
    if is_empty ids
    then pure []
    else catch (do rows ← select_tasks (all_rows (Cond.id_in ids ∷ [])); pure (missing_of ids rows))
        (λ _. pure [])
