-- ===== src/Dependencies/Laws.antt =====
-- Which dependencies count as missing.
use az_lab.Dependencies.{missing_of, dependencies_incomplete}
use az_lab.Event.{Trace, Env, ok}
use az_lab.Exec.{pure, ◌>>=◌, catch, select_tasks}
use az_lab.Queue.{Task, Cond, all_rows}
use az_lab.Rules.Inversion.{outcome}
use az_lab.Prelude.{String, ◌≡◌, List, [], ◌∷◌}

looked_up :
    (i : String) (ids : List String) (rows : List Task) (env : Env) (h : Trace)
    → env.select_tasks h (all_rows (Cond.id_in (i ∷ ids) ∷ [])) ≡ ok rows
    → outcome (dependencies_incomplete (i ∷ ids)) env h ≡ ok (missing_of (i ∷ ids) rows)
unfolding dependencies_incomplete select_tasks ◌>>=◌ catch pure
looked_up i ids rows env h q = rw q
