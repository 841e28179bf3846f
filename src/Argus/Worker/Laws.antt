-- ===== src/Argus/Worker/Laws.antt =====
-- How a session of the orchestrator ends.
use az_lab.Event.{Trace, Env, ok}
use az_lab.Rules.{Adds, Emits, emits_rules}
use az_lab.Rules.Inversion.{bind-after}
use az_lab.Exec.{lift}
use az_lab.Poller.{needs_eval}
use az_lab.Poller.Ends.{IsEnd, discord-IsEnd, completed-IsEnd, jeff-IsEnd, eval-IsEnd}
use az_lab.Argus.Worker.{conclude_as, conclude}
use az_lab.Queue.{Task}
use az_lab.Prelude.{String, ◌≡◌, refl, Bool, true, false, Option, none, some, [], ◌∷◌}

-- The status that a result earns.
abbrev pub end_status : Option String → Bool → String
end_status (some reason) eval = "pending_jeff_action"
end_status none true = "pending_eval"
end_status none false = "completed"

as-IsEnd :
    (eval : Bool) (t : Task) (result : String)
    → Emits (IsEnd t.id (end_status none eval ∷ [])) (conclude_as eval t result)
unfolding conclude_as
as-IsEnd true t result = search (emits_rules, eval-IsEnd, discord-IsEnd)
as-IsEnd false t result = search (emits_rules, completed-IsEnd, discord-IsEnd)

-- A finished session writes its own task's row alone: the task becomes Jeff's if the result asks for
-- him, is left to the evaluator if its priority is critical or high, and is completed otherwise.
conclude-IsEnd :
    (o : Option String) (t : Task) (result : String) (eval : Bool) (env : Env) (h : Trace)
    → needs_eval t ≡ ok eval
    → Adds (IsEnd t.id (end_status o eval ∷ [])) h (conclude o t result env h).1
unfolding conclude lift
conclude-IsEnd (some reason) t result eval env h e =
    (jeff-IsEnd t.id ("pending_jeff_action" ∷ []) refl result reason _).at env h
conclude-IsEnd none t result eval env h e =
    rw (bind-after (lift (needs_eval t)) _ env h eval e) ((as-IsEnd eval t result).at env h)
