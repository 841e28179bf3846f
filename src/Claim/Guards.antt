-- ===== src/Claim/Guards.antt =====
-- The requests of a claim.
use az_lab.Text
use az_lab.Report.{log_activity, discord_notify}
use az_lab.Event.{
  Event, Exn, Trace, Env, value_error, request_error, type_error, index_error, os_error,
  runtime_error,
}
use az_lab.Queue.{Task, Cond}
use az_lab.Rules.{Adds, Emits, Emits-pure, Emits-if, Emits-bind, emits_rules}
use az_lab.Rules.Each.{Emits-exists, request_rules}
use az_lab.Claim.{
  is_past, expire, bounce, take_task, after_preflight, after_deps, after_deadline, deadline,
  expired_if, ignore_value_error, try_claim, claim_first, claim_next_task, past_stamp, found_or,
}
use az_lab.Time.{Stamp, aware, naive, unparseable}
use az_lab.Exec.{Exec, exists}
use az_lab.Preflight.{
  preflight_rest, memory_exists, missing_refs, gone_paths, preflight_task, block_task,
}
use az_lab.Dependencies.{dependencies_incomplete}
use az_lab.Prelude.{String, Bool, true, false, Option, none, some, List, [], ◌∷◌, if◌then◌else◌}

abbrev pub IsGuarded : List Cond → Type 0
IsGuarded (Cond.id_eq id ∷ Cond.status_eq s ∷ []) = Unit
IsGuarded _ = ⊥

-- Task rows are changed by guarded PATCHes alone; no task is made, no goal is changed, no session is run.
abbrev pub IsCareful : Event → Type 0
IsCareful (Event.update_tasks cs p) = IsGuarded cs
IsCareful (Event.insert_task t) = ⊥
IsCareful (Event.update_goal id p) = ⊥
IsCareful (Event.run_claude p m t) = ⊥
IsCareful _ = Unit

ruleset careful = (emits_rules, request_rules)

log_activity-IsCareful :
    (kind content : String) (id : Option String) → Emits IsCareful (log_activity kind content id)
unfolding log_activity
log_activity-IsCareful kind content id = search careful

discord_notify-IsCareful : (s : String) → Emits IsCareful (discord_notify s)
unfolding discord_notify
discord_notify-IsCareful s = search careful

past_stamp-IsCareful : (s : Stamp) → Emits IsCareful (past_stamp s)
unfolding past_stamp
past_stamp-IsCareful (aware t) = search careful
past_stamp-IsCareful (naive t) = search careful
past_stamp-IsCareful unparseable = search careful

is_past-IsCareful : (o : Option String) → Emits IsCareful (is_past o)
unfolding is_past
is_past-IsCareful none = search careful
is_past-IsCareful (some s) = search (careful, past_stamp-IsCareful)

dependencies-IsCareful : (ids : List String) → Emits IsCareful (dependencies_incomplete ids)
unfolding dependencies_incomplete
dependencies-IsCareful ids = search careful

memory_exists-IsCareful : (name : String) → Emits IsCareful (memory_exists name)
unfolding memory_exists
memory_exists-IsCareful name = search careful

missing_refs-IsCareful : (refs : List String) → Emits IsCareful (missing_refs refs)
unfolding missing_refs
missing_refs-IsCareful [] = search careful
missing_refs-IsCareful (r ∷ rs) =
    Emits-bind (memory_exists r) _ (memory_exists-IsCareful r)
      (λ found. Emits-bind (missing_refs rs) _ (missing_refs-IsCareful rs) (λ rest. Emits-pure _))

gone_paths-IsCareful : (paths : List String) → Emits IsCareful (gone_paths paths)
unfolding gone_paths
gone_paths-IsCareful [] = search careful
gone_paths-IsCareful (p ∷ ps) =
    let later = gone_paths-IsCareful ps in
    Emits-if (Text.is_prefix "/" p) _ _
      (Emits-bind (exists p) _ (Emits-exists p tt) (λ found.
        Emits-bind (gone_paths ps) _ later (λ gone. Emits-pure (if found then gone else p ∷ gone))))
      later

rest-IsCareful : (t : Task) (gate : List String) → Emits IsCareful (preflight_rest t gate)
unfolding preflight_rest
rest-IsCareful t gate = search (careful, missing_refs-IsCareful, gone_paths-IsCareful) depth 14

preflight-IsCareful : (t : Task) → Emits IsCareful (preflight_task t)
unfolding preflight_task
preflight-IsCareful t = search (careful, rest-IsCareful)

ruleset reports = (careful, log_activity-IsCareful, discord_notify-IsCareful)

block_task-IsCareful :
    (t : Task) (current : String) (reasons : List String)
    → Emits IsCareful (block_task t current reasons)
unfolding block_task
block_task-IsCareful t current reasons = search reports

expire-IsCareful : (t : Task) (current : String) → Emits IsCareful (expire t current)
unfolding expire
expire-IsCareful t current = search reports

bounce-IsCareful :
    (verb : String) (t : Task) (current : String) → Emits IsCareful (bounce verb t current)
unfolding bounce
bounce-IsCareful verb t current = search reports

ruleset steps = (
  careful, is_past-IsCareful, dependencies-IsCareful, preflight-IsCareful, block_task-IsCareful,
  expire-IsCareful, bounce-IsCareful,
)

after_preflight-IsCareful :
    (host : String) (t : Task) (current : String) (rs : List String)
    → Emits IsCareful (after_preflight host t current rs)
unfolding after_preflight take_task
after_preflight-IsCareful host t current [] = search steps
after_preflight-IsCareful host t current (r ∷ rs) = search steps

after_deps-IsCareful :
    (host : String) (t : Task) (current : String) (ds : List String)
    → Emits IsCareful (after_deps host t current ds)
unfolding after_deps
after_deps-IsCareful host t current [] = search (steps, after_preflight-IsCareful)
after_deps-IsCareful host t current (d ∷ ds) = search steps

ignore-IsCareful : (e : Exn) → Emits IsCareful (ignore_value_error e)
unfolding ignore_value_error
ignore-IsCareful (value_error s) = search steps
ignore-IsCareful (request_error s) = search steps
ignore-IsCareful (type_error s) = search steps
ignore-IsCareful (index_error s) = search steps
ignore-IsCareful (os_error s) = search steps
ignore-IsCareful (runtime_error s) = search steps

expired_if-IsCareful :
    (t : Task) (current : String) (past : Bool) → Emits IsCareful (expired_if t current past)
unfolding expired_if
expired_if-IsCareful t current true = search (steps, ignore-IsCareful)
expired_if-IsCareful t current false = search steps

deadline-IsCareful : (t : Task) (current : String) → Emits IsCareful (deadline t current)
unfolding deadline
deadline-IsCareful t current = search (steps, expired_if-IsCareful)

after_deadline-IsCareful :
    (host : String) (t : Task) (current : String) (expired : Bool)
    → Emits IsCareful (after_deadline host t current expired)
unfolding after_deadline
after_deadline-IsCareful host t current true = search steps
after_deadline-IsCareful host t current false = search (steps, after_deps-IsCareful)

try_claim-IsCareful : (host : String) (t : Task) → Emits IsCareful (try_claim host t)
unfolding try_claim
try_claim-IsCareful host t = search (steps, deadline-IsCareful, after_deadline-IsCareful)

found_or-IsCareful :
    (next : Exec (Option Task))
    → Emits IsCareful next
    → (found : Option Task) → Emits IsCareful (found_or next found)
found_or-IsCareful next e none = e
found_or-IsCareful next e (some t) = Emits-pure (some t)

claim_first-IsCareful : (host : String) (ts : List Task) → Emits IsCareful (claim_first host ts)
unfolding claim_first
claim_first-IsCareful host [] = search careful
claim_first-IsCareful host (t ∷ ts) =
    Emits-bind (try_claim host t) (found_or (claim_first host ts)) (try_claim-IsCareful host t)
      (found_or-IsCareful (claim_first host ts) (claim_first-IsCareful host ts))

-- A claim changes task rows by guarded PATCHes alone, makes no task, changes no goal and runs no
-- session, however the world answers.
pub claim_next_task-IsCareful :
    (host : String) (env : Env) (h : Trace) → Adds IsCareful h (claim_next_task host env h).1
unfolding claim_next_task
claim_next_task-IsCareful host env h =
    let e : Emits IsCareful (claim_next_task host) = search (careful, claim_first-IsCareful) in
    e.at env h
