-- ===== src/Waiting/Laws.antt =====
-- What a gate that passes has checked, and what the sweep writes.
use az_lab.Rules.{Adds, Emits, Emits-bind, emits_rules}
use az_lab.Rules.Each.{request_rules}
use az_lab.Event.{Event, Trace, Env, ok}
use az_lab.Exec.{Exec, pure, lift, using, for_each, now}
use az_lab.Report.{log_activity, discord_notify}
use az_lab.Dependencies.{dependencies_incomplete}
use az_lab.Queue.{Task, Cond, Assign}
use az_lab.Json
use az_lab.Json.{Json, Dict}
use az_lab.Time.{Time, Stamp, aware, naive, unparseable}
use az_lab.Rules.Inversion.{after, bind-ok}
use az_lab.Prelude.{
  ℕ, String, ◌≡◌, refl, inl, inr, Bool, true, false, Option, none, some, List, [], ◌∷◌, arith, ◌==◌,
  ltb, Bool-cases, is_empty, elem,
}
use az_lab.Waiting.{
  hold, pass, Check, at_time, time_check, complete_check, file_of, file_check, tasks_check,
  typed_check, cond_check, deps_check, and_then, last_check, gate_state, release, release_if,
  sweep_one, sweep_waiting_tasks,
}

-- A PATCH of `task_queue` turns one row from `waiting` to `ready` and clears its reason, and it
-- changes nothing if the row has left `waiting`; no task is made, no goal is changed
-- and no session is run.
abbrev pub IsRelease : Event → Type 0
IsRelease
      (Event.update_tasks
        (Cond.id_eq i ∷ Cond.status_eq s ∷ [])
        (Assign.status n ∷ Assign.blocked_reason none ∷ [])) =
    (s ≡ "waiting") × (n ≡ "ready")
IsRelease (Event.update_tasks _ _) = ⊥
IsRelease (Event.insert_task t) = ⊥
IsRelease (Event.update_goal i p) = ⊥
IsRelease (Event.run_claude p m t) = ⊥
IsRelease _ = Unit

ruleset releases = (emits_rules, request_rules, refl)

log_activity-IsRelease :
    (kind content : String) (id : Option String) → Emits IsRelease (log_activity kind content id)
unfolding log_activity
log_activity-IsRelease kind content id = search releases

discord_notify-IsRelease : (s : String) → Emits IsRelease (discord_notify s)
unfolding discord_notify
discord_notify-IsRelease s = search releases

deps-IsRelease : (ids : List String) → Emits IsRelease (dependencies_incomplete ids)
unfolding dependencies_incomplete
deps-IsRelease ids = search releases

complete-IsRelease :
    (what : String) (n : ℕ) (ids : List String) → Emits IsRelease (complete_check what n ids)
unfolding complete_check
complete-IsRelease what n ids = search (releases, deps-IsRelease) depth 8

time-IsRelease : (current : ℕ) (o : Option String) → Emits IsRelease (time_check current o)
unfolding time_check
time-IsRelease current none = search releases
time-IsRelease current (some nb) = search releases depth 8

stat-IsRelease :
    (path after : String) (found : Option ℕ) → Emits IsRelease (file_of path after found)
unfolding file_of
stat-IsRelease path after none = search releases
stat-IsRelease path after (some m) = search releases depth 8

file-IsRelease : (path after : String) → Emits IsRelease (file_check path after)
unfolding file_check
file-IsRelease path after = search (releases, stat-IsRelease) depth 12

tasks-IsRelease : (ids : List String) → Emits IsRelease (tasks_check ids)
unfolding tasks_check
tasks-IsRelease [] = search releases
tasks-IsRelease (i ∷ ids) = search complete-IsRelease

typed-IsRelease : (nb : Option String) (d : Dict) (j : Json) → Emits IsRelease (typed_check nb d j)
unfolding typed_check
typed-IsRelease nb d (Json.str kind) = search (releases, file-IsRelease, tasks-IsRelease) depth 14
typed-IsRelease nb d _ = search releases

cond-IsRelease : (nb : Option String) (j : Json) → Emits IsRelease (cond_check nb j)
unfolding cond_check
cond-IsRelease nb (Json.obj d) = search typed-IsRelease
cond-IsRelease nb _ = search releases

declared-IsRelease : (ids : Option (List String)) → Emits IsRelease (deps_check ids)
unfolding deps_check
declared-IsRelease ids = search (releases, complete-IsRelease)

then-IsRelease :
    (c : Check) (k : List String → Exec Check)
    → ((done : List String) → Emits IsRelease (k done))
    → Emits IsRelease (and_then c k)
then-IsRelease (hold why) k q = search releases
then-IsRelease (pass done) k q = q done

last-IsRelease : (done : List String) → Emits IsRelease (last_check done)
unfolding last_check
last-IsRelease done = search releases

gate-IsRelease : (t : Task) → Emits IsRelease (gate_state t)
unfolding gate_state
gate-IsRelease t =
    search
      (releases, time-IsRelease, cond-IsRelease, declared-IsRelease, then-IsRelease, last-IsRelease)
      depth 14

release-IsRelease : (t : Task) (detail : String) → Emits IsRelease (release t detail)
unfolding release
release-IsRelease t detail =
    search (releases, log_activity-IsRelease, discord_notify-IsRelease) depth 12

release_if-IsRelease : (t : Task) (c : Check) → Emits IsRelease (release_if t c)
unfolding release_if
release_if-IsRelease t (hold why) = search releases
release_if-IsRelease t (pass done) = search release-IsRelease

one-IsRelease : (t : Task) → Emits IsRelease (sweep_one t)
unfolding sweep_one
one-IsRelease t = search (releases, gate-IsRelease, release_if-IsRelease) depth 8

each-IsRelease : (ts : List Task) → Emits IsRelease (for_each ts sweep_one)
unfolding for_each
each-IsRelease [] = search releases
each-IsRelease (t ∷ ts) = Emits-bind (sweep_one t) _ (one-IsRelease t) (λ _. each-IsRelease ts)

-- The sweep of waiting tasks writes nothing of `task_queue` but guarded releases, from `waiting` to
-- `ready`, makes no task and runs no session, however the world answers.
pub sweep_waiting_tasks-IsRelease :
    (env : Env) (h : Trace) → Adds IsRelease h (sweep_waiting_tasks env h).1
unfolding sweep_waiting_tasks
sweep_waiting_tasks-IsRelease env h =
    let e : Emits IsRelease sweep_waiting_tasks = search (releases, each-IsRelease) depth 8 in
    e.at env h

known_kind : Json → Bool
known_kind Json.null = true
known_kind (Json.str kind) = elem kind ("time" ∷ "tasks_complete" ∷ "file_newer_than" ∷ [])
known_kind _ = false

-- No condition, or an object whose type, if it has one, is one of the three.
pub is_known : Json → Bool
unfolding known_kind Json.get
is_known Json.null = true
is_known (Json.obj d) = known_kind (Json.get "type" d)
is_known _ = false

-- What a gate must have found, when it lets a task go: a time that is declared is a timestamp with an
-- offset and has come, the condition is of a known type, and at least one thing was checked.
pub record IsOpen (env : Env) (h : Trace) (t : Task) (done : List String) : Type 0 where
  pub time_come :
      (nb : String)
      → t.not_before ≡ some nb
      → (nb == "") ≡ false
      → (at : Time) × (env.parse nb ≡ aware at) × (ltb (env.clock h) at ≡ false)
  pub known_type : is_known t.unblock_condition ≡ true
  pub some_check : is_empty done ≡ false

at_time-pass :
    (current : ℕ) (nb : String) (s : Stamp) (done : List String)
    → at_time current nb s ≡ ok (pass done)
    → (at : Time) × (s ≡ aware at) × (ltb current at ≡ false)
unfolding at_time
at_time-pass current nb (aware at) done e = elim (Bool-cases (ltb current at)) [
  | inl early ↦ ground arith
  | inr come ↦ (at, refl, come)
]
at_time-pass current nb (naive at) done e = cc
at_time-pass current nb unparseable done e = cc

time_check-pass :
    (current : ℕ) (nb : String) (env : Env) (h : Trace) (done : List String) (h' : Trace)
    → (nb == "") ≡ false
    → time_check current (some nb) env h ≡ (ok (pass done), h')
    → (at : Time) × (env.parse nb ≡ aware at) × (ltb current at ≡ false)
unfolding time_check using lift
time_check-pass current nb env h done h' e c =
    let (stamp, s, f) =
      bind-ok (using (λ env. env.parse nb)) (λ stamp. lift (at_time current nb stamp)) env h
        (pass done) h' (rw e at c) in
    at_time-pass current nb (env.parse nb) done cc

last-pass :
    (ds : List String) (env : Env) (h : Trace) (done : List String) (h' : Trace)
    → last_check ds env h ≡ (ok (pass done), h')
    → is_empty done ≡ false
unfolding last_check pure
last-pass [] env h done h' e = cc
last-pass (d ∷ ds) env h done h' e = cc

-- A pass comes from a check that passed.
then-pass :
    (c : Check) (k : List String → Exec Check) (env : Env) (h : Trace) (done : List String)
    (h' : Trace)
    → and_then c k env h ≡ (ok (pass done), h')
    → (checked : List String) × (c ≡ pass checked) × (k checked env h ≡ (ok (pass done), h'))
unfolding pure
then-pass (hold why) k env h done h' e = cc
then-pass (pass checked) k env h done h' e = (checked, refl, e)

typed-pass :
    (nb : Option String) (d : Dict) (j : Json) (env : Env) (h : Trace) (done : List String)
    (h' : Trace)
    → typed_check nb d j env h ≡ (ok (pass done), h')
    → known_kind j ≡ true
unfolding typed_check known_kind pure
typed-pass nb d Json.null env h done h' e = refl
typed-pass nb d (Json.str kind) env h done h' e = ground arith
typed-pass nb d _ env h done h' e = cc

cond-pass :
    (nb : Option String) (j : Json) (env : Env) (h : Trace) (done : List String) (h' : Trace)
    → cond_check nb j env h ≡ (ok (pass done), h')
    → is_known j ≡ true
unfolding cond_check is_known pure
cond-pass nb Json.null env h done h' e = refl
cond-pass nb (Json.obj d) env h done h' e = typed-pass nb d (Json.get "type" d) env h done h' e
cond-pass nb _ env h done h' e = cc

come :
    (env : Env) (h h1 : Trace) (o : Option String) (timed : List String) (h2 : Trace)
    → time_check (env.clock h) o env h1 ≡ (ok (pass timed), h2)
    → (nb : String) → o ≡ some nb
    → (nb == "") ≡ false
    → (at : Time) × (env.parse nb ≡ aware at) × (ltb (env.clock h) at ≡ false)
come env h h1 none timed h2 e nb q f = cc
come env h h1 (some s) timed h2 e nb q f =
    let same : s ≡ nb = cc in time_check-pass (env.clock h) nb env h1 timed h2 f (rw same at e)

-- A gate that lets a task go has checked at least one thing. A `not_before` that the task has is a
-- timestamp with an offset and has come, and its condition is null, or an object that has no type or
-- one of the three that are known.
pub gate_state-IsOpen :
    (t : Task) (env : Env) (h : Trace) (done : List String) (h' : Trace)
    → gate_state t env h ≡ (ok (pass done), h')
    → IsOpen env h t done
unfolding gate_state now
gate_state-IsOpen t env h done h' e =
    let (c0, q0, e1) = bind-ok now _ env h (pass done) h' e in
    let (first, q1, e2) =
      bind-ok (time_check c0 t.not_before) _ env (after now env h) (pass done) h' e1 in
    let (timed, p1, e3) = then-pass first _ env _ done h' e2 in
    let h2 = after (time_check c0 t.not_before) env (after now env h) in
    let (second, q2, e4) =
      bind-ok (cond_check t.not_before t.unblock_condition) _ env h2 (pass done) h' e3 in
    let (typed, p2, e5) =
      then-pass second _ env (after (cond_check t.not_before t.unblock_condition) env h2) done h'
        e4 in
    let (third, q3, e6) = bind-ok (deps_check t.blocked_by_task_ids) _ env _ (pass done) h' e5 in
    let (deps, p3, e7) = then-pass third _ env _ done h' e6 in
    record {
      time_come = come env h (after now env h) t.not_before timed h2 cc;
      known_type =
          cond-pass t.not_before t.unblock_condition env h2 typed
            (after (cond_check t.not_before t.unblock_condition) env h2) cc;
      some_check = last-pass _ env _ done h' e7;
    }
