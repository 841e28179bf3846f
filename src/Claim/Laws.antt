-- ===== src/Claim/Laws.antt =====
-- Which task a claim hands out.
use az_lab.Dependencies.{declared, dependencies_incomplete}
use az_lab.Preflight.{preflight_task, block_task}
use az_lab.Rules.Inversion.{after, outcome, bind-ok}
use az_lab.Event.{
  Event, Result, Trace, Env, ok, err, value_error, request_error, type_error, index_error, os_error,
  runtime_error,
}
use az_lab.Queue.{Task}
use az_lab.Claim.{
  guarded, is_past, is_finished, expire, bounce, claim_patch, take_task, after_preflight,
  after_deps, after_deadline, deadline, expired_if, ignore_value_error, try_claim, claim_first,
  runnable, claim_next_task, found_or,
}
use az_lab.Exec.{
  Exec, pure, raise, lift, catch, using, ◌>>=◌, ◌>>◌, now, select_tasks, update_tasks,
}
use az_lab.Time.{Time}
use az_lab.Prelude.{
  ℕ, String, ◌≡◌, refl, ap, inl, inr, ◌⊎◌, Bool, true, false, Option, none, some, List, [], ◌∷◌,
  if◌then◌else◌, Bool-cases, or_else, is_empty, Among,
}

abbrev pub current_of : Task → String
current_of c = or_else c.status "pending"

abbrev pub at_deps : Env → Trace → Task → Trace
at_deps env h c = after (deadline c (current_of c)) env h

-- The deadline has not passed, or the PATCH that would expire the task raised a ValueError, as for an
-- answer that is no JSON, and the deadline was ignored.
abbrev pub IsUnexpired : Env → Trace → Task → Type 0
IsUnexpired env h c =
    (outcome (is_past c.expires_at) env h ≡ ok false)
    ⊎ (outcome (is_past c.expires_at) env h ≡ ok true)
      × (s : String) × (outcome (expire c (current_of c)) env (after (is_past c.expires_at) env h)
          ≡ err (value_error s))

abbrev pub at_preflight : Env → Trace → Task → Trace
at_preflight env h c =
    after (dependencies_incomplete (declared c.blocked_by_task_ids)) env (at_deps env h c)

-- Every gate has let the candidate pass, each asked after the one before.
pub record IsCleared (env : Env) (h : Trace) (c : Task) : Type 0 where
  pub unexpired : IsUnexpired env h c
  pub deps_done :
      outcome (dependencies_incomplete (declared c.blocked_by_task_ids)) env (at_deps env h c)
      ≡ ok []
  pub not_finished : is_finished c ≡ false
  pub no_reasons : outcome (preflight_task c) env (at_preflight env h c) ≡ ok []

-- The last request is the claim, it changed a row, and the task has its time.
pub record IsWon (env : Env) (host : String) (c t : Task) (h : Trace) : Type 0 where
  pub before : Trace
  pub at : ℕ
  pub row : Task
  pub rows : List Task
  pub last :
      h
      ≡ Event.update_tasks (guarded c.id (or_else c.status "pending")) (claim_patch host at)
        ∷ before
  pub changed :
      env.update_tasks before (guarded c.id (or_else c.status "pending")) (claim_patch host at)
      ≡ ok (row ∷ rows)
  pub task : t ≡ record c { claimed_at = some (env.isoformat at) }

-- A candidate that is passed over is not handed out.
skips :
    {B : Type 0} (m : Exec B) (env : Env) (h : Trace) (t : Task) (h' : Trace)
    → (m >>= λ _. pure none) env h ≡ (ok (some t), h')
    → ⊥
unfolding pure
skips m env h t h' e = let (_, _, e1) = bind-ok m _ env h (some t) h' e in cc

abbrev stamped : Task → ℕ → List Task → Exec (Option Task)
stamped c at rows = do
  stamp ← using (λ env. env.isoformat at)
  pure (if is_empty rows then none else some (record c { claimed_at = some stamp }))

stamped-IsWon :
    (host : String) (c : Task) (env : Env) (h : Trace) (at : ℕ) (rows : List Task) (t : Task)
    (h' : Trace)
    → env.update_tasks h (guarded c.id (or_else c.status "pending")) (claim_patch host at) ≡ ok rows
    → stamped c at rows env
        (Event.update_tasks (guarded c.id (or_else c.status "pending")) (claim_patch host at) ∷ h)
      ≡ (ok (some t), h')
    → IsWon env host c t h'
unfolding ◌>>=◌
stamped-IsWon host c env h at [] t h' changed e = cc
stamped-IsWon host c env h at (row ∷ rows) t h' changed e = record {
  before = h;
  at = at;
  row = row;
  rows = rows;
  last = cc;
  changed = changed;
  task = cc;
}

take_task-IsWon :
    (host : String) (c : Task) (env : Env) (h : Trace) (t : Task) (h' : Trace)
    → take_task host c (or_else c.status "pending") env h ≡ (ok (some t), h')
    → IsWon env host c t h'
unfolding take_task update_tasks
take_task-IsWon host c env h t h' e =
    let (at, _, e1) = bind-ok now _ env h (some t) h' e in
    let (rows, changed, e2) =
      bind-ok (update_tasks _ (claim_patch host at)) (stamped c at) env (after now env h) (some t)
        h' e1 in
    stamped-IsWon host c env (after now env h) at rows t h' changed e2

after_preflight-IsWon :
    (host : String) (c : Task) (rs : List String) (env : Env) (h : Trace) (t : Task) (h' : Trace)
    → after_preflight host c (or_else c.status "pending") rs env h ≡ (ok (some t), h')
    → (rs ≡ []) × IsWon env host c t h'
unfolding after_preflight
after_preflight-IsWon host c [] env h t h' e = (refl, take_task-IsWon host c env h t h' e)
after_preflight-IsWon host c (r ∷ rs) env h t h' e =
    absurd (skips (block_task c (or_else c.status "pending") (r ∷ rs)) env h t h' e)

checked-IsWon :
    (host : String) (c : Task) (env : Env) (h : Trace) (t : Task) (h' : Trace)
    → (preflight_task c >>= after_preflight host c (or_else c.status "pending")) env h
      ≡ (ok (some t), h')
    → (outcome (preflight_task c) env h ≡ ok []) × IsWon env host c t h'
checked-IsWon host c env h t h' e =
    let (rs, p, e1) = bind-ok (preflight_task c) _ env h (some t) h' e in
    let (none_left, won) =
      after_preflight-IsWon host c rs env (after (preflight_task c) env h) t h' e1 in
    (rw (← none_left) p, won)

after_deps-IsWon :
    (host : String) (c : Task) (ds : List String) (env : Env) (h : Trace) (t : Task) (h' : Trace)
    → after_deps host c (or_else c.status "pending") ds env h ≡ (ok (some t), h')
    → (ds ≡ [])
      × (is_finished c ≡ false)
      × (outcome (preflight_task c) env h ≡ ok [])
      × IsWon env host c t h'
unfolding after_deps pure
after_deps-IsWon host c (d ∷ ds) env h t h' e = cc
after_deps-IsWon host c [] env h t h' e = elim (Bool-cases (is_finished c)) [
  | inl finished ↦
      absurd (skips (bounce "re-run" c (or_else c.status "pending")) env h t h' (rw finished at e))
  | inr fresh ↦
      let (p, won) = checked-IsWon host c env h t h' (rw fresh at e) in (refl, fresh, p, won)
]

-- A handler that lets a ValueError pass, and nothing else, has seen one.
ignored :
    (r : Result (Unit {0})) (env : Env) (h : Trace)
    → (catch (do lift r; pure true) ignore_value_error env h).0 ≡ ok false
    → (s : String) × (r ≡ err (value_error s))
unfolding catch ◌>>=◌ lift pure raise ignore_value_error
ignored (ok u) env h e = cc
ignored (err (value_error s)) env h e = (s, refl)
ignored (err (request_error s)) env h e = cc
ignored (err (type_error s)) env h e = cc
ignored (err (index_error s)) env h e = cc
ignored (err (os_error s)) env h e = cc
ignored (err (runtime_error s)) env h e = cc

deadline_case :
    (c : Task) (env : Env) (h : Trace) (past : Bool)
    → outcome (is_past c.expires_at) env h ≡ ok past
    → (expired_if c (current_of c) past env (after (is_past c.expires_at) env h)).0 ≡ ok false
    → IsUnexpired env h c
unfolding expired_if catch ◌>>=◌ lift
deadline_case c env h false p e = inl p
deadline_case c env h true p e =
    let h1 = after (is_past c.expires_at) env h in
    let (s, raised) =
      ignored (outcome (expire c (current_of c)) env h1) env
        (after (expire c (current_of c)) env h1) e in
    inr (p, s, raised)

deadline-IsUnexpired :
    (c : Task) (env : Env) (h : Trace)
    → deadline c (current_of c) env h ≡ (ok false, at_deps env h c)
    → IsUnexpired env h c
unfolding deadline
deadline-IsUnexpired c env h e =
    let (past, p, e1) =
      bind-ok (is_past c.expires_at) (expired_if c (current_of c)) env h false (at_deps env h c)
        e in
    deadline_case c env h past p (ap (λ r. r.0) e1)

after_deadline-IsWon :
    (host : String) (c : Task) (expired : Bool) (env : Env) (h : Trace) (t : Task) (h' : Trace)
    → deadline c (current_of c) env h ≡ (ok expired, at_deps env h c)
    → after_deadline host c (current_of c) expired env (at_deps env h c) ≡ (ok (some t), h')
    → IsCleared env h c × IsWon env host c t h'
unfolding after_deadline pure
after_deadline-IsWon host c true env h t h' d e = cc
after_deadline-IsWon host c false env h t h' d e =
    let p = deadline-IsUnexpired c env h d in
    let (ds, q, e1) =
      bind-ok (dependencies_incomplete (declared c.blocked_by_task_ids)) _ env (at_deps env h c)
        (some t) h' e in
    let (none_left, fresh, clear, won) =
      after_deps-IsWon host c ds env (at_preflight env h c) t h' e1 in
    (
      record {
        unexpired = p;
        deps_done = rw (← none_left) q;
        not_finished = fresh;
        no_reasons = clear;
      },
      won,
    )

pub try_claim-IsWon :
    (host : String) (c : Task) (env : Env) (h : Trace) (t : Task) (h' : Trace)
    → try_claim host c env h ≡ (ok (some t), h')
    → IsCleared env h c × IsWon env host c t h'
unfolding try_claim
try_claim-IsWon host c env h t h' e =
    let (expired, p, e1) = bind-ok (deadline c (current_of c)) _ env h (some t) h' e in
    after_deadline-IsWon host c expired env h t h' (λ i. (p i, at_deps env h c)) e1

-- The candidate is one of the rows, and it was cleared and won after some of the requests.
pub record IsFrom (env : Env) (host : String) (ts : List Task) (t : Task) (h' : Trace)
    : Type 0 where
  pub candidate : Task
  pub start : Trace
  pub listed : Among candidate ts
  pub cleared : IsCleared env start candidate
  pub won : IsWon env host candidate t h'

found_case :
    (host : String) (c : Task) (ts : List Task) (env : Env) (h : Trace) (found : Option Task)
    (t : Task) (h' : Trace)
    → try_claim host c env h ≡ (ok found, after (try_claim host c) env h)
    → found_or (claim_first host ts) found env (after (try_claim host c) env h) ≡ (ok (some t), h')
    → ((h1 : Trace) → claim_first host ts env h1 ≡ (ok (some t), h') → IsFrom env host ts t h')
    → IsFrom env host (c ∷ ts) t h'
unfolding pure
found_case host c ts env h none t h' p e later =
    let f = later (after (try_claim host c) env h) e in
    record {
      candidate = f.candidate;
      start = f.start;
      listed = inr f.listed;
      cleared = f.cleared;
      won = f.won;
    }
found_case host c ts env h (some u) t h' p e later =
    let (cleared, won) = try_claim-IsWon host c env h t h' (cc (p, e)) in
    record { candidate = c; start = h; listed = inl refl; cleared = cleared; won = won }

claim_first-IsFrom :
    (host : String) (ts : List Task) (env : Env) (h : Trace) (t : Task) (h' : Trace)
    → claim_first host ts env h ≡ (ok (some t), h')
    → IsFrom env host ts t h'
unfolding claim_first pure
claim_first-IsFrom host [] env h t h' e = cc
claim_first-IsFrom host (c ∷ ts) env h t h' e =
    let (found, p, e1) =
      bind-ok (try_claim host c) (found_or (claim_first host ts)) env h (some t) h' e in
    found_case host c ts env h found t h' (λ i. (p i, after (try_claim host c) env h)) e1
      (λ h1 q. claim_first-IsFrom host ts env h1 t h' q)

-- A task that is claimed is one of the rows that the query for runnable tasks returned. Its deadline
-- had not passed, or the PATCH that was to expire it raised a ValueError; the lookup of its
-- dependencies named none as incomplete, it was not finished, the preflight had no reason, and the
-- last request was a PATCH guarded by the status that was read, which changed a row.
pub claim_next_task_sound :
    (host : String) (env : Env) (h : Trace) (t : Task) (h' : Trace)
    → claim_next_task host env h ≡ (ok (some t), h')
    → (at : Time) × (rows : List Task) × (env.select_tasks (after now env h) (runnable at)
        ≡ ok rows)
      × IsFrom env host rows t h'
unfolding claim_next_task select_tasks
claim_next_task_sound host env h t h' e =
    let (at, _, e1) = bind-ok now _ env h (some t) h' e in
    let (rows, found, e2) =
      bind-ok (select_tasks (runnable at)) (claim_first host) env (after now env h) (some t) h'
        e1 in
    (at, rows, found, claim_first-IsFrom host rows env _ t h' e2)
