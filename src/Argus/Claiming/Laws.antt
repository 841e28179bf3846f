-- ===== src/Argus/Claiming/Laws.antt =====
-- What a claim of the orchestrator guarantees.
use az_lab.Claim.{guarded, is_finished, bounce, claim_patch}
use az_lab.Event.{Event, Result, Trace, Env, ok}
use az_lab.Exec.{Exec, pure, ◌>>=◌, now, select_tasks, update_tasks}
use az_lab.Rules.Inversion.{after, outcome}
use az_lab.Rules.Happens.{bind-step}
use az_lab.Argus.Claiming.{claimable, status_read, take_for_argus, claim_top, claim_next_for_argus}
use az_lab.Queue.{Task}
use az_lab.Prelude.{
  ℕ, String, ◌<>◌, ◌≡◌, refl, sym, ap, ◌∙◌, inl, inr, false, none, some, List, [], ◌∷◌, Bool-cases,
  is_empty, if◌then◌else◌, subst,
}

-- The task is not finished, and the last request is a claim of it that changed its row.
pub record IsClaimed (env : Env) (host : String) (t : Task) (h : Trace) : Type 0 where
  pub unfinished : is_finished t ≡ false
  pub before : Trace
  pub at : ℕ
  pub row : Task
  pub rows : List Task
  pub last :
      h
      ≡ Event.update_tasks (guarded t.id (status_read t)) (claim_patch (host <> "/argus") at)
        ∷ before
  pub changed :
      env.update_tasks before (guarded t.id (status_read t)) (claim_patch (host <> "/argus") at)
      ≡ ok (row ∷ rows)

won :
    (c t : Task) (claimed : List Task)
    → Result.ok (if is_empty claimed then none else some c) ≡ Result.ok (some t)
    → (row : Task) × (rows : List Task) × (claimed ≡ row ∷ rows) × (t ≡ c)
won c t [] e = cc
won c t (row ∷ rows) e = (row, rows, refl, cc)

taken-IsClaimed :
    (host : String) (c t : Task) (env : Env) (h : Trace)
    → is_finished c ≡ false
    → outcome (take_for_argus host c) env h ≡ ok (some t)
    → IsClaimed env host c (after (take_for_argus host c) env h) × (t ≡ c)
unfolding take_for_argus pure update_tasks
taken-IsClaimed host c t env h f e =
    let cs = guarded c.id (status_read c) in
    let (at, q, q1, same) = bind-step now _ env h (some t) e in
    let (claimed, p, p1, same1) =
      bind-step (update_tasks cs (claim_patch (host <> "/argus") at)) _ env (after now env h)
        (some t) q1 in
    let (row, rows, full, own) = won c t claimed p1 in
    (
      record {
        unfinished = f;
        before = after now env h;
        at = at;
        row = row;
        rows = rows;
        last = same ∙ same1;
        changed = p ∙ ap ok full;
      },
      own,
    )

-- What a bounce is followed by hands out no task.
bounced :
    (m : Exec (Unit {0})) (env : Env) (h : Trace) (t : Task)
    → outcome (m >>= λ _. pure none) env h ≡ ok (some t)
    → ⊥
unfolding pure
bounced m env h t e = let (u, q, q1, same) = bind-step m (λ _. pure none) env h (some t) e in cc

top-IsClaimed :
    (host : String) (rows : List Task) (t : Task) (env : Env) (h : Trace)
    → outcome (claim_top host rows) env h ≡ ok (some t)
    → IsClaimed env host t (after (claim_top host rows) env h)
unfolding claim_top pure
top-IsClaimed host [] t env h e = cc
top-IsClaimed host (c ∷ cs) t env h e = elim (Bool-cases (is_finished c)) [
  | inl finished ↦
      absurd (bounced (bounce "re-dispatch" c (status_read c)) env h t (rw finished at e))
  | inr unfinished ↦ rw unfinished (
      let (claimed, own) = taken-IsClaimed host c t env h unfinished (rw unfinished at e) in
      rw own claimed)
]

-- A task that is handed out is unfinished, and the last request has claimed it: a PATCH guarded by
-- the status that was read, which changed its row.
pub claim_next-IsClaimed :
    (host : String) (t : Task) (env : Env) (h : Trace)
    → outcome (claim_next_for_argus host) env h ≡ ok (some t)
    → IsClaimed env host t (after (claim_next_for_argus host) env h)
unfolding claim_next_for_argus
claim_next-IsClaimed host t env h e =
    let (rows, q, q1, same) =
      bind-step (select_tasks claimable) (claim_top host) env h (some t) e in
    subst (λ u. IsClaimed env host t u) (sym same)
      (top-IsClaimed host rows t env (after (select_tasks claimable) env h) q1)
