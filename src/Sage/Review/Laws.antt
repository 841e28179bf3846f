-- ===== src/Sage/Review/Laws.antt =====
-- What the review of results comes to.
use az_lab.Event.{Event, Exn, Result, Trace, Env, ok, err}
use az_lab.Exec.{select_tasks}
use az_lab.Rules.{Adds, Emits, Emits-pure, emits_rules}
use az_lab.Rules.Each.{request_rules}
use az_lab.Rules.Inversion.{after, outcome}
use az_lab.Rules.Happens.{
  Happened, Anything, Does, Does-update_tasks, Does-first, Does-then, Emits-Anything, sweep-All,
}
use az_lab.Poller.Ends.{
  IsEnd, log-IsEnd, discord-IsEnd, goal-done-IsEnd, completed-IsEnd, jeff-IsEnd,
}
use az_lab.Routing.{is_internal_housekeeping}
use az_lab.Sage.Judgement.{
  result_looks_incomplete, result_needs_review, is_deployable_change, has_verification_proof,
}
use az_lab.Sage.Review.{
  Verdict, no_gate, gate_or, incomplete_or, verdict, carry_out, evaluate_one, to_review,
  post_evaluate_pending_eval,
}
use az_lab.Exec.{◌>>◌}
use az_lab.Report.{log_activity, discord_notify}
use az_lab.Outcomes.{by_id, completed_patch, mark_completed, mark_pending_jeff_action}
use az_lab.Queue.{Task, Cond, Assign, text}
use az_lab.Prelude.{
  ℕ, String, ◌≡◌, refl, subst, is_some, not, ◌||◌, ◌&&◌, inl, inr, ◌⊎◌, Bool, true, false, Option,
  none, some, List, [], ◌∷◌, All, length, if◌then◌else◌, Bool-cases,
}

-- What a result has to show before its task is completed without Jeff.
abbrev pub passes : Task → Bool
passes t =
    is_internal_housekeeping t
    || (not (is_some (result_looks_incomplete (text t.result)))
        && (not (is_some (is_deployable_change t (text t.result)))
            || has_verification_proof (text t.result))
        && not (is_some (result_needs_review (text t.result))))

-- The statuses that a verdict may give.
abbrev allowed : Verdict → List String
allowed Verdict.housekeeping = "completed" ∷ []
allowed Verdict.approved = "completed" ∷ []
allowed _ = "pending_jeff_action" ∷ []

carry_out-IsEnd : (t : Task) (v : Verdict) → Emits (IsEnd t.id (allowed v)) (carry_out t v)
unfolding carry_out
carry_out-IsEnd t Verdict.housekeeping = search (emits_rules, completed-IsEnd, log-IsEnd)
carry_out-IsEnd t Verdict.approved =
    search (emits_rules, request_rules, completed-IsEnd, log-IsEnd, discord-IsEnd) depth 10
carry_out-IsEnd t (Verdict.incomplete reason) = search (emits_rules, jeff-IsEnd, log-IsEnd)
carry_out-IsEnd t (Verdict.gated signal) =
    search (emits_rules, request_rules, log-IsEnd, discord-IsEnd) depth 10
carry_out-IsEnd t (Verdict.suggests reason) =
    search (emits_rules, request_rules, log-IsEnd, discord-IsEnd) depth 10

gates-allowed :
    (i d r : Option String) (p : Bool)
    → allowed (incomplete_or i (gate_or p d (no_gate r)))
      ≡ (if not (is_some i) && (not (is_some d) || p) && not (is_some r)
          then "completed"
          else "pending_jeff_action")
        ∷ []
unfolding incomplete_or gate_or no_gate
gates-allowed (some i) d r p = refl
gates-allowed none none none p = refl
gates-allowed none none (some r) p = refl
gates-allowed none (some d) none true = refl
gates-allowed none (some d) (some r) true = refl
gates-allowed none (some d) r false = refl

abbrev pub status_for : Task → String
status_for t = if passes t then "completed" else "pending_jeff_action"

first_of : {x y : String} → x ∷ [] ≡ y ∷ [] → x ≡ y
first_of e = cc

verdict-allowed : (t : Task) → allowed (verdict t) ≡ status_for t ∷ []
unfolding verdict
verdict-allowed t = elim (Bool-cases (is_internal_housekeeping t)) [
  | inl internal ↦ rw internal refl
  | inr other ↦ rw other (gates-allowed _ _ _ _)
]

-- Every write of a review is to its own row, with the status that the result earns.
evaluate_one-only :
    (t : Task) (env : Env) (h : Trace)
    → Adds (IsEnd t.id (status_for t ∷ [])) h (evaluate_one t env h).1
unfolding evaluate_one
evaluate_one-only t env h =
    subst (λ l. Adds (IsEnd t.id l) h (carry_out t (verdict t) env h).1) (verdict-allowed t)
      ((carry_out-IsEnd t (verdict t)).at env h)

-- The row leaves `pending_eval`.
abbrev pub Settles : Task → Event → Type 0
Settles t (Event.update_tasks (Cond.id_eq i ∷ []) (Assign.status s ∷ p)) =
    (i ≡ t.id) × (s ≡ status_for t)
Settles t _ = ⊥

module _ {P : Event → Type 0} (id : String) (result : String) where
  completed-Does :
      (goal : Option String)
      → ((stored : Option String) → P (Event.update_tasks (by_id id) (completed_patch stored)))
      → Does P (mark_completed id result goal false)
  unfolding mark_completed
  completed-Does goal p = Does-then _ _ (λ n.
      Does-first _ _ (Does-first _ _ (Does-update_tasks _ _ (p _)) (λ u. Emits-pure tt))
        (λ u. Emits-Anything {P = IsEnd id []} (search (emits_rules, log-IsEnd, goal-done-IsEnd))))

  jeff-Does :
      (reason title : String)
      → ((stored : Option String)
          → P (
              Event.update_tasks
                (by_id id)
                (Assign.status "pending_jeff_action" ∷ Assign.result stored ∷ [])))
      → Does P (mark_pending_jeff_action id result reason title)
  unfolding mark_pending_jeff_action
  jeff-Does reason title p =
      Does-first _ _ (Does-update_tasks _ _ (p _))
        (λ u. Emits-Anything {P = IsEnd id []} (search (emits_rules, log-IsEnd, discord-IsEnd)))

reports-Anything :
    (kind content a : String) (i : Option String)
    → Emits Anything (do log_activity kind content i; discord_notify a)
reports-Anything kind content a i =
    Emits-Anything {P = IsEnd "" []} (search (emits_rules, log-IsEnd, discord-IsEnd))

report-Anything :
    (kind content a : String) (i : Option String)
    → Emits Anything (do discord_notify a; log_activity kind content i)
report-Anything kind content a i =
    Emits-Anything {P = IsEnd "" []} (search (emits_rules, log-IsEnd, discord-IsEnd))

log-Anything :
    (kind content : String) (i : Option String) → Emits Anything (log_activity kind content i)
log-Anything kind content i = Emits-Anything (log-IsEnd "" [] kind content i)

-- Each verdict writes the status that it allows.
carry_out-Settles :
    (t : Task) (v : Verdict) → allowed v ≡ status_for t ∷ [] → Does (Settles t) (carry_out t v)
unfolding carry_out
carry_out-Settles t Verdict.housekeeping a =
    Does-first _ _ (completed-Does t.id _ t.goal_id (λ stored. (refl, first_of a)))
      (λ u. log-Anything _ _ _)
carry_out-Settles t Verdict.approved a = Does-then _ _ (λ at. Does-then _ _ (λ note.
    Does-first _ _ (completed-Does t.id _ t.goal_id (λ stored. (refl, first_of a)))
      (λ u. report-Anything _ _ _ _)))
carry_out-Settles t (Verdict.incomplete reason) a =
    Does-first _ _ (jeff-Does t.id _ _ _ (λ stored. (refl, first_of a))) (λ u. log-Anything _ _ _)
carry_out-Settles t (Verdict.gated signal) a =
    Does-first _ _ (Does-update_tasks _ _ (refl, first_of a)) (λ u. reports-Anything _ _ _ _)
carry_out-Settles t (Verdict.suggests reason) a =
    Does-first _ _ (Does-update_tasks _ _ (refl, first_of a)) (λ u. reports-Anything _ _ _ _)

evaluate_one-Settles : (t : Task) → Does (Settles t) (evaluate_one t)
unfolding evaluate_one
evaluate_one-Settles t = carry_out-Settles t (verdict t) (verdict-allowed t)

evaluate_one-Anything : (t : Task) → Emits Anything (evaluate_one t)
evaluate_one-Anything t =
    Emits-Anything {P = IsEnd t.id (status_for t ∷ [])} (record { at = evaluate_one-only t })

settled :
    (t : Task) (env : Env) (h : Trace) (r : Result (Unit {0}))
    → outcome (evaluate_one t) env h ≡ r
    → Happened (Settles t) (after (evaluate_one t) env h)
      ⊎ (x : Exn) × (outcome (evaluate_one t) env h ≡ err x)
settled t env h (ok u) e = inl ((evaluate_one-Settles t).done env h u e)
settled t env h (err x) e = inr (x, e)

-- A result is written to its own row alone, and the status that it is given is decided by what the
-- result shows: `completed` if the task is housekeeping, or if the result looks complete, proves the
-- deployment that it claims, if any, and leaves nothing for review; otherwise `pending_jeff_action`.
-- The PATCH with that status is made, unless the review raises.
pub evaluate_one-IsEnd :
    (t : Task) (env : Env) (h : Trace)
    → Adds (IsEnd t.id (status_for t ∷ [])) h (evaluate_one t env h).1
      × (Happened (Settles t) (after (evaluate_one t) env h)
          ⊎ (x : Exn) × (outcome (evaluate_one t) env h ≡ err x))
evaluate_one-IsEnd t env h =
    (evaluate_one-only t env h, settled t env h (outcome (evaluate_one t) env h) refl)

-- When a review returns, each selected task has left `pending_eval` for the status that its result
-- earns, and their number is what it returns.
pub post_evaluate-Settles :
    (batch : ℕ) (env : Env) (h : Trace) (rows : List Task) (n : ℕ)
    → outcome (select_tasks (to_review batch)) env h ≡ ok rows
    → outcome (post_evaluate_pending_eval batch) env h ≡ ok n
    → All (λ t. Happened (Settles t) (after (post_evaluate_pending_eval batch) env h)) rows
      × (n ≡ length rows)
unfolding post_evaluate_pending_eval
post_evaluate-Settles batch env h rows n e r =
    sweep-All (λ ts. ts) evaluate_one evaluate_one-Settles evaluate_one-Anything (to_review batch)
      env h rows n e r
