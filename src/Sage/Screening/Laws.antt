-- ===== src/Sage/Screening/Laws.antt =====
-- What the screening of tasks writes.
use az_lab.Event.{Event, Trace, Env, ok}
use az_lab.Exec.{select_tasks}
use az_lab.Rules.{Adds, Emits, Emits-pure, emits_rules}
use az_lab.Rules.Each.{request_rules}
use az_lab.Rules.Inversion.{after, outcome}
use az_lab.Rules.Happens.{
  Happened, Anything, Does, Does-update_tasks, Does-first, Does-then, Does-if, Emits-Anything,
  sweep-All,
}
use az_lab.Report.{log_activity, discord_notify}
use az_lab.Sage.Tags.{add_tags}
use az_lab.Sage.Tags.Laws.{elem-add_tags}
use az_lab.Sage.Screening.{
  score_complexity_nemotron, evaluated_tags, flag_danger, tag_complexity, screened, screen_one,
  not_evaluated, to_screen, pre_evaluate_pending,
}
use az_lab.Queue.{Task, Cond, Assign}
use az_lab.Prelude.{
  ℕ, String, ◌≡◌, refl, true, Option, none, some, List, [], ◌∷◌, arith, ◌==◌, eq_iff, All, length,
  elem,
}

-- The PATCH that marks a task as screened: it tags the row, or parks it for Jeff besides.
pub data IsMark : List Assign → Type 0 where
  tagged : {ts : List String} → elem "sage-evaluated" ts ≡ true → IsMark (Assign.tags ts ∷ [])
  parked :
      {ts : List String} {reason : Option String}
      → elem "sage-evaluated" ts ≡ true
      → IsMark
          (Assign.status "pending_jeff_action" ∷ Assign.tags ts ∷ Assign.blocked_reason reason ∷ [])

-- Of `task_queue`, only this row is written, and only marked; no session is run.
abbrev pub IsScreened : String → Event → Type 0
IsScreened id (Event.update_tasks (Cond.id_eq i ∷ []) p) = (i ≡ id) × IsMark p
IsScreened id (Event.update_tasks _ _) = ⊥
IsScreened id (Event.insert_task t) = ⊥
IsScreened id (Event.update_goal i p) = ⊥
IsScreened id (Event.run_claude p m t) = ⊥
IsScreened id _ = Unit

-- The row is marked.
abbrev pub Marks : Task → Event → Type 0
Marks t (Event.update_tasks (Cond.id_eq i ∷ []) p) = (i ≡ t.id) × IsMark p
Marks t _ = ⊥

evaluated-elem :
    (t : Task) (new : List String) → elem "sage-evaluated" (evaluated_tags t new) ≡ true
evaluated-elem t new = ground (
  arith,
  elem-add_tags (some (add_tags t.tags ("sage-evaluated" ∷ []))) new "sage-evaluated",
  elem-add_tags t.tags ("sage-evaluated" ∷ []) "sage-evaluated",
  eq_iff "sage-evaluated" "sage-evaluated",
)

kept-elem :
    (ts new : List String)
    → elem "sage-evaluated" ts ≡ true
    → elem "sage-evaluated" (add_tags (some ts) new) ≡ true
kept-elem ts new e = ground (arith, elem-add_tags (some ts) new "sage-evaluated")

module _ (id : String) where
  ruleset requests = (emits_rules, request_rules, refl)

  log-IsScreened :
      (kind content : String) (i : Option String)
      → Emits (IsScreened id) (log_activity kind content i)
  unfolding log_activity
  log-IsScreened kind content i = search requests

  discord-IsScreened : (s : String) → Emits (IsScreened id) (discord_notify s)
  unfolding discord_notify
  discord-IsScreened s = search requests

  nemotron-IsScreened : (t : Task) → Emits (IsScreened id) (score_complexity_nemotron t)
  unfolding score_complexity_nemotron
  nemotron-IsScreened t = search requests depth 8

module _ (t : Task) (title : String) where
  danger-IsScreened : (snippet : String) → Emits (IsScreened t.id) (flag_danger t title snippet)
  unfolding flag_danger
  danger-IsScreened snippet =
      search
        (emits_rules, request_rules, log-IsScreened, discord-IsScreened, parked, evaluated-elem)
        depth 10

  complexity-IsScreened : (c : String) → Emits (IsScreened t.id) (tag_complexity t title c)
  unfolding tag_complexity
  complexity-IsScreened c =
      search
        (
          emits_rules, request_rules, log-IsScreened, discord-IsScreened, tagged, parked,
          evaluated-elem, kept-elem,
        )
        depth 12

  screened-IsScreened : (o : Option String) → Emits (IsScreened t.id) (screened t title o)
  unfolding screened
  screened-IsScreened (some snippet) = danger-IsScreened snippet
  screened-IsScreened none =
      search (emits_rules, nemotron-IsScreened, complexity-IsScreened) depth 10

-- The screening of a task writes nothing but a mark on its row, whatever the model answers.
pub screen_one-IsScreened :
    (t : Task) (env : Env) (h : Trace) → Adds (IsScreened t.id) h (screen_one t env h).1
unfolding screen_one
screen_one-IsScreened t env h =
    let e : Emits (IsScreened t.id) (screen_one t) = search (emits_rules, screened-IsScreened) in
    e.at env h

module _ (t : Task) (title : String) where
  danger-Marks : (snippet : String) → Does (Marks t) (flag_danger t title snippet)
  unfolding flag_danger
  danger-Marks snippet =
      Does-first _ _ (Does-update_tasks _ _ (refl, parked (evaluated-elem t _))) (λ rows.
        Emits-Anything {P = IsScreened t.id}
          (search (emits_rules, log-IsScreened, discord-IsScreened)))

  complexity-Marks : (c : String) → Does (Marks t) (tag_complexity t title c)
  unfolding tag_complexity
  complexity-Marks c =
      Does-if (c == "split") _ _
        (Does-first _ _ (Does-update_tasks _ _ (refl, parked (kept-elem _ _ (evaluated-elem t _))))
          (λ rows.
            Emits-Anything {P = IsScreened t.id}
              (search (emits_rules, log-IsScreened, discord-IsScreened))))
        (Does-first _ _ (Does-update_tasks _ _ (refl, tagged (evaluated-elem t _)))
          (λ rows. Emits-pure tt))

  screened-Marks : (o : Option String) → Does (Marks t) (screened t title o)
  unfolding screened
  screened-Marks (some snippet) = danger-Marks snippet
  screened-Marks none = Does-then _ _ (λ answer. Does-then _ _ complexity-Marks)

screen_one-Marks : (t : Task) → Does (Marks t) (screen_one t)
unfolding screen_one
screen_one-Marks t = Does-then _ _ (λ title. Does-then _ _ (screened-Marks t title))

screen_one-Anything : (t : Task) → Emits Anything (screen_one t)
screen_one-Anything t =
    Emits-Anything {P = IsScreened t.id} (record { at = screen_one-IsScreened t })

-- When a screening returns, each selected task that was not yet evaluated has been marked, so that no
-- later screening takes it up, and their number is what it returns.
pub pre_evaluate_pending-Marks :
    (batch : ℕ) (env : Env) (h : Trace) (rows : List Task) (n : ℕ)
    → outcome (select_tasks (to_screen batch)) env h ≡ ok rows
    → outcome (pre_evaluate_pending batch) env h ≡ ok n
    → All (λ t. Happened (Marks t) (after (pre_evaluate_pending batch) env h)) (not_evaluated rows)
      × (n ≡ length (not_evaluated rows))
unfolding pre_evaluate_pending
pre_evaluate_pending-Marks batch env h rows n e r =
    sweep-All not_evaluated screen_one screen_one-Marks screen_one-Anything (to_screen batch) env h
      rows n e r
