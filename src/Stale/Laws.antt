-- ===== src/Stale/Laws.antt =====
-- What the sweep of stale tasks writes, and how often it reports a task.
use az_lab.Stale.{
  Reports, reported_at, set_report, recent_stamp, is_recent, due_rows, report_stale, set_all,
  sweep_rows, fetched_or, sweep_stale_with,
}
use az_lab.Event.{Event, Trace, Env, ok}
use az_lab.Queue.{Task}
use az_lab.Time.{Time, days, aware}
use az_lab.Rules.{Adds, Emits, Emits-pure, Emits-bind, emits_rules, here}
use az_lab.Rules.Each.{request_rules}
use az_lab.Rules.Inversion.{after}
use az_lab.Report.{log_activity, discord_notify}
use az_lab.Prelude.{
  ℕ, ◌+◌, ◌<◌, String, ◌≡◌, refl, inl, inr, true, false, Option, none, some, List, [], ◌∷◌, arith,
  ◌==◌, eq_iff, if◌then◌else◌, Among,
}

-- Neither a task nor a goal is written, and nothing is run.
abbrev IsReport : Event → Type 0
IsReport (Event.update_tasks cs p) = ⊥
IsReport (Event.insert_task t) = ⊥
IsReport (Event.recurring_result i r) = ⊥
IsReport (Event.update_goal i p) = ⊥
IsReport (Event.run_claude p m t) = ⊥
IsReport _ = Unit

reported_at-set :
    (id j v : String) (s : Reports)
    → reported_at j (set_report id v s) ≡ (if id == j then some v else reported_at j s)
unfolding reported_at set_report
reported_at-set id j v [] = refl
reported_at-set id j v ((k, w) ∷ s) =
    ground (arith, eq_iff id j, eq_iff k id, eq_iff k j, reported_at-set id j v s)

-- Once reported, a task stays reported as the later ones are.
set_all-keeps :
    (id v : String) (ts : List Task) (s : Reports)
    → reported_at id s ≡ some v
    → reported_at id (set_all v ts s) ≡ some v
unfolding set_all
set_all-keeps id v [] s e = e
set_all-keeps id v (t ∷ ts) s e =
    set_all-keeps id v ts (set_report t.id v s) (rw (reported_at-set t.id id v s) (ground arith))

reported_at-set_all :
    (u : Task) (v : String) (ts : List Task) (s : Reports)
    → Among u ts
    → reported_at u.id (set_all v ts s) ≡ some v
unfolding set_all
reported_at-set_all u v [] s a = absurd a
reported_at-set_all u v (t ∷ ts) s (inl e) =
    set_all-keeps u.id v ts (set_report t.id v s)
      (rw e (rw (reported_at-set t.id t.id v s) (ground (arith, eq_iff t.id t.id))))
reported_at-set_all u v (t ∷ ts) s (inr a) = reported_at-set_all u v ts (set_report t.id v s) a

recent_young :
    (current reported renotify : ℕ)
    → current < reported + days renotify
    → recent_stamp current renotify (aware reported) ≡ ok true
unfolding recent_stamp
recent_young current reported renotify soon = ground arith

-- A task that was reported is not due again until the days between two reports have passed, where the
-- timestamp that was saved reads as the time of the report.
reported_not_due :
    (env : Env) (reported current : Time) (renotify : ℕ) (t : Task) (due : List Task) (s : Reports)
    → Among t due
    → (env.isoformat reported == "") ≡ false
    → env.parse (env.isoformat reported) ≡ aware reported
    → current < reported + days renotify
    → is_recent env current renotify (reported_at t.id (set_all (env.isoformat reported) due s))
      ≡ ok true
unfolding is_recent
reported_not_due env reported current renotify t due s a n p soon =
    rw (reported_at-set_all t (env.isoformat reported) due s a)
      (rw (n, p) (recent_young current reported renotify soon))

ruleset reports = (emits_rules, request_rules)

log-IsReport :
    (kind content : String) (id : Option String) → Emits IsReport (log_activity kind content id)
unfolding log_activity
log-IsReport kind content id = search reports

discord-IsReport : (s : String) → Emits IsReport (discord_notify s)
unfolding discord_notify
discord-IsReport s = search reports

stale-IsReport :
    (current : Time) (after renotify : ℕ) (due : List Task)
    → Emits IsReport (report_stale current after renotify due)
unfolding report_stale
stale-IsReport current after renotify due = search (reports, log-IsReport, discord-IsReport)

due-IsReport :
    (current : Time) (renotify : ℕ) (s : Reports) (ts : List Task)
    → Emits IsReport (due_rows current renotify s ts)
unfolding due_rows
due-IsReport current renotify s [] = search reports
due-IsReport current renotify s (t ∷ ts) =
    Emits-bind _ _ (record { at = λ env h. here })
      (λ recent.
        Emits-bind (due_rows current renotify s ts) _ (due-IsReport current renotify s ts)
          (λ rest. Emits-pure _))

rows-IsReport :
    (after renotify : ℕ) (fetched : List Task) → Emits IsReport (sweep_rows after renotify fetched)
unfolding sweep_rows
rows-IsReport after renotify fetched = search (reports, stale-IsReport, due-IsReport) depth 12

fetched-IsReport :
    (after renotify : ℕ) (o : Option (List Task)) → Emits IsReport (fetched_or after renotify o)
unfolding fetched_or
fetched-IsReport after renotify none = search reports
fetched-IsReport after renotify (some rows) = rows-IsReport after renotify rows

-- The sweep of stale tasks only reports: it changes no task and no goal, makes no task and runs no
-- session, however the world answers.
sweep_stale_with-IsReport :
    (after renotify : ℕ) (env : Env) (h : Trace)
    → Adds IsReport h (sweep_stale_with after renotify env h).1
unfolding sweep_stale_with
sweep_stale_with-IsReport after renotify env h =
    let e : Emits IsReport (sweep_stale_with after renotify) =
      search (reports, fetched-IsReport) depth 12 in
    e.at env h
