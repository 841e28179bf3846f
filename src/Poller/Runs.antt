-- ===== src/Poller/Runs.antt =====
-- The statuses that a settlement may give its task.
use az_lab.Recurring.{priority_of}
use az_lab.Rules.{Emits, emits_rules, here}
use az_lab.Rules.Each.{request_rules}
use az_lab.Event.{Result, ok, err}
use az_lab.Queue.{Task}
use az_lab.Poller.{finish_as, needs_eval, finish, settle_audited, settle_as, jeff_reason, settle}
use az_lab.Exec.{lift, ◌>>=◌}
use az_lab.Routing.{is_internal_housekeeping, compared}
use az_lab.JeffLoop.{needs_jeff_input}
use az_lab.Prelude.{
  ℕ, String, ◌≡◌, refl, ap, Bool, true, false, Option, none, some, List, [], ◌∷◌, leb, elem,
}
use az_lab.Poller.Ends.{
  IsEnd, discord-IsEnd, episode-IsEnd, requeue-IsEnd, refresh-IsEnd, outcome-IsEnd, guardian-IsEnd,
  jeff-IsEnd, eval-IsEnd, completed-IsEnd,
}

ruleset ends = (emits_rules, request_rules)

module _ (allowed : List String) (t : Task) (e : Option String) (result summary : String) where
  jeff_as-IsEnd :
      elem "pending_jeff_action" allowed ≡ true
      → (reason : String) → Emits (IsEnd t.id allowed) (settle_as (some reason) t e result summary)
  unfolding settle_as
  jeff_as-IsEnd a reason = search (ends, jeff-IsEnd, episode-IsEnd) depth 12

  eval_as-IsEnd :
      elem "pending_eval" allowed ≡ true
      → Emits (IsEnd t.id allowed) (finish_as true t e result summary)
  unfolding finish_as
  eval_as-IsEnd a = search (ends, eval-IsEnd, discord-IsEnd, episode-IsEnd) depth 12

  done_as-IsEnd :
      elem "completed" allowed ≡ true
      → Emits (IsEnd t.id allowed) (finish_as false t e result summary)
  unfolding finish_as
  done_as-IsEnd a =
      search (ends, completed-IsEnd, requeue-IsEnd, outcome-IsEnd, discord-IsEnd, episode-IsEnd)
        depth 14

  finish_as-IsEnd :
      (b : Bool)
      → elem "pending_eval" allowed ≡ true
      → (b ≡ false → elem "completed" allowed ≡ true)
      → Emits (IsEnd t.id allowed) (finish_as b t e result summary)
  finish_as-IsEnd true p c = eval_as-IsEnd p
  finish_as-IsEnd false p c = done_as-IsEnd (c refl)

  -- A task whose test for Iris cannot say no is never completed here.
  finish_if-IsEnd :
      (r : Result Bool)
      → elem "pending_eval" allowed ≡ true
      → (r ≡ ok false → elem "completed" allowed ≡ true)
      → Emits (IsEnd t.id allowed) (do eval ← lift r; finish_as eval t e result summary)
  unfolding lift ◌>>=◌
  finish_if-IsEnd (ok b) p c = record { at = (finish_as-IsEnd b p (λ e. c (ap ok e))).at }
  finish_if-IsEnd (err x) p c = record { at = λ env h. here }

  audited_as-IsEnd :
      (severity : String)
      → elem "pending_jeff_action" allowed ≡ true
      → elem "pending_eval" allowed ≡ true
      → (needs_eval t ≡ ok false → elem "completed" allowed ≡ true)
      → Emits (IsEnd t.id allowed) (settle_audited severity t e result summary)
  unfolding settle_audited finish
  audited_as-IsEnd severity j p c =
      search (ends, jeff-IsEnd, discord-IsEnd, episode-IsEnd, finish_if-IsEnd) depth 14

  none_as-IsEnd :
      elem "pending_jeff_action" allowed ≡ true
      → elem "pending_eval" allowed ≡ true
      → (needs_eval t ≡ ok false → elem "completed" allowed ≡ true)
      → Emits (IsEnd t.id allowed) (settle_as none t e result summary)
  unfolding settle_as
  none_as-IsEnd j p c = search (ends, guardian-IsEnd, audited_as-IsEnd) depth 8

  settled-IsEnd :
      elem "pending_jeff_action" allowed ≡ true
      → elem "pending_eval" allowed ≡ true
      → (needs_eval t ≡ ok false → elem "completed" allowed ≡ true)
      → (jeff : Option String) → Emits (IsEnd t.id allowed) (settle_as jeff t e result summary)
  settled-IsEnd j p c (some reason) = jeff_as-IsEnd j reason
  settled-IsEnd j p c none = none_as-IsEnd j p c

-- Of the rows that `task_queue` has, the settlement of a result changes only that of its task, and the
-- status that it gives is pending_jeff_action, pending_eval or completed.
pub settle-IsEnd :
    (t : Task) (e : Option String) (result : String)
    → Emits
        (IsEnd t.id ("pending_jeff_action" ∷ "pending_eval" ∷ "completed" ∷ []))
        (settle t e result)
unfolding settle
settle-IsEnd t e result = search (ends, refresh-IsEnd, settled-IsEnd) depth 8

must_eval :
    (t : Task) (p : ℕ) → priority_of t.priority ≡ some p → leb p 1 ≡ true → needs_eval t ≡ ok true
unfolding needs_eval compared
must_eval t p q l = rw (q, l)

evaluates :
    {A : Type 0} (t : Task) (p : ℕ)
    → priority_of t.priority ≡ some p
    → leb p 1 ≡ true
    → needs_eval t ≡ ok false
    → A
evaluates t p q l f = let m = must_eval t p q l in cc

-- A task of priority 0 or 1 is never completed by the settlement of its result: whatever that says, and
-- however the world answers, its row is only given to Jeff or to Iris.
pub settle_guards_high :
    (t : Task) (e : Option String) (result : String) (p : ℕ)
    → priority_of t.priority ≡ some p
    → leb p 1 ≡ true
    → Emits (IsEnd t.id ("pending_jeff_action" ∷ "pending_eval" ∷ [])) (settle t e result)
unfolding settle
settle_guards_high t e result p q l =
    search (ends, refresh-IsEnd, settled-IsEnd, evaluates t p q l) depth 8

asked :
    (t : Task) (result reason : String)
    → is_internal_housekeeping t ≡ false
    → needs_jeff_input result ≡ some reason
    → jeff_reason t result ≡ some reason
unfolding jeff_reason
asked t result reason h n = rw (h, n)

-- A result that asks for Jeff, of a task that is not housekeeping, only ever gives the row to Jeff.
settle-asks :
    (t : Task) (e : Option String) (result reason : String)
    → is_internal_housekeeping t ≡ false
    → needs_jeff_input result ≡ some reason
    → Emits (IsEnd t.id ("pending_jeff_action" ∷ [])) (settle t e result)
unfolding settle
settle-asks t e result reason h n =
    rw (asked t result reason h n) (search (ends, refresh-IsEnd, jeff_as-IsEnd) depth 8)
