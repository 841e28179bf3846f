-- ===== src/Durability/Escalation/Laws.antt =====
-- The runs are counted, and only what has stayed becomes a task.
use az_lab.Time.{Time}
use az_lab.Durability.{Finding}
use az_lab.Durability.Runs.{Entry, Seen, State, lookup, put, note, threshold}
use az_lab.Durability.Runs.Laws.{runs_of, is_present, lookup-put, runs_of-note}
use az_lab.Durability.Escalation.{
  Queue, Request, look_up, insert, send, row_of, title_of, alert, inserted, looked_up, escalate,
  is_cooling, marked, settled, consider_entry, consider, consider_all, run,
}
use az_lab.Prelude.{
  ℕ, ◌+◌, ◌≤◌, String, ◌≡◌, refl, ◌∙◌, ap, subst, inl, inr, false, Option, none, some, List, [],
  ◌∷◌, ◌==◌, ltb, if◌then◌else◌, Bool-cases, eq_iff, ltb→le,
}

-- A task is queued for the finding of an entry that has its runs, is in no cooldown and has no open
-- row; and such a finding is marked, as is one that has an open row already.
pub data Step (q : Queue) (now : Time) (at : String) (seen : Seen) (h : List Request)
    : Seen → List Request → Type 0 where
  waits : Step q now at seen h seen h
  asks : (f : Finding) → Step q now at seen h seen (look_up (title_of f) ∷ h)
  queued_before :
      (f : Finding) (e : Entry)
      → lookup f.ident seen ≡ some e
      → Step q now at seen h (put f.ident (marked at e) seen) (look_up (title_of f) ∷ h)
  refused :
      (f : Finding) (e : Entry)
      → lookup f.ident seen ≡ some e
      → threshold f.kind ≤ e.runs
      → is_cooling q now e.escalated_at ≡ false
      → q.open_rows h (title_of f) ≡ some []
      → Step q now at seen h seen (insert (row_of f e.runs) ∷ look_up (title_of f) ∷ h)
  queued :
      (f : Finding) (e : Entry)
      → lookup f.ident seen ≡ some e
      → threshold f.kind ≤ e.runs
      → is_cooling q now e.escalated_at ≡ false
      → q.open_rows h (title_of f) ≡ some []
      → Step q now at seen h
          (put f.ident (marked at e) seen)
          (send (alert f e.runs) ∷ insert (row_of f e.runs) ∷ look_up (title_of f) ∷ h)

pub data Steps (q : Queue) (now : Time) (at : String)
    : Seen → List Request → Seen → List Request → Type 0 where
  done : {seen : Seen} {h : List Request} → Steps q now at seen h seen h
  next :
      {seen seen' seen'' : Seen} {h h' h'' : List Request}
      → Step q now at seen h seen' h'
      → Steps q now at seen' h' seen'' h''
      → Steps q now at seen h seen'' h''

module _ (q : Queue) (now : Time) (at : String) (f : Finding) (seen : Seen) (h : List Request) where
  inserted-Step :
      (e : Entry) (o : Option (List String))
      → lookup f.ident seen ≡ some e
      → threshold f.kind ≤ e.runs
      → is_cooling q now e.escalated_at ≡ false
      → q.open_rows h (title_of f) ≡ some []
      → let r =
          settled at f e seen
            (inserted f e.runs (insert (row_of f e.runs) ∷ look_up (title_of f) ∷ h) o) in
        Step q now at seen h (r.0) (r.1)
  unfolding inserted settled
  inserted-Step e none l runs cool vacant = refused f e l runs cool vacant
  inserted-Step e (some ids) l runs cool vacant = queued f e l runs cool vacant

  escalate-Step :
      (e : Entry) (o : Option (List String))
      → lookup f.ident seen ≡ some e
      → threshold f.kind ≤ e.runs
      → is_cooling q now e.escalated_at ≡ false
      → q.open_rows h (title_of f) ≡ o
      → let r = settled at f e seen (looked_up q f e.runs (look_up (title_of f) ∷ h) o) in
        Step q now at seen h (r.0) (r.1)
  unfolding looked_up settled
  escalate-Step e none l runs cool vacant = asks f
  escalate-Step e (some (id ∷ ids)) l runs cool vacant = queued_before f e l
  escalate-Step e (some []) l runs cool vacant = inserted-Step e _ l runs cool vacant

  consider_entry-Step :
      (o : Option Entry)
      → lookup f.ident seen ≡ o
      → let r = consider_entry q now at f seen h o in Step q now at seen h (r.0) (r.1)
  unfolding consider_entry escalate
  consider_entry-Step none l = waits
  consider_entry-Step (some e) l = elim (Bool-cases (ltb e.runs (threshold f.kind))) [
    | inl few ↦ rw few waits
    | inr enough ↦ elim (Bool-cases (is_cooling q now e.escalated_at)) [
      | inl cooling ↦ rw enough (rw cooling waits)
      | inr cool ↦
          rw enough
            (rw cool (escalate-Step e (q.open_rows h (title_of f)) l (ltb→le _ _ enough) cool refl))
    ]
  ]

-- The loop over the findings of a run makes only such steps: a task is queued only for a finding
-- that has been there for its number of runs, was not escalated within the cooldown, and has no open
-- row under its title.
pub consider_all-Steps :
    (q : Queue) (now : Time) (at : String) (fs : List Finding) (seen : Seen) (h : List Request)
    → Steps q now at seen h
        ((consider_all q now at fs seen h).0)
        ((consider_all q now at fs seen h).1)
unfolding consider_all consider
consider_all-Steps q now at [] seen h = done
consider_all-Steps q now at (f ∷ fs) seen h =
    next (consider_entry-Step q now at f seen h (lookup f.ident seen) refl)
      (consider_all-Steps q now at fs _ _)

-- Marking an entry leaves its runs as they are.
runs_of-marked :
    (j i at : String) (e : Entry) (seen : Seen)
    → lookup i seen ≡ some e
    → runs_of j (put i (marked at e) seen) ≡ runs_of j seen
unfolding runs_of
runs_of-marked j i at e seen l = elim (Bool-cases (i == j)) [
  | inl same ↦
      let l' : lookup j seen ≡ some e =
        subst (λ k. lookup k seen ≡ some e) ((eq_iff i j).0 same) l in
      rw (lookup-put j i (marked at e) seen) (rw same (rw l' refl))
  | inr other ↦ rw (lookup-put j i (marked at e) seen) (rw other refl)
]

Step-runs :
    {q : Queue} {now : Time} {at : String} {seen seen' : Seen} {h h' : List Request} (j : String)
    → Step q now at seen h seen' h'
    → runs_of j seen' ≡ runs_of j seen
Step-runs j waits = refl
Step-runs j (asks f) = refl
Step-runs {at = at} {seen = seen} j (queued_before f e l) = runs_of-marked j f.ident at e seen l
Step-runs j (refused f e l r c o) = refl
Step-runs {at = at} {seen = seen} j (queued f e l r c o) = runs_of-marked j f.ident at e seen l

Steps-runs :
    {q : Queue} {now : Time} {at : String} {seen seen' : Seen} {h h' : List Request} (j : String)
    → Steps q now at seen h seen' h'
    → runs_of j seen' ≡ runs_of j seen
Steps-runs j done = refl
Steps-runs j (next s rest) = Steps-runs j rest ∙ Step-runs j s

-- A run of the audit: the time, as it is written too, and what was found. The latest comes first.
pub record Past : Type 0 where
  pub now : Time
  pub at : String
  pub findings : List Finding

unfoldable pub after : Queue → List Past → State × List Request
after q [] = (record { seen = []; key = [] }, [])
after q (p ∷ ps) = let (s, h) = after q ps in run q p.now p.at p.findings s h

-- In how many runs, up to the last, the finding was there without a break.
unfoldable pub streak : String → List Past → ℕ
streak ident [] = 0
streak ident (p ∷ ps) =
    let before = streak ident ps in if is_present ident p.findings then before + 1 else 0

-- From an empty state file on, the runs that are counted of a finding are the runs in a row, up to
-- the last, in which it was found, whatever was escalated on the way.
pub runs_of-after :
    (q : Queue) (ident : String) (ps : List Past)
    → runs_of ident ((after q ps).0).seen ≡ streak ident ps
unfolding after run streak runs_of lookup
runs_of-after q ident [] = refl
runs_of-after q ident (p ∷ ps) =
    let s = (after q ps).0 in
    let seen = note s.seen p.at p.findings in
    Steps-runs ident (consider_all-Steps q p.now p.at p.findings seen ((after q ps).1))
    ∙ runs_of-note ident s.seen p.at p.findings
    ∙ ap (λ n. if is_present ident p.findings then n + 1 else 0) (runs_of-after q ident ps)
