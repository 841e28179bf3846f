-- ===== src/Guardian/Evidence/Laws.antt =====
-- What the evidence asks for, that it never raises, and how long it is.
use az_lab.Text
use az_lab.Event.{Event}
use az_lab.Exec.{is_dir, run_command}
use az_lab.Queue.{Task}
use az_lab.Rules.{Quiet, quiet_rules, Emits, emits_rules, more, here}
use az_lab.Rules.Each.{request_rules}
use az_lab.Guardian.Evidence.{
  probe_repo, probe_repos, probe_activity, commits_since, work_evidence, evidence_of, evidence_max,
}
use az_lab.Prelude.{
  ℕ, ◌+◌, ◌≤◌, String, inl, inr, Option, none, some, List, [], ◌∷◌, ltb, Bool-cases, ltb→le, arith,
}

Quiet-is_dir : (path : String) → Quiet (is_dir path)
unfolding is_dir
Quiet-is_dir path = record { at = λ env h. tt }

ruleset quiet = (quiet_rules, Quiet-is_dir)

repo-Quiet : (since : String) (r : String × String) → Quiet (probe_repo since r)
unfolding probe_repo
repo-Quiet since (path, name) = search quiet

repos-Quiet : (since : String) (rs : List (String × String)) → Quiet (probe_repos since rs)
unfolding probe_repos
repos-Quiet since [] = search quiet
repos-Quiet since (r ∷ rs) =
    let rest = repos-Quiet since rs in let first = repo-Quiet since r in search quiet

activity-Quiet : (t : Task) → Quiet (probe_activity t)
unfolding probe_activity
activity-Quiet t = search quiet

commits-Quiet : (o : Option String) → Quiet (commits_since o)
unfolding commits_since
commits-Quiet none = search quiet
commits-Quiet (some since) = search (quiet, repos-Quiet)

pub evidence-Quiet : (t : Task) → Quiet (work_evidence t)
unfolding work_evidence
evidence-Quiet t = search (quiet, commits-Quiet, activity-Quiet)

-- The requests of the evidence: where a property holds of all that read, it holds of them.
module _ (P : Event → Type 0) (stats : (path : String) → P (Event.stat path))
    (commands : (args : List String) (input : Option String) → P (Event.run_command args input))
    (reads : (id : String) (n : ℕ) → P (Event.select_activity id none n)) where
  command-Emits : (args : List String) (input : Option String) → Emits P (run_command args input)
  unfolding run_command
  command-Emits args input = record { at = λ env h. more (commands args input) here }

  ruleset reading = (emits_rules, request_rules, command-Emits)

  repo-Emits : (since : String) (r : String × String) → Emits P (probe_repo since r)
  unfolding probe_repo
  repo-Emits since (path, name) = search reading depth 12

  repos-Emits : (since : String) (rs : List (String × String)) → Emits P (probe_repos since rs)
  unfolding probe_repos
  repos-Emits since [] = search reading
  repos-Emits since (r ∷ rs) =
      let rest = repos-Emits since rs in let first = repo-Emits since r in search reading

  activity-Emits : (t : Task) → Emits P (probe_activity t)
  unfolding probe_activity
  activity-Emits t = search reading depth 12

  commits-Emits : (o : Option String) → Emits P (commits_since o)
  unfolding commits_since
  commits-Emits none = search reading
  commits-Emits (some since) = search (reading, repos-Emits)

  pub evidence-Emits : (t : Task) → Emits P (work_evidence t)
  unfolding work_evidence
  evidence-Emits t = search (reading, commits-Emits, activity-Emits)

-- However much the probes find, the evidence has at most 1527 characters.
pub evidence_bounded : (lines : List String) → Text.length (evidence_of lines) ≤ evidence_max + 27
unfolding evidence_of
evidence_bounded [] = omega arith
evidence_bounded (l ∷ ls) =
    let evidence = Text.join "\n" (l ∷ ls) in
    elim (Bool-cases (ltb evidence_max (Text.length evidence))) [
      | inl long ↦ rw long (
          rw (Text.length-append (Text.take evidence_max evidence) "\n  ... [evidence truncated]")
            (omega (arith, Text.length-take evidence_max evidence)))
      | inr short ↦ rw short (omega (arith, ltb→le evidence_max (Text.length evidence) short))
    ]
