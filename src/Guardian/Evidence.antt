-- ===== src/Guardian/Evidence.antt =====
-- infrastructure/task-queue/poll_queue.py: `_guardian_work_evidence`, what the agent did by git and
-- by its activity log.
pub mod Laws
use az_lab.Text
use az_lab.Event.{Command}
use az_lab.Exec.{Exec, pure, using, ◌>>=◌, catch, is_dir, run_command, select_activity}
use az_lab.Queue.{Task, Activity, text}
use az_lab.Prelude.{
  ℕ, String, ◌<>◌, Option, none, some, List, [], ◌∷◌, ◌++◌, ◌==◌, if◌then◌else◌, map, is_empty, ltb,
  or_else,
}

-- With the names that os.path.basename gives them.
abbrev pub guardian_repos : List (String × String)
guardian_repos = ("~/azlab", "azlab") ∷ ("~/dashboard", "dashboard") ∷ ("~/claude", "claude") ∷ []

abbrev pub evidence_max : ℕ
evidence_max = 1500

commit_lines : String → Command → List String
unfolding Text.strip Text.splitlines
commit_lines name c =
    let out = Text.strip c.out in
    if out == ""
    then []
    else ("commits in "
        <> (name
            <> " during this task's window (AMBIENT, NOT ATTRIBUTED — this host also runs interactive sessions and other agents against the same repos, so a commit here may belong to somebody else entirely):"))
      ∷ map (λ l. "  " <> l) (Text.splitlines out)

-- A probe that fails adds nothing.
unfoldable pub probe_repo : String → String × String → Exec (List String)
unfolding commit_lines
probe_repo since (path, name) = do
  repo ← using (λ env. env.expanduser path)
  there ← is_dir (repo <> "/.git")
  if there
      then catch
          (do
            c ←
                run_command
                  ("git"
                    ∷ "-C"
                    ∷ repo
                    ∷ "log"
                    ∷ "--all"
                    ∷ ("--since=" <> since)
                    ∷ "--pretty=format:%h %s"
                    ∷ "-n"
                    ∷ "15"
                    ∷ [])
                  none
            pure (commit_lines name c))
          (λ _. pure [])
      else pure []

unfoldable pub probe_repos : String → List (String × String) → Exec (List String)
unfolding ◌>>=◌ pure probe_repo
probe_repos since [] = pure []
probe_repos since (r ∷ rs) =
    let rest = probe_repos since rs in
    probe_repo since r >>= λ here. rest >>= λ others. pure (here ++ others)

activity_line : Activity → String
unfolding Text.take
activity_line a =
    "  [" <> (or_else a.activity_type "None" <> ("] " <> Text.take 160 (text a.content)))

activity_lines : List Activity → List String
unfolding activity_line
activity_lines [] = []
activity_lines (a ∷ as') = "activity log for this task:" ∷ map activity_line (a ∷ as')

unfoldable pub probe_activity : Task → Exec (List String)
unfolding activity_lines
probe_activity t =
    catch (do rows ← select_activity t.id none 40; pure (activity_lines rows)) (λ _. pure [])

-- The evidence is cut at its cap, and a lack of any is said to be no proof.
unfoldable pub evidence_of : List String → String
unfolding Text.join Text.length Text.take
evidence_of [] =
    "(no work evidence available — probes returned nothing. Treat this as UNKNOWN, not as proof the agent did nothing.)"
evidence_of (l ∷ ls) =
    let evidence = Text.join "\n" (l ∷ ls) in
    if ltb evidence_max (Text.length evidence)
    then Text.take evidence_max evidence <> "\n  ... [evidence truncated]"
    else evidence

-- git is asked only about a task that was claimed.
unfoldable pub commits_since : Option String → Exec (List String)
commits_since none = pure []
commits_since (some since) = if since == "" then pure [] else probe_repos since guardian_repos

unfoldable pub work_evidence : Task → Exec String
work_evidence t = do
  commits ← commits_since t.claimed_at
  activity ← probe_activity t
  pure (evidence_of (commits ++ activity))
