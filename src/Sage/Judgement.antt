-- ===== src/Sage/Judgement.antt =====
-- infrastructure/task-queue/sage.py: what a text shows, `_is_dangerous`, `_score_complexity_local`,
-- `_result_looks_incomplete`, `_result_needs_review`, `_strip_eval_boilerplate`,
-- `_is_deployable_change` and `_has_verification_proof`. A pair of a flag and a snippet is an
-- optional snippet.
mod Cuts
pub mod Boilerplate
pub mod Scores
use az_lab.Text
use az_lab.Event.{Env, Result, ok, err}
use az_lab.Recurring.{priority_of}
use az_lab.Routing.{compared, lower_tags}
use az_lab.Queue.{Task, text}
use az_lab.Prelude.{
  ℕ, ◌+◌, ◌-◌, String, ◌<>◌, ◌≡◌, refl, Bool, true, false, not, ◌&&◌, ◌||◌, Option, none, some,
  List, [], ◌∷◌, ◌==◌, ltb, leb, eqb, if◌then◌else◌, length, any, elem,
}

-- _DANGER_PATTERNS
abbrev danger_patterns : List String
danger_patterns =
    "\\brm\\s+-rf\\b" ∷ "\\bDROP\\s+TABLE\\b" ∷ "\\bDELETE\\s+FROM\\b(?!.*WHERE)"
    ∷ "\\bFORMAT\\s+[A-Z]:" ∷ "\\bchmod\\s+777\\b" ∷ "\\bdd\\s+if=" ∷ "\\bshred\\b"
    ∷ "\\btruncate\\s+.*--size\\s+0\\b" ∷ "push\\s+--force\\s+.*main" ∷ "\\bdrop\\s+database\\b"
    ∷ "\\bdestroy\\b.*\\bproduction\\b" ∷ []

-- _DANGER_RE: the alternatives in one pattern
abbrev pub danger_re : String
danger_re = Text.join "|" danger_patterns

unfoldable pub is_dangerous : Env → String → Option String
unfolding Text.slice Text.strip Text.join
is_dangerous env s = elim (env.research danger_re s) [
  | none ↦ none
  | some (i, j) ↦ some (Text.strip (Text.slice (i - 10) (j + 30) s))
]

abbrev pub complex_word_count : ℕ
complex_word_count = 150

abbrev pub split_word_count : ℕ
split_word_count = 400

abbrev pub is_zero : Option ℕ → Bool
is_zero none = false
is_zero (some n) = eqb n 0

-- priority > 0, which a NULL does not answer
abbrev pub split_or_complex : Result Bool → Result String
split_or_complex (err e) = err e
split_or_complex (ok true) = ok "split"
split_or_complex (ok false) = ok "complex"

unfoldable pub score_complexity_local : Task → Result String
unfolding Text.words lower_tags priority_of compared
score_complexity_local t =
    let n = length (Text.words (text t.description)) in
    let priority = priority_of t.priority in
    if is_zero priority || (elem "complex" (lower_tags t) || leb complex_word_count n)
    then if leb split_word_count n
      then split_or_complex (compared (λ p. ltb 0 p) priority)
      else ok "complex"
    else ok "simple"

-- _INCOMPLETE_SIGNALS
abbrev pub incomplete_signals : List String
incomplete_signals =
    "not implemented" ∷ "todo" ∷ "placeholder" ∷ "left as an exercise" ∷ "would need to"
    ∷ "you'll need to" ∷ "unable to complete" ∷ "cannot complete" ∷ "encountered an error"
    ∷ "failed to" ∷ "could not" ∷ "timed out" ∷ []

-- _REVIEW_SIGNALS
abbrev pub review_signals : List String
review_signals =
    "recommend" ∷ "suggestion" ∷ "suggest" ∷ "consider" ∷ "you could" ∷ "you should" ∷ "i recommend"
    ∷ "i suggest" ∷ "proposed" ∷ "here are" ∷ "options:" ∷ "option 1" ∷ "next steps" ∷ "next step"
    ∷ "action items" ∷ "action item" ∷ "would you like" ∷ "let me know" ∷ "review the following"
    ∷ "please review" ∷ "for your review" ∷ "awaiting your" ∷ "waiting for your" ∷ "here is a plan"
    ∷ "here's a plan" ∷ "here is the plan" ∷ "proposed plan" ∷ []

-- The first signal of the list that the lowered text has, with the text around its first place.
unfoldable pub first_signal : ℕ → ℕ → String → String → List String → Option String
unfolding Text.find Text.length Text.slice Text.strip
first_signal before further s lower [] = none
first_signal before further s lower (k ∷ ks) =
    let rest = first_signal before further s lower ks in
    elim (Text.find k lower) [
      | none ↦ rest
      | some i ↦ some (Text.strip (Text.slice (i - before) (i + Text.length k + further) s))
    ]

unfoldable pub result_looks_incomplete : String → Option String
unfolding first_signal Text.lower
result_looks_incomplete s =
    if s == "" then some "empty result" else first_signal 20 60 s (Text.lower s) incomplete_signals

unfoldable pub result_needs_review : String → Option String
unfolding first_signal Text.lower
result_needs_review s = if s == "" then none else first_signal 10 80 s (Text.lower s) review_signals

-- The text up to the first marker.
unfoldable pub cut : String → String → String
unfolding Text.find Text.take
cut marker s = elim (Text.find marker s) [ none ↦ s | some i ↦ Text.take i s ]

unfoldable pub strip_eval_boilerplate : String → String
unfolding cut
strip_eval_boilerplate s =
    cut "---\n**Sage" (cut "---\n**Iris" (cut "\n---\n**Sage" (cut "\n---\n**Iris" s)))

-- _DEPLOYABLE_SIGNALS
abbrev pub deployable_signals : List String
deployable_signals =
    "dashboard" ∷ "ui" ∷ "frontend" ∷ "front-end" ∷ "front end" ∷ "/api/" ∷ "api route"
    ∷ "api endpoint" ∷ "deploy" ∷ "deployed" ∷ "deployment" ∷ "container" ∷ "podman" ∷ "compose"
    ∷ "traefik" ∷ "router" ∷ "proxy" ∷ "systemd" ∷ "service" ∷ "service:" ∷ "next.js" ∷ "nextjs"
    ∷ "react" ∷ "schema" ∷ "migration" ∷ "database table" ∷ "rls policy" ∷ "supabase" ∷ []

abbrev pub deployable_tags : List String
deployable_tags = "dashboard" ∷ "ui" ∷ "deploy" ∷ "infrastructure" ∷ "service" ∷ []

starts_word : String → Bool
unfolding Text.is_word
starts_word String.[] = false
starts_word (String.◌∷◌ c s) = Text.is_word c

ends_word : String → Bool
unfolding Text.is_word
ends_word String.[] = false
ends_word (String.◌∷◌ c String.[]) = Text.is_word c
ends_word (String.◌∷◌ c (String.◌∷◌ d s)) = ends_word (String.◌∷◌ d s)

-- `\b` stands only at an end of the signal that is a letter or a digit.
bounded_at : Bool → String → String → Bool
unfolding starts_word ends_word Text.is_prefix Text.length Text.drop
bounded_at inside sig s =
    not (starts_word sig && inside)
    && (Text.is_prefix sig s && not (ends_word sig && starts_word (Text.drop (Text.length sig) s)))

bounded_search : Bool → String → String → Bool
unfolding bounded_at Text.is_word
bounded_search inside sig String.[] = bounded_at inside sig String.[]
bounded_search inside sig (String.◌∷◌ c s) =
    bounded_at inside sig (String.◌∷◌ c s) || bounded_search (Text.is_word c) sig s

-- _boundary_pattern(sig).search(s)
unfoldable pub boundary_search : String → String → Bool
unfolding bounded_search
boundary_search sig s = bounded_search false sig s

unfoldable pub first_match : String → List String → Option String
unfolding boundary_search Text.strip
first_match s [] = none
first_match s (sig ∷ sigs) =
    if boundary_search sig s then some (Text.strip sig) else first_match s sigs

unfoldable pub is_deployable_change : Task → String → Option String
unfolding Text.lower lower_tags strip_eval_boilerplate first_match
is_deployable_change t result =
    let haystack =
      Text.lower
        (text t.title <> (" " <> (text t.description <> (" " <> strip_eval_boilerplate result)))) in
    if any (λ tag. elem tag (lower_tags t)) deployable_tags
    then some "tag"
    else first_match haystack deployable_signals

-- _VERIFICATION_SIGNALS
abbrev pub verification_signals : List String
verification_signals =
    "curl " ∷ "http 200" ∷ "http/200" ∷ "200 ok" ∷ "verified live" ∷ "verified in browser"
    ∷ "build succeeded" ∷ "build successful" ∷ "deploy succeeded" ∷ "deployment succeeded"
    ∷ "rollout complete" ∷ "service is up" ∷ "container healthy" ∷ "health check passed"
    ∷ "screenshot" ∷ "loaded successfully" ∷ "render confirmed" ∷ "tested in production"
    ∷ "git push" ∷ "merged into main" ∷ "merged to main" ∷ "live on home.az-lab" ∷ "journalctl"
    ∷ "systemctl status" ∷ "systemctl --user" ∷ "list-timers" ∷ "result=success"
    ∷ "activestate=active" ∷ "substate=running" ∷ "exit code 0" ∷ "exited with 0"
    ∷ "needdaemonreload=no" ∷ "timer ran" ∷ "timer fired" ∷ "probe confirmed" ∷ []

unfoldable pub has_verification_proof : String → Bool
unfolding strip_eval_boilerplate Text.lower Text.contains
has_verification_proof s =
    if s == ""
    then false
    else any (λ sig. Text.contains sig (Text.lower (strip_eval_boilerplate s))) verification_signals

judgement_tests :
    (result_looks_incomplete "All good; one test could not run."
      ≡ some "All good; one test could not run.")
    × (result_needs_review "Done." ≡ none)
    × (boundary_search "compose" "a pre-composed note" ≡ false)
    × (boundary_search "/api/" "see x/api/y" ≡ true)
    × (has_verification_proof "Done: HTTP 200." ≡ true)
    × (strip_eval_boilerplate "Done.\n\n---\n**Iris — Eval" ≡ "Done.\n")
unfolding result_looks_incomplete result_needs_review boundary_search has_verification_proof
    strip_eval_boilerplate
judgement_tests = (refl, refl, refl, refl, refl, refl)
