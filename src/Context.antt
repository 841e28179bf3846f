-- ===== src/Context.antt =====
-- infrastructure/task-queue/poll_queue.py: `_compress_via_haiku`, `_sanitize_context` and
-- `build_prompt`. A context that is no object reads as the empty one.
pub mod Laws
use az_lab.Text
use az_lab.Json
use az_lab.Json.{Json, Dict}
use az_lab.Recurring.{context_of}
use az_lab.Exec.{Exec, pure, using, ◌>>=◌, ◌>>◌, catch, run_haiku}
use az_lab.Event.{Env}
use az_lab.Queue.{Task, text}
use az_lab.Prelude.{
  ℕ, ◌+◌, ◌-◌, String, ◌<>◌, Bool, true, false, not, ◌&&◌, ◌||◌, Option, none, some, List, [], ◌∷◌,
  ◌==◌, ltb, if◌then◌else◌, or_else, keep, elem,
}

abbrev pub strip_keys : List String
strip_keys = "previous_output" ∷ "last_result" ∷ "full_transcript" ∷ "raw_output" ∷ "stdout" ∷ []

abbrev pub preserve_keys : List String
preserve_keys =
    "message" ∷ "discord_channel" ∷ "discord_webhook" ∷ "webhook_url" ∷ "channel_id" ∷ "channel"
    ∷ "recurring_key" ∷ "recurring_schedule" ∷ "recurring_parent_id" ∷ "skill_name" ∷ "timeout_secs"
    ∷ []

-- {"_retry_hint", "_prior_failure"} | _CONTEXT_PRESERVE_KEYS
unfoldable pub is_priority : String → Bool
is_priority k = k == "_retry_hint" || (k == "_prior_failure" || elem k preserve_keys)

abbrev pub context_max_chars : ℕ
context_max_chars = 3000

abbrev compress_threshold : ℕ
compress_threshold = 6000

-- A summary that is shorter than the text, or else the text cut off.
unfoldable pub compress_via_haiku : String → ℕ → String → Exec String
unfolding catch run_haiku ◌>>=◌ Text.strip Text.length Text.take Text.show
compress_via_haiku s target label =
    let cut = Text.take target s <> "\n... [truncated]" in
    catch
      (do
        out ← run_haiku (
            "Compress the following "
            <> (label
                <> (" to under "
                    <> (Text.show target
                        <> (" characters. Preserve all actionable instructions, key facts, error details, file paths, and technical specifics. Remove redundancy, verbose prose, and filler. Output ONLY the compressed text, nothing else:\n\n"
                            <> s)))))
        let compressed = Text.strip out
        pure (
            if not (compressed == "") && ltb (Text.length compressed) (Text.length s)
            then compressed
            else cut))
      (λ _. pure cut)

retry_hint : ℕ → String
unfolding Text.show
retry_hint n =
    "This task has been attempted "
    <> (Text.show n
        <> " time(s) before and failed. Start completely fresh — do NOT continue or build on the previous failed approach. Re-read the task description and try a different strategy.")

unfoldable pub with_failure : Option String → Dict → Dict
unfolding Json.set Text.take
with_failure none d = d
with_failure (some e) d =
    if e == "" then d else Json.set "_prior_failure" (Json.str (Text.take 300 e)) d

unfoldable pub with_hints : ℕ → Option String → Dict → Dict
unfolding retry_hint with_failure Json.set
with_hints n prior d =
    if ltb 0 n then with_failure prior (Json.set "_retry_hint" (Json.str (retry_hint n)) d) else d

unfoldable pub stripped : Dict → Dict
unfolding Json.keep_keys
stripped d = Json.keep_keys (λ k. not (elem k strip_keys)) d

-- len(json.dumps(_, indent=2))
pub size : Env → Dict → ℕ
unfolding Text.length
size env d = Text.length (env.dumps (Json.obj d))

unfoldable pub not_priority : String → Bool
unfolding is_priority
not_priority k = not (is_priority k)

pub compressible : Dict → Dict
unfolding not_priority Json.keep_keys
compressible d = Json.keep_keys not_priority d

-- Everything that is no payload becomes one summary.
unfoldable pub compressed_context : Dict → Exec Dict
unfolding compress_via_haiku ◌>>=◌ compressible is_priority Json.keep_keys Json.set
compressed_context d = do
  whole ← using (λ env. env.dumps (Json.obj (compressible d)))
  summary ← compress_via_haiku whole (context_max_chars - 200) "task context JSON"
  pure (Json.set "_context_compressed" (Json.str summary) (Json.keep_keys is_priority d))

is_end : Dict → Bool
is_end Json.end = true
is_end (Json.field k v d) = false

unfoldable pub compress_context : Dict → Exec Dict
unfolding size ◌>>=◌ compressed_context compressible is_end
compress_context d = do
  n ← using (λ env. size env d)
  if ltb compress_threshold n && not (is_end (compressible d)) then compressed_context d else pure d

unfoldable pub without : String → Dict → Dict
unfolding Json.keep_keys
without k d = Json.keep_keys (λ j. not (j == k)) d

-- The keys are given from the last to the first.
evict : Env → List String → Dict → Dict
unfolding size without
evict env [] d = d
evict env (k ∷ ks) d =
    let smaller = evict env ks (without k d) in
    if ltb context_max_chars (size env d) then smaller else d

unfoldable pub rev : List String → List String → List String
rev acc [] = acc
rev acc (x ∷ xs) = rev (x ∷ acc) xs

unfoldable pub capped : Env → Dict → Dict
unfolding size evict rev not_priority Json.keys Json.set
capped env d =
    let d' = evict env (rev [] (keep not_priority (Json.keys d))) d in
    if ltb context_max_chars (size env d)
    then (if ltb context_max_chars (size env d')
        then Json.set "_truncated" (Json.bool true) d'
        else d')
    else d

unfoldable pub sanitize_context : Dict → ℕ → Option String → Exec Dict
unfolding ◌>>=◌ compress_context with_hints stripped capped
sanitize_context ctx attempts prior = do
  d ← compress_context (with_hints attempts prior (stripped ctx))
  using (λ env. capped env d)

described : String → Exec String
unfolding compress_via_haiku ◌>>=◌ Text.length Text.take
described s = do
  short ← if ltb 8000 (Text.length s) then compress_via_haiku s 4000 "task description" else pure s
  pure (
      if ltb 4000 (Text.length short)
      then Text.take 4000 short <> "\n... [description truncated for context hygiene]"
      else short)

skill_hint : String → String
skill_hint name =
    if name == ""
    then ""
    else "\n\nA saved skill may apply here: `"
      <> (name
          <> ("`. Call recall_skill(name=\""
              <> (name
                  <> "\") before starting and follow it if it fits; if it is wrong or stale for this task, say so in your summary so it can be refined.\nDo not pass skill_name/success to record_task_completion — the task poller records this task's outcome automatically.")))

retry_preamble : ℕ → String
unfolding Text.show
retry_preamble n =
    if ltb 0 n
    then "⚠\u{fe0f}  RETRY ATTEMPT "
      <> (Text.show (n + 1)
          <> ": This task previously failed. Approach it fresh — do not try to resume or patch the previous failed attempt.\n\n")
    else ""

unfoldable pub build_prompt : Task → Exec String
unfolding ◌>>=◌ sanitize_context described is_end skill_hint retry_preamble Text.strip Json.text_of
    Json.get
build_prompt t = do
  let attempts = or_else t.attempt_count 0
  context ← sanitize_context (context_of t) attempts t.error
  description ← described (text t.description)
  shown ←
      using (λ env. if is_end context then "" else "\n\nContext:\n" <> env.dumps (Json.obj context))
  pure (
      retry_preamble attempts
      <> ("Task: "
          <> (text t.title
              <> ("\n\n"
                  <> (description
                      <> (shown
                          <> (skill_hint
                                (Text.strip (Json.text_of (Json.get "skill_name" (context_of t))))
                              <> "\n\nComplete this task. Be concise in your response — summarize what you did.")))))))
