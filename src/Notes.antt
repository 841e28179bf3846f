-- ===== src/Notes.antt =====
-- infrastructure/task-queue/poll_queue.py: the notes to Jeff, `_extract_jeff_blocks`,
-- `note_to_jeff` and `note_to_jeff_from_result`. The constant part of a note's metadata is left out.
use az_lab.Text
use az_lab.Exec.{Exec, pure, ◌>>=◌, ◌>>◌, catch, select_tasks, select_notes, insert_note}
use az_lab.Queue.{Task, text, or_text, row_of}
use az_lab.Prelude.{
  ℕ, ◌+◌, String, ◌<>◌, Bool, true, false, not, none, some, List, [], ◌∷◌, map, ◌==◌, ltb,
  if◌then◌else◌, length, take, is_empty, keep, any,
}

abbrev jeff_marker : String
jeff_marker = ">>JEFF:"

abbrev jeff_cues : List String
jeff_cues =
    "your call" ∷ "worth your attention" ∷ "still yours" ∷ "needs your" ∷ "need your"
    ∷ "awaiting your" ∷ "waiting on you" ∷ "say the word" ∷ "left open" ∷ "deliberately did not"
    ∷ "did not close" ∷ "did not fix" ∷ "two things for you" ∷ "one thing worth"
    ∷ "two things worth" ∷ "things worth your" ∷ "flagged for jeff" ∷ "awaiting jeff"
    ∷ "jeff decision" ∷ "needs a decision" ∷ "decision gate" ∷ "your decision" ∷ "up to you" ∷ []

abbrev pub note_max_blocks : ℕ
note_max_blocks = 4

abbrev note_max_chars : ℕ
note_max_chars = 4000

-- [p.strip() for p in result.split("\n\n") if p.strip()]
pub paragraphs : String → List String
unfolding Text.strip Text.split_on
paragraphs s = keep (λ p. not (p == "")) (map Text.strip (Text.split_on "\n\n" s))

pub is_marked : String → Bool
unfolding Text.contains
is_marked p = Text.contains jeff_marker p

-- p.split(_JEFF_MARKER, 1)[1].strip() or p
marked_text : String → String
unfolding Text.find Text.drop Text.strip
marked_text p = elim (Text.find jeff_marker p) [
  | none ↦ p
  | some i ↦ or_text (Text.strip (Text.drop (i + 7) p)) p
]

pub is_cue : String → Bool
unfolding Text.contains Text.lower
is_cue p = any (λ cue. Text.contains cue (Text.lower p)) jeff_cues

-- A short cue is a heading for the paragraph that follows.
cue_block : String → List String → String
unfolding Text.length
cue_block p [] = p
cue_block p (next ∷ rest) = if ltb (Text.length p) 200 then p <> ("\n\n" <> next) else p

hits : List String → List String
unfolding is_cue cue_block
hits [] = []
hits (p ∷ ps) = let more = hits ps in if is_cue p then cue_block p ps ∷ more else more

unfoldable pub extract_jeff_blocks : String → List String
unfolding paragraphs is_marked marked_text hits
extract_jeff_blocks s =
    let paras = paragraphs s in
    let explicit = keep is_marked paras in
    take note_max_blocks (if is_empty explicit then hits paras else map marked_text explicit)

-- _URGENCY_FOR_SEVERITY
urgency_for : String → String
urgency_for severity =
    if severity == "critical"
    then "critical"
    else if severity == "warning"
    then "high"
    else if severity == "info"
    then "medium"
    else "medium"

unfoldable pub note_to_jeff : String → String → String → String → String → Exec Bool
unfolding catch insert_note ◌>>=◌ Text.take urgency_for
note_to_jeff id title body severity category =
    catch
      (do
        insert_note (record {
          severity = severity;
          title = Text.take 200 title;
          body = Text.take note_max_chars body;
          category = category;
          source_id = some id;
          urgency = urgency_for severity;
        })
        pure true)
      (λ _. pure false)

-- `(title[0].get("title") if title else "") or str(task_id)[:8]`
title_of : List Task → String → String
unfolding Text.take
title_of [] id = Text.take 8 id
title_of (t ∷ _) id = or_text (text t.title) (Text.take 8 id)

file_blocks : String → List String → Exec ℕ
unfolding select_notes select_tasks ◌>>=◌ note_to_jeff title_of Text.join
file_blocks id blocks = do
  existing ← select_notes id
  if not (is_empty existing) then pure 0 else do
    rows ← select_tasks (row_of id)
    filed ←
        note_to_jeff id (Text.take 200 ("Note from: " <> title_of rows id))
          (Text.join "\n\n---\n\n" blocks
            <> ("\n\n_Task `" <> (Text.take 8 id <> "` — full result in the task row._")))
          "warning" "agent_note"
    pure (if filed then length blocks else 0)

unfoldable pub note_to_jeff_from_result : String → String → Exec ℕ
unfolding catch extract_jeff_blocks file_blocks
note_to_jeff_from_result id result =
    let blocks = extract_jeff_blocks result in
    catch (if is_empty blocks then pure 0 else file_blocks id blocks) (λ _. pure 0)
