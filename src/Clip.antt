-- ===== src/Clip.antt =====
-- infrastructure/task-queue/poll_queue.py: the cuts of long texts, `_clip_result`,
-- `_guardian_result_excerpt` and `_notify_summary`.
pub mod Laws
use az_lab.Text
use az_lab.Prelude.{ℕ, ◌-◌, String, ◌<>◌, Option, none, some, ◌==◌, ltb, leb, if◌then◌else◌}

-- _RESULT_MAX_CHARS and _JEFF_RESULT_MAX_CHARS
abbrev pub result_max_chars : ℕ
result_max_chars = 20000

abbrev pub runaway_head : ℕ
runaway_head = 14000

abbrev pub runaway_tail : ℕ
runaway_tail = 6000

pub elision : ℕ → String
unfolding Text.show
elision n =
    "\n\n... ["
    <> (Text.show (n - runaway_head - runaway_tail)
        <> (" chars elided from the middle of a "
            <> (Text.show n <> "-char result; head and tail retained] ...\n\n")))

pub clip_text : ℕ → String → String
unfolding Text.length Text.take Text.take_last elision
clip_text cap s =
    if leb (Text.length s) cap
    then s
    else Text.take runaway_head s <> (elision (Text.length s) <> Text.take_last runaway_tail s)

unfoldable pub clip_result : Option String → ℕ → Option String
unfolding clip_text
clip_result none cap = none
clip_result (some s) cap = if s == "" then some s else some (clip_text cap s)

-- _GUARDIAN_RESULT_HEAD and _GUARDIAN_RESULT_TAIL
unfoldable pub guardian_result_excerpt : String → String
unfolding Text.length Text.take Text.take_last Text.show
guardian_result_excerpt s =
    let n = Text.length s in
    if leb n 1800
    then s
    else Text.take 900 s
      <> (("\n\n... [" <> (Text.show (n - 900 - 900) <> " chars elided] ...\n\n"))
          <> Text.take_last 900 s)

-- text.split("\n\n", 1)[0]
first_paragraph : String → String
unfolding Text.find Text.take
first_paragraph s = elim (Text.find "\n\n" s) [ none ↦ s | some i ↦ Text.take i s ]

-- `_notify_summary` with its default of 600 characters
unfoldable pub notify_summary : String → String
unfolding first_paragraph Text.strip Text.length Text.take Text.rstrip
notify_summary s =
    if s == ""
    then "done"
    else let text = Text.strip s in
      let para = Text.strip (first_paragraph text) in
      if ltb 600 (Text.length para)
      then Text.rstrip (Text.take 600 para) <> "\n… (full result in the task row)"
      else if ltb (Text.length para) (Text.length text)
      then para <> "\n… (full result in the task row)"
      else para
