-- ===== src/Claude/Laws.antt =====
-- What a session that returns has shown, and what it writes.
use az_lab.Text
use az_lab.Json.{Json, str, obj, null, bool, num, arr, Dict}
use az_lab.Event.{Env, Event, Trace, Result, ok, Line, Session}
use az_lab.Exec.{raise, kill_proc, pure, lift, start_claude}
use az_lab.Report.{log_activity}
use az_lab.Rules.{Emits, emits_rules}
use az_lab.Rules.Each.{request_rules}
use az_lab.Rules.Inversion.{outcome, after, bind-ok}
use az_lab.Claude.{
  get_or, is_str, string_of, note, on_text, on_tool_use, on_tool_result, on_dict, on_blocks,
  on_assistant, on_event, on_json, on_line, timed_out, read_lines, closed, ended, run_claude,
}
use az_lab.Prelude.{
  String, ◌≡◌, sym, ap, ◌∙◌, inl, inr, true, false, Option, none, some, List, [], ◌∷◌, ◌==◌,
  if◌then◌else◌, All, Bool-cases,
}

-- The result event that a line is, if it is one.
abbrev result_in : Json → Json → Json
result_in final (obj d) =
    if is_str "assistant" (get_or "type" (str "") d)
    then final
    else if is_str "result" (get_or "type" (str "") d)
    then get_or "result" (str "") d
    else final
result_in final _ = final

abbrev result_or : Json → Option Json → Json
result_or final none = final
result_or final (some v) = result_in final v

-- The result of the last line that is a result event, as it is read off the output.
pub last_result : Env → Json → List Line → Json
last_result env final [] = final
last_result env final (l ∷ ls) =
    last_result env
      (if Text.strip l.text == "" then final else result_or final (env.loads (Text.strip l.text)))
      ls

pure-ok : {A : Type 0} (a b : A) (env : Env) (h h' : Trace) → pure a env h ≡ (ok b, h') → a ≡ b
unfolding pure
pure-ok a b env h h' e = cc

lift-ok :
    {A : Type 0} (r : Result A) (b : A) (env : Env) (h : Trace)
    → outcome (lift r) env h ≡ ok b
    → r ≡ ok b
unfolding lift
lift-ok r b env h e = e

event-ok :
    (task : Option String) (final v : Json) (d : Dict) (env : Env) (h h' : Trace)
    → on_event task final d env h ≡ (ok v, h')
    → v ≡ result_in final (obj d)
unfolding on_event
event-ok task final v d env h h' e =
    elim (Bool-cases (is_str "assistant" (get_or "type" (str "") d))) [
      | inl assistant ↦
          let e' = rw assistant at e in
          let (u, q, e1) = bind-ok (on_assistant task d) (λ _. pure final) env h v h' e' in
          rw assistant (sym (pure-ok final v env _ h' e1))
      | inr other ↦ let e' = rw other at e in rw other (sym (pure-ok _ v env h h' e'))
    ]

json-ok :
    (task : Option String) (final v : Json) (o : Option Json) (env : Env) (h h' : Trace)
    → on_json task final o env h ≡ (ok v, h')
    → v ≡ result_or final o
unfolding on_json
json-ok task final v none env h h' e = sym (pure-ok final v env h h' e)
json-ok task final v (some (obj d)) env h h' e = event-ok task final v d env h h' e
json-ok task final v (some null) env h h' e = cc
json-ok task final v (some (bool b)) env h h' e = cc
json-ok task final v (some (num n)) env h h' e = cc
json-ok task final v (some (str s)) env h h' e = cc
json-ok task final v (some (arr xs)) env h h' e = cc

line-ok :
    (task : Option String) (final v : Json) (raw : String) (env : Env) (h h' : Trace)
    → on_line task final raw env h ≡ (ok v, h')
    → v ≡ (if Text.strip raw == "" then final else result_or final (env.loads (Text.strip raw)))
unfolding on_line
line-ok task final v raw env h h' e = elim (Bool-cases (Text.strip raw == "")) [
  | inl blank ↦ let e' = rw blank at e in rw blank (sym (pure-ok final v env h h' e'))
  | inr full ↦
      let e' = rw full at e in
      rw full (json-ok task final v (env.loads (Text.strip raw)) env h h' e')
]

-- The lines of a reading that returns: none was late, and the value is the last result.
lines-ok :
    (session : Session) (task : Option String) (ls : List Line) (final v : Json) (env : Env)
    (h h' : Trace)
    → read_lines session task final ls env h ≡ (ok v, h')
    → All (λ (l : Line). l.late ≡ false) ls × (v ≡ last_result env final ls)
unfolding read_lines last_result raise
lines-ok session task [] final v env h h' e = (tt, sym (pure-ok final v env h h' e))
lines-ok session task (l ∷ ls) final v env h h' e = elim (Bool-cases l.late) [
  | inl late ↦
      let e' = rw late at e in
      let (u, q, e1) =
        bind-ok (kill_proc session.pid) (λ u. raise (timed_out session.timeout)) env h v h' e' in
      cc
  | inr timely ↦
      let e' = rw timely at e in
      let (u, q, e1) =
        bind-ok (on_line task final l.text) (λ w. read_lines session task w ls) env h v h' e' in
      let step = line-ok task final u l.text env h (after (on_line task final l.text) env h) cc in
      let (rest, last) = lines-ok session task ls u v env _ h' e1 in
      ((timely, rest), last ∙ ap (λ w. last_result env w ls) step)
]

-- What a session that returns has shown: the process ended well, no line came after the deadline,
-- and the text returned is the result of its last result event, without the blanks around it.
pub record Shows (env : Env) (session : Session) (s : String) : Type 0 where
  pub well : session.success ≡ true
  pub in_time : All (λ (l : Line). l.late ≡ false) session.lines
  pub raw : String
  pub last : last_result env (str "") session.lines ≡ str raw
  pub stripped : s ≡ Text.strip raw

string_of-ok : (j : Json) (s : String) → string_of j ≡ ok s → j ≡ str s
unfolding string_of
string_of-ok (str t) s e = let same : t ≡ s = cc in ap str same
string_of-ok null s e = cc
string_of-ok (bool b) s e = cc
string_of-ok (num n) s e = cc
string_of-ok (arr xs) s e = cc
string_of-ok (obj d) s e = cc

closed-shows :
    (session : Session) (final : Json) (s : String) (env : Env) (h h' : Trace)
    → closed session final env h ≡ (ok s, h')
    → (session.success ≡ true) × (raw : String) × (final ≡ str raw) × (s ≡ Text.strip raw)
unfolding closed
closed-shows session final s env h h' e = elim (Bool-cases session.success) [
  | inl well ↦
      let e' = rw well at e in
      let (raw, q, e1) =
        bind-ok (lift (string_of final)) (λ x. pure (Text.strip x)) env h s h' e' in
      (well, raw, string_of-ok final raw q, sym (pure-ok (Text.strip raw) s env _ h' e1))
  | inr failed ↦ let e' = rw failed at e in cc
]

ended-Shows :
    (task : Option String) (session : Session) (s : String) (env : Env) (h h' : Trace)
    → ended task session env h ≡ (ok s, h')
    → Shows env session s
unfolding ended
ended-Shows task session s env h h' e =
    let m = read_lines session task (str "") session.lines in
    let (final, q, e1) = bind-ok m (λ x. closed session x) env h s h' e in
    let (in_time, last) =
      lines-ok session task session.lines (str "") final env h (after m env h) cc in
    let (well, raw, text, stripped) = closed-shows session final s env _ h' e1 in
    record {
      well = well;
      in_time = in_time;
      raw = raw;
      last = sym last ∙ text;
      stripped = stripped;
    }

-- Where run_claude returns, the process was started and ended well, no line that it printed was read
-- after the deadline, and the text is that of its last result event. (A session that prints nothing
-- after the deadline may still return late: the deadline is looked at with each line.)
pub run_claude-Shows :
    (prompt : String) (task model : Option String) (timeout : Option Json) (env : Env) (h : Trace)
    (s : String)
    → outcome (run_claude prompt task model timeout) env h ≡ ok s
    → (session : Session) × (env.run_claude h prompt model timeout ≡ ok session)
      × Shows env session s
unfolding run_claude start_claude
run_claude-Shows prompt task model timeout env h s e =
    let (session, started, e1) =
      bind-ok (start_claude prompt model timeout) (ended task) env h s
        (after (run_claude prompt task model timeout) env h)
        (ap (λ r. (r, after (run_claude prompt task model timeout) env h)) e) in
    (
      session,
      started,
      ended-Shows task session s env (after (start_claude prompt model timeout) env h) _ e1,
    )

-- A session writes the activities of its own task and nothing else.
abbrev pub IsNoted : Option String → Event → Type 0
IsNoted task (Event.run_claude p m t) = Unit
IsNoted task (Event.kill pid) = Unit
IsNoted task (Event.insert_activity kind content id) = id ≡ task
IsNoted task _ = ⊥

ruleset noted = (emits_rules, request_rules)

note-IsNoted :
    (task : Option String) (kind content : String) → Emits (IsNoted task) (note task kind content)
unfolding note log_activity
note-IsNoted none kind content = search noted
note-IsNoted (some id) kind content = search noted

module _ (task : Option String) where
  text-IsNoted : (d : Dict) → Emits (IsNoted task) (on_text task d)
  unfolding on_text
  text-IsNoted d = search (noted, note-IsNoted task) depth 12

  use-IsNoted : (d : Dict) → Emits (IsNoted task) (on_tool_use task d)
  unfolding on_tool_use
  use-IsNoted d = search (noted, note-IsNoted task) depth 12

  result-IsNoted : (d : Dict) → Emits (IsNoted task) (on_tool_result task d)
  unfolding on_tool_result
  result-IsNoted d = search (noted, note-IsNoted task) depth 12

  dict-IsNoted : (d : Dict) → Emits (IsNoted task) (on_dict task d)
  unfolding on_dict
  dict-IsNoted d = search (noted, text-IsNoted, use-IsNoted, result-IsNoted) depth 12

  blocks-IsNoted : (bs : List Json) → Emits (IsNoted task) (on_blocks task bs)
  unfolding on_blocks
  blocks-IsNoted [] = search noted
  blocks-IsNoted (b ∷ bs) = let rest = blocks-IsNoted bs in search (noted, dict-IsNoted) depth 12

  assistant-IsNoted : (d : Dict) → Emits (IsNoted task) (on_assistant task d)
  unfolding on_assistant
  assistant-IsNoted d = search (noted, blocks-IsNoted) depth 12

  event-IsNoted : (final : Json) (d : Dict) → Emits (IsNoted task) (on_event task final d)
  unfolding on_event
  event-IsNoted final d = search (noted, assistant-IsNoted) depth 12

  json-IsNoted : (final : Json) (o : Option Json) → Emits (IsNoted task) (on_json task final o)
  unfolding on_json
  json-IsNoted final none = search noted
  json-IsNoted final (some v) = search (noted, event-IsNoted) depth 12

  line-IsNoted : (final : Json) (raw : String) → Emits (IsNoted task) (on_line task final raw)
  unfolding on_line
  line-IsNoted final raw = search (noted, json-IsNoted) depth 12

  lines-IsNoted :
      (session : Session) (final : Json) (ls : List Line)
      → Emits (IsNoted task) (read_lines session task final ls)
  unfolding read_lines
  lines-IsNoted session final [] = search noted
  lines-IsNoted session final (l ∷ ls) =
      let rest = λ (w : Json). lines-IsNoted session w ls in search (noted, line-IsNoted) depth 12

  closed-IsNoted : (s : Session) (final : Json) → Emits (IsNoted task) (closed s final)
  unfolding closed
  closed-IsNoted s final = search noted depth 12

  ended-IsNoted : (s : Session) → Emits (IsNoted task) (ended task s)
  unfolding ended
  ended-IsNoted s = search (noted, lines-IsNoted, closed-IsNoted) depth 12

  -- Whatever the session prints, the reading of its lines writes activities of its own task alone,
  -- and at most kills the process.
  run_claude-IsNoted :
      (prompt : String) (model : Option String) (timeout : Option Json)
      → Emits (IsNoted task) (run_claude prompt task model timeout)
  unfolding run_claude
  run_claude-IsNoted prompt model timeout = search (noted, ended-IsNoted) depth 12
