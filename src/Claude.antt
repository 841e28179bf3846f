-- ===== src/Claude.antt =====
-- infrastructure/task-queue/poll_queue.py: `run_claude`, the events of a session as they stream in.
-- The process is behind `run_claude` of the environment, whose answer is what it printed, with
-- whether each line was read after the deadline. The two threads beside the reader are not modelled:
-- the watchdog, which may kill the process, and the ticker, which writes heartbeats.
pub mod Laws
use az_lab.Text
use az_lab.Json
use az_lab.Json.{Json, null, bool, num, str, arr, obj, end, field}
use az_lab.Event.{Env, Exn, Result, ok, err, type_error, runtime_error, Line, Session, shown_json}
use az_lab.Report.{log_activity}
use az_lab.Exec.{Exec, pure, raise, lift, using, ◌>>=◌, ◌>>◌, start_claude, kill_proc}
use az_lab.Prelude.{
  ℕ, ◌+◌, String, ◌<>◌, Bool, true, false, Option, none, some, List, [], ◌∷◌, ◌==◌, if◌then◌else◌,
  eqb,
}

-- d.get(k, default)
unfoldable pub get_or : String → Json → Json.Dict → Json
unfolding Json.has Json.get
get_or k default d = if Json.has k d then Json.get k d else default

type_name : Json → String
type_name null = "NoneType"
type_name (bool b) = "bool"
type_name (num n) = "int"
type_name (str s) = "str"
type_name (arr xs) = "list"
type_name (obj d) = "dict"

unfoldable pub no_attribute : String → Json → Exn
unfolding type_name
no_attribute name v =
    type_error ("'" <> (type_name v <> ("' object has no attribute '" <> (name <> "'"))))

-- v.get(…) and v.strip()
unfoldable pub dict_of : Json → Result Json.Dict
unfolding no_attribute
dict_of (obj d) = ok d
dict_of null = err (no_attribute "get" null)
dict_of (bool b) = err (no_attribute "get" (bool b))
dict_of (num n) = err (no_attribute "get" (num n))
dict_of (str s) = err (no_attribute "get" (str s))
dict_of (arr xs) = err (no_attribute "get" (arr xs))

unfoldable pub string_of : Json → Result String
unfolding no_attribute
string_of (str s) = ok s
string_of null = err (no_attribute "strip" null)
string_of (bool b) = err (no_attribute "strip" (bool b))
string_of (num n) = err (no_attribute "strip" (num n))
string_of (arr xs) = err (no_attribute "strip" (arr xs))
string_of (obj d) = err (no_attribute "strip" (obj d))

-- for x in v: a text and a dict are run through too, in texts, which have no `get`
unfoldable pub blocks_of : Json → Result (List Json)
unfolding Json.items no_attribute type_name
blocks_of (arr xs) = ok (Json.items xs)
blocks_of (obj end) = ok []
blocks_of (obj (field k v d)) = err (no_attribute "get" (str k))
blocks_of (str s) = if s == "" then ok [] else err (no_attribute "get" (str s))
blocks_of null = err (type_error "'NoneType' object is not iterable")
blocks_of (bool b) = err (type_error "'bool' object is not iterable")
blocks_of (num n) = err (type_error "'int' object is not iterable")

unfoldable pub is_str : String → Json → Bool
is_str t (str s) = s == t
is_str t _ = false

-- An activity of a session is written only where it has a task.
unfoldable pub note : Option String → String → String → Exec (Unit {0})
unfolding pure log_activity
note none kind content = pure tt
note (some id) kind content = log_activity kind content (some id)

unfoldable pub on_text : Option String → Json.Dict → Exec (Unit {0})
unfolding ◌>>=◌ lift get_or string_of Text.strip Text.take note
on_text task d = do
  raw ← lift (string_of (get_or "text" (str "") d))
  if Text.strip raw == "" then pure tt else note task "thinking" (Text.take 200 (Text.strip raw))

unfoldable pub on_tool_use : Option String → Json.Dict → Exec (Unit {0})
unfolding ◌>>=◌ using get_or Text.take shown_json note
on_tool_use task d = do
  name ← using (λ env. shown_json env (get_or "name" (str "unknown") d))
  input ← using (λ env. Text.take 120 (env.dumps_compact (get_or "input" (obj end) d)))
  note task "tool_call" (name <> (": " <> input))

text_or : Json.Dict → List Json → List Json
unfolding get_or is_str Json.get
text_or d others =
    if is_str "text" (Json.get "type" d) then get_or "text" (str "") d ∷ others else others

add_text : Result Json.Dict → Result (List Json) → Result (List Json)
unfolding text_or
add_text (err e) rest = err e
add_text (ok d) (err e) = err e
add_text (ok d) (ok others) = ok (text_or d others)

-- [c.get("text", "") for c in content if c.get("type") == "text"]
unfoldable pub texts_of : List Json → Result (List Json)
unfolding add_text dict_of
texts_of [] = ok []
texts_of (c ∷ cs) = add_text (dict_of c) (texts_of cs)

joined : ℕ → String → List Json → Result String
unfolding type_name Text.show
joined n so_far [] = ok so_far
joined n so_far (str s ∷ xs) = joined (n + 1) (if eqb n 0 then s else so_far <> (" " <> s)) xs
joined n so_far (v ∷ xs) = err (
    type_error (
      "sequence item "
      <> (Text.show n <> (": expected str instance, " <> (type_name v <> " found")))))

content_of : Result (List Json) → Result String
unfolding joined
content_of (err e) = err e
content_of (ok texts) = joined 0 "" texts

-- The content of a tool's result, as a text.
unfoldable pub result_text : Env → Json → Result String
unfolding content_of texts_of shown_json Json.items
result_text env (arr xs) = content_of (texts_of (Json.items xs))
result_text env (str s) = ok s
result_text env (obj d) = ok (shown_json env (obj d))
result_text env null = ok (shown_json env null)
result_text env (bool b) = ok (shown_json env (bool b))
result_text env (num n) = ok (shown_json env (num n))

unfoldable pub on_tool_result : Option String → Json.Dict → Exec (Unit {0})
unfolding ◌>>=◌ lift using get_or result_text Text.strip Text.take note
on_tool_result task d = do
  read ← using (λ env. result_text env (get_or "content" (str "") d))
  content ← lift read
  if Text.strip (Text.take 120 content) == ""
      then pure tt
      else note task "result" ("← " <> Text.strip (Text.take 120 content))

unfoldable pub on_dict : Option String → Json.Dict → Exec (Unit {0})
unfolding get_or is_str on_text on_tool_use on_tool_result pure
on_dict task d =
    let kind = get_or "type" (str "") d in
    if is_str "text" kind
    then on_text task d
    else if is_str "tool_use" kind
    then on_tool_use task d
    else if is_str "tool_result" kind
    then on_tool_result task d
    else pure tt

unfoldable pub on_blocks : Option String → List Json → Exec (Unit {0})
unfolding ◌>>=◌ pure lift dict_of on_dict
on_blocks task [] = pure tt
on_blocks task (b ∷ bs) =
    let rest = on_blocks task bs in lift (dict_of b) >>= λ d. on_dict task d >>= λ _. rest

unfoldable pub on_assistant : Option String → Json.Dict → Exec (Unit {0})
unfolding ◌>>=◌ lift get_or dict_of blocks_of on_blocks
on_assistant task d = do
  message ← lift (dict_of (get_or "message" (obj end) d))
  blocks ← lift (blocks_of (get_or "content" (arr Json.nil) message))
  on_blocks task blocks

-- The final text so far, after an event.
unfoldable pub on_event : Option String → Json → Json.Dict → Exec Json
unfolding ◌>>=◌ pure get_or is_str on_assistant
on_event task final d =
    let kind = get_or "type" (str "") d in
    if is_str "assistant" kind
    then (do on_assistant task d; pure final)
    else pure (if is_str "result" kind then get_or "result" (str "") d else final)

-- A line that is empty or no JSON is skipped.
unfoldable pub on_json : Option String → Json → Option Json → Exec Json
unfolding ◌>>=◌ pure lift dict_of on_event
on_json task final none = pure final
on_json task final (some v) = do d ← lift (dict_of v); on_event task final d

unfoldable pub on_line : Option String → Json → String → Exec Json
unfolding ◌>>=◌ pure using on_json Text.strip
on_line task final raw = do
  parsed ← using (λ env. env.loads (Text.strip raw))
  if Text.strip raw == "" then pure final else on_json task final parsed

timed_out : ℕ → Exn
unfolding Text.show
timed_out timeout = runtime_error ("claude timed out after " <> (Text.show timeout <> "s"))

-- The lines in their order; at one that comes after the deadline the process is killed.
unfoldable pub read_lines : Session → Option String → Json → List Line → Exec Json
unfolding ◌>>=◌ pure raise timed_out on_line kill_proc
read_lines session task final [] = pure final
read_lines session task final (l ∷ ls) =
    let step = on_line task final l.text >>= λ final'. read_lines session task final' ls in
    if l.late then (do kill_proc session.pid; raise (timed_out session.timeout)) else step

exited : Session → Exn
unfolding Text.show Text.take_last
exited s = runtime_error ("claude exited " <> (s.status <> (": " <> Text.take_last 200 s.errors)))

-- The last result, stripped, of a process that ended well.
unfoldable pub closed : Session → Json → Exec String
unfolding ◌>>=◌ pure raise lift string_of exited Text.strip
closed session final =
    if session.success
    then (do s ← lift (string_of final); pure (Text.strip s))
    else raise (exited session)

unfoldable pub ended : Option String → Session → Exec String
unfolding ◌>>=◌ read_lines closed
ended task session = do final ← read_lines session task (str "") session.lines; closed session final

-- `run_claude(prompt, task_id, model, timeout)`
unfoldable pub run_claude : String → Option String → Option String → Option Json → Exec String
unfolding ◌>>=◌ start_claude ended
run_claude prompt task model timeout = do
  session ← start_claude prompt model timeout
  ended task session
