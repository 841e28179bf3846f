-- ===== src/Durability/Escalation.antt =====
-- `escalate`, and the rest of `main`: a finding that stays becomes a task.
pub mod Laws
use az_lab.Text
use az_lab.Time.{Time, Stamp, aware, naive, unparseable}
use az_lab.Durability.{Kind, applied_migration, executing_uncommitted, kind_name, Finding, day}
use az_lab.Durability.Runs.{Entry, Seen, State, lookup, put, note, threshold, key_of}
use az_lab.Prelude.{
  ℕ, ◌-◌, ◌/◌, String, ◌<>◌, Bool, true, false, not, Option, none, some, List, [], ◌∷◌, ltb,
  if◌then◌else◌,
}

-- The task that is queued for wren; the rest of its row is constant.
pub record Row : Type 0 where
  pub title : String
  pub description : String
  pub ident : String
  pub kind : Kind
  pub runs : ℕ
  pub priority : ℕ

pub data Request : Type 0 where
  look_up : String → Request
  insert : Row → Request
  send : String → Request

-- What the queue answers, `none` where it cannot be reached: the ids of the open rows with a title,
-- and those of the rows that were made. The latest request comes first.
pub record Queue : Type 0 where
  pub open_rows : List Request → String → Option (List String)
  pub insert : List Request → Row → Option (List String)
  -- fromisoformat
  pub parse : String → Stamp

unfoldable pub title_of : Finding → String
title_of f = "Git durability: " <> (f.ident <> " unresolved")

abbrev priority_of : Kind → ℕ
priority_of applied_migration = 0
priority_of executing_uncommitted = 0
priority_of _ = 1

unfoldable pub row_of : Finding → ℕ → Row
unfolding title_of kind_name Text.show threshold
row_of f runs = record {
  title = title_of f;
  description =
      "git-durability-audit has reported this finding unchanged for "
      <> (Text.show runs
          <> (" consecutive runs (threshold "
              <> (Text.show (threshold f.kind)
                  <> ("), and it is still present:\n\n    "
                      <> (kind_name f.kind
                          <> ("  "
                              <> (f.repo
                                  <> ("  "
                                      <> (f.detail
                                          <> ("\n\nThe detector is working; what is missing is a decision. Resolve the CONTENT — commit it, .gitignore it, or push it — rather than silencing the check. Look at what the path actually holds first.\n\n    journalctl --user -u git-durability-audit.service -n 120\n    git -C ~/"
                                              <> (f.repo <> " status --porcelain")))))))))));
  ident = f.ident;
  kind = f.kind;
  runs = runs;
  priority = priority_of f.kind;
}

pub alert : Finding → ℕ → String
unfolding kind_name Text.show
alert f runs =
    "🔺 **Git durability — ESCALATED after "
    <> (Text.show runs
        <> (" runs**\n- **"
            <> (kind_name f.kind
                <> ("** `"
                    <> (f.repo
                        <> ("` — "
                            <> (f.detail
                                <> "\nQueued for wren; printing it daily was not making it go away.")))))))

inserted : Finding → ℕ → List Request → Option (List String) → Bool × List Request
unfolding alert
inserted f runs h none = (false, h)
inserted f runs h (some ids) = (true, send (alert f runs) ∷ h)

-- An open row counts as escalated; a queue that cannot be reached is tried again in the next run.
looked_up : Queue → Finding → ℕ → List Request → Option (List String) → Bool × List Request
unfolding inserted row_of
looked_up q f runs h none = (false, h)
looked_up q f runs h (some (id ∷ ids)) = (true, h)
looked_up q f runs h (some []) =
    inserted f runs (Request.insert (row_of f runs) ∷ h) (q.insert h (row_of f runs))

pub escalate : Queue → Finding → ℕ → List Request → Bool × List Request
unfolding looked_up title_of
escalate q f runs h = looked_up q f runs (look_up (title_of f) ∷ h) (q.open_rows h (title_of f))

-- ESCALATE_COOLDOWN_D
abbrev pub cooldown : ℕ
cooldown = 14

-- What cannot be compared with the clock counts as escalated today.
abbrev days_since : Time → Stamp → ℕ
days_since now (aware t) = (now - t) / day
days_since now (naive t) = 0
days_since now unparseable = 0

pub is_cooling : Queue → Time → Option String → Bool
is_cooling q now none = false
is_cooling q now (some s) = ltb (days_since now (q.parse s)) cooldown

abbrev marked : String → Entry → Entry
marked at e = record e { escalated_at = some at }

settled : String → Finding → Entry → Seen → Bool × List Request → Seen × List Request
unfolding put
settled at f e seen (true, h) = (put f.ident (marked at e) seen, h)
settled at f e seen (false, h) = (seen, h)

-- One finding, with the entry that it has.
consider_entry :
    Queue → Time → String → Finding → Seen → List Request → Option Entry → Seen × List Request
unfolding settled is_cooling threshold escalate
consider_entry q now at f seen h none = (seen, h)
consider_entry q now at f seen h (some e) =
    if ltb e.runs (threshold f.kind)
    then (seen, h)
    else if is_cooling q now e.escalated_at
    then (seen, h)
    else settled at f e seen (escalate q f e.runs h)

pub consider : Queue → Time → String → Finding → Seen → List Request → Seen × List Request
unfolding consider_entry lookup
consider q now at f seen h = consider_entry q now at f seen h (lookup f.ident seen)

pub consider_all : Queue → Time → String → List Finding → Seen → List Request → Seen × List Request
unfolding consider
consider_all q now at [] seen h = (seen, h)
consider_all q now at (f ∷ fs) seen h =
    let (seen', h') = consider q now at f seen h in consider_all q now at fs seen' h'

-- One run, with `at` the time as it is written: what the state file holds after it.
unfoldable pub run :
    Queue → Time → String → List Finding → State → List Request → State × List Request
unfolding consider_all note key_of
run q now at fs s h =
    let seen = note s.seen at fs in
    let (seen', h') = consider_all q now at fs seen h in
    (record { seen = seen'; key = key_of seen }, h')
