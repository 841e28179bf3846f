-- ===== src/Durability/Runs.antt =====
-- `main`, the persistence: in how many runs in a row each finding was there.
pub mod Laws
use az_lab.Keys
use az_lab.Keys.{Report}
use az_lab.Text
use az_lab.Durability.{Kind, applied_migration, executing_uncommitted, kind_name, Finding}
use az_lab.Prelude.{
  ℕ, ◌+◌, String, ◌<>◌, Bool, Option, none, some, List, [], ◌∷◌, map, ◌==◌, if◌then◌else◌, is_empty,
  length,
}

-- What the state file holds of a finding.
pub record Entry : Type 0 where
  pub kind : Kind
  pub repo : String
  pub detail : String
  pub runs : ℕ
  pub first_seen : String
  pub last_seen : String
  pub escalated_at : Option String

abbrev pub Seen : Type 0
Seen = List (String × Entry)

unfoldable pub lookup : String → Seen → Option Entry
lookup ident [] = none
lookup ident ((i, e) ∷ s) = if i == ident then some e else lookup ident s

-- seen[ident] = e
unfoldable pub put : String → Entry → Seen → Seen
put ident e [] = (ident, e) ∷ []
put ident e ((i, d) ∷ s) =
    let rest = put ident e s in if i == ident then (i, e) ∷ s else (i, d) ∷ rest

-- What an earlier run wrote of the same finding is carried on.
unfoldable pub next_entry : String → Finding → Option Entry → Entry
next_entry at f none = record {
  kind = f.kind;
  repo = f.repo;
  detail = f.detail;
  runs = 1;
  first_seen = at;
  last_seen = at;
  escalated_at = none;
}
next_entry at f (some was) = record {
  kind = f.kind;
  repo = f.repo;
  detail = f.detail;
  runs = was.runs + 1;
  first_seen = was.first_seen;
  last_seen = at;
  escalated_at = was.escalated_at;
}

unfoldable pub note_from : Seen → String → List Finding → Seen → Seen
unfolding next_entry lookup put
note_from prev at [] seen = seen
note_from prev at (f ∷ fs) seen =
    note_from prev at fs (put f.ident (next_entry at f (lookup f.ident prev)) seen)

-- What is not found again is forgotten.
unfoldable pub note : Seen → String → List Finding → Seen
unfolding note_from
note prev at fs = note_from prev at fs []

-- ESCALATE_AFTER_RUNS
unfoldable pub threshold : Kind → ℕ
threshold applied_migration = 2
threshold executing_uncommitted = 2
threshold _ = 4

idents_of : Seen → List String
idents_of [] = []
idents_of ((i, e) ∷ s) = i ∷ idents_of s

-- The state file: the entries, and the key that the first version kept.
pub record State : Type 0 where
  pub seen : Seen
  pub key : List String

prev_idents : State → List String
unfolding idents_of Keys.sorted
prev_idents s = if is_empty s.seen then Keys.sorted s.key else Keys.sorted (idents_of s.seen)

unfoldable pub key_of : Seen → List String
unfolding idents_of Keys.sorted
key_of s = Keys.sorted (idents_of s)

line_of : Finding → String
unfolding kind_name
line_of f = "- **" <> (kind_name f.kind <> ("** `" <> (f.repo <> ("` — " <> f.detail))))

message_of : List Finding → List String → Option String
unfolding line_of Text.join Text.show
message_of [] [] = none
message_of [] (k ∷ ks) = some "✅ **Git durability** — all repos pushed and clean."
message_of (f ∷ fs) prev = some (
    "⚠\u{fe0f} **Git durability** ("
    <> (Text.show (length (f ∷ fs)) <> (" finding(s))\n" <> Text.join "\n" (map line_of (f ∷ fs)))))

-- A finding that stays is told once: its key has no age in it.
pub report : State → String → List Finding → Report
unfolding key_of note message_of prev_idents
report s at fs =
    Keys.report (key_of (note s.seen at fs)) (message_of fs (prev_idents s)) (prev_idents s)
