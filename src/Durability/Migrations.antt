-- ===== src/Durability/Migrations.antt =====
-- `applied_migration_head` and `ledgered_migrations_under`: the migrations that a line of
-- `git status` covers, and the last one that the database has run. Digits are those of ASCII.
use Prim.Native.Char.{code}
use Prim.Native.String.{[] as empty, ◌∷◌ as ◌▸◌}
use az_lab.Text
use az_lab.Durability.{Ledger, no_key, failed, answered, Host, Repo}
use az_lab.Containers.Stamps.{is_digit}
use az_lab.Prelude.{
  ℕ, ◌+◌, ◌-◌, ◌*◌, String, ◌<>◌, ◌≡◌, refl, Bool, true, not, ◌&&◌, Option, none, some, List, [],
  ◌∷◌, ◌++◌, ◌==◌, any, if◌then◌else◌,
}

all_digits : String → Bool
unfolding is_digit
all_digits empty = true
all_digits (c ▸ s) = is_digit c && all_digits s

decimal : ℕ → String → ℕ
decimal n empty = n
decimal n (c ▸ s) = decimal (n * 10 + (code c - 48)) s

-- s.isdigit() and int(s)
unfoldable pub number_of : String → Option ℕ
unfolding all_digits decimal
number_of s = if not (s == "") && all_digits s then some (decimal 0 s) else none

head_of : Host → String → Option ℕ → Option ℕ × String
head_of h head none = (none, "ledger head unparseable: " <> h.quote head)
head_of h head (some n) = (some n, "applied head " <> head)

-- The head, and what is said of it.
ledger_head : Host → Ledger → Option ℕ × String
unfolding head_of number_of Text.take
ledger_head h no_key = (none, "SUPABASE_SECRET_KEY unset")
ledger_head h (failed why) = (none, "ledger query failed: " <> why)
ledger_head h (answered head) = head_of h head (number_of (Text.take 3 head))

unfoldable pub applied_migration_head : Host → Option ℕ × String
unfolding ledger_head
applied_migration_head h = ledger_head h h.ledger

abbrev pub prefixes : String → List String
prefixes repo = if repo == "azlab" then "services/memory-mcp-server/migrations/" ∷ [] else []

-- What follows the three digits: no slash, and `.sql` at the end.
names_sql : String → Bool
unfolding Text.is_suffix Text.contains
names_sql s = Text.is_suffix ".sql" s && not (Text.contains "/" s)

-- re.search(r"(\d{3})[^/]*\.sql$", s), the number
sequence : String → Option ℕ
unfolding number_of Text.take Text.drop Text.length names_sql
sequence empty = none
sequence (c ▸ s) =
    let later = sequence s in
    let here = number_of (Text.take 3 (c ▸ s)) in
    elim here [ none ↦ later | some n ↦ if names_sql (Text.drop 3 (c ▸ s)) then some n else later ]

abbrev numbered : String → Option ℕ → List (String × ℕ)
numbered path none = []
numbered path (some n) = (path, n) ∷ []

ledgered : List String → List String → List (String × ℕ)
unfolding Text.is_prefix sequence
ledgered pres [] = []
ledgered pres (c ∷ cs) =
    let rest = ledgered pres cs in
    if any (λ p. Text.is_prefix p c) pres then numbered c (sequence c) ++ rest else rest

abbrev candidates : String → Option (List String) → List String
candidates path none = path ∷ []
candidates path (some below) = below

-- Each migration under the path, with its number.
unfoldable pub ledgered_migrations_under : Repo → String → List (String × ℕ)
unfolding ledgered
ledgered_migrations_under r path = ledgered (prefixes r.name) (candidates path (r.sql_below path))

migration_tests :
    (sequence "a/122_decay.sql" ≡ some 122)
    × (sequence "a/1234.sql" ≡ some 123)
    × (sequence "001/x.sql" ≡ none)
    × (sequence "12_x.sql" ≡ none)
    × (number_of "12" ≡ some 12)
    × (number_of "" ≡ none)
unfolding sequence number_of
migration_tests = (refl, refl, refl, refl, refl, refl)
