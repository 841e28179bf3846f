-- ===== src/Lifecycle.antt =====
-- infrastructure/episode-lifecycle/episode_lifecycle_sweep.py: episodes that nobody ended are
-- reaped, and a message is posted if what is found has changed.
pub mod Laws
use az_lab.Text
use az_lab.Keys
use az_lab.Keys.{Report}
use az_lab.Json
use az_lab.Json.{Json, null, bool, num, str, arr, obj, nil, cons, end}
use az_lab.Prelude.{
  ℕ, String, ◌<>◌, Bool, true, false, not, Option, none, some, List, [], ◌∷◌, ◌++◌, map, ltb, eqb,
  if◌then◌else◌,
}

-- OPEN_ALERT_FLOOR and THRESHOLD are read from the environment. An api call gives a value, fails,
-- or gives a text that is no JSON. int and float of a value are `none` where they raise; the float is
-- written with one digit.
pub data Answer : Type 0 where
  answered : Json → Answer
  failed : Answer
  broken : Answer

pub record World : Type 0 where
  pub threshold : String
  pub floor : ℕ
  pub reap : Answer
  pub health : Answer
  pub to_int : Json → Option ℕ
  pub to_float : Json → Option String

pub record Counts : Type 0 where
  pub reaped : ℕ
  pub open_total : ℕ
  pub open_stale : ℕ
  pub oldest : String
  pub abandoned : ℕ
  pub total : ℕ

-- A sweep ends without a report where a call fails, and may raise.
pub data Outcome : Type 0 where
  reported : Report → Outcome
  given_up : Outcome
  raised : Outcome

or_empty : Json → Option Json.Dict
unfolding Json.truthy
or_empty (obj d) = some d
or_empty null = some end
or_empty (bool b) = if b then none else some end
or_empty (num n) = if eqb n 0 then some end else none
or_empty (str s) = if Json.truthy (str s) then none else some end
or_empty (arr xs) = none

-- (v or [{}])[0] if isinstance(v, list) else (v or {}), where it is a dict
first_row : Json → Option Json.Dict
unfolding or_empty
first_row (arr nil) = some end
first_row (arr (cons (obj d) xs)) = some d
first_row (arr (cons _ xs)) = none
first_row v = or_empty v

-- d.get(k) or 0
abbrev or_zero : Json → Json
or_zero v = if Json.truthy v then v else num 0

int_at : World → String → Json.Dict → Option ℕ
unfolding Json.get Json.truthy
int_at w k d = w.to_int (or_zero (Json.get k d))

float_at : World → String → Json.Dict → Option String
unfolding Json.get Json.truthy
float_at w k d = w.to_float (or_zero (Json.get k d))

infixl 5 ◌<*>◌
abbrev ◌<*>◌ : {A B : Type 0} → Option (A → B) → Option A → Option B
none <*> a = none
some f <*> none = none
some f <*> some a = some (f a)

counted : ℕ → ℕ → ℕ → String → ℕ → ℕ → String → Counts
counted reaped open_total open_stale oldest abandoned total fraction = record {
  reaped = reaped;
  open_total = open_total;
  open_stale = open_stale;
  oldest = oldest;
  abandoned = abandoned;
  total = total;
}

counts_of : World → Json.Dict → Json.Dict → Option Counts
unfolding int_at float_at counted
counts_of w row h =
    some counted
    <*> int_at w "reaped" row
    <*> int_at w "open_total" h
    <*> int_at w "open_stale" h
    <*> float_at w "oldest_open_hours" h
    <*> int_at w "abandoned_24h" h
    <*> int_at w "episodes_total" h
    <*> float_at w "open_fraction" h

pub data Kind : Type 0 where
  is_reaped stale_after_reap open_above_floor : Kind

pub kind_name : Kind → String
kind_name is_reaped = "REAPED"
kind_name stale_after_reap = "STALE_AFTER_REAP"
kind_name open_above_floor = "OPEN_ABOVE_FLOOR"

-- The findings are under three tests.
abbrev pub found : {A : Type 0} → Bool → A → List A
found true a = a ∷ []
found false a = []

-- if reaped, if open_stale
abbrev pub is_some : ℕ → Bool
is_some n = not (eqb n 0)

pub is_open : World → Counts → Bool
is_open w c = ltb w.floor c.open_total

pub findings : World → Counts → List (Kind × String)
unfolding is_open Text.show
findings w c =
    found (is_some c.reaped) (
      is_reaped,
      "reaped **"
          <> (Text.show c.reaped
              <> ("** stranded episode(s) → `abandoned` (idle past "
                  <> (w.threshold
                      <> "). No close-out ran for these — the run died between start_episode() and end_episode()."))),
    )
    ++ (found (is_some c.open_stale) (
      stale_after_reap,
      "**"
          <> (Text.show c.open_stale
              <> "** episode(s) still stale AFTER reaping — the reaper is not keeping up, or something is re-opening rows."),
    )
        ++ found (is_open w c) (
          open_above_floor,
          "**"
              <> (Text.show c.open_total
                  <> ("** episodes open at once (floor "
                      <> (Text.show w.floor
                          <> ("); oldest "
                              <> (c.oldest <> "h. The poller runs one task at a time."))))),
        ))

abbrev pub name_of : Kind × String → String
name_of f = kind_name f.0

-- The order of magnitude of the reap.
pub mag_of : Counts → String
unfolding Text.show Text.length
mag_of c = "mag" <> Text.show (if eqb c.reaped 0 then 0 else Text.length (Text.show c.reaped))

pub key_of : World → Counts → List String
unfolding Keys.sorted findings kind_name mag_of
key_of w c = Keys.sorted (map name_of (findings w c) ++ (mag_of c ∷ []))

abbrev lines_of : List (Kind × String) → List String
lines_of fs = map (λ f. "- " <> f.1) fs

message_of : Counts → List (Kind × String) → List String → Option String
unfolding Text.show
message_of c [] [] = none
message_of c [] (k ∷ ks) =
    some
      "✅ **Episode lifecycle** — no stranded episodes; every trace is reaching a terminal status."
message_of c (f ∷ fs) prev = some (
    "⚠\u{fe0f} **Episode lifecycle** (agent_episodes)\n"
    <> (Text.join "\n" (lines_of (f ∷ fs))
        <> ("\n\n`open="
            <> (Text.show c.open_total
                <> (" stale="
                    <> (Text.show c.open_stale
                        <> (" abandoned_24h="
                            <> (Text.show c.abandoned
                                <> (" of " <> (Text.show c.total <> " episodes`"))))))))))

-- What is posted and kept, after the key that the state file holds.
unfoldable pub report : World → Counts → List String → Report
unfolding key_of message_of findings Keys.report
report w c prev = Keys.report (key_of w c) (message_of c (findings w c) prev) prev

abbrev reported_of : World → List String → Option Counts → Outcome
reported_of w prev none = raised
reported_of w prev (some c) = reported (report w c prev)

abbrev counts_in : World → Option Json.Dict → Option Json.Dict → Option Counts
counts_in w none h = none
counts_in w (some row) none = none
counts_in w (some row) (some h) = counts_of w row h

read : World → List String → Answer → Answer → Outcome
unfolding first_row counts_of report
read w prev failed b = given_up
read w prev broken b = raised
read w prev (answered a) failed = given_up
read w prev (answered a) broken = raised
read w prev (answered a) (answered b) = reported_of w prev (counts_in w (first_row a) (first_row b))

-- One run of main, with the key of the run before.
unfoldable pub sweep : World → List String → Outcome
unfolding read
sweep w prev = read w prev w.reap w.health
