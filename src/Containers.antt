-- ===== src/Containers.antt =====
-- infrastructure/container-health/container_health_audit.py: the health checks of the running
-- containers against the timers that should run them.
pub mod Stamps
pub mod Timers
pub mod Laws
use Prim.Native.String.{[] as empty, ◌∷◌ as ◌▸◌}
use Prim.Native.Char.{code}
use az_lab.Keys
use az_lab.Keys.{Report}
use az_lab.Text
use az_lab.Time.{Time}
use az_lab.Prelude.{
  ℕ, ◌*◌, ◌+◌, ◌-◌, max, String, ◌<>◌, Bool, not, ◌&&◌, ◌||◌, Option, none, some, List, [], ◌∷◌,
  ◌++◌, map, ◌==◌, ltb, eqb, if◌then◌else◌, elem, keep, length,
}

-- What podman inspect shows of a container. Durations are in nanoseconds, 0 where none is set.
pub record Container : Type 0 where
  pub id : String
  pub name : String
  -- whether Config.Healthcheck.Test is set
  pub has_test : Bool
  pub interval : ℕ
  pub start_period : ℕ
  pub status : String
  pub streak : String
  pub started_at : String
  -- when the logged probes ended, the latest last
  pub ends : List String

pub data Kind : Type 0 where
  no_timer unhealthy stuck_starting stale orphaned_timer : Kind

pub record Finding : Type 0 where
  pub kind : Kind
  pub container : String
  pub detail : String

-- The clock, fromisoformat, and the formats `.1f` of hours and `.0f` of minutes and seconds of
-- a duration in nanoseconds.
pub record Host : Type 0 where
  pub now : Time
  pub from_iso : String → Option Time
  pub show_hours : ℕ → String
  pub show_minutes : ℕ → String
  pub show_seconds : ℕ → String

-- In nanoseconds.
abbrev pub starting_grace : ℕ
starting_grace = 300000000000

abbrev pub stale_interval_mult : ℕ
stale_interval_mult = 4

abbrev pub stale_floor : ℕ
stale_floor = 300000000000

abbrev pub default_interval : ℕ
default_interval = 30000000000

lstrip_slash : String → String
lstrip_slash empty = ""
lstrip_slash (c ▸ s) = let rest = lstrip_slash s in if eqb (code c) 47 then rest else c ▸ s

pub name_of : Container → String
unfolding lstrip_slash Text.take
name_of c = lstrip_slash (if c.name == "" then Text.take 12 c.id else c.name)

abbrev pub status_of : Container → String
status_of c = if c.status == "" then "none" else c.status

-- The time since, in nanoseconds.
abbrev pub age : Host → Time → ℕ
age h t = (h.now - t) * 1000

abbrev uptime_of : Host → Option Time → ℕ
uptime_of h none = 0
uptime_of h (some started) = age h started

pub uptime : Host → Container → ℕ
unfolding Stamps.parse_ts
uptime h c = uptime_of h (Stamps.parse_ts h.from_iso c.started_at)

last_of : List String → String
last_of [] = ""
last_of (e ∷ []) = e
last_of (e ∷ f ∷ es) = last_of (f ∷ es)

pub last_end : Host → Container → Option Time
unfolding last_of Stamps.parse_ts
last_end h c = Stamps.parse_ts h.from_iso (last_of c.ends)

abbrev interval_of : Container → ℕ
interval_of c = if eqb c.interval 0 then default_interval else c.interval

pub threshold : Container → ℕ
threshold c = max (interval_of c * stale_interval_mult) stale_floor

finding : Kind → Container → String → Option Finding
unfolding name_of
finding k c detail = some (record { kind = k; container = name_of c; detail = detail })

check_last : Host → Container → Option Time → Option Finding
unfolding finding threshold
check_last h c none = none
check_last h c (some end) =
    if ltb (threshold c) (age h end)
    then finding stale c (
        "last probe "
        <> (h.show_minutes (age h end)
            <> ("m ago (interval "
                <> (h.show_seconds (interval_of c)
                    <> ("s) — reads '" <> (status_of c <> "' but is not being probed"))))))
    else none

pub has_timer : Timers.Timers → Container → Bool
unfolding name_of
has_timer t c = elem c.id t.ids || elem (name_of c) t.names

-- Each finding ends the checks of its container.
pub check : Host → Timers.Timers → Container → Option Finding
unfolding check_last finding has_timer uptime last_end Text.show
check h t c =
    if not c.has_test
    then none
    else if not (has_timer t c)
    then finding no_timer c (
        "healthcheck defined but no active timer -> status frozen at '"
        <> (status_of c <> ("'; probes have run " <> (Text.show (length c.ends) <> " time(s)"))))
    else if status_of c == "unhealthy"
    then finding unhealthy c ("failing streak " <> c.streak)
    else if status_of c == "starting" && ltb (c.start_period + starting_grace) (uptime h c)
    then finding stuck_starting c (
        "up "
        <> (h.show_hours (uptime h c)
            <> ("h, start_period "
                <> (h.show_seconds c.start_period
                    <> ("s, "
                        <> (Text.show (length c.ends)
                            <> " probe result(s) — never converged, so `unhealthy` can never fire"))))))
    else check_last h c (last_end h c)

abbrev found : Option Finding → List Finding
found none = []
found (some f) = f ∷ []

check_all : Host → Timers.Timers → List Container → List Finding
unfolding check
check_all h t [] = []
check_all h t (c ∷ cs) = found (check h t c) ++ check_all h t cs

pub ids_of : List Container → List String
ids_of [] = []
ids_of (c ∷ cs) = c.id ∷ ids_of cs

orphan : String → Finding
unfolding Text.take
orphan id = record {
  kind = orphaned_timer;
  container = Text.take 12 id;
  detail = "timer for a container that no longer exists (exits 125 each interval)";
}

-- sorted(timers - live_ids)
pub orphans : Timers.Timers → List Container → List String
unfolding ids_of
orphans t cs = Keys.sorted (Keys.distinct (keep (λ id. not (elem id (ids_of cs))) t.ids))

unfoldable pub audit : Host → Timers.Timers → List Container → List Finding
unfolding check_all orphans orphan Keys.sorted Keys.distinct
audit h t cs = check_all h t cs ++ map orphan (orphans t cs)

kind_name : Kind → String
kind_name no_timer = "NO_TIMER"
kind_name unhealthy = "UNHEALTHY"
kind_name stuck_starting = "STUCK_STARTING"
kind_name stale = "STALE"
kind_name orphaned_timer = "ORPHANED_TIMER"

pub key_of : List Finding → List String
unfolding kind_name Keys.sorted
key_of fs = Keys.sorted (map (λ f. kind_name f.kind <> (":" <> f.container)) fs)

line_of : Finding → String
unfolding kind_name
line_of f = "- **" <> (kind_name f.kind <> ("** `" <> (f.container <> ("` — " <> f.detail))))

message_of : List Finding → List String → Option String
unfolding line_of Text.join Text.show
message_of [] [] = none
message_of [] (k ∷ ks) = some "✅ **Container healthcheck integrity** — all findings cleared."
message_of (f ∷ fs) prev = some (
    "⚠\u{fe0f} **Container healthcheck integrity** ("
    <> (Text.show (length (f ∷ fs)) <> (" finding(s))\n" <> Text.join "\n" (map line_of (f ∷ fs)))))

pub report : List Finding → List String → Report
unfolding key_of message_of
report fs prev = Keys.report (key_of fs) (message_of fs prev) prev
