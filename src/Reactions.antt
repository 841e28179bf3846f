-- ===== src/Reactions.antt =====
-- infrastructure/reaction-guard/reaction_guard.py: the eyes under a new message, and the check mark
-- once the agent has shown a sign of life. Times are counts of microseconds.
pub mod Laws
use az_lab.Text
use az_lab.Time.{Time}
use az_lab.Prelude.{
  ℕ, zero, suc, ◌-◌, ◌*◌, String, ◌<>◌, Bool, true, false, not, ◌&&◌, ◌||◌, Option, none, some,
  List, [], ◌∷◌, ◌++◌, ◌==◌, ltb, leb, if◌then◌else◌, elem, is_empty, length,
}

pub record Message : Type 0 where
  pub id : String
  pub by_bot : Bool

pub data Emoji : Type 0 where
  eyes check : Emoji

pub data Request : Type 0 where
  get_messages : Request
  react : String → Emoji → Request
  get_heartbeat : Request
  log_activity : String → Request
  save_state : Request

-- What Discord and the database answer; a failure is no message, `false` or `none`.
pub record World : Type 0 where
  pub messages : List Request → List Message
  pub reacts : List Request → String → Emoji → Bool
  pub heartbeat : List Request → Option String

-- What the state file holds, and when the heartbeat was last read.
pub record Guard : Type 0 where
  pub seen_ids : List String
  pub pending : List (String × Time)
  pub last_heartbeat : Option String
  pub last_read : Time

abbrev pub second : ℕ
second = 1000000

-- REACTION_TIMEOUT
abbrev pub reaction_timeout : ℕ
reaction_timeout = 600 * second

abbrev pub max_seen : ℕ
max_seen = 500

-- pending[id] = at
put : String → Time → List (String × Time) → List (String × Time)
put id at [] = (id, at) ∷ []
put id at ((i, t) ∷ ps) = let rest = put id at ps in if i == id then (i, at) ∷ ps else (i, t) ∷ rest

noted : String → Bool → List Request → List Request
noted id true h = log_activity ("reacted 👀 to " <> id) ∷ h
noted id false h = h

-- A message that is new and of no bot is reacted to, and waits for the check mark.
pub arrive : World → Time → Message → Guard → List Request → Guard × List Request
unfolding put noted
arrive w now m g h =
    if m.id == "" || elem m.id g.seen_ids
    then (g, h)
    else if m.by_bot
    then (record g { seen_ids = g.seen_ids ++ (m.id ∷ []) }, h)
    else (
      record g { seen_ids = g.seen_ids ++ (m.id ∷ []); pending = put m.id now g.pending },
      noted m.id (w.reacts h m.id eyes) (react m.id eyes ∷ h),
    )

pub arrivals : World → Time → List Message → Guard → List Request → Guard × List Request
unfolding arrive
arrivals w now [] g h = (g, h)
arrivals w now (m ∷ ms) g h = let (g', h') = arrive w now m g h in arrivals w now ms g' h'

drop : ℕ → List String → List String
drop zero xs = xs
drop (suc n) [] = []
drop (suc n) (x ∷ xs) = drop n xs

-- seen_ids[-500:]
pub trim : List String → List String
unfolding drop
trim xs = if ltb max_seen (length xs) then drop (length xs - max_seen) xs else xs

-- A heartbeat that is there and differs from the last one.
advanced_by : Option String → Option String → Bool
advanced_by none last = false
advanced_by (some s) none = not (s == "")
advanced_by (some s) (some t) = not (s == "") && not (s == t)

-- Whether the agent has moved on, and what is known of it then.
pub read_heartbeat : World → Time → Guard → List Request → Bool × Guard × List Request
unfolding advanced_by
read_heartbeat w now g h =
    if not (is_empty g.pending) || leb (30 * second) (now - g.last_read)
    then (let current = w.heartbeat h in
        let moved = advanced_by current g.last_heartbeat in
        (
          moved,
          record g {
            last_heartbeat = if moved then current else g.last_heartbeat;
            last_read = now;
          },
          get_heartbeat ∷ h,
        ))
    else (false, g, h)

-- What still waits, and what was asked for.
pub resolve :
    Time → Bool → List (String × Time) → List Request → List (String × Time) × List Request
resolve now moved [] h = ([], h)
resolve now true ((id, at) ∷ ps) h =
    resolve now true ps (log_activity ("reacted ✅ to " <> id) ∷ react id check ∷ h)
resolve now false ((id, at) ∷ ps) h =
    let late = ltb reaction_timeout (now - at) in
    let (rest, h') =
      resolve now false ps (if late then log_activity ("reaction_timeout for " <> id) ∷ h else h) in
    (if late then rest else (id, at) ∷ rest, h')

-- One round of the loop.
unfoldable pub pass : World → Time → Guard → List Request → Guard × List Request
unfolding arrivals trim read_heartbeat resolve
pass w now g h =
    let (g1, h1) = arrivals w now (w.messages h) g (get_messages ∷ h) in
    let (moved, g2, h2) = read_heartbeat w now (record g1 { seen_ids = trim g1.seen_ids }) h1 in
    let (waiting, h3) = resolve now moved g2.pending h2 in
    (record g2 { pending = waiting }, save_state ∷ h3)

ids_of : List Message → List String
ids_of [] = []
ids_of (m ∷ ms) = let rest = ids_of ms in if m.id == "" then rest else m.id ∷ rest

-- On a fresh start the messages that are there count as seen.
pub seed : World → Guard → List Request → Guard × List Request
unfolding ids_of
seed w g h =
    if is_empty g.seen_ids
    then (record g { seen_ids = ids_of (w.messages h) }, save_state ∷ get_messages ∷ h)
    else (g, h)
