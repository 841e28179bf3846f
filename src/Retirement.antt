-- ===== src/Retirement.antt =====
-- services/memory-mcp-server/memory_lifecycle_pass.py: memories are retired only while retrieval is
-- healthy. A score is a count of some unit, such as a millionth, so rounding is left out.
pub mod Median
pub mod Laws
use Prim.Native.Char.{code}
use Prim.Native.String.{[] as empty, ◌∷◌ as ◌▸◌}
use az_lab.Time.{Time, Stamp, aware, naive, unparseable, hours}
use az_lab.Prelude.{
  ℕ, zero, suc, ◌+◌, ◌-◌, ◌*◌, ◌/◌, ◌%◌, String, ◌<>◌, Bool, true, false, ◌&&◌, Option, none, some,
  List, [], ◌∷◌, ltb, leb, eqb, if◌then◌else◌, length,
}

-- A row of eval_runs, with its nDCG@10.
pub record Run : Type 0 where
  pub tag : String
  pub score : Option ℕ
  pub created_at : String

pub data Request : Type 0 where
  refresh_pairs refresh_utility assign_tiers read_runs : Request
  -- with the limit, and whether it is dry
  retire : ℕ → Bool → Request

-- What is read of eval_runs, the newest first, or why it cannot be read.
pub data Fetched : Type 0 where
  rows : List Run → Fetched
  unreadable : String → Fetched

-- What is read of eval_runs; whether an RPC answers;
-- the clock, fromisoformat, and the formats of a score and of an age in hours.
pub record World : Type 0 where
  pub runs : Fetched
  pub answers : Request → Bool
  pub now : Time
  pub from_iso : String → Stamp
  pub show_score : ℕ → String
  pub show_hours : ℕ → String

-- Whether retrieval is healthy, and the reason; or an exception.
pub data Gate : Type 0 where
  decided : Bool → String → Gate
  raised : Gate

abbrev pub max_age : ℕ
max_age = hours 48

abbrev pub drop_percent : ℕ
drop_percent = 10

insert_score : ℕ → List ℕ → List ℕ
insert_score x [] = x ∷ []
insert_score x (y ∷ ys) = let rest = insert_score x ys in if leb x y then x ∷ y ∷ ys else y ∷ rest

-- prior.sort()
sort : List ℕ → List ℕ
unfolding insert_score
sort [] = []
sort (x ∷ xs) = insert_score x (sort xs)

-- xs[k], in range
nth : List ℕ → ℕ → ℕ
nth [] k = 0
nth (x ∷ xs) zero = x
nth (x ∷ xs) (suc k) = nth xs k

-- Twice the median of a sorted list.
twice_median : List ℕ → ℕ
unfolding nth
twice_median s =
    let mid = length s / 2 in
    if eqb (length s % 2) 1 then nth s mid * 2 else nth s (mid - 1) + nth s mid

-- median > 0 and newest < median * (1.0 - drop_pct / 100.0)
pub regressed : ℕ → List ℕ → Bool
unfolding twice_median sort
regressed newest prior =
    let m = twice_median (sort prior) in ltb 0 m && ltb (newest * 200) (m * (100 - drop_percent))

pub scores : List Run → List ℕ
scores [] = []
scores (r ∷ rs) = let rest = scores rs in elim r.score [ none ↦ rest | some n ↦ n ∷ rest ]

against : World → ℕ → ℕ → List ℕ → Gate
unfolding regressed twice_median sort
against w age newest [] = decided true (
    "nDCG@10 "
    <> (w.show_score newest <> (" (" <> (w.show_hours age <> "h old), no baseline yet"))))
against w age newest (p ∷ ps) =
    let median = w.show_score (twice_median (sort (p ∷ ps)) / 2) in
    if regressed newest (p ∷ ps)
    then decided false (
        "nDCG@10 "
        <> (w.show_score newest
            <> (" is >10% below trailing median " <> (median <> " — retrieval regressed"))))
    else decided true (
        "nDCG@10 "
        <> (w.show_score newest
            <> (" vs trailing median " <> (median <> (" (" <> (w.show_hours age <> "h old)"))))))

judge_at : World → String → ℕ → List ℕ → Stamp → Gate
unfolding against
judge_at w tag newest prior (aware t) =
    if ltb max_age (w.now - t)
    then decided false (
        "newest eval run '"
        <> (tag
            <> ("' is "
                <> (w.show_hours (w.now - t) <> "h old (limit 48h) — retrieval health unknown"))))
    else against w (w.now - t) newest prior
judge_at w tag newest prior (naive t) = raised
judge_at w tag newest prior unparseable = raised

-- s.replace("Z", "+00:00")
pub offset_for_z : String → String
offset_for_z empty = ""
offset_for_z (c ▸ s) =
    let rest = offset_for_z s in if eqb (code c) 90 then "+00:00" <> rest else c ▸ rest

-- The newest run that has a score, against those before it that have one.
judge_scored : World → Run → List Run → Option ℕ → Gate → Gate
unfolding judge_at scores offset_for_z
judge_scored w r rs none rest = rest
judge_scored w r rs (some newest) rest =
    judge_at w r.tag newest (scores rs) (w.from_iso (offset_for_z r.created_at))

judge : World → List Run → Gate
unfolding judge_scored
judge w [] = decided false "no eval run has a recorded nDCG@10"
judge w (r ∷ rs) = let rest = judge w rs in judge_scored w r rs r.score rest

gate_of : World → Fetched → Gate
unfolding judge
gate_of w (unreadable e) = decided false ("eval_runs unreadable (" <> (e <> ")"))
gate_of w (rows rs) = judge w rs

pub retrieval_gate : World → Gate
unfolding gate_of
retrieval_gate w = gate_of w w.runs

-- The rest of a pass: a closed gate makes it a dry run.
retire_as : World → Bool → ℕ → Gate → List Request → List Request
retire_as w live limit raised h = h
retire_as w live limit (decided healthy reason) h =
    retire limit (if live && healthy then false else true) ∷ h

-- One pass of main, up to the retirement: its requests, the last first. An RPC that does not answer
-- ends it.
unfoldable pub pass : World → Bool → ℕ → List Request
unfolding retrieval_gate retire_as
pass w live limit =
    let h1 = refresh_pairs ∷ [] in
    let h2 = refresh_utility ∷ h1 in
    let h3 = assign_tiers ∷ h2 in
    if w.answers refresh_pairs
    then (if w.answers refresh_utility
        then (if w.answers assign_tiers
            then retire_as w live limit (retrieval_gate w) (read_runs ∷ h3)
            else h3)
        else h2)
    else h1
