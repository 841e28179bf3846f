-- ===== src/Retirement/Laws.antt =====
-- When memories are retired.
use az_lab.Time.{Time, Stamp, aware, naive, unparseable}
use az_lab.Retirement.{
  Run, Request, retire, refresh_pairs, refresh_utility, assign_tiers, read_runs, Fetched, gate_of,
  retire_as, World, rows, unreadable, Gate, decided, raised, max_age, regressed, scores, against,
  judge_at, offset_for_z, judge_scored, judge, retrieval_gate, pass,
}
use az_lab.Prelude.{
  ℕ, ◌-◌, ◌*◌, ◌≤◌, ◌≡◌, refl, inl, inr, Bool, true, false, not, Option, none, some, List, [], ◌∷◌,
  Bool-cases, arith, ltb, if◌then◌else◌, length, ltb→le,
}
use az_lab.Retirement.Median.{count, kept_up, regressed_half}

-- What allows a retirement: the newest run that has a score is at most two days old, and its score is
-- at least nine tenths of each of at least half of the scores before it.
pub record IsFit (w : World) (r : Run) (newest : ℕ) (prior : List ℕ) : Type 0 where
  pub time : Time
  pub read_as : w.from_iso (offset_for_z r.created_at) ≡ aware time
  pub recent : w.now - time ≤ max_age
  pub steady : length prior ≤ 2 * count (kept_up newest) prior

-- A run without a score is passed over.
abbrev IsHealthyAt : Type 0 → World → Run → List Run → Option ℕ → Type 0
IsHealthyAt Rest w r rs none = Rest
IsHealthyAt Rest w r rs (some newest) = IsFit w r newest (scores rs)

pub IsHealthy : World → List Run → Type 0
IsHealthy w [] = ⊥
IsHealthy w (r ∷ rs) = IsHealthyAt (IsHealthy w rs) w r rs r.score

opens : Gate → Bool
opens raised = false
opens (decided b reason) = b

against-steady :
    (w : World) (age newest : ℕ) (prior : List ℕ)
    → opens (against w age newest prior) ≡ true
    → length prior ≤ 2 * count (kept_up newest) prior
unfolding against opens
against-steady w age newest [] e = omega arith
against-steady w age newest (p ∷ ps) e = elim (Bool-cases (regressed newest (p ∷ ps))) [
  | inl dropped ↦ let no : ⊥ = ground arith in elim no [ ]
  | inr well ↦ regressed_half newest (p ∷ ps) well
]

fit :
    (w : World) (r : Run) (newest : ℕ) (prior : List ℕ) (s : Stamp)
    → w.from_iso (offset_for_z r.created_at) ≡ s
    → opens (judge_at w r.tag newest prior s) ≡ true
    → IsFit w r newest prior
unfolding judge_at opens
fit w r newest prior (aware t) e o = elim (Bool-cases (ltb max_age (w.now - t))) [
  | inl old ↦ let no : ⊥ = ground arith in elim no [ ]
  | inr lately ↦ record {
    time = t;
    read_as = e;
    recent = ltb→le max_age (w.now - t) lately;
    steady = against-steady w (w.now - t) newest prior (ground arith);
  }
]
fit w r newest prior (naive t) e o = ground arith
fit w r newest prior unparseable e o = ground arith

scored :
    (w : World) (r : Run) (rs : List Run) (o : Option ℕ)
    → (opens (judge w rs) ≡ true → IsHealthy w rs)
    → opens (judge_scored w r rs o (judge w rs)) ≡ true
    → IsHealthyAt (IsHealthy w rs) w r rs o
unfolding judge_scored
scored w r rs none ih e = ih e
scored w r rs (some newest) ih e = fit w r newest (scores rs) _ refl e

judge-IsHealthy : (w : World) (rs : List Run) → opens (judge w rs) ≡ true → IsHealthy w rs
unfolding judge opens IsHealthy
judge-IsHealthy w [] e = ground arith
judge-IsHealthy w (r ∷ rs) e = scored w r rs r.score (judge-IsHealthy w rs) e

abbrev seen : List Request
seen = read_runs ∷ assign_tiers ∷ refresh_utility ∷ refresh_pairs ∷ []

-- What a pass that retires, and not only pretends to, was asked for, has seen and has done.
pub record IsAllowed (w : World) (live : Bool) (limit : ℕ) (h : List Request) : Type 0 where
  pub asked : live ≡ true
  pub runs : List Run
  pub fetched : w.runs ≡ rows runs
  pub healthy : IsHealthy w runs
  pub requests : h ≡ retire limit false ∷ seen

-- Whether the last request is a retirement that is not dry.
unfoldable pub retires : List Request → Bool
retires [] = false
retires (retire limit dry ∷ h) = not dry
retires (refresh_pairs ∷ h) = false
retires (refresh_utility ∷ h) = false
retires (assign_tiers ∷ h) = false
retires (read_runs ∷ h) = false

gate-IsHealthy :
    (w : World) (f : Fetched)
    → w.runs ≡ f
    → opens (gate_of w f) ≡ true
    → (rs : List Run) × (w.runs ≡ rows rs) × IsHealthy w rs
unfolding gate_of opens
gate-IsHealthy w (unreadable why) e o = ground arith
gate-IsHealthy w (rows rs) e o = (rs, e, judge-IsHealthy w rs o)

retire_as-IsAllowed :
    (w : World) (live : Bool) (limit : ℕ) (g : Gate)
    → (opens g ≡ true → (rs : List Run) × (w.runs ≡ rows rs) × IsHealthy w rs)
    → retires (retire_as w live limit g seen) ≡ true
    → IsAllowed w live limit (retire_as w live limit g seen)
unfolding retire_as retires opens
retire_as-IsAllowed w live limit raised o e = ground arith
retire_as-IsAllowed w true limit (decided true reason) o e =
    let (rs, p, q) = o refl in
    record { asked = refl; runs = rs; fetched = p; healthy = q; requests = refl }
retire_as-IsAllowed w true limit (decided false reason) o e = ground arith
retire_as-IsAllowed w false limit (decided b reason) o e = ground arith

abbrev trace : (a b c : Bool) → List Request → List Request
trace a b c h =
    if a
    then (if b
        then (if c then h else assign_tiers ∷ refresh_utility ∷ refresh_pairs ∷ [])
        else refresh_utility ∷ refresh_pairs ∷ [])
    else refresh_pairs ∷ []

-- A pass that ends before its retirement has not retired.
given :
    {w : World} {live : Bool} {limit : ℕ} {h : List Request} (a b c : Bool)
    → (retires h ≡ true → IsAllowed w live limit h)
    → retires (trace a b c h) ≡ true
    → IsAllowed w live limit (trace a b c h)
unfolding retires
given true true true all e = all e
given true true false all e = ground arith
given true false c all e = ground arith
given false b c all e = ground arith

-- If the last request of a pass is a retirement that is not dry, then it was asked for, the newest
-- run that has a score is at most two days old, its score is at least nine tenths of each of at least
-- half of the scores before it, and the pairs, the utility and the tiers were refreshed before.
pub pass-IsAllowed :
    (w : World) (live : Bool) (limit : ℕ)
    → retires (pass w live limit) ≡ true
    → IsAllowed w live limit (pass w live limit)
unfolding pass retires retrieval_gate
pass-IsAllowed w live limit e =
    given (w.answers refresh_pairs) (w.answers refresh_utility) (w.answers assign_tiers)
      (retire_as-IsAllowed w live limit (gate_of w w.runs) (gate-IsHealthy w w.runs refl)) e
