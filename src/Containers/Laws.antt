-- ===== src/Containers/Laws.antt =====
-- What a quiet audit of the containers means.
use az_lab.Keys.{sorted, distinct}
use az_lab.Time.{Time}
use az_lab.Containers.{
  Container, Host, Finding, starting_grace, status_of, age, uptime, last_end, threshold, has_timer,
  check_last, check, check_all, found, finding, ids_of, orphan, orphans, audit,
}
use az_lab.Containers.Timers.{Timers}
use az_lab.Keys.Laws.{Among-sorted, Among-distinct}
use az_lab.Prelude.{
  ◌+◌, ◌≤◌, String, ◌≡◌, refl, ap, subst, inl, inr, ◌↔◌, Bool, true, false, not, ◌&&◌, Option, none,
  some, List, [], ◌∷◌, ◌++◌, map, ◌==◌, ltb, if◌then◌else◌, keep, elem, All, Among, Bool-cases,
  arith, or_else, ltb→le, le→ltb,
}

-- A container whose probes run: it has a timer, has not failed, is not starting for too long, and
-- was probed lately, if it was probed.
pub record IsHealthy (h : Host) (t : Timers) (c : Container) : Type 0 where
  pub scheduled : has_timer t c ≡ true
  pub well : (status_of c == "unhealthy") ≡ false
  pub converging : (status_of c == "starting") ≡ true → uptime h c ≤ c.start_period + starting_grace
  pub probed : (end : Time) → last_end h c ≡ some end → age h end ≤ threshold c

last_quiet :
    (h : Host) (c : Container) (o : Option Time)
    → check_last h c o ≡ none ↔ ((end : Time) → o ≡ some end → age h end ≤ threshold c)
unfolding check_last
last_quiet h c none = ((λ e end p. ground arith), (λ _. refl))
last_quiet h c (some last) = elim (Bool-cases (ltb (threshold c) (age h last))) [
  | inl old ↦ rw old (
    (λ e. ground arith),
    (λ all. let le = all last refl in let no : ⊥ = ground arith in elim no [ ]),
  )
  | inr lately ↦ rw lately (
    (λ e end p.
        let same : last ≡ end = ap (λ o. or_else o last) p in
        subst (λ u. age h u ≤ threshold c) same (ltb→le _ _ lately)),
    (λ all. refl),
  )
]

-- Four guards in a row, each with a finding of its own.
abbrev Quiet : (tested timer bad starting late : Bool) → Type 0 → Type 0
Quiet tested timer bad starting late P =
    tested ≡ true → (timer ≡ true) × (bad ≡ false) × (starting ≡ true → late ≡ false) × P

guards :
    (tested timer bad starting late : Bool) (x y z : Finding) (o : Option Finding)
    → (if not tested
          then none
          else if not timer
          then some x
          else if bad
          then some y
          else if starting && late
          then some z
          else o)
        ≡ none
      ↔ Quiet tested timer bad starting late (o ≡ none)
guards false timer bad starting late x y z o = ((λ e t. ground arith), (λ q. refl))
guards true false bad starting late x y z o =
    ((λ e. ground arith), (λ q. let p = q refl in ground arith))
guards true true true starting late x y z o =
    ((λ e. ground arith), (λ q. let p = q refl in ground arith))
guards true true false true true x y z o =
    ((λ e. ground arith), (λ q. let p = (q refl).2 refl in ground arith))
guards true true false true false x y z o =
    ((λ e t. (refl, refl, (λ s. refl), e)), (λ q. (q refl).3))
guards true true false false late x y z o =
    ((λ e t. (refl, refl, (λ s. ground arith), e)), (λ q. (q refl).3))

-- A container with a health check has no finding exactly if it is healthy.
check_quiet :
    (h : Host) (t : Timers) (c : Container)
    → check h t c ≡ none ↔ (c.has_test ≡ true → IsHealthy h t c)
unfolding check finding
check_quiet h t c =
    let g =
      guards c.has_test (has_timer t c) (status_of c == "unhealthy") (status_of c == "starting")
        (ltb (c.start_period + starting_grace) (uptime h c)) _ _ _
        (check_last h c (last_end h c)) in
    (
      (λ e tested.
          let q = g.0 e tested in
          record {
            scheduled = q.0;
            well = q.1;
            converging = λ s. ltb→le _ _ (q.2 s);
            probed = (last_quiet h c (last_end h c)).0 q.3;
          }),
      (λ healthy. g.1 (λ tested.
          let v = healthy tested in
          (
            v.scheduled,
            v.well,
            (λ s. le→ltb _ _ (v.converging s)),
            (last_quiet h c (last_end h c)).1 v.probed,
          ))),
    )

-- Every container with a health check is healthy ...
abbrev pub AllHealthy : Host → Timers → List Container → Type 0
AllHealthy h t cs = All (λ (c : Container). c.has_test ≡ true → IsHealthy h t c) cs

-- ... and every timer of podman's own belongs to a running container.
abbrev pub NoOrphan : Timers → List Container → Type 0
NoOrphan t cs = All (λ id. elem id (ids_of cs) ≡ true) t.ids

found_quiet : (o : Option Finding) (fs : List Finding) → found o ++ fs ≡ [] ↔ (o ≡ none) × (fs ≡ [])
found_quiet none fs = ((λ e. (refl, e)), (λ p. p.1))
found_quiet (some f) fs = ((λ e. ground arith), (λ p. ground arith))

containers_quiet :
    (h : Host) (t : Timers) (cs : List Container) → check_all h t cs ≡ [] ↔ AllHealthy h t cs
unfolding check_all
containers_quiet h t [] = ((λ e. tt), (λ a. refl))
containers_quiet h t (c ∷ cs) =
    let f = found_quiet (check h t c) (check_all h t cs) in
    let q = check_quiet h t c in
    let rest = containers_quiet h t cs in
    ((λ e. (q.0 ((f.0 e).0), rest.0 ((f.0 e).1))), (λ a. f.1 (q.1 (a.0), rest.1 (a.1))))

keep_quiet :
    (live ids : List String)
    → keep (λ id. not (elem id live)) ids ≡ [] ↔ All (λ id. elem id live ≡ true) ids
keep_quiet live [] = ((λ e. tt), (λ a. refl))
keep_quiet live (x ∷ ids) = elim (Bool-cases (elem x live)) [
  | inl known ↦
      rw known ((λ e. (refl, (keep_quiet live ids).0 e)), (λ a. (keep_quiet live ids).1 (a.1)))
  | inr orphaned ↦ rw orphaned ((λ e. ground arith), (λ a. let p = a.0 in ground arith))
]

-- A sorted set without members is that of a list without members.
empty_set : (xs : List String) → sorted (distinct xs) ≡ [] ↔ xs ≡ []
unfolding sorted distinct
empty_set [] = ((λ e. refl), (λ e. refl))
empty_set (x ∷ xs) = (
  (λ e.
      let m = Among-sorted x _ (Among-distinct x (x ∷ xs) (inl refl)) in
      elim (subst (Among x) e m) [ ]),
  (λ e. ground arith),
)

map_quiet : (ids : List String) → map orphan ids ≡ [] ↔ ids ≡ []
map_quiet [] = ((λ e. refl), (λ e. refl))
map_quiet (x ∷ ids) = ((λ e. ground arith), (λ e. ground arith))

append_quiet : (fs gs : List Finding) → fs ++ gs ≡ [] ↔ (fs ≡ []) × (gs ≡ [])
append_quiet [] gs = ((λ e. (refl, e)), (λ p. p.1))
append_quiet (f ∷ fs) gs = ((λ e. ground arith), (λ p. let e = p.0 in ground arith))

-- An audit finds nothing exactly if every container with a health check has a timer, has not
-- failed, is not starting for too long and was not probed too long ago, and every timer of podman's
-- own belongs to a running container.
pub audit_quiet :
    (h : Host) (t : Timers) (cs : List Container)
    → audit h t cs ≡ [] ↔ AllHealthy h t cs × NoOrphan t cs
unfolding audit orphans
audit_quiet h t cs =
    let both = append_quiet (check_all h t cs) (map orphan (orphans t cs)) in
    let well = containers_quiet h t cs in
    let live = keep_quiet (ids_of cs) t.ids in
    let set = empty_set (keep (λ id. not (elem id (ids_of cs))) t.ids) in
    let none_left = map_quiet (orphans t cs) in
    (
      (λ e. (well.0 ((both.0 e).0), live.0 (set.0 (none_left.0 ((both.0 e).1))))),
      (λ a. both.1 (well.1 (a.0), none_left.1 (set.1 (live.1 (a.1))))),
    )
