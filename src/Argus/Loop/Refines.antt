-- ===== src/Argus/Loop/Refines.antt =====
-- The loop as it is seen from outside: the tasks that it holds.
use az_lab.Time.{Time}
use az_lab.Event.{Trace, Env, ok}
use az_lab.Rules.Inversion.{outcome}
use az_lab.Rules.Returns.{Returns, Returns-pure, Returns-bind, Returns-bind-Returns}
use az_lab.Argus.{Entry, Registry, max_workers, pop, spawn}
use az_lab.Argus.Stalls.{is_stalled, scanned, scan, stop_stalled, check_stalls}
use az_lab.Argus.Loop.{LoopState, spawned, fill, orchestrate}
use az_lab.Queue.{Task}
use az_lab.Prelude.{
  ◌<◌, String, ◌≡◌, refl, inl, inr, Bool, true, false, Option, none, some, List, [], ◌∷◌, ◌++◌,
  arith, ◌==◌, ltb, ltb→lt, length, Bool-cases,
}

-- The tasks of a registry.
abbrev pub held : Registry → List String
held [] = []
held ((id, e) ∷ r) = id ∷ held r

-- Some of the tasks, in their order.
pub data Some : List String → List String → Type 0 where
  end : Some [] []
  left : {id : String} {xs ys : List String} → Some xs ys → Some xs (id ∷ ys)
  kept : {id : String} {xs ys : List String} → Some xs ys → Some (id ∷ xs) (id ∷ ys)

-- What a pass may do to the tasks that are held: give some up, and then, if there is room, start one.
pub data Pass (xs : List String) : List String → Type 0 where
  rested : {ys : List String} → Some ys xs → Pass xs ys
  started :
      {ys zs : List String} (id : String)
      → Some ys xs
      → length ys < max_workers
      → Some zs ys
      → Pass xs (zs ++ (id ∷ []))

Some-refl : (xs : List String) → Some xs xs
Some-refl [] = end
Some-refl (x ∷ xs) = kept (Some-refl xs)

Some-trans : {xs ys zs : List String} → Some xs ys → Some ys zs → Some xs zs
Some-trans s end = s
Some-trans s (left t) = left (Some-trans s t)
Some-trans (left s) (kept t) = left (Some-trans s t)
Some-trans (kept s) (kept t) = kept (Some-trans s t)

pop-Some : (id : String) (r : Registry) → Some (held (pop id r)) (held r)
unfolding pop
pop-Some id [] = end
pop-Some id ((i, e) ∷ r) = elim (Bool-cases (i == id)) [
  | inl same ↦ rw same (left (pop-Some id r))
  | inr other ↦ rw other (kept (pop-Some id r))
]

scanned-Some :
    (id : String) (e : Entry) (alive stalled : Bool) (rest : Registry × Registry) (ys : List String)
    → Some (held (rest.0)) ys
    → Some (held ((scanned id e alive stalled rest).0)) (id ∷ ys)
scanned-Some id e false stalled rest ys s = left s
scanned-Some id e true false rest ys s = kept s
scanned-Some id e true true rest ys s = kept s

scan-Some : (at : Time) (r : Registry) → Returns (λ p. Some (held (p.0)) (held r)) (scan at r)
unfolding scan
scan-Some at [] = Returns-pure _ end
scan-Some at ((id, e) ∷ r) = Returns-bind _ _ (λ e'. Returns-bind _ _ (λ alive.
    Returns-bind-Returns _ _ (scan-Some at r)
      (λ rest s. Returns-pure _ (scanned-Some id e' alive (is_stalled at e') rest (held r) s))))

stop-Some :
    (at : Time) (stalled r : Registry) (ys : List String)
    → Some (held r) ys
    → Returns (λ u. Some (held u) ys) (stop_stalled at stalled r)
unfolding stop_stalled
stop-Some at [] r ys s = Returns-pure r s
stop-Some at ((id, e) ∷ stalled) r ys s =
    Returns-bind _ _ (λ u.
      Returns-bind _ _ (λ v. stop-Some at stalled (pop id r) ys (Some-trans (pop-Some id r) s)))

stalls-Some : (r : Registry) → Returns (λ u. Some (held u) (held r)) (check_stalls r)
unfolding check_stalls
stalls-Some r = Returns-bind _ _ (λ at.
    Returns-bind-Returns _ _ (scan-Some at r)
      (λ found s. stop-Some at (found.1) (found.0) (held r) s))

held-append :
    (r : Registry) (id : String) (e : Entry) → held (r ++ ((id, e) ∷ [])) ≡ held r ++ (id ∷ [])
held-append [] id e = refl
held-append ((i, d) ∷ r) id e = rw (held-append r id e) refl

length-held : (r : Registry) → length (held r) ≡ length r
length-held [] = refl
length-held ((i, e) ∷ r) = omega (arith, length-held r)

spawned-Pass :
    (xs : List String) (o : Option Task) (r : Registry)
    → Some (held r) xs
    → length r < max_workers
    → Returns (λ u. Pass xs (held u)) (spawned o r)
unfolding spawned spawn
spawned-Pass xs none r s room = Returns-pure r (rested s)
spawned-Pass xs (some t) r s room = Returns-bind _ _ (λ at. Returns-pure _ (
    rw (held-append (pop t.id r) t.id _)
      (started t.id s (omega (arith, length-held r)) (pop-Some t.id r))))

fill-Pass :
    (host : String) (xs : List String) (r : Registry)
    → Some (held r) xs
    → Returns (λ u. Pass xs (held u)) (fill host r)
unfolding fill
fill-Pass host xs r s = elim (Bool-cases (ltb (length r) max_workers)) [
  | inl room ↦ rw room (Returns-bind _ _ (λ task. spawned-Pass xs task r s (ltb→lt _ _ room)))
  | inr full ↦ rw full (Returns-pure r (rested s))
]

-- Seen from outside, a pass of the loop gives up some of the tasks that it holds, and starts at most
-- one, which it does only if fewer than the capacity are left; it does nothing else to them.
pub orchestrate-Pass :
    (host : String) (s s' : LoopState) (env : Env) (h : Trace)
    → outcome (orchestrate host s) env h ≡ ok s'
    → Pass (held s.running) (held s'.running)
unfolding orchestrate
orchestrate-Pass host s s' env h e =
    let moves : Returns (λ (u : LoopState). Pass (held s.running) (held u.running))
        (orchestrate host s) =
      Returns-bind _ _ (λ at. Returns-bind _ _ (λ u. Returns-bind _ _ (λ v.
        Returns-bind-Returns _ _ (stalls-Some s.running) (λ running some_left.
          Returns-bind-Returns _ _ (fill-Pass host (held s.running) running some_left)
            (λ filled m. Returns-pure _ m))))) in
    moves.returned env h s' e
