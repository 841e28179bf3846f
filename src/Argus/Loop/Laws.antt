-- ===== src/Argus/Loop/Laws.antt =====
-- The loop keeps its capacity and survives every failure.
use az_lab.Time.{Time}
use az_lab.Event.{Trace, Env, ok}
use az_lab.Exec.{now, heartbeat, thread_alive}
use az_lab.Rules.{IsOk, Quiet, Quiet-pure, Quiet-bind, quiet_rules}
use az_lab.Rules.Returns.{Returns, Returns-pure, Returns-bind, Returns-bind-Returns}
use az_lab.Rules.Inversion.{outcome}
use az_lab.Report.{discord_notify}
use az_lab.Argus.{Entry, Registry, max_workers, pop, spawn}
use az_lab.Argus.Stalls.{
  progress, is_stalled, scanned, scan, kill_running, kill_of, reset_task_to_pending, stop_stalled,
  check_stalls,
}
use az_lab.Argus.Loop.{LoopState, sweeps, spawned, fill, orchestrate}
use az_lab.Queue.{Task}
use az_lab.Prelude.{
  ◌≤◌, ◌<◌, ℕ, suc, String, ◌≡◌, refl, inl, inr, Bool, true, false, Option, none, some, List, [],
  ◌∷◌, ◌++◌, ◌==◌, arith, ltb, length, ltb→lt, Bool-cases,
}

length-pop : (id : String) (r : Registry) → length (pop id r) ≤ length r
unfolding pop
length-pop id [] = omega arith
length-pop id (e ∷ r) = elim (Bool-cases (e.0 == id)) [
  | inl same ↦ rw same (omega (arith, length-pop id r))
  | inr other ↦ rw other (omega (arith, length-pop id r))
]

length-append_one {ℓ} :
    {A : Type ℓ} (xs : List A) (x : A) → length (xs ++ (x ∷ [])) ≡ suc (length xs)
length-append_one [] x = refl
length-append_one (y ∷ xs) x = omega (arith, length-append_one xs x)

length-spawn :
    (t : Task) (at : Time) (r : Registry) → length (spawn t at r) ≡ suc (length (pop t.id r))
unfolding spawn
length-spawn t at r = length-append_one (pop t.id r) _

Quiet-now : Quiet now
unfolding now
Quiet-now = record { at = λ env h. tt }

Quiet-heartbeat : (s : String) → Quiet (heartbeat s)
unfolding heartbeat
Quiet-heartbeat s = record { at = λ env h. tt }

Quiet-thread_alive : (id : String) → Quiet (thread_alive id)
unfolding thread_alive
Quiet-thread_alive id = record { at = λ env h. tt }

ruleset quiet = (quiet_rules, Quiet-now, Quiet-heartbeat, Quiet-thread_alive)

discord-Quiet : (s : String) → Quiet (discord_notify s)
unfolding discord_notify
discord-Quiet s = search quiet

progress-Quiet : (at : Time) (e : String × Entry) → Quiet (progress at e)
unfolding progress
progress-Quiet at (id, e) = search (quiet, discord-Quiet)

scan-Quiet : (at : Time) (r : Registry) → Quiet (scan at r)
unfolding scan
scan-Quiet at [] = search quiet
scan-Quiet at ((id, e) ∷ r) = Quiet-bind _ _ (progress-Quiet at (id, e)) (λ e'.
    Quiet-bind _ _ (Quiet-thread_alive id)
      (λ alive. Quiet-bind _ _ (scan-Quiet at r) (λ rest. Quiet-pure _)))

kill-Quiet : (id : String) (p : Option String) → Quiet (kill_of id p)
unfolding kill_of kill_running
kill-Quiet id none = search quiet
kill-Quiet id (some pid) = search quiet

reset-Quiet : (id reason : String) → Quiet (reset_task_to_pending id reason)
unfolding reset_task_to_pending
reset-Quiet id reason = search quiet

stop-Quiet : (at : Time) (stalled r : Registry) → Quiet (stop_stalled at stalled r)
unfolding stop_stalled
stop-Quiet at [] r = Quiet-pure r
stop-Quiet at ((id, e) ∷ stalled) r =
    Quiet-bind _ _ (kill-Quiet id e.proc)
      (λ u. Quiet-bind _ _ (reset-Quiet id _) (λ v. stop-Quiet at stalled (pop id r)))

stalls-Quiet : (r : Registry) → Quiet (check_stalls r)
unfolding check_stalls
stalls-Quiet r =
    Quiet-bind _ _ Quiet-now (λ at. Quiet-bind _ _ (scan-Quiet at r) (λ found. stop-Quiet at _ _))

spawned-Quiet : (o : Option Task) (r : Registry) → Quiet (spawned o r)
unfolding spawned
spawned-Quiet none r = search quiet
spawned-Quiet (some t) r = search quiet

fill-Quiet : (host : String) (r : Registry) → Quiet (fill host r)
unfolding fill
fill-Quiet host r = search (quiet, spawned-Quiet)

sweeps-Quiet : Quiet sweeps
unfolding sweeps
sweeps-Quiet = search quiet

-- However the world answers, a pass of the loop does not raise: the loop goes on.
orchestrate_never_raises :
    (host : String) (s : LoopState) (env : Env) (h : Trace)
    → IsOk (outcome (orchestrate host s) env h)
unfolding orchestrate
orchestrate_never_raises host s env h =
    let q : Quiet (orchestrate host s) =
      search (quiet, sweeps-Quiet, stalls-Quiet, fill-Quiet) depth 12 in
    q.at env h

-- What a scan finds: no more entries than there were, and in the second part those whose time is up.
Scanned : Time → Registry → Registry × Registry → Type 0
Scanned at r p = length (p.0) ≤ length r

scanned-le :
    (id : String) (e : Entry) (alive stalled : Bool) (rest : Registry × Registry) (n : ℕ)
    → length (rest.0) ≤ n
    → length ((scanned id e alive stalled rest).0) ≤ suc n
scanned-le id e false stalled rest n h = omega arith
scanned-le id e true false rest n h = omega arith
scanned-le id e true true rest n h = omega arith

scan-Returns : (at : Time) (r : Registry) → Returns (Scanned at r) (scan at r)
unfolding scan Scanned
scan-Returns at [] = Returns-pure _ (omega arith)
scan-Returns at ((id, e) ∷ r) = Returns-bind _ _ (λ e'. Returns-bind _ _ (λ alive.
    Returns-bind-Returns _ _ (scan-Returns at r)
      (λ rest h. Returns-pure _ (scanned-le id e' alive (is_stalled at e') rest (length r) h))))

AtMost : ℕ → Registry → Type 0
AtMost n r = length r ≤ n

stop-Returns :
    (at : Time) (stalled r : Registry) (n : ℕ)
    → length r ≤ n
    → Returns (AtMost n) (stop_stalled at stalled r)
unfolding stop_stalled AtMost
stop-Returns at [] r n h = Returns-pure r h
stop-Returns at ((id, e) ∷ stalled) r n h = Returns-bind _ _ (λ u.
    Returns-bind _ _ (λ v. stop-Returns at stalled (pop id r) n (omega (arith, length-pop id r))))

stalls-Returns : (r : Registry) (n : ℕ) → length r ≤ n → Returns (AtMost n) (check_stalls r)
unfolding check_stalls Scanned
stalls-Returns r n h = Returns-bind _ _ (λ at.
    Returns-bind-Returns _ _ (scan-Returns at r)
      (λ found k. stop-Returns at (found.1) (found.0) n (omega arith)))

spawned-Returns :
    (o : Option Task) (r : Registry)
    → length r < max_workers
    → Returns (AtMost max_workers) (spawned o r)
unfolding spawned AtMost
spawned-Returns none r h = Returns-pure r (omega arith)
spawned-Returns (some t) r h =
    Returns-bind _ _ (λ at. Returns-pure _ (omega (arith, length-spawn t at r, length-pop t.id r)))

fill-Returns :
    (host : String) (r : Registry)
    → length r ≤ max_workers
    → Returns (AtMost max_workers) (fill host r)
unfolding fill AtMost
fill-Returns host r h = elim (Bool-cases (ltb (length r) max_workers)) [
  | inl room ↦ rw room (Returns-bind _ _ (λ task. spawned-Returns task r (ltb→lt _ _ room)))
  | inr full ↦ rw full (Returns-pure r h)
]

-- A pass of the loop over a registry within the capacity leaves one within the capacity.
orchestrate-capacity :
    (host : String) (s s' : LoopState) (env : Env) (h : Trace)
    → length s.running ≤ max_workers
    → outcome (orchestrate host s) env h ≡ ok s'
    → length s'.running ≤ max_workers
unfolding orchestrate AtMost
orchestrate-capacity host s s' env h c e =
    let kept : Returns (λ (u : LoopState). length u.running ≤ max_workers) (orchestrate host s) =
      Returns-bind _ _ (λ at. Returns-bind _ _ (λ u. Returns-bind _ _ (λ v.
        Returns-bind-Returns _ _ (stalls-Returns s.running max_workers c) (λ running k.
          Returns-bind-Returns _ _ (fill-Returns host running k)
            (λ filled m. Returns-pure _ m))))) in
    kept.returned env h s' e
