-- ===== src/Reactions/Laws.antt =====
-- What a round of the loop leaves.
use az_lab.Time.{Time}
use az_lab.Reactions.{
  World, Guard, Message, Request, eyes, check, get_messages, react, get_heartbeat, log_activity,
  save_state, second, reaction_timeout, max_seen, drop, trim, arrive, arrivals, noted,
  read_heartbeat, resolve, pass,
}
use az_lab.Prelude.{
  ℕ, zero, suc, ◌+◌, ◌*◌, ◌-◌, ◌≤◌, String, ◌≡◌, refl, sym, subst, inl, inr, Bool, true, false, not,
  ◌||◌, List, [], ◌∷◌, ◌++◌, ◌==◌, ltb, leb, if◌then◌else◌, elem, length, is_empty, All, Bool-cases,
  arith, eq_iff, ltb→le, ltb→lt,
}

length-drop : (n : ℕ) (xs : List String) → length (drop n xs) ≡ length xs - n
unfolding drop
length-drop zero xs = omega arith
length-drop (suc n) [] = omega arith
length-drop (suc n) (x ∷ xs) = omega (arith, length-drop n xs)

trim_bounded : (xs : List String) → length (trim xs) ≤ max_seen
unfolding trim
trim_bounded xs = elim (Bool-cases (ltb max_seen (length xs))) [
  | inl long ↦
      rw long (let lt = ltb→lt _ _ long in omega (arith, length-drop (length xs - max_seen) xs))
  | inr short ↦ rw short (ltb→le _ _ short)
]

-- Nothing that still waits is older than the timeout.
abbrev pub InTime : Time → List (String × Time) → Type 0
InTime now ps = All (λ (p : String × Time). now - p.1 ≤ reaction_timeout) ps

resolve-InTime :
    (now : Time) (moved : Bool) (ps : List (String × Time)) (h : List Request)
    → InTime now ((resolve now moved ps h).0)
unfolding resolve
resolve-InTime now moved [] h = tt
resolve-InTime now true ((id, at) ∷ ps) h = resolve-InTime now true ps _
resolve-InTime now false ((id, at) ∷ ps) h = elim (Bool-cases (ltb reaction_timeout (now - at))) [
  | inl late ↦ rw late (resolve-InTime now false ps _)
  | inr soon ↦ rw soon (ltb→le _ _ soon, resolve-InTime now false ps _)
]

read_heartbeat-seen :
    (w : World) (now : Time) (g : Guard) (h : List Request)
    → ((read_heartbeat w now g h).1).seen_ids ≡ g.seen_ids
unfolding read_heartbeat
read_heartbeat-seen w now g h =
    elim (Bool-cases (not (is_empty g.pending) || leb (30 * second) (now - g.last_read))) [
      | inl asks ↦ rw asks refl
      | inr rests ↦ rw rests refl
    ]

-- After a round, whatever Discord and the database answered, at most 500 ids are kept as seen, and
-- no message waits for longer than ten minutes.
pub pass_bounded :
    (w : World) (now : Time) (g : Guard) (h : List Request)
    → (length ((pass w now g h).0).seen_ids ≤ max_seen) × InTime now ((pass w now g h).0).pending
unfolding pass
pass_bounded w now g h =
    let (g1, h1) = arrivals w now (w.messages h) g (get_messages ∷ h) in
    let g2 : Guard = record g1 { seen_ids = trim g1.seen_ids } in
    let (moved, g3, h3) = read_heartbeat w now g2 h1 in
    (
      rw (read_heartbeat-seen w now g2 h1) (trim_bounded g1.seen_ids),
      resolve-InTime now moved g3.pending h3,
    )

-- How often a message was given the eyes.
unfoldable pub eyes_of : String → List Request → ℕ
eyes_of id [] = 0
eyes_of id (react i eyes ∷ h) = (if i == id then 1 else 0) + eyes_of id h
eyes_of id (react i check ∷ h) = eyes_of id h
eyes_of id (get_messages ∷ h) = eyes_of id h
eyes_of id (get_heartbeat ∷ h) = eyes_of id h
eyes_of id (log_activity s ∷ h) = eyes_of id h
eyes_of id (save_state ∷ h) = eyes_of id h

-- What is still allowed: none once the message was seen.
abbrev pub allowed : String → Guard → ℕ
allowed id g = if elem id g.seen_ids then 0 else 1

eyes_of-noted :
    (id i : String) (b : Bool) (h : List Request) → eyes_of id (noted i b h) ≡ eyes_of id h
unfolding noted eyes_of
eyes_of-noted id i true h = refl
eyes_of-noted id i false h = refl

elem-append :
    (id i : String) (xs : List String) → elem id (xs ++ (i ∷ [])) ≡ elem id xs || (id == i)
elem-append id i [] = ground arith
elem-append id i (x ∷ xs) = ground (arith, elem-append id i xs)

-- The eyes, once the id is added to those that are seen.
allowed_le :
    (id i : String) (xs : List String) (n : ℕ)
    → n + (if elem id (xs ++ (i ∷ [])) then 0 else 1) ≤ n + (if elem id xs then 0 else 1)
allowed_le id i xs n = rw (elem-append id i xs) (elim (Bool-cases (elem id xs)) [
  | inl known ↦ rw known (omega arith)
  | inr new ↦ rw new (elim (Bool-cases (id == i)) [
    | inl same ↦ rw same (omega arith)
    | inr other ↦ rw other (omega arith)
  ])
])

eyes_le :
    (id i : String) (xs : List String) (n : ℕ)
    → elem i xs ≡ false
    → ((if i == id then 1 else 0) + n) + (if elem id (xs ++ (i ∷ [])) then 0 else 1)
      ≤ n + (if elem id xs then 0 else 1)
eyes_le id i xs n new = rw (elem-append id i xs) (elim (Bool-cases (i == id)) [
  | inl same ↦
      let e : i ≡ id = (eq_iff i id).0 same in
      let fresh : elem id xs ≡ false = subst (λ k. elem k xs ≡ false) e new in
      let back : (id == i) ≡ true = (eq_iff id i).1 (sym e) in
      rw same (rw fresh (rw back (omega arith)))
  | inr other ↦ rw other (elim (Bool-cases (elem id xs)) [
    | inl known ↦ rw known (omega arith)
    | inr unseen ↦ rw unseen (elim (Bool-cases (id == i)) [
      | inl back ↦ rw back (omega arith)
      | inr differs ↦ rw differs (omega arith)
    ])
  ])
])

arrive_eyes :
    (w : World) (now : Time) (id : String) (m : Message) (g : Guard) (h : List Request)
    → let r = arrive w now m g h in
      eyes_of id (r.1) + allowed id (r.0) ≤ eyes_of id h + allowed id g
unfolding arrive eyes_of
arrive_eyes w now id m g h = elim (Bool-cases (m.id == "" || elem m.id g.seen_ids)) [
  | inl known ↦ rw known (omega arith)
  | inr new ↦ elim (Bool-cases m.by_bot) [
    | inl bot ↦ rw new (rw bot (allowed_le id m.id g.seen_ids (eyes_of id h)))
    | inr person ↦ rw new (
        rw person (
          rw (eyes_of-noted id m.id (w.reacts h m.id eyes) (react m.id eyes ∷ h))
            (eyes_le id m.id g.seen_ids (eyes_of id h) (ground arith))))
  ]
]

arrivals_eyes :
    (w : World) (now : Time) (id : String) (ms : List Message) (g : Guard) (h : List Request)
    → eyes_of id ((arrivals w now ms g h).1) ≤ eyes_of id h + allowed id g
unfolding arrivals
arrivals_eyes w now id [] g h = omega arith
arrivals_eyes w now id (m ∷ ms) g h =
    let r = arrive w now m g h in
    omega (arith, arrive_eyes w now id m g h, arrivals_eyes w now id ms (r.0) (r.1))

read_heartbeat_eyes :
    (w : World) (now : Time) (id : String) (g : Guard) (h : List Request)
    → eyes_of id ((read_heartbeat w now g h).2) ≡ eyes_of id h
unfolding read_heartbeat eyes_of
read_heartbeat_eyes w now id g h =
    elim (Bool-cases (not (is_empty g.pending) || leb (30 * second) (now - g.last_read))) [
      | inl asks ↦ rw asks refl
      | inr rests ↦ rw rests refl
    ]

resolve_eyes :
    (now : Time) (id : String) (moved : Bool) (ps : List (String × Time)) (h : List Request)
    → eyes_of id ((resolve now moved ps h).1) ≡ eyes_of id h
unfolding resolve eyes_of
resolve_eyes now id moved [] h = refl
resolve_eyes now id true ((i, at) ∷ ps) h = resolve_eyes now id true ps _
resolve_eyes now id false ((i, at) ∷ ps) h = elim (Bool-cases (ltb reaction_timeout (now - at))) [
  | inl late ↦ rw late (resolve_eyes now id false ps _)
  | inr soon ↦ rw soon (resolve_eyes now id false ps h)
]

-- A round gives a message the eyes at most once, and not at all if its id is kept as seen.
pub pass_eyes :
    (w : World) (now : Time) (id : String) (g : Guard) (h : List Request)
    → eyes_of id ((pass w now g h).1) ≤ eyes_of id h + (if elem id g.seen_ids then 0 else 1)
unfolding pass eyes_of
pass_eyes w now id g h =
    let (g1, h1) = arrivals w now (w.messages h) g (get_messages ∷ h) in
    let g2 : Guard = record g1 { seen_ids = trim g1.seen_ids } in
    let (moved, g3, h3) = read_heartbeat w now g2 h1 in
    omega (
      arith,
      arrivals_eyes w now id (w.messages h) g (get_messages ∷ h),
      read_heartbeat_eyes w now id g2 h1,
      resolve_eyes now id moved g3.pending h3,
    )
