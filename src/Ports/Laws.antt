-- ===== src/Ports/Laws.antt =====
-- What a run that ends well has done.
use az_lab.Ports.{
  Call, inspect, cat_port, preferences, ask, set_preferences, World, Exit, exit, Listen, port,
  unread, no_object, gluetun, qbit, running, in_range, port_in, forwarded_port, listen_port,
  set_listen_port, confirm, change, align, sync_to, sync,
}
use az_lab.Durability.Migrations.{number_of}
use az_lab.Prelude.{
  ℕ, String, suc, ◌≤◌, ◌≡◌, refl, sym, ap, subst, ◌∙◌, or_else, ◌↔◌, ◌⊎◌, inl, inr, Bool, true,
  false, ◌&&◌, Option, none, some, List, [], ◌∷◌, Bool-cases, eqb, arith,
}

-- Both containers answer that they run.
abbrev pub both_running : World → List Call → Bool
both_running w h = running w h gluetun && running w (inspect gluetun ∷ h) qbit

-- The forwarded port as it is read, and that the last call read the same port from qBittorrent.
pub record IsSynced (w : World) (h h' : List Call) : Type 0 where
  pub want : ℕ
  pub forwarded : forwarded_port w (inspect qbit ∷ inspect gluetun ∷ h) ≡ some want
  pub low : 1 ≤ want
  pub high : want ≤ 65535
  pub before : List Call
  pub read_last : h' ≡ preferences ∷ before
  pub agrees : listen_port w before ≡ port want

-- The calls that set the port.
pub sets_of : List Call → ℕ
sets_of [] = 0
sets_of (set_preferences p ∷ cs) = suc (sets_of cs)
sets_of (inspect c ∷ cs) = sets_of cs
sets_of (cat_port ∷ cs) = sets_of cs
sets_of (preferences ∷ cs) = sets_of cs

range : (o : Option ℕ) (n : ℕ) → in_range o ≡ some n → (1 ≤ n) × (n ≤ 65535)
unfolding in_range
range none n e = ground arith
range (some m) n e = ground arith

port_in_range : (a : ℕ × String) (n : ℕ) → port_in a ≡ some n → (1 ≤ n) × (n ≤ 65535)
unfolding port_in
port_in_range (rc, out) n e = elim (Bool-cases (eqb rc 0)) [
  | inl well ↦ range (number_of out) n (ground arith)
  | inr failed ↦ ground arith
]

abbrev Reads : World → ℕ → List Call → Type 0
Reads w want h' = (b : List Call) × (h' ≡ preferences ∷ b) × (listen_port w b ≡ port want)

got : Listen → ℕ → ℕ
got (port p) n = p
got unread n = n
got no_object n = n

confirmed : (want : ℕ) (l : Listen) → confirm want l ≡ exit 0 ↔ l ≡ port want
unfolding confirm got
confirmed want (port p) = elim (Bool-cases (eqb p want)) [
  | inl same ↦ let e : p ≡ want = ground arith in rw same ((λ _. ap port e), (λ _. refl))
  | inr other ↦ rw other (
    (λ e. ground arith),
    (λ q. let e : p ≡ want = ap (λ l. got l p) q in let no : ⊥ = ground arith in elim no [ ]),
  )
]
confirmed want unread = ((λ e. ground arith), (λ e. ground arith))
confirmed want no_object = ((λ e. ground arith), (λ e. ground arith))

tail : List Call → List Call
tail [] = []
tail (c ∷ cs) = cs

-- Where the last call was to read the port, it is that call's answer that counts.
Reads-here :
    (w : World) (want : ℕ) (b : List Call)
    → listen_port w b ≡ port want ↔ Reads w want (preferences ∷ b)
unfolding tail
Reads-here w want b = (
  (λ e. (b, refl, e)),
  (λ (c, same, e). subst (λ x. listen_port w x ≡ port want) (sym (ap tail same)) e),
)

change-Reads :
    (w : World) (want : ℕ) (h : List Call)
    → (change w want h).0 ≡ exit 0 ↔ Reads w want (change w want h).1
unfolding change
change-Reads w want h =
    let b = set_preferences want ∷ h in
    elim (Bool-cases (set_listen_port w h want)) [
      | inl done ↦ rw done (
        (λ e. (Reads-here w want b).0 ((confirmed want (listen_port w b)).0 e)),
        (λ r. (confirmed want (listen_port w b)).1 ((Reads-here w want b).1 r)),
      )
      | inr failed ↦ rw failed ((λ e. ground arith), (λ (c, same, e). ground arith))
    ]

align-Reads :
    (w : World) (want : ℕ) (l : Listen) (h : List Call)
    → listen_port w h ≡ l
    → (align w want l (preferences ∷ h)).0 ≡ exit 0
      ↔ Reads w want (align w want l (preferences ∷ h)).1
unfolding align
align-Reads w want (port have) h e = elim (Bool-cases (eqb have want)) [
  | inl same ↦
      let q : have ≡ want = ground arith in
      rw same ((λ _. (Reads-here w want h).0 (e ∙ ap port q)), (λ _. refl))
  | inr other ↦ rw other (change-Reads w want (preferences ∷ h))
]
align-Reads w want unread h e =
    ((λ q. ground arith), (λ r. let p = (Reads-here w want h).1 r in ground arith))
align-Reads w want no_object h e =
    ((λ q. ground arith), (λ r. let p = (Reads-here w want h).1 r in ground arith))

sync_to-Reads :
    (w : World) (o : Option ℕ) (h : List Call)
    → (sync_to w o (cat_port ∷ h)).0 ≡ exit 0
      ↔ (want : ℕ) × (o ≡ some want) × Reads w want (sync_to w o (cat_port ∷ h)).1
unfolding sync_to
sync_to-Reads w none h = ((λ e. ground arith), (λ (n, e, r). ground arith))
sync_to-Reads w (some want) h =
    let a = align-Reads w want (listen_port w (cat_port ∷ h)) (cat_port ∷ h) refl in
    (
      (λ e. (want, refl, a.0 e)),
      (λ (n, e, r). a.1 (
          subst (λ m. Reads w m (sync_to w (some want) (cat_port ∷ h)).1)
            (sym (ap (λ o. or_else o want) e)) r)),
    )

change_sets : (w : World) (want : ℕ) (h : List Call) → sets_of (change w want h).1 ≤ suc (sets_of h)
unfolding change sets_of
change_sets w want h = elim (Bool-cases (set_listen_port w h want)) [
  | inl done ↦ rw done (omega arith)
  | inr failed ↦ rw failed (omega arith)
]

align_sets :
    (w : World) (want : ℕ) (l : Listen) (h : List Call)
    → sets_of (align w want l h).1 ≤ suc (sets_of h)
unfolding align
align_sets w want (port have) h = elim (Bool-cases (eqb have want)) [
  | inl same ↦ rw same (omega arith)
  | inr other ↦ rw other (change_sets w want h)
]
align_sets w want unread h = omega arith
align_sets w want no_object h = omega arith

sync_to_sets :
    (w : World) (o : Option ℕ) (h : List Call) → sets_of (sync_to w o h).1 ≤ suc (sets_of h)
unfolding sync_to sets_of
sync_to_sets w none h = omega arith
sync_to_sets w (some want) h = align_sets w want (listen_port w h) (preferences ∷ h)

-- Where both containers run, what follows is sync_to.
sync-both :
    (w : World) (h : List Call)
    → both_running w h ≡ true
    → sync w h
      ≡ sync_to w
          (forwarded_port w (inspect qbit ∷ inspect gluetun ∷ h))
          (cat_port ∷ inspect qbit ∷ inspect gluetun ∷ h)
unfolding sync
sync-both w h e = ground arith

sync-down :
    (w : World) (h : List Call)
    → both_running w h ≡ false
    → ((sync w h).0 ≡ exit 0) × (sets_of (sync w h).1 ≡ sets_of h)
unfolding sync sets_of
sync-down w h e = ground arith

clash : {b : Bool} → b ≡ true → b ≡ false → ⊥
clash e f = ground arith

abbrev pub Ends : World → List Call → Exit × List Call → Type 0
Ends w h r =
    (r.0 ≡ exit 0 ↔ (both_running w h ≡ false) ⊎ IsSynced w h r.1) × (sets_of r.1 ≤ suc (sets_of h))

forwarded_range :
    (w : World) (h : List Call) (n : ℕ) → forwarded_port w h ≡ some n → (1 ≤ n) × (n ≤ 65535)
unfolding forwarded_port
forwarded_range w h n e = port_in_range (ask w h cat_port) n e

synced :
    (w : World) (h h' : List Call)
    → ((want : ℕ) × (forwarded_port w (inspect qbit ∷ inspect gluetun ∷ h) ≡ some want)
        × Reads w want h')
      ↔ IsSynced w h h'
synced w h h' = (
  (λ (n, e, (b, last, agrees)).
      let (lo, hi) = forwarded_range w (inspect qbit ∷ inspect gluetun ∷ h) n e in
      record {
        want = n;
        forwarded = e;
        low = lo;
        high = hi;
        before = b;
        read_last = last;
        agrees = agrees;
      }),
  (λ s. (s.want, s.forwarded, (s.before, s.read_last, s.agrees))),
)

both-Ends :
    (w : World) (h : List Call)
    → both_running w h ≡ true
    → Ends w h (
        sync_to w
          (forwarded_port w (inspect qbit ∷ inspect gluetun ∷ h))
          (cat_port ∷ inspect qbit ∷ inspect gluetun ∷ h))
unfolding sets_of
both-Ends w h up =
    let h2 = inspect qbit ∷ inspect gluetun ∷ h in
    let f = forwarded_port w h2 in
    let r = sync_to-Reads w f h2 in
    let s = synced w h (sync_to w f (cat_port ∷ h2)).1 in
    (
      (
        (λ e. inr (s.0 (r.0 e))),
        (λ d. elim d [ inl down ↦ elim (clash up down) [ ] | inr done ↦ r.1 (s.1 done) ]),
      ),
      sync_to_sets w f (cat_port ∷ h2),
    )

-- A run exits with 0 exactly if a container does not run, or if its last call read from qBittorrent
-- the port that the VPN forwards, which is from 1 to 65535; and a run sets the port at most once.
pub sync-Ends : (w : World) (h : List Call) → Ends w h (sync w h)
sync-Ends w h = elim (Bool-cases (both_running w h)) [
  | inl up ↦ rw (sync-both w h up) (both-Ends w h up)
  | inr down ↦
      let (zeroed, kept) = sync-down w h down in
      (((λ e. inl down), (λ d. zeroed)), rw kept (omega arith))
]
