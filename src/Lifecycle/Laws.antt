-- ===== src/Lifecycle/Laws.antt =====
-- When the sweep of the episodes posts.
use Prim.Native.Char.{code}
use Prim.Native.String.{[] as empty, ◌∷◌ as ◌▸◌}
use Prim.Native.String.append
use az_lab.Text
use az_lab.Keys
use az_lab.Lifecycle.{
  World, Counts, Kind, is_reaped, stale_after_reap, open_above_floor, kind_name, found, is_some,
  is_open, name_of, findings, mag_of, key_of, message_of, report,
}
use az_lab.Keys.Laws.{report_changes, report-key}
use az_lab.Prelude.{
  ℕ, String, ◌<>◌, ◌≡◌, refl, sym, ap, ◌∙◌, ◌↔◌, Bool, true, false, none, List, [], ◌∷◌, ◌++◌, map,
  arith, any, if◌then◌else◌, eqb,
}

-- The key, as it reads: which findings there are, and the order of magnitude.
pub key_on : (reaped stale opened : Bool) → String → List String
key_on a b o m =
    found o "OPEN_ABOVE_FLOOR" ++ (found a "REAPED" ++ (found b "STALE_AFTER_REAP" ++ (m ∷ [])))

key_with :
    (a b o : Bool) (r s t m : String)
    → Keys.sorted (
        map name_of (
          found a (is_reaped, r)
          ++ (found b (stale_after_reap, s) ++ found o (open_above_floor, t)))
        ++ (("m" ▸ m) ∷ []))
      ≡ key_on a b o ("m" ▸ m)
unfolding Keys.sorted Keys.text_le kind_name key_on
key_with true true true r s t m = refl
key_with true true false r s t m = refl
key_with true false true r s t m = refl
key_with true false false r s t m = refl
key_with false true true r s t m = refl
key_with false true false r s t m = refl
key_with false false true r s t m = refl
key_with false false false r s t m = refl

last_of : List String → String
last_of [] = ""
last_of (x ∷ []) = x
last_of (x ∷ y ∷ xs) = last_of (y ∷ xs)

begins : ℕ → String → Bool
begins n empty = false
begins n (c ▸ s) = eqb (code c) n

-- What a key tells, by the initials of its parts.
told_by : List String → Bool × Bool × Bool × String
unfolding begins last_of
told_by k = (any (begins 82) k, any (begins 83) k, any (begins 79) k, last_of k)

told_by-key : (a b o : Bool) (m : String) → told_by (key_on a b o ("m" ▸ m)) ≡ (a, b, o, "m" ▸ m)
unfolding told_by key_on
told_by-key true true true m = refl
told_by-key true true false m = refl
told_by-key true false true m = refl
told_by-key true false false m = refl
told_by-key false true true m = refl
told_by-key false true false m = refl
told_by-key false false true m = refl
told_by-key false false false m = refl

-- The findings of two sweeps are of the same kinds, and the reaps of the same order of magnitude.
pub record SameNews (w : World) (c d : Counts) : Type 0 where
  pub reaped : is_some c.reaped ≡ is_some d.reaped
  pub stale : is_some c.open_stale ≡ is_some d.open_stale
  pub opened : is_open w c ≡ is_open w d
  pub magnitude : mag_of c ≡ mag_of d

tail_of : Counts → String
tail_of c = "ag" <> Text.show (if eqb c.reaped 0 then 0 else Text.length (Text.show c.reaped))

mag-cons : (c : Counts) → mag_of c ≡ "m" ▸ tail_of c
unfolding mag_of tail_of
mag-cons c =
    append.cons "m" "ag"
      (Text.show (if eqb c.reaped 0 then 0 else Text.length (Text.show c.reaped)))

key_of-on :
    (w : World) (c : Counts)
    → key_of w c ≡ key_on (is_some c.reaped) (is_some c.open_stale) (is_open w c) (mag_of c)
unfolding key_of findings
key_of-on w c =
    rw (mag-cons c)
      (key_with (is_some c.reaped) (is_some c.open_stale) (is_open w c) _ _ _ (tail_of c))

told_by-of :
    (w : World) (c : Counts)
    → told_by (key_of w c) ≡ (is_some c.reaped, is_some c.open_stale, is_open w c, mag_of c)
told_by-of w c = rw (key_of-on w c) (
    rw (mag-cons c)
      (told_by-key (is_some c.reaped) (is_some c.open_stale) (is_open w c) (tail_of c)))

same_key : (w : World) (c d : Counts) → key_of w c ≡ key_of w d ↔ SameNews w c d
same_key w c d = (
  (λ e.
      let t = sym (told_by-of w c) ∙ ap told_by e ∙ told_by-of w d in
      record {
        reaped = ap (λ u. u.0) t;
        stale = ap (λ u. u.1) t;
        opened = ap (λ u. u.2) t;
        magnitude = ap (λ u. u.3) t;
      }),
  (λ s.
      key_of-on w c
      ∙ (rw s.reaped (rw s.stale (rw s.opened (rw s.magnitude (sym (key_of-on w d))))))),
)

silent :
    (d : Counts) (fs : List (Kind × String)) (k : List String) → message_of d fs k ≡ none → k ≡ []
unfolding message_of
silent d [] [] e = refl
silent d [] (x ∷ k) e = ground arith
silent d (f ∷ fs) k e = ground arith

-- A key is never empty, so after a first sweep there is always something to say.
never_empty : (w : World) (c : Counts) → key_of w c ≡ [] → ⊥
unfolding begins last_of told_by
never_empty w c e =
    let t : mag_of c ≡ "" = ap (λ u. u.3) (sym (told_by-of w c) ∙ ap told_by e) in
    let b : begins 109 ("m" ▸ tail_of c) ≡ false = ap (begins 109) (sym (mag-cons c) ∙ t) in
    let no : true ≡ false = b in ground arith

-- After a sweep, the next one posts nothing exactly if its findings are of the same kinds and the
-- number of episodes that were reaped has as many digits, whatever the numbers are.
pub report_news :
    (w : World) (c d : Counts) (prev : List String)
    → (report w d (report w c prev).key).posted ≡ none ↔ SameNews w c d
unfolding report
report_news w c d prev = rw (report-key (key_of w c) prev (message_of c (findings w c) prev)) (
    let (to, from) =
      report_changes (key_of w d) (key_of w c) (message_of d (findings w d) (key_of w c))
        (λ e. elim (never_empty w c (silent d (findings w d) (key_of w c) e)) [ ]) in
    let (news, same) = same_key w c d in ((λ e. news (sym (to e))), (λ s. from (sym (same s)))))
