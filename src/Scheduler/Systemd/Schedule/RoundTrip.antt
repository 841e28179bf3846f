-- ===== src/Scheduler/Systemd/Schedule/RoundTrip.antt =====
-- A schedule that is written to a drop-in is read back as the one in force.
use Prim.Native.Char.{Char, code}
use Prim.Native.String.{◌∷◌ as ◌▸◌}
use Prim.Native.String.append
use az_lab.Text
use az_lab.Scheduler.Systemd.Schedule.{
  Directive, skip_blanks, after_equals, assigned, with_value, values, last_of, encoded,
  effective_schedule, dropin_body,
}
use az_lab.Prelude.{
  String, ◌<>◌, ◌≡◌, refl, ap, inl, inr, Bool, true, false, not, ◌&&◌, ◌||◌, Option, none, some,
  List, [], ◌∷◌, ◌++◌, arith, ◌==◌, eqb, Bool-cases,
}

glue-append :
    (c : Char) (l : String) (ls ys : List String)
    → Text.glue c ((l ∷ ls) ++ ys) ≡ Text.glue c (l ∷ ls) ++ ys
unfolding Text.glue
glue-append c l ls ys = refl

-- A text has at least one line.
first_lf : (s : String) → (l : String) × (ls : List String) × (Text.lf_lines s ≡ l ∷ ls)
unfolding Text.lf_lines Text.glue
first_lf String.[] = ("", [], refl)
first_lf (c ▸ s) =
    let (l, ls, e) = first_lf s in
    elim (Bool-cases (eqb (code c) 10)) [
      | inl feed ↦ ("", Text.lf_lines s, rw feed refl)
      | inr other ↦ (c ▸ l, ls, rw other (rw e refl))
    ]

lf_lines-append :
    (a b : String) → Text.lf_lines (a <> ("\n" <> b)) ≡ Text.lf_lines a ++ Text.lf_lines b
unfolding Text.lf_lines Text.glue
lf_lines-append String.[] b = rw append.nil (rw append.cons (rw append.nil refl))
lf_lines-append (c ▸ a) b =
    let (l, ls, e) = first_lf a in
    rw (append.cons c a ("\n" <> b)) (
      rw (lf_lines-append a b) (
        rw e (elim (Bool-cases (eqb (code c) 10)) [
          | inl feed ↦ rw feed refl
          | inr other ↦ rw other refl
        ])))

unfoldable pub one_line : String → Bool
one_line String.[] = true
one_line (c ▸ s) = not (eqb (code c) 10) && one_line s

one_line-append : (a b : String) → one_line (a <> b) ≡ (one_line a && one_line b)
unfolding one_line
one_line-append String.[] b = rw append.nil refl
one_line-append (c ▸ a) b = rw append.cons (ground (arith, one_line-append a b))

lf_lines_one : (s : String) → one_line s ≡ true → Text.lf_lines s ≡ s ∷ []
unfolding one_line Text.lf_lines Text.glue
lf_lines_one String.[] e = refl
lf_lines_one (c ▸ s) e =
    let feed : eqb (code c) 10 ≡ false = ground arith in
    rw feed (rw (lf_lines_one s (ground arith)) refl)

with_value-append :
    (o : Option String) (xs ys : List String) → with_value o (xs ++ ys) ≡ with_value o xs ++ ys
with_value-append none xs ys = refl
with_value-append (some v) xs ys = elim (Bool-cases (Text.strip v == "")) [
  | inl blank ↦ rw blank refl
  | inr full ↦ rw full refl
]

values-append :
    (name : String) (xs ys : List String)
    → values name (xs ++ ys) ≡ values name xs ++ values name ys
unfolding values
values-append name [] ys = refl
values-append name (x ∷ xs) ys =
    rw (values-append name xs ys)
      (with_value-append (assigned name x) (values name xs) (values name ys))

last_of-append : (xs : List String) (x : String) → last_of (xs ++ (x ∷ [])) ≡ some x
unfolding last_of
last_of-append [] x = refl
last_of-append (y ∷ []) x = refl
last_of-append (y ∷ z ∷ xs) x = last_of-append (z ∷ xs) x

blank_space : (c : Char) → (eqb (code c) 32 || eqb (code c) 9) ≡ true → Text.is_space c ≡ true
unfolding Text.is_space
blank_space c e = ground arith

lstrip-skip_blanks : (s : String) → Text.lstrip (skip_blanks s) ≡ Text.lstrip s
unfolding skip_blanks Text.lstrip
lstrip-skip_blanks String.[] = refl
lstrip-skip_blanks (c ▸ s) = elim (Bool-cases (eqb (code c) 32 || eqb (code c) 9)) [
  | inl blank ↦ rw blank (rw (blank_space c blank) (lstrip-skip_blanks s))
  | inr other ↦ rw other refl
]

strip-skip_blanks : (s : String) → Text.strip (skip_blanks s) ≡ Text.strip s
unfolding Text.strip
strip-skip_blanks s = ap Text.rstrip (lstrip-skip_blanks s)

assigned-calendar :
    (v : String) → assigned "OnCalendar" ("OnCalendar" <> ("=" <> v)) ≡ some (skip_blanks v)
unfolding assigned after_equals skip_blanks Text.length
assigned-calendar v =
    rw (Text.is_prefix_self "OnCalendar" ("=" <> v))
      (rw (Text.drop-append "OnCalendar" ("=" <> v)) (rw append.cons (rw append.nil refl)))

abbrev pub calendar : String → Directive
calendar v = record { name = "OnCalendar"; value = v }

body-lines :
    (v : String)
    → one_line v ≡ true
    → Text.lf_lines (dropin_body (calendar v))
      ≡ "# Managed by scheduled_control_daemon — do not edit manually."
        ∷ "[Timer]"
        ∷ "OnCalendar="
        ∷ ("OnCalendar" <> ("=" <> v))
        ∷ ""
        ∷ []
unfolding dropin_body one_line Text.lf_lines Text.glue
body-lines v e =
    let line : one_line ("OnCalendar" <> ("=" <> v)) ≡ true =
      rw (one_line-append "OnCalendar" ("=" <> v)) (rw (one_line-append "=" v) e) in
    let l4 = lf_lines-append ("OnCalendar" <> ("=" <> v)) "" in
    rw (lf_lines-append "# Managed by scheduled_control_daemon — do not edit manually." _) (
      rw (lf_lines-append "[Timer]" _)
        (rw (lf_lines-append "OnCalendar=" _) (rw l4 (rw (lf_lines_one _ line) refl))))

body-values :
    (v : String)
    → one_line v ≡ true
    → Text.strip v ≡ v
    → (v == "") ≡ false
    → values "OnCalendar" (Text.lf_lines (dropin_body (calendar v))) ≡ v ∷ []
unfolding values
body-values v e s n =
    rw (body-lines v e) (rw (assigned-calendar v) (rw (strip-skip_blanks v) (rw s (rw n refl))))

-- The drop-in that is written for a calendar schedule puts that schedule in force, whatever the unit's
-- own files say: it is what is read back, and so the next pass finds nothing to do. The schedule is one
-- line, without white space at its ends, and not empty.
pub effective-dropin :
    (base v : String)
    → one_line v ≡ true
    → Text.strip v ≡ v
    → (v == "") ≡ false
    → effective_schedule (base <> ("\n" <> dropin_body (calendar v))) ≡ some ("oncalendar:" <> v)
unfolding effective_schedule encoded
effective-dropin base v e s n =
    let txt = base <> ("\n" <> dropin_body (calendar v)) in
    let calendars : values "OnCalendar" (Text.lf_lines txt)
        ≡ values "OnCalendar" (Text.lf_lines base) ++ (v ∷ []) =
      rw (lf_lines-append base (dropin_body (calendar v))) (
        rw
          (values-append "OnCalendar" (Text.lf_lines base)
            (Text.lf_lines (dropin_body (calendar v))))
          (rw (body-values v e s n) refl)) in
    let found : last_of (values "OnCalendar" (Text.lf_lines txt)) ≡ some v =
      rw calendars (last_of-append (values "OnCalendar" (Text.lf_lines base)) v) in
    ap (λ o. encoded o (last_of (values "OnUnitActiveSec" (Text.lf_lines txt)))) found
