-- ===== src/Clip/Laws.antt =====
-- What a cut keeps.
use az_lab.Text
use mathlib.Core.Path.{subst}
use az_lab.Clip.{elision, clip_text, clip_result}
use az_lab.Prelude.{
  ℕ, ◌+◌, ◌≤◌, ◌<◌, String, ◌<>◌, ◌≡◌, ap, inl, inr, false, some, arith, ◌==◌, eq_iff, Bool-cases,
}

-- The cut begins as the text does and ends as it does.
cut_ends :
    (n m : ℕ) (s mark : String)
    → n ≤ Text.length s
    → m ≤ Text.length s
    → (Text.take n (Text.take n s <> (mark <> Text.take_last m s)) ≡ Text.take n s)
      × (Text.take_last m (Text.take n s <> (mark <> Text.take_last m s)) ≡ Text.take_last m s)
cut_ends n m s mark p q = (Text.take-take_append n s _ p, tail)
  where
    len : Text.length (Text.take_last m s) ≡ m
    len = Text.length-take_last m s q

    tail : Text.take_last m (Text.take n s <> (mark <> Text.take_last m s)) ≡ Text.take_last m s
    tail =
        let whole = Text.append_assoc (Text.take n s) mark (Text.take_last m s) in
        rw (← whole) (
          subst
            (λ k.
              Text.take_last k ((Text.take n s <> mark) <> Text.take_last m s) ≡ Text.take_last m s)
            len (Text.take_last-append (Text.take n s <> mark) (Text.take_last m s)))

nonempty : (s : String) (cap : ℕ) → cap < Text.length s → (s == "") ≡ false
unfolding Text.length
nonempty s cap h = elim (Bool-cases (s == "")) [
  | inl empty ↦
      let none_left : Text.length s ≡ 0 = ap Text.length ((eq_iff s "").0 empty) in
      absurd (omega arith)
  | inr full ↦ full
]

clip_under : (s : String) (cap : ℕ) → Text.length s ≤ cap → clip_result (some s) cap ≡ some s
unfolding clip_result
clip_under s cap h = ground arith

clip_over :
    (s : String) (cap : ℕ)
    → cap < Text.length s
    → clip_result (some s) cap
      ≡ some (Text.take 14000 s <> (elision (Text.length s) <> Text.take_last 6000 s))
unfolding clip_text
clip_over s cap h = unfold clip_result in rw (nonempty s cap h) (ground arith)

length_cut :
    (n m : ℕ) (s mark : String)
    → n ≤ Text.length s
    → m ≤ Text.length s
    → Text.length (Text.take n s <> (mark <> Text.take_last m s)) ≡ n + m + Text.length mark
length_cut n m s mark p q = omega (
  arith,
  Text.length-append (Text.take n s) (mark <> Text.take_last m s),
  Text.length-append mark (Text.take_last m s),
  Text.length-take n s,
  Text.length-take_last m s q,
)

-- A stored result is whole if it is within the cap. Over it, its first 14000 and its last 6000
-- characters are kept with a mark between them, and nothing else is stored.
pub clip_result_keeps :
    (s : String) (cap : ℕ)
    → 20000 ≤ cap
    → ((Text.length s ≤ cap) → clip_result (some s) cap ≡ some s)
      × (cap < Text.length s
          → (r : String) × (clip_result (some s) cap ≡ some r)
            × (Text.take 14000 r ≡ Text.take 14000 s)
            × (Text.take_last 6000 r ≡ Text.take_last 6000 s)
            × (Text.length r ≡ 20000 + Text.length (elision (Text.length s))))
clip_result_keeps s cap big = (clip_under s cap, over)
  where
    over :
        cap < Text.length s
        → (r : String) × (clip_result (some s) cap ≡ some r)
          × (Text.take 14000 r ≡ Text.take 14000 s)
          × (Text.take_last 6000 r ≡ Text.take_last 6000 s)
          × (Text.length r ≡ 20000 + Text.length (elision (Text.length s)))
    over h =
        let mark = elision (Text.length s) in
        let ends = cut_ends 14000 6000 s mark (omega arith) (omega arith) in
        (
          Text.take 14000 s <> (mark <> Text.take_last 6000 s),
          clip_over s cap h,
          ends.0,
          ends.1,
          length_cut 14000 6000 s mark (omega arith) (omega arith),
        )
