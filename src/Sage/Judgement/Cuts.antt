-- ===== src/Sage/Judgement/Cuts.antt =====
-- A text that is followed by another: where it is cut, and what it contains.
use Prim.Native.Char.{Char, code}
use Prim.Native.String.{◌∷◌ as ◌▸◌}
use Prim.Native.String.append
use az_lab.Text
use az_lab.Sage.Judgement.{cut}
use az_lab.Prelude.{
  ℕ, suc, String, ◌<>◌, ◌≡◌, refl, sym, ap, ◌∙◌, inl, inr, ◌⊎◌, Bool, true, false, not, ◌&&◌, ◌||◌,
  Option, none, some, arith, eqb, if◌then◌else◌, Bool-cases,
}

-- No end of `t` but the empty one stands at the front of `n`: what begins before `n` cannot be
-- completed by it.
unfoldable pub apart : String → String → Bool
unfolding Text.is_prefix
apart String.[] n = true
apart (c ▸ t) n = not (Text.is_prefix (c ▸ t) n) && apart t n

is_prefix-append :
    (t s n : String) → apart t n ≡ true → Text.is_prefix t (s <> n) ≡ Text.is_prefix t s
unfolding Text.is_prefix apart
is_prefix-append String.[] s n a = refl
is_prefix-append (p ▸ t) String.[] n a = rw append.nil (ground arith)
is_prefix-append (p ▸ t) (c ▸ s) n a =
    rw append.cons (ap (λ b. eqb (code p) (code c) && b) (is_prefix-append t s n (ground arith)))

pick-cons :
    (b : Bool) (o : Option ℕ) (x : Char) (s : String)
    → let later : Option ℕ = elim o [ none ↦ none | some i ↦ some (suc i) ] in
      let found : Option ℕ = if b then some 0 else later in
      (elim found [ none ↦ x ▸ s | some i ↦ Text.take i (x ▸ s) ])
      ≡ (if b then "" else x ▸ (elim o [ none ↦ s | some i ↦ Text.take i s ]))
unfolding Text.take
pick-cons true o x s = refl
pick-cons false none x s = refl
pick-cons false (some i) x s = refl

-- `cut`, one character at a time.
cut-cons :
    (c : Char) (t : String) (x : Char) (s : String)
    → cut (c ▸ t) (x ▸ s) ≡ (if Text.is_prefix (c ▸ t) (x ▸ s) then "" else x ▸ cut (c ▸ t) s)
unfolding cut Text.find
cut-cons c t x s = pick-cons (Text.is_prefix (c ▸ t) (x ▸ s)) (Text.find (c ▸ t) s) x s

prepend :
    (b d : Bool) (x : Char) (s r w v : String)
    → r ≡ (if d then w else s <> v)
    → (if b then "" else x ▸ r) ≡ (if b || d then (if b then "" else x ▸ w) else x ▸ (s <> v))
prepend true d x s r w v e = refl
prepend false true x s r w v e = ap (λ u. x ▸ u) e
prepend false false x s r w v e = ap (λ u. x ▸ u) e

and_right : (b d : Bool) → (b && d) ≡ true → d ≡ true
and_right true d e = e
and_right false d e = cc

append_nil : (s : String) → s <> "" ≡ s
append_nil String.[] = append.nil ""
append_nil (x ▸ s) = rw append.cons (ap (λ u. x ▸ u) (append_nil s))

or_false : (b d : Bool) → (b || d) ≡ false → (b ≡ false) × (d ≡ false)
or_false true d e = cc
or_false false d e = (refl, e)

module _ (c : Char) (t : String) where
  cut-nil : cut (c ▸ t) "" ≡ ""
  unfolding cut Text.find Text.is_prefix
  cut-nil = refl

  is_prefix_beyond :
      (x : Char) (s n : String)
      → apart t n ≡ true
      → Text.is_prefix (c ▸ t) (x ▸ (s <> n)) ≡ Text.is_prefix (c ▸ t) (x ▸ s)
  unfolding Text.is_prefix
  is_prefix_beyond x s n a = ap (λ b. eqb (code c) (code x) && b) (is_prefix-append t s n a)

  -- The first marker decides, if no marker begins in `s` and ends behind it.
  pub cut-append :
      (s n : String)
      → apart t n ≡ true
      → cut (c ▸ t) (s <> n)
        ≡ (if Text.contains (c ▸ t) s then cut (c ▸ t) s else s <> cut (c ▸ t) n)
  unfolding Text.contains
  cut-append String.[] n a = rw append.nil (rw append.nil refl)
  cut-append (x ▸ s) n a = rw append.cons (
      rw cut-cons (
        rw append.cons (
          rw (is_prefix_beyond x s n a) (
            rw cut-cons (
              prepend (Text.is_prefix (c ▸ t) (x ▸ s)) (Text.contains (c ▸ t) s) x s _ _ _
                (cut-append s n a))))))

  pub cut_absent : (s : String) → Text.contains (c ▸ t) s ≡ false → cut (c ▸ t) s ≡ s
  unfolding Text.contains
  cut_absent String.[] e = cut-nil
  cut_absent (x ▸ s) e =
      let (p, q) = or_false (Text.is_prefix (c ▸ t) (x ▸ s)) (Text.contains (c ▸ t) s) e in
      rw cut-cons (rw p (ap (λ u. x ▸ u) (cut_absent s q)))

  cut_here : (u : String) → cut (c ▸ t) ((c ▸ t) <> u) ≡ ""
  unfolding Text.is_prefix
  cut_here u =
      let at : Text.is_prefix (c ▸ t) (c ▸ (t <> u)) ≡ true =
        ground (arith, Text.is_prefix_self t u) in
      rw append.cons (rw cut-cons (rw at refl))

  -- A marker that follows is where the text is cut, unless it is cut before.
  pub cut_at :
      (s u : String)
      → apart t ((c ▸ t) <> u) ≡ true
      → cut (c ▸ t) (s <> ((c ▸ t) <> u)) ≡ cut (c ▸ t) s
  cut_at s u a = rw (cut-append s ((c ▸ t) <> u) a) (
      rw (cut_here u) (elim (Bool-cases (Text.contains (c ▸ t) s)) [
        | inl before ↦ rw before refl
        | inr absent ↦ rw absent (append_nil s ∙ sym (cut_absent s absent))
      ]))

  -- A line end behind the text stays behind it, or is cut off with the rest.
  pub cut_line :
      (s : String)
      → apart t "\n" ≡ true
      → cut (c ▸ t) "\n" ≡ "\n"
      → (cut (c ▸ t) (s <> "\n") ≡ cut (c ▸ t) s)
        ⊎ (cut (c ▸ t) (s <> "\n") ≡ cut (c ▸ t) s <> "\n")
  cut_line s a e = rw (cut-append s "\n" a) (elim (Bool-cases (Text.contains (c ▸ t) s)) [
    | inl before ↦ rw before (inl refl)
    | inr absent ↦ rw absent (rw e (inr (rw (cut_absent s absent) refl)))
  ])

  pub contains-append :
      (s n : String)
      → apart (c ▸ t) n ≡ true
      → Text.contains (c ▸ t) n ≡ false
      → Text.contains (c ▸ t) (s <> n) ≡ Text.contains (c ▸ t) s
  unfolding Text.contains apart
  contains-append String.[] n a e = rw append.nil e
  contains-append (x ▸ s) n a e =
      let beyond =
        is_prefix_beyond x s n (and_right (not (Text.is_prefix (c ▸ t) n)) (apart t n) a) in
      let later = contains-append s n a e in rw append.cons (rw beyond (rw later refl))
