-- ===== src/Sage/Judgement/Boilerplate.antt =====
-- The note that a gate adds to a result is boilerplate: it is cut off before the result is judged.
use Prim.Native.Char.{Char}
use Prim.Native.String.{◌∷◌ as ◌▸◌}
use Prim.Native.String.append
use az_lab.Text
use az_lab.Sage.Judgement.{
  cut, strip_eval_boilerplate, verification_signals, has_verification_proof,
}
use az_lab.Sage.Judgement.Cuts.{apart, cut_line, cut_at, cut_absent, cut-append, contains-append}
use az_lab.Prelude.{
  String, ◌<>◌, ◌≡◌, refl, sym, ap, ◌∙◌, inl, inr, ◌⊎◌, Bool, true, false, not, ◌&&◌, List, [], ◌∷◌,
  arith, ◌==◌, eq_iff, Bool-cases, any,
}

-- What a marker's cut leaves of two texts, the first of which ends in one more line end.
IsLonger : String → String → Type 0
IsLonger a b = (a ≡ b) ⊎ (a ≡ b <> "\n")

cut-IsLonger :
    (c : Char) (t a b : String)
    → apart t "\n" ≡ true
    → cut (c ▸ t) "\n" ≡ "\n"
    → IsLonger a b
    → IsLonger (cut (c ▸ t) a) (cut (c ▸ t) b)
unfolding IsLonger
cut-IsLonger c t a b p e (inl same) = inl (ap (cut (c ▸ t)) same)
cut-IsLonger c t a b p e (inr longer) = rw longer (cut_line c t b p e)

strip-IsLonger :
    (s : String) → IsLonger (strip_eval_boilerplate (s <> "\n")) (strip_eval_boilerplate s)
unfolding strip_eval_boilerplate IsLonger cut apart
strip-IsLonger s =
    let one = cut-IsLonger "\n" "---\n**Iris" (s <> "\n") s refl refl (inr refl) in
    let two = cut-IsLonger "\n" "---\n**Sage" _ _ refl refl one in
    let three = cut-IsLonger "-" "--\n**Iris" _ _ refl refl two in
    cut-IsLonger "-" "--\n**Sage" _ _ refl refl three

gate-cons : (w : String) → "\n---\n**Sage" <> w ≡ "\n" ▸ ("-" ▸ ("--\n**Sage" <> w))
gate-cons w = append.cons "\n" "---\n**Sage" w ∙ ap (λ u. "\n" ▸ u) (append.cons "-" "--\n**Sage" w)

first_cut :
    (x w : String)
    → cut "\n---\n**Sage" (cut "\n---\n**Iris" (x <> ("\n---\n**Sage" <> (" " ▸ w))))
      ≡ cut "\n---\n**Sage" (cut "\n---\n**Iris" x)
unfolding apart cut Text.contains
first_cut x w =
    let g = "\n---\n**Sage" <> (" " ▸ w) in
    let away : apart "---\n**Iris" g ≡ true = rw (gate-cons (" " ▸ w)) refl in
    let inner : cut "\n---\n**Iris" g ≡ "\n---\n**Sage" <> cut "\n---\n**Iris" (" " ▸ w) =
      cut-append "\n" "---\n**Iris" "\n---\n**Sage" (" " ▸ w) refl in
    let v = cut "\n---\n**Iris" (" " ▸ w) in
    let stop : apart "---\n**Sage" ("\n---\n**Sage" <> v) ≡ true = rw (gate-cons v) refl in
    rw (cut-append "\n" "---\n**Iris" x g away)
      (elim (Bool-cases (Text.contains "\n---\n**Iris" x)) [
        | inl before ↦ rw before refl
        | inr absent ↦ rw absent (
            rw inner (
              cut_at "\n" "---\n**Sage" x v stop
              ∙ ap (cut "\n---\n**Sage") (sym (cut_absent "\n" "---\n**Iris" x absent))))
      ])

strip-append :
    (x w : String)
    → strip_eval_boilerplate (x <> ("\n---\n**Sage" <> (" " ▸ w))) ≡ strip_eval_boilerplate x
unfolding strip_eval_boilerplate
strip-append x w = ap (λ u. cut "---\n**Sage" (cut "---\n**Iris" u)) (first_cut x w)

-- A line end at the end of a text cannot make it match.
ignores_line : String → Bool
ignores_line String.[] = false
ignores_line (c ▸ t) = apart (c ▸ t) "\n" && not (Text.contains (c ▸ t) "\n")

contains-line :
    (sig s : String) → ignores_line sig ≡ true → Text.contains sig (s <> "\n") ≡ Text.contains sig s
unfolding ignores_line
contains-line String.[] s e = cc
contains-line (c ▸ t) s e = contains-append c t s "\n" (ground arith) (ground arith)

every : (String → Bool) → List String → Bool
every p [] = true
every p (x ∷ xs) = p x && every p xs

any-line :
    (sigs : List String) (s : String)
    → every ignores_line sigs ≡ true
    → any (λ sig. Text.contains sig (s <> "\n")) sigs ≡ any (λ sig. Text.contains sig s) sigs
unfolding every
any-line [] s e = refl
any-line (sig ∷ sigs) s e =
    rw (contains-line sig s (ground arith)) (rw (any-line sigs s (ground arith)) refl)

abbrev proven : String → Bool
proven s = any (λ sig. Text.contains sig (Text.lower s)) verification_signals

proven-IsLonger : (a b : String) → IsLonger a b → proven a ≡ proven b
unfolding IsLonger ignores_line every Text.contains Text.is_prefix Text.lower apart
proven-IsLonger a b (inl same) = ap proven same
proven-IsLonger a b (inr longer) =
    ap proven longer
    ∙ (ap (λ u. any (λ sig. Text.contains sig u) verification_signals) (Text.lower-append b "\n")
        ∙ any-line verification_signals (Text.lower b) refl)

proof_empty : has_verification_proof "" ≡ proven (strip_eval_boilerplate "")
unfolding has_verification_proof strip_eval_boilerplate cut Text.lower Text.contains
proof_empty = refl

-- An empty text proves nothing, as the test of it says.
proof_proven : (s : String) → has_verification_proof s ≡ proven (strip_eval_boilerplate s)
unfolding has_verification_proof
proof_proven s = elim (Bool-cases (s == "")) [
  | inl empty ↦ rw ((eq_iff s "").0 empty) proof_empty
  | inr full ↦ rw full refl
]

-- A note that opens as the gates' notes do leaves the proof that a result carries as it was: the words
-- of the note prove nothing, and none of the result's own words is lost.
pub proof-append :
    (s w : String)
    → has_verification_proof (s <> ("\n\n---\n**Sage " <> w)) ≡ has_verification_proof s
proof-append s w =
    let space : " " <> w ≡ " " ▸ w = append.cons " " "" w ∙ ap (λ u. " " ▸ u) (append.nil w) in
    let note : "\n\n---\n**Sage " <> w ≡ "\n" <> ("\n---\n**Sage" <> (" " ▸ w)) =
      Text.append_assoc "\n" "\n---\n**Sage " w
      ∙ ap (λ u. "\n" <> u)
          (Text.append_assoc "\n---\n**Sage" " " w ∙ ap (λ u. "\n---\n**Sage" <> u) space) in
    let split : s <> ("\n\n---\n**Sage " <> w) ≡ (s <> "\n") <> ("\n---\n**Sage" <> (" " ▸ w)) =
      ap (λ u. s <> u) note ∙ sym (Text.append_assoc s "\n" _) in
    rw split (
      proof_proven ((s <> "\n") <> ("\n---\n**Sage" <> (" " ▸ w)))
      ∙ (ap proven (strip-append (s <> "\n") w)
          ∙ (proven-IsLonger _ _ (strip-IsLonger s) ∙ sym (proof_proven s))))
