-- ===== src/Durability/Runs/Laws.antt =====
-- What a run writes of a finding.
use az_lab.Durability.{Finding}
use az_lab.Durability.Runs.{Entry, Seen, lookup, put, next_entry, note_from, note}
use az_lab.Prelude.{
  ℕ, ◌+◌, String, ◌≡◌, refl, sym, ◌∙◌, inl, inr, Bool, true, false, ◌||◌, Option, none, some, List,
  [], ◌∷◌, ◌==◌, if◌then◌else◌, any, Bool-cases, eq_iff, arith, subst, ap,
}

abbrev runs_in : Option Entry → ℕ
runs_in none = 0
runs_in (some e) = e.runs

-- The runs that are written of a finding, 0 where nothing is.
unfoldable pub runs_of : String → Seen → ℕ
runs_of ident s = runs_in (lookup ident s)

unfoldable pub is_present : String → List Finding → Bool
is_present ident fs = any (λ f. f.ident == ident) fs

pub lookup-put :
    (j i : String) (e : Entry) (s : Seen)
    → lookup j (put i e s) ≡ (if i == j then some e else lookup j s)
unfolding lookup put
lookup-put j i e [] = refl
lookup-put j i e ((k, d) ∷ s) = elim (Bool-cases (k == i)) [
  | inl same ↦ rw same (let k_is : k ≡ i = (eq_iff k i).0 same in rw k_is (ground arith))
  | inr other ↦ rw other (elim (Bool-cases (k == j)) [
    | inl here ↦ rw here (
        let k_is : k ≡ j = (eq_iff k j).0 here in
        elim (Bool-cases (i == j)) [
          | inl also ↦
              let i_is : i ≡ j = (eq_iff i j).0 also in
              let no : (k == i) ≡ true = (eq_iff k i).1 (k_is ∙ sym i_is) in cc
          | inr differs ↦ rw differs refl
        ])
    | inr there ↦ rw there (lookup-put j i e s)
  ])
]

runs_of-put :
    (j i : String) (e : Entry) (s : Seen)
    → runs_of j (put i e s) ≡ (if i == j then e.runs else runs_of j s)
unfolding runs_of
runs_of-put j i e s = elim (Bool-cases (i == j)) [
  | inl same ↦ rw (lookup-put j i e s) (rw same refl)
  | inr other ↦ rw (lookup-put j i e s) (rw other refl)
]

next_entry-runs :
    (at : String) (f : Finding) (o : Option Entry) → (next_entry at f o).runs ≡ runs_in o + 1
unfolding next_entry
next_entry-runs at f none = refl
next_entry-runs at f (some e) = refl

or_if : (a b : Bool) (n m : ℕ) → (if b then n else if a then n else m) ≡ (if a || b then n else m)
or_if true true n m = refl
or_if true false n m = refl
or_if false true n m = refl
or_if false false n m = refl

runs_of-next :
    (j : String) (prev : Seen) (at : String) (f : Finding) (seen : Seen)
    → runs_of j (put f.ident (next_entry at f (lookup f.ident prev)) seen)
      ≡ (if f.ident == j then runs_of j prev + 1 else runs_of j seen)
unfolding runs_of
runs_of-next j prev at f seen =
    let e = next_entry at f (lookup f.ident prev) in
    let p = runs_of-put j f.ident e seen in
    let counted = next_entry-runs at f (lookup f.ident prev) in
    elim (Bool-cases (f.ident == j)) [
      | inl same ↦
          let here : e.runs ≡ runs_of j prev + 1 =
            subst (λ k. e.runs ≡ runs_in (lookup k prev) + 1) ((eq_iff f.ident j).0 same) counted in
          rw p (rw same here)
      | inr other ↦ rw p (rw other refl)
    ]

runs_of-note_from :
    (j : String) (prev : Seen) (at : String) (fs : List Finding) (seen : Seen)
    → runs_of j (note_from prev at fs seen)
      ≡ (if is_present j fs then runs_of j prev + 1 else runs_of j seen)
unfolding note_from is_present
runs_of-note_from j prev at [] seen = refl
runs_of-note_from j prev at (f ∷ fs) seen =
    runs_of-note_from j prev at fs (put f.ident (next_entry at f (lookup f.ident prev)) seen)
    ∙ ap (λ m. if is_present j fs then runs_of j prev + 1 else m) (runs_of-next j prev at f seen)
    ∙ or_if (f.ident == j) (is_present j fs) (runs_of j prev + 1) (runs_of j seen)

-- A run counts one more for what it finds, and forgets everything else.
pub runs_of-note :
    (j : String) (prev : Seen) (at : String) (fs : List Finding)
    → runs_of j (note prev at fs) ≡ (if is_present j fs then runs_of j prev + 1 else 0)
unfolding note runs_of lookup
runs_of-note j prev at fs = runs_of-note_from j prev at fs []
