-- ===== src/Scheduler/Cron/Lines.antt =====
-- The lines of a crontab, reconciled again and back.
use Prim.Native.String.{◌∷◌ as ◌▸◌}
use Prim.Native.String.append
use az_lab.Text
use az_lab.Scheduler.Cron.{
  disabled_marker, Plan, is_active_line, is_disabled_line, reconcile_line, reconcile_lines,
}
use az_lab.Prelude.{
  String, ◌<>◌, ◌≡◌, refl, subst, ap, ap₂, inl, inr, Bool, true, false, none, List, [], ◌∷◌, arith,
  ◌==◌, eq_iff, Bool-cases, All,
}

-- A text that begins with a hash sign does so when it is stripped.
strip_hash : (s : String) → Text.is_prefix "#" (Text.strip ("#" ▸ s)) ≡ true
unfolding Text.strip Text.lstrip Text.rstrip Text.is_prefix Text.is_blank Text.is_space
strip_hash s = refl

not_hash :
    (s target : String)
    → Text.is_prefix "#" target ≡ false
    → (Text.strip ("#" ▸ s) == target) ≡ false
not_hash s target entry = elim (Bool-cases (Text.strip ("#" ▸ s) == target)) [
  | inl same ↦
      let hash : Text.is_prefix "#" target ≡ true =
        subst (λ u. Text.is_prefix "#" u ≡ true) ((eq_iff _ _).0 same) (strip_hash s) in
      cc
  | inr differ ↦ differ
]

marked-cons : (x : String) → disabled_marker <> x ≡ "#" ▸ (" DISABLED-BY-WREN: " <> x)
marked-cons x = append.cons "#" " DISABLED-BY-WREN: " x

module _ (p : Plan) (entry : Text.is_prefix "#" p.target ≡ false) where
  -- A line that is marked is not the entry itself ...
  marked_inactive : (x : String) → is_active_line p (disabled_marker <> x) ≡ false
  unfolding is_active_line
  marked_inactive x = rw (marked-cons x) (not_hash (" DISABLED-BY-WREN: " <> x) p.target entry)

  -- ... and is the disabled entry if what is marked is the entry.
  marked_disabled : (x : String) → is_disabled_line p (disabled_marker <> x) ≡ is_active_line p x
  unfolding is_disabled_line is_active_line Text.length
  marked_disabled x =
      rw (Text.is_prefix_self disabled_marker x) (rw (Text.drop-append disabled_marker x) refl)

inner_active :
    (p : Plan) (line : String)
    → is_disabled_line p line ≡ true
    → is_active_line p (Text.drop (Text.length disabled_marker) line) ≡ true
unfolding is_disabled_line is_active_line Text.length
inner_active p line e = ground arith

-- A plan for an entry whose schedule stays as it is.
abbrev pub toggled : String → Bool → Plan
toggled target active = record { target = target; active = active; new_line = none }

module _ (target : String) (entry : Text.is_prefix "#" target ≡ false) where
  marked_off :
      (y : String)
      → is_active_line (toggled target false) y ≡ true
      → reconcile_line (toggled target false) (disabled_marker <> y) ≡ disabled_marker <> y
  unfolding reconcile_line
  marked_off y it = rw (marked_inactive (toggled target false) entry y) (
      rw (marked_disabled (toggled target false) entry y)
        (rw it (ap (λ u. disabled_marker <> u) (Text.drop-append disabled_marker y))))

  marked_on :
      (y : String)
      → is_active_line (toggled target true) y ≡ true
      → reconcile_line (toggled target true) (disabled_marker <> y) ≡ y
  unfolding reconcile_line
  marked_on y it = rw (marked_inactive (toggled target true) entry y) (
      rw (marked_disabled (toggled target true) entry y)
        (rw it (Text.drop-append disabled_marker y)))

  -- The line once it is enabled, and once it is disabled.
  on_twice :
      (line : String)
      → reconcile_line (toggled target true) (reconcile_line (toggled target true) line)
        ≡ reconcile_line (toggled target true) line
  unfolding reconcile_line
  on_twice line = elim (Bool-cases (is_active_line (toggled target true) line)) [
    | inl it ↦ rw it (rw it refl)
    | inr other ↦ rw other (elim (Bool-cases (is_disabled_line (toggled target true) line)) [
      | inl off ↦ rw off (rw (inner_active (toggled target true) line off) refl)
      | inr foreign ↦ rw foreign (rw other (rw foreign refl))
    ])
  ]

  off_twice :
      (line : String)
      → reconcile_line (toggled target false) (reconcile_line (toggled target false) line)
        ≡ reconcile_line (toggled target false) line
  unfolding reconcile_line
  off_twice line = elim (Bool-cases (is_active_line (toggled target false) line)) [
    | inl it ↦ rw it (marked_off line it)
    | inr other ↦ rw other (elim (Bool-cases (is_disabled_line (toggled target false) line)) [
      | inl off ↦ rw off (marked_off _ (inner_active (toggled target false) line off))
      | inr foreign ↦ rw foreign (rw other (rw foreign refl))
    ])
  ]

  off_on :
      (line : String)
      → is_disabled_line (toggled target true) line ≡ false
      → reconcile_line (toggled target true) (reconcile_line (toggled target false) line) ≡ line
  unfolding reconcile_line is_active_line is_disabled_line
  off_on line enabled = elim (Bool-cases (is_active_line (toggled target true) line)) [
    | inl it ↦ rw it (marked_on line it)
    | inr other ↦ rw other (rw enabled (rw other (rw enabled refl)))
  ]

  -- Reconciling a crontab a second time, with the registry unchanged, changes nothing, as long as the
  -- entry's own line is no comment.
  reconcile_lines_idempotent :
      (active : Bool) (lines : List String)
      → reconcile_lines (toggled target active) (reconcile_lines (toggled target active) lines)
        ≡ reconcile_lines (toggled target active) lines
  unfolding reconcile_lines
  reconcile_lines_idempotent active [] = refl
  reconcile_lines_idempotent true (l ∷ ls) =
      ap₂ (λ a b. a ∷ b) (on_twice l) (reconcile_lines_idempotent true ls)
  reconcile_lines_idempotent false (l ∷ ls) =
      ap₂ (λ a b. a ∷ b) (off_twice l) (reconcile_lines_idempotent false ls)

  -- A crontab in which the entry is not disabled is restored, line by line, when the entry is disabled
  -- and enabled again, as long as the entry's own line is no comment.
  pub reconcile_lines_restores :
      (lines : List String)
      → All (λ l. is_disabled_line (toggled target true) l ≡ false) lines
      → reconcile_lines (toggled target true) (reconcile_lines (toggled target false) lines) ≡ lines
  unfolding reconcile_lines
  reconcile_lines_restores [] h = refl
  reconcile_lines_restores (l ∷ ls) h =
      ap₂ (λ a b. a ∷ b) (off_on l h.0) (reconcile_lines_restores ls h.1)
