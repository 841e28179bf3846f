-- ===== src/Units/Audit.antt =====
-- `audit`: every file that a unit names, once.
pub mod Laws
use az_lab.Units.{
  FilePath, Machine, Finding, name_of, same_path, has_suffix, exec_paths, repo_index, check,
}
use az_lab.Prelude.{
  String, ◌≡◌, refl, sym, subst, ap₂, inl, inr, Bool, true, false, ◌&&◌, ◌||◌, Option, none, some,
  List, [], ◌∷◌, ◌++◌, if◌then◌else◌, keep, any, Among, Bool-cases, eq_iff, ◌==◌, arith,
}

pub record Located : Type 0 where
  pub finding : Finding
  pub unit : String

-- The drop-in directories are skipped.
unfoldable pub is_unit : Machine → FilePath → Bool
unfolding has_suffix
is_unit m p = (has_suffix ".service" p || has_suffix ".timer" p) && m.is_file p

unfoldable pub targets_of : Machine → FilePath → List FilePath
unfolding has_suffix exec_paths name_of
targets_of m p = p ∷ (if has_suffix ".service" p then exec_paths m (name_of p) else [])

abbrev located : String → Option Finding → List Located
located unit none = []
located unit (some f) = record { finding = f; unit = unit } ∷ []

-- The files seen so far are given and returned.
scan_targets :
    Machine → List FilePath → String → List FilePath → List FilePath → List FilePath × List Located
unfolding same_path check
scan_targets m idx unit [] seen = (seen, [])
scan_targets m idx unit (t ∷ ts) seen =
    let known = scan_targets m idx unit ts seen in
    let (seen', found) = scan_targets m idx unit ts (t ∷ seen) in
    if any (same_path t) seen then known else (seen', located unit (check m t idx) ++ found)

scan_units : Machine → List FilePath → List FilePath → List FilePath → List Located
unfolding scan_targets targets_of name_of
scan_units m idx [] seen = []
scan_units m idx (u ∷ us) seen =
    let (seen', found) = scan_targets m idx (name_of u) (targets_of m u) seen in
    found ++ scan_units m idx us seen'

unfoldable pub audit : Machine → List Located
unfolding scan_units repo_index is_unit
audit m = scan_units m (repo_index m) (keep (is_unit m) m.unit_files) []
