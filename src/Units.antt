-- ===== src/Units.antt =====
-- infrastructure/unit-integrity/unit_source_audit.py: the files that a unit runs, against those of
-- the repository. A path is absolute and is the list of its parts.
pub mod Audit
pub mod Laws
pub mod Changes
use az_lab.Text
use az_lab.Prelude.{
  ℕ, zero, suc, String, ◌<>◌, Bool, true, false, not, ◌&&◌, ◌||◌, Option, none, some, List, [], ◌∷◌,
  ◌++◌, map, ◌==◌, eqb, if◌then◌else◌, or_else, is_empty, keep, any, elem, length,
}

abbrev pub FilePath : Type 0
FilePath = List String

-- A directory of the repository: its files and, without symbolic links, its subdirectories.
mutual
  pub data Directory : Type 0 where
    directory : List String → Folders → Directory

  pub data Folders : Type 0 where
    no_folder : Folders
    folder : String → Directory → Folders → Folders

-- What the file system, systemd and `re` answer.
pub record Machine : Type 0 where
  pub home : FilePath
  -- the contents of ~/azlab and of ~/.config/systemd/user, the latter in their order
  pub tree : Directory
  pub unit_files : List FilePath
  -- Path.resolve() and the digest of the contents; `none` is an OSError
  pub resolve : FilePath → Option FilePath
  pub sha : FilePath → Option String
  pub is_file : FilePath → Bool
  -- the ExecStart that systemctl shows, empty if the call fails
  pub exec_start : String → String
  -- re.findall(r"argv\[\]=(.*?)\s*;", _)
  pub argvs : String → List String

abbrev pub repo : Machine → FilePath
repo m = m.home ++ ("azlab" ∷ [])

-- str(p)
shown : FilePath → String
unfolding Text.join
shown p = "/" <> Text.join "/" p

-- p.name
unfoldable pub name_of : FilePath → String
name_of [] = ""
name_of (x ∷ []) = x
name_of (x ∷ y ∷ p) = name_of (y ∷ p)

unfoldable pub same_path : FilePath → FilePath → Bool
same_path [] [] = true
same_path (x ∷ p) (y ∷ q) = x == y && same_path p q
same_path [] (y ∷ q) = false
same_path (x ∷ p) [] = false

-- p.is_relative_to(d), with the directory first
unfoldable pub within : FilePath → FilePath → Bool
within [] p = true
within (x ∷ d) [] = false
within (x ∷ d) (y ∷ p) = x == y && within d p

-- p.relative_to(d), where p is in d
unfoldable pub relative : FilePath → FilePath → FilePath
relative [] p = p
relative (x ∷ d) [] = []
relative (x ∷ d) (y ∷ p) = relative d p

-- Path(s) without its root
parts : String → FilePath
unfolding Text.split_on
parts s = keep (λ x. not (x == "" || x == ".")) (Text.split_on "/" s)

-- p.suffix == e
unfoldable pub has_suffix : String → FilePath → Bool
unfolding name_of Text.is_suffix
has_suffix e p = Text.is_suffix e (name_of p) && not (name_of p == e)

abbrev prune : List String
prune =
    ".git" ∷ "node_modules" ∷ "__pycache__" ∷ ".venv" ∷ "venv" ∷ "config" ∷ "data" ∷ "logs"
    ∷ "cache" ∷ ".cache" ∷ []

is_pruned : String → Bool
unfolding Text.is_prefix
is_pruned d = elem d prune || Text.is_prefix "." d

-- The files of the index, in the order of the walk.
unfoldable mutual
  unfolding is_pruned

  walk : FilePath → Directory → List FilePath
  walk at (directory files folders) = map (λ f. at ++ (f ∷ [])) files ++ walk_folders at folders

  walk_folders : FilePath → Folders → List FilePath
  walk_folders at no_folder = []
  walk_folders at (folder d below rest) =
      let others = walk_folders at rest in
      let here = walk (at ++ (d ∷ [])) below in if is_pruned d then others else here ++ others

unfoldable pub repo_index : Machine → List FilePath
unfolding walk
repo_index m = walk (repo m) m.tree

-- idx.get(name, [])
named : String → List FilePath → List FilePath
unfolding name_of
named n idx = keep (λ p. name_of p == n) idx

-- A path with two slashes in front has a root of its own and is not under $HOME.
is_absolute : String → Bool
unfolding Text.is_prefix
is_absolute s = Text.is_prefix "/" s && (Text.is_prefix "///" s || not (Text.is_prefix "//" s))

is_target : Machine → String → Bool
unfolding is_absolute parts within
is_target m s = is_absolute s && within m.home (parts s) && m.is_file (parts s)

words_of : List String → List String
unfolding Text.words
words_of [] = []
words_of (argv ∷ argvs) = Text.words argv ++ words_of argvs

unfoldable pub exec_paths : Machine → String → List FilePath
unfolding is_target parts words_of
exec_paths m unit = map parts (keep (is_target m) (words_of (m.argvs (m.exec_start unit))))

pub data Kind : Type 0 where
  drift ambiguous : Kind

pub record Finding : Type 0 where
  pub kind : Kind
  pub path : String
  pub detail : String

-- PIN: deployed path under $HOME, and path in the repository
abbrev pins : List (String × String)
pins = []

pinned : String → List (String × String) → String
pinned key [] = ""
pinned key ((k, v) ∷ ps) = let rest = pinned key ps in if k == key then v else rest

pin_of : Machine → FilePath → String
unfolding pinned within relative Text.join
pin_of m deployed =
    pinned (if within m.home deployed then Text.join "/" (relative m.home deployed) else "") pins

pub candidates : Machine → FilePath → List FilePath → List FilePath
unfolding pin_of named name_of parts
candidates m deployed idx =
    let pin = pin_of m deployed in
    keep m.is_file
      (if not (pin == "") then (repo m ++ parts pin) ∷ [] else named (name_of deployed) idx)

pub safe_sha : Machine → FilePath → String
safe_sha m p = or_else (m.sha p) ""

-- str(p).replace(str(HOME), "~")
tilde : Machine → FilePath → String
unfolding shown Text.join Text.split_on
tilde m p = Text.join "~" (Text.split_on (shown m.home) (shown p))

unfoldable pub finding_of : Machine → FilePath → List FilePath → Finding
unfolding tilde name_of Text.show
finding_of m deployed (source ∷ []) = record {
  kind = drift;
  path = tilde m deployed;
  detail =
      "differs from repo source "
      <> (tilde m source
          <> " — the unit is running stale code; symlink it or re-run that component's install script");
}
finding_of m deployed sources = record {
  kind = ambiguous;
  path = tilde m deployed;
  detail =
      Text.show (length sources)
      <> (" repo files named "
          <> (name_of deployed <> " and none match — add a PIN entry in unit_source_audit.py"));
}

compare_sha : Machine → FilePath → List FilePath → Option String → Option Finding
unfolding safe_sha finding_of
compare_sha m deployed sources none = none
compare_sha m deployed sources (some mine) =
    if any (λ c. safe_sha m c == mine) sources then none else some (finding_of m deployed sources)

check_real : Machine → FilePath → List FilePath → Option FilePath → Option Finding
unfolding within compare_sha
check_real m deployed sources none = none
check_real m deployed sources (some real) =
    if within (repo m) real || is_empty sources
    then none
    else compare_sha m deployed sources (m.sha real)

-- `none` is a file that is fine or not of the repository.
unfoldable pub check : Machine → FilePath → List FilePath → Option Finding
unfolding check_real candidates
check m deployed idx = check_real m deployed (candidates m deployed idx) (m.resolve deployed)
