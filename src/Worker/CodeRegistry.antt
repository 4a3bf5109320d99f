-- ===== src/Worker/CodeRegistry.antt =====
-- The code of the lambdas (worker/registry/manager.go). The file system, the object store and `tar` are
-- arguments, by what they answer. A text is the list of its characters; a name is a path of one element.
pub mod Packages
mod Tests
use s19_lambda.Base.{
  ℕ, String, Bool, true, false, not, Option, none, some, List, [], ◌∷◌, if◌then◌else◌, str_eq,
}
use s19_lambda.Worker.Server.{split}
use s19_lambda.Worker.Paths.{join_path}

-- ":"
abbrev pub separator : ℕ
separator = 58

-- The file of the packages: the lines that the scanner gives.
pub data PkgFile : Type 0 where
  no_file unopened : PkgFile
  lines : List (List ℕ) → PkgFile

-- The imports and the installs.
abbrev pub Lists : Type 0
Lists = List (List ℕ) × List (List ℕ)

-- The parts of a line: there are to be two, and the first is taken for both lists.
abbrev pub add_line : List (List ℕ) → Option Lists → Option Lists
add_line [] rest = none
add_line (pkg ∷ []) rest = none
add_line (pkg ∷ install ∷ []) none = none
add_line (pkg ∷ install ∷ []) (some (imports, installs)) = some (pkg ∷ imports, pkg ∷ installs)
add_line (pkg ∷ install ∷ more ∷ parts) rest = none

unfoldable pub parse_lines : List (List ℕ) → Option Lists
parse_lines [] = some ([], [])
parse_lines (line ∷ l) = add_line (split separator line) (parse_lines l)

unfoldable pub parse_pkg_file : PkgFile → Option Lists
unfolding parse_lines
parse_pkg_file no_file = some ([], [])
parse_pkg_file unopened = none
parse_pkg_file (lines l) = parse_lines l

-- What a pull gives.
pub record Pulled : Type 0 where
  pub handler_dir : List ℕ
  pub imports : List (List ℕ)
  pub installs : List (List ℕ)

abbrev pub pulled_from : List ℕ → Option Lists → Option Pulled
pulled_from d none = none
pulled_from d (some (imports, installs)) =
    some (record { handler_dir = d; imports = imports; installs = installs })

pub data Stat : Type 0 where
  exists not_exists stat_error : Stat

-- `LocalManager.Pull`
unfoldable pub pull_local : List ℕ → (List ℕ → Stat) → (List ℕ → PkgFile) → List ℕ → Option Pulled
unfolding parse_pkg_file
pull_local reg_dir stat pkg_file name =
    let handler_dir = join_path reg_dir name in
    elim (stat handler_dir) [
      | exists ↦ pulled_from handler_dir (parse_pkg_file (pkg_file handler_dir))
      | not_exists ↦ none
      | stat_error ↦ none
    ]

-- What is answered to `RemoteManager.Pull`: `false` is an error.
pub record RemoteAnswers : Type 0 where
  pub stat : List ℕ → Stat
  pub remove_all : List ℕ → Bool
  pub mkdir : List ℕ → Bool
  pub get_object : List ℕ → Bool
  pub untar : List ℕ → Bool
  pub pkg_file : List ℕ → PkgFile

-- From the new directory on.
unfoldable pub fill_dir : RemoteAnswers → List ℕ → List ℕ → Option Pulled
unfolding parse_pkg_file
fill_dir a handler_dir name =
    if not (a.mkdir handler_dir)
    then none
    else if not (a.get_object name)
    then none
    else if not (a.untar handler_dir)
    then none
    else pulled_from handler_dir (parse_pkg_file (a.pkg_file handler_dir))

-- `RemoteManager.Pull`: a directory that is there goes first.
unfoldable pub pull_remote : List ℕ → RemoteAnswers → List ℕ → Option Pulled
unfolding fill_dir
pull_remote reg_dir a name =
    let handler_dir = join_path reg_dir name in
    elim (a.stat handler_dir) [
      | exists ↦ if a.remove_all handler_dir then fill_dir a handler_dir name else none
      | not_exists ↦ fill_dir a handler_dir name
      | stat_error ↦ none
    ]

-- What `InitRegistryManager` gives: the manager, a nil one, or the error.
pub data Managed : Type 0 where
  local_manager remote_manager nil_manager invalid_registry : Managed

-- The errors of the two constructors are dropped.
unfoldable pub init_registry_manager : String → Bool → Bool → Managed
init_registry_manager registry local_ok remote_ok =
    if str_eq registry "local"
    then if local_ok then local_manager else nil_manager
    else if str_eq registry "remote"
    then if remote_ok then remote_manager else nil_manager
    else invalid_registry
