-- ===== src/Worker/Installer.antt =====
-- The installer of packages (worker/pip-manager/installManager.go). A package that is known is locked while
-- the call that installs it runs. `run` says whether `pip` installs a package; a call goes on by
-- one package at a time, with those of other calls in between. Readers of a lock are not counted: no one
-- waits for them.
pub mod Calls
mod Tests
use s19_lambda.Base.{
  String, Bool, true, false, Option, none, some, List, [], ◌∷◌, update_str, if◌then◌else◌,
}

-- Of each package: not known, or known, with its write lock.
abbrev pub PkgStates : Type 0
PkgStates = String → Option Bool

-- How one package of a call goes: it is installed and stays locked, it was known and is free, `pip` fails
-- and the package is known no longer, or the call waits for the lock.
pub data Progress : Type 0 where
  holds reads fails waits : Progress

unfoldable pub install_one : (String → Bool) → String → PkgStates → PkgStates × Progress
install_one run pkg s = elim (s pkg) [
  | none ↦ if run pkg then (update_str s pkg (some true), holds) else (s, fails)
  | some locked ↦ if locked then (s, waits) else (s, reads)
]

-- The deferred calls: every lock that the call holds is free.
unfoldable pub unlock : PkgStates → List String → PkgStates
unlock s [] = s
unlock s (pkg ∷ held) = unlock (update_str s pkg (some false)) held

pub data Installed : Type 0 where
  installed blocked : Installed
  failed : String → Installed

-- `Install`, without a call in between: with the packages that are locked so far.
unfoldable pub install_loop :
    (String → Bool) → List String → List String → PkgStates → PkgStates × Installed
unfolding install_one unlock
install_loop run [] held s = (unlock s held, installed)
install_loop run (pkg ∷ pkgs) held s =
    let (s', progress) = install_one run pkg s in
    let hold = install_loop run pkgs (pkg ∷ held) s' in
    let read = install_loop run pkgs held s' in
    elim progress [
      | holds ↦ hold
      | reads ↦ read
      | fails ↦ (unlock s' held, failed pkg)
      | waits ↦ (s', blocked)
    ]

unfoldable pub install : (String → Bool) → List String → PkgStates → PkgStates × Installed
unfolding install_loop
install run pkgs s = install_loop run pkgs [] s
