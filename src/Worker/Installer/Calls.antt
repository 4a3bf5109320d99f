-- ===== src/Worker/Installer/Calls.antt =====
-- Calls of `Install`: alone, with a package twice, and crossed.
use s19_lambda.Base.{
  ◌≡◌, ◌≢◌, refl, ap, String, Bool, true, false, ◌||◌, Option, none, some, List, [], ◌∷◌, contains,
  eq_iff, update_str, arith,
}
use s19_lambda.Worker.Installer.{
  PkgStates, Progress, holds, reads, fails, waits, install_one, unlock, Installed, installed,
  failed, blocked, install_loop, install,
}

abbrev pub is_known : Option Bool → Bool
is_known none = false
is_known (some locked) = true

-- How a call without a call in between ends.
record Ends (run : String → Bool) (pkgs : List String) (s : PkgStates) (r : PkgStates × Installed)
    : Type 0 where
  goes_on : r.1 ≢ blocked
  unlocked : (p : String) → r.0 p ≢ some true
  known :
      (p : String)
      → r.1 ≡ installed
      → (contains pkgs p || is_known (s p)) ≡ true
      → r.0 p ≡ some false
  culprit : (p : String) → r.1 ≡ failed p → (run p ≡ false) × (r.0 p ≡ none)

one_new :
    (run : String → Bool) (pkg : String) (s : PkgStates)
    → s pkg ≡ none
    → run pkg ≡ true
    → install_one run pkg s ≡ (update_str s pkg (some true), holds)
unfolding install_one
one_new run pkg s z good = rw (z, good, install_one) refl

one_locked :
    (run : String → Bool) (pkg : String) (s : PkgStates)
    → s pkg ≡ some true
    → install_one run pkg s ≡ (s, waits)
unfolding install_one
one_locked run pkg s z = rw (z, install_one) refl

-- The loop after one package.
abbrev after_one :
    (String → Bool)
    → String
    → List String
    → List String
    → PkgStates × Progress
    → PkgStates × Installed
after_one run pkg pkgs held (s, holds) = install_loop run pkgs (pkg ∷ held) s
after_one run pkg pkgs held (s, reads) = install_loop run pkgs held s
after_one run pkg pkgs held (s, fails) = (unlock s held, failed pkg)
after_one run pkg pkgs held (s, waits) = (s, blocked)

loop_lem :
    (run : String → Bool) (pkg : String) (pkgs held : List String) (s : PkgStates)
    (r : PkgStates × Progress)
    → install_one run pkg s ≡ r
    → install_loop run (pkg ∷ pkgs) held s ≡ after_one run pkg pkgs held r
unfolding install_loop
loop_lem run pkg pkgs held s (s', holds) e =
    rw (ap (λ r. r.1) e, ap (λ r. r.0) e, install_loop) refl
loop_lem run pkg pkgs held s (s', reads) e =
    rw (ap (λ r. r.1) e, ap (λ r. r.0) e, install_loop) refl
loop_lem run pkg pkgs held s (s', fails) e =
    rw (ap (λ r. r.1) e, ap (λ r. r.0) e, install_loop) refl
loop_lem run pkg pkgs held s (s', waits) e =
    rw (ap (λ r. r.1) e, ap (λ r. r.0) e, install_loop) refl

-- A call that names a package twice in a row, one that is not known and that `pip` installs, waits for
-- itself: the package stays locked, and every later call that names it waits too.
pub install_twice_blocks :
    (run : String → Bool) (pkg : String) (pkgs others : List String) (s : PkgStates)
    → s pkg ≡ none
    → run pkg ≡ true
    → let (s', ended) = install run (pkg ∷ pkg ∷ pkgs) s in
      (ended ≡ blocked) × (install run (pkg ∷ others) s' ≡ (s', blocked))
unfolding install
install_twice_blocks run pkg pkgs others s z good =
    let s' : PkgStates = update_str s pkg (some true) in
    let locked : s' pkg ≡ some true = ground (arith, eq_iff pkg pkg) in
    let one = one_locked run pkg s' locked in
    rw
      (
        loop_lem run pkg (pkg ∷ pkgs) [] s _ (one_new run pkg s z good),
        loop_lem run pkg pkgs (pkg ∷ []) s' _ one,
      )
      (refl, loop_lem run pkg others [] s' _ one)

-- Two calls that name the same two packages in opposite orders, neither of them known and both of them
-- installed by `pip`, can wait for each other: after the first package of each, both calls wait.
pub crossed_calls_block :
    (run : String → Bool) (a b : String) (s : PkgStates)
    → a ≢ b
    → s a ≡ none
    → s b ≡ none
    → run a ≡ true
    → run b ≡ true
    → let (s₁, first) = install_one run a s in
      let (s₂, second) = install_one run b s₁ in
      (first ≡ holds)
      × (second ≡ holds)
      × (install_one run b s₂ ≡ (s₂, waits))
      × (install_one run a s₂ ≡ (s₂, waits))
crossed_calls_block run a b s other za zb good_a good_b =
    let s₁ : PkgStates = update_str s a (some true) in
    let s₂ : PkgStates = update_str s₁ b (some true) in
    let free : s₁ b ≡ none = ground (arith, eq_iff a b, other, zb) in
    let locked_a : s₂ a ≡ some true = ground (arith, eq_iff b a, eq_iff a a) in
    let locked_b : s₂ b ≡ some true = ground (arith, eq_iff b b) in
    rw (one_new run a s za good_a, one_new run b s₁ free good_b)
      (refl, refl, one_locked run b s₂ locked_b, one_locked run a s₂ locked_a)
