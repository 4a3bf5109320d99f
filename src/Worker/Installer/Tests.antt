-- ===== src/Worker/Installer/Tests.antt =====
-- The installer at concrete inputs.
use s19_lambda.Base.{
  ◌≡◌, refl, String, Bool, true, false, none, [], ◌∷◌, contains, if◌then◌else◌, str_eq, eq_iff,
  arith,
}
use s19_lambda.Subsets.{is_distinct}
use s19_lambda.Worker.Installer.{
  PkgStates, holds, waits, install_one, unlock, blocked, install_loop, install,
}
use s19_lambda.Worker.Installer.Calls.{install_twice_blocks, crossed_calls_block}

-- Opens the code of the installer.
opened : Unit {0}
unfolding install_one unlock install_loop install is_distinct contains
opened = tt

abbrev nothing : PkgStates
nothing = λ p. none

abbrev not_flask : String → Bool
not_flask p = if str_eq p "flask" then false else true

install_twice_blocks_example :
    let (s', ended) = install not_flask ("numpy" ∷ "numpy" ∷ []) nothing in
    (ended ≡ blocked) × (install not_flask ("numpy" ∷ []) s' ≡ (s', blocked))
unfolding opened
install_twice_blocks_example = install_twice_blocks not_flask "numpy" [] [] nothing refl refl

crossed_calls_block_example :
    let (s₁, first) = install_one not_flask "numpy" nothing in
    let (s₂, second) = install_one not_flask "scipy" s₁ in
    (first ≡ holds)
    × (second ≡ holds)
    × (install_one not_flask "scipy" s₂ ≡ (s₂, waits))
    × (install_one not_flask "numpy" s₂ ≡ (s₂, waits))
crossed_calls_block_example =
    crossed_calls_block not_flask "numpy" "scipy" nothing
      (λ e. absurd (ground (arith, e, eq_iff "numpy" "scipy"))) refl refl refl refl
