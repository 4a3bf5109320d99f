-- ===== src/Worker/CodeRegistry/Packages.antt =====
-- The packages of a lambda.
use s19_lambda.Base.{
  ℕ, ◌≡◌, refl, true, Option, none, some, List, [], ◌∷◌, ◌++◌, map, All, arith, inl, inr, ◌⊎◌,
}
use s19_lambda.Worker.Server.{split}
use s19_lambda.Worker.Server.Urls.{join, has_none, split-join}
use s19_lambda.Worker.Paths.{join_path}
use s19_lambda.Worker.CodeRegistry.{
  separator, PkgFile, no_file, unopened, lines, Lists, add_line, parse_lines, parse_pkg_file,
  Pulled, pulled_from, Stat, pull_local, RemoteAnswers, fill_dir, pull_remote,
}

-- A line of the file, from an import and an install.
abbrev pub line_of : List ℕ × List ℕ → List ℕ
line_of (pkg, install) = pkg ++ separator ∷ install

-- Texts without a separator of their own.
abbrev pub IsEntry : List ℕ × List ℕ → Type 0
IsEntry (pkg, install) = (has_none separator pkg ≡ true) × (has_none separator install ≡ true)

-- The file that lists an import and an install to a line is read without an error, and gives the
-- imports for both: no install is read. The texts are to be without separators of their own.
pub parse_pkg_file-line_of :
    (entries : List (List ℕ × List ℕ))
    → All IsEntry entries
    → parse_pkg_file (lines (map line_of entries))
      ≡ some (map (λ e. e.0) entries, map (λ e. e.0) entries)
unfolding parse_pkg_file parse_lines
parse_pkg_file-line_of [] h = refl
parse_pkg_file-line_of ((pkg, install) ∷ entries) ((a, b), h) =
    let parts : split separator (pkg ++ separator ∷ install) ≡ pkg ∷ install ∷ [] =
      unfold join in split-join separator pkg (install ∷ []) (a, (b, tt)) in
    rw (parts, parse_pkg_file-line_of entries h) refl

-- The two lists are one.
abbrev SameLists : Option Lists → Type 0
SameLists r = (p : Lists) → r ≡ some p → p.0 ≡ p.1

add_line-SameLists :
    (parts : List (List ℕ)) (r : Option Lists) → SameLists r → SameLists (add_line parts r)
add_line-SameLists [] r h p e = absurd (ground (arith, e))
add_line-SameLists (a ∷ []) r h p e = absurd (ground (arith, e))
add_line-SameLists (a ∷ b ∷ []) none h p e = absurd (ground (arith, e))
add_line-SameLists (a ∷ b ∷ []) (some (imports, installs)) h p e =
    let same = h (imports, installs) refl in ground (arith, same, e)
add_line-SameLists (a ∷ b ∷ c ∷ parts) r h p e = absurd (ground (arith, e))

parse_lines-SameLists : (l : List (List ℕ)) → SameLists (parse_lines l)
unfolding parse_lines
parse_lines-SameLists [] p e = ground (arith, e)
parse_lines-SameLists (line ∷ l) p e =
    add_line-SameLists (split separator line) (parse_lines l) (parse_lines-SameLists l) p e

parse_pkg_file-SameLists : (f : PkgFile) → SameLists (parse_pkg_file f)
unfolding parse_pkg_file
parse_pkg_file-SameLists no_file p e = ground (arith, e)
parse_pkg_file-SameLists unopened p e = absurd (ground (arith, e))
parse_pkg_file-SameLists (lines l) p e = parse_lines-SameLists l p e

pulled_lem :
    (d : List ℕ) (r : Option Lists) (p : Pulled)
    → SameLists r
    → pulled_from d r ≡ some p
    → (p.handler_dir ≡ d) × (p.installs ≡ p.imports)
pulled_lem d none p h e = absurd (ground (arith, e))
pulled_lem d (some (imports, installs)) p h e =
    let same = h (imports, installs) refl in (ground (arith, e), ground (arith, e, same))

fill_lem :
    (a : RemoteAnswers) (d name : List ℕ) (p : Pulled)
    → fill_dir a d name ≡ some p
    → (p.handler_dir ≡ d) × (p.installs ≡ p.imports)
unfolding fill_dir
fill_lem a d name p e =
    pulled_lem d (parse_pkg_file (a.pkg_file d)) p (parse_pkg_file-SameLists (a.pkg_file d))
      (ground (arith, e))

-- Whatever a manager pulls, local or remote, stands in the directory of that name in the registry's, and
-- the packages to install are the ones to import.
pub pulled_alike :
    (reg_dir name : List ℕ) (stat : List ℕ → Stat) (pkg_file : List ℕ → PkgFile) (a : RemoteAnswers)
    (p : Pulled)
    → (pull_local reg_dir stat pkg_file name ≡ some p) ⊎ (pull_remote reg_dir a name ≡ some p)
    → (p.handler_dir ≡ join_path reg_dir name) × (p.installs ≡ p.imports)
unfolding pull_local pull_remote
pulled_alike reg_dir name stat pkg_file a p (inl e) =
    let d = join_path reg_dir name in
    pulled_lem d (parse_pkg_file (pkg_file d)) p (parse_pkg_file-SameLists (pkg_file d))
      (ground (arith, e))
pulled_alike reg_dir name stat pkg_file a p (inr e) =
    fill_lem a (join_path reg_dir name) name p (ground (arith, e))
