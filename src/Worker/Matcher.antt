-- ===== src/Worker/Matcher.antt =====
-- The choice of a fork server for the packages that a lambda imports
-- (worker/import-cache/subsetMatcher.go). The map `Imports` of a server is the list of its keys, which
-- are distinct; all its values are true.
pub mod Counted
pub mod Chosen
mod Tests
use s19_lambda.Base.{
  ℕ, suc, ◌+◌, String, Bool, true, false, ◌&&◌, Option, none, some, List, [], ◌∷◌, length, contains,
  if◌then◌else◌, leb,
}
use s19_lambda.Base.Int.{ℤ, pos, negsuc, ltb_ℤ, eqb_ℤ}

-- The loop over the imports: how many the server has, and the others.
unfoldable pub matched_imports : List String → List String → ℕ × List String
matched_imports has [] = (0, [])
matched_imports has (x ∷ xs) =
    let (matched, to_cache) = matched_imports has xs in
    if contains has x then (suc matched, to_cache) else (matched, x ∷ to_cache)

pub record Best : Type 0 where
  pub fs : ℕ
  pub score : ℤ
  pub to_cache : List String

-- The loop over the servers from the index `i` on; a server is its imports.
unfoldable pub match_loop : List String → List (List String) → ℕ → Best → Best
match_loop imports [] i best = best
match_loop imports (has ∷ servers) i best =
    let (matched, to_cache) = matched_imports has imports in
    let better = ltb_ℤ best.score (pos matched) && leb (length has) matched in
    match_loop imports servers (suc i)
      (if better then record { fs = i; score = pos matched; to_cache = to_cache } else best)

abbrev pub first_best : List String → Best
first_best imports = record { fs = 0; score = negsuc 0; to_cache = imports }

-- `Match`: the server, what is left to import, and whether there was a hit. Without a server, the
-- first index panics: `none`.
unfoldable pub match_servers : List (List String) → List String → Option (ℕ × List String × Bool)
unfolding match_loop
match_servers [] imports = none
match_servers (_ ∷ servers) imports =
    let best = match_loop imports servers 1 (first_best imports) in
    some (best.fs, best.to_cache, if eqb_ℤ best.score (negsuc 0) then false else true)
