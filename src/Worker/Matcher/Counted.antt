-- ===== src/Worker/Matcher/Counted.antt =====
-- The number of matched imports, and the server's packages.
use text.Mathlib.TextPositions.{eq_refl as str_eq_refl}
use s19_lambda.Base.{
  ◌≤◌, ◌≡◌, refl, String, true, false, not, ◌&&◌, List, [], ◌∷◌, length, contains, eq_iff,
  if◌then◌else◌, arith, Bool-cases, inl, inr,
}
use s19_lambda.Worker.Matcher.{matched_imports}
use s19_lambda.Subsets.{
  is_distinct, is_inside, length-inside, erase_str, length-erase_str, is_inside-erase_str,
}

-- The imports that the server has.
had : List String → List String → List String
had has [] = []
had has (x ∷ xs) = let rest = had has xs in if contains has x then x ∷ rest else rest

-- The imports that the server has not, in their order.
unfoldable pub lacked : List String → List String → List String
lacked has [] = []
lacked has (x ∷ xs) = let rest = lacked has xs in if contains has x then rest else x ∷ rest

pub matched_imports-lacked : (has xs : List String) → (matched_imports has xs).1 ≡ lacked has xs
unfolding matched_imports lacked
matched_imports-lacked has [] = refl
matched_imports-lacked has (x ∷ xs) = ground (arith, matched_imports-lacked has xs)

length-had : (has xs : List String) → length (had has xs) ≡ (matched_imports has xs).0
unfolding matched_imports had
length-had has [] = refl
length-had has (x ∷ xs) = ground (arith, length-had has xs)

contains-had :
    (has xs : List String) (s : String)
    → contains (had has xs) s ≡ (contains has s && contains xs s)
unfolding had contains
contains-had has [] s = ground arith
contains-had has (x ∷ xs) s = ground (arith, contains-had has xs s, eq_iff x s)

had-is_distinct : (has xs : List String) → is_distinct xs ≡ true → is_distinct (had has xs) ≡ true
unfolding had is_distinct
had-is_distinct has [] d = refl
had-is_distinct has (x ∷ xs) d = ground (arith, had-is_distinct has xs, contains-had has xs x)

pub inside_trans :
    (c l : List String)
    → ((s : String) → contains c s ≡ true → contains l s ≡ true)
    → is_inside c l ≡ true
unfolding is_inside contains
inside_trans [] l h = refl
inside_trans (x ∷ xs) l h =
    ground (arith, h x, str_eq_refl x, inside_trans xs l (λ s e. h s (ground arith)))

pub contains-is_inside :
    (c l : List String) (s : String)
    → is_inside c l ≡ true
    → contains c s ≡ true
    → contains l s ≡ true
unfolding is_inside contains
contains-is_inside [] l s h e = absurd (ground arith)
contains-is_inside (x ∷ xs) l s h e = ground (arith, contains-is_inside xs l s, eq_iff x s)

had-is_inside : (has xs : List String) → is_inside (had has xs) has ≡ true
had-is_inside has xs = inside_trans (had has xs) has (λ s e. ground (arith, contains-had has xs s))

-- The server's packages count as matched: at most all of them.
pub matched_at_most :
    (has xs : List String) → is_distinct xs ≡ true → (matched_imports has xs).0 ≤ length has
matched_at_most has xs d = omega (
  arith,
  length-inside (had has xs) has (had-is_distinct has xs d) (had-is_inside has xs),
  length-had has xs,
)

-- The test of `Match` on the number of matched imports: it holds of a server whose packages are all
-- imported.
pub inside-matched :
    (has xs : List String)
    → is_distinct has ≡ true
    → is_inside has xs ≡ true
    → length has ≤ (matched_imports has xs).0
inside-matched has xs d h =
    let inside =
      inside_trans has (had has xs)
        (λ s e. ground (arith, contains-had has xs s, contains-is_inside has xs s h e)) in
    omega (arith, length-inside has (had has xs) d inside, length-had has xs)

-- And of no other server, where the imports are distinct.
pub matched-inside :
    (has xs : List String)
    → is_distinct xs ≡ true
    → length has ≤ (matched_imports has xs).0
    → is_inside has xs ≡ true
matched-inside has xs d h = inside_trans has xs (λ s e. elim (Bool-cases (contains xs s)) [
  | inl there ↦ there
  | inr out ↦
      let c = had has xs in
      let not_had : contains c s ≡ false = ground (arith, contains-had has xs s, out) in
      let inside = is_inside-erase_str s c has not_had (had-is_inside has xs) in
      absurd (
        omega (
          arith,
          length-inside c (erase_str s has) (had-is_distinct has xs d) inside,
          length-erase_str s has e,
          length-had has xs,
        ))
])

-- What is left to import is what the server has not.
pub contains-lacked :
    (has xs : List String) (s : String)
    → contains (lacked has xs) s ≡ (contains xs s && not (contains has s))
unfolding contains lacked
contains-lacked has [] s = refl
contains-lacked has (x ∷ xs) s = ground (arith, contains-lacked has xs s, eq_iff x s)
