-- ===== src/Subsets.antt =====
-- Lists of names as sets: a list of distinct names that is inside another is not longer.
use s19_lambda.Base.{
  suc, ◌≤◌, ◌≡◌, refl, String, Bool, true, false, ◌&&◌, not, List, [], ◌∷◌, length, contains,
  str_eq, eq_iff, if◌then◌else◌, arith,
}

unfoldable pub is_distinct : List String → Bool
is_distinct [] = true
is_distinct (x ∷ xs) = not (contains xs x) && is_distinct xs

-- Every name of the first list is in the second.
unfoldable pub is_inside : List String → List String → Bool
is_inside [] l = true
is_inside (x ∷ xs) l = contains l x && is_inside xs l

pub erase_str : String → List String → List String
erase_str s [] = []
erase_str s (x ∷ xs) = let rest = x ∷ erase_str s xs in if str_eq x s then xs else rest

pub length-erase_str :
    (s : String) (l : List String) → contains l s ≡ true → suc (length (erase_str s l)) ≡ length l
unfolding contains erase_str
length-erase_str s [] h = absurd (ground arith)
length-erase_str s (x ∷ xs) h = ground (arith, length-erase_str s xs)

contains-erase_str :
    (s t : String) (l : List String)
    → str_eq s t ≡ false
    → contains l t ≡ true
    → contains (erase_str s l) t ≡ true
unfolding contains erase_str
contains-erase_str s t [] ne h = ground arith
contains-erase_str s t (x ∷ xs) ne h =
    ground (arith, contains-erase_str s t xs ne, eq_iff x s, eq_iff x t, eq_iff s t)

pub is_inside-erase_str :
    (s : String) (c l : List String)
    → contains c s ≡ false
    → is_inside c l ≡ true
    → is_inside c (erase_str s l) ≡ true
unfolding is_inside contains
is_inside-erase_str s [] l out h = refl
is_inside-erase_str s (x ∷ xs) l out h =
    ground (arith, is_inside-erase_str s xs l, contains-erase_str s x l, eq_iff s x, eq_iff x s)

pub length-inside :
    (c l : List String) → is_distinct c ≡ true → is_inside c l ≡ true → length c ≤ length l
unfolding is_distinct is_inside
length-inside [] l d h = omega arith
length-inside (x ∷ xs) l d h =
    ground
      (arith, length-inside xs (erase_str x l), is_inside-erase_str x xs l, length-erase_str x l)
