-- ===== src/Base/Counts.antt =====
-- How often a number stands in a list, and removal of its first occurrence.
use Prim.Native.Nat.{ℕ, ◌+◌, ◌-◌, ◌<◌}
use mathlib.Core.Path.{◌≡◌, refl}
use mathlib.Core.List.{List, [], ◌∷◌}
use mathlib.Core.Option.{Option, none, some}
use native.Mathlib.Omega.{arith}
use s19_lambda.Base.Tests.{◌==◌, if◌then◌else◌}

unfoldable pub count : ℕ → List ℕ → ℕ
count k [] = 0
count k (x ∷ xs) = (if x == k then 1 else 0) + count k xs

-- `list.Remove` of the element that holds `k`: the one pushed last, which stands first.
unfoldable pub erase : ℕ → List ℕ → List ℕ
erase k [] = []
erase k (x ∷ xs) = if x == k then xs else x ∷ erase k xs

-- The sum of `f` over a list.
unfoldable pub sum_of : (ℕ → ℕ) → List ℕ → ℕ
sum_of f [] = 0
sum_of f (x ∷ xs) = f x + sum_of f xs

-- `list.Back` and the list without it.
unfoldable pub init_of : List ℕ → List ℕ
init_of [] = []
init_of (x ∷ []) = []
init_of (x ∷ y ∷ xs) = x ∷ init_of (y ∷ xs)

unfoldable pub back : List ℕ → Option ℕ
back [] = none
back (x ∷ []) = some x
back (x ∷ y ∷ xs) = back (y ∷ xs)

pub count-erase :
    (k j : ℕ) (l : List ℕ) → count j (erase k l) ≡ (if k == j then count j l - 1 else count j l)
unfolding count erase
count-erase k j [] = ground arith
count-erase k j (x ∷ xs) = ground (arith, count-erase k j xs)

-- Removing one occurrence takes its share off the sum.
pub sum_of-erase :
    (f : ℕ → ℕ) (k : ℕ) (l : List ℕ) → 0 < count k l → sum_of f (erase k l) + f k ≡ sum_of f l
unfolding count erase sum_of
sum_of-erase f k [] h = absurd (omega arith)
sum_of-erase f k (x ∷ xs) h = ground (arith, sum_of-erase f k xs)

-- Only the values at listed keys matter.
pub sum_of_ext :
    (f g : ℕ → ℕ) (l : List ℕ) → ((k : ℕ) → 0 < count k l → f k ≡ g k) → sum_of f l ≡ sum_of g l
unfolding count sum_of
sum_of_ext f g [] h = refl
sum_of_ext f g (x ∷ xs) h =
    let here = h x (ground arith) in
    let rest = sum_of_ext f g xs (λ k lt. h k (ground arith)) in omega arith

pub count-back : (b : ℕ) (l : List ℕ) → back l ≡ some b → 0 < count b l
unfolding count back
count-back b [] h = absurd (ground arith)
count-back b (x ∷ []) h = ground arith
count-back b (x ∷ y ∷ xs) h = omega (arith, count-back b (y ∷ xs) h)

pub count-init_of :
    (k b : ℕ) (l : List ℕ)
    → back l ≡ some b
    → count k (init_of l) + (if b == k then 1 else 0) ≡ count k l
unfolding count init_of back
count-init_of k b [] h = absurd (ground arith)
count-init_of k b (x ∷ []) h = ground arith
count-init_of k b (x ∷ y ∷ xs) h = omega (arith, count-init_of k b (y ∷ xs) h)

pub sum_of-init_of :
    (f : ℕ → ℕ) (b : ℕ) (l : List ℕ) → back l ≡ some b → sum_of f (init_of l) + f b ≡ sum_of f l
unfolding sum_of init_of back
sum_of-init_of f b [] h = absurd (ground arith)
sum_of-init_of f b (x ∷ []) h = ground arith
sum_of-init_of f b (x ∷ y ∷ xs) h = omega (arith, sum_of-init_of f b (y ∷ xs) h)
