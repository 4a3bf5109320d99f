-- ===== src/Base/Cycle.antt =====
-- The index after an index of a ring, and the indices in a row.
use native.Mathlib.Nat.{mod-eq_of_lt, mod_self}
use Prim.Native.Nat.{ℕ, zero, suc, ◌+◌, ◌%◌, ◌<◌}
use mathlib.Core.Path.{◌≡◌}
use mathlib.Core.Logic.{◌⊎◌, inl, inr}
use mathlib.Core.List.{List, [], ◌∷◌}
use native.Mathlib.Omega.{arith}
use s19_lambda.Base.Tests.{Bool-cases, ltb}

pub next_cases :
    (ran size : ℕ)
    → ran < size
    → (((ran + 1) % size ≡ ran + 1) × (ran + 1 < size))
      ⊎ (((ran + 1) % size ≡ 0) × (ran + 1 ≡ size))
next_cases ran size h = elim (Bool-cases (ltb (ran + 1) size)) [
  | inl lt ↦ inl (mod-eq_of_lt (ground arith), ground arith)
  | inr at ↦ let e : ran + 1 ≡ size = ground arith in inr (rw e (mod_self _), e)
]

abbrev pub range : ℕ → ℕ → List ℕ
range k zero = []
range k (suc m) = k ∷ range (k + 1) m
