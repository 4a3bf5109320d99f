-- ===== src/Worker/History/Slots.antt =====
-- The loops over the table of the history: they end, at the entry that they are to find.
use s19_lambda.Base.{
  next_cases, ℕ, zero, suc, ◌+◌, ◌-◌, ◌<◌, ◌≤◌, ◌≡◌, ◌≢◌, inl, inr, Bool, true, false, List, arith,
  if◌then◌else◌, ltb,
}
use s19_lambda.Worker.History.{cold_from, slot, full, out_of_fuel, is_warm}

-- The rounds left before the search is back at its start.
abbrev pub left : ℕ → ℕ → ℕ → ℕ
left size origran ran = if ltb ran origran then origran - ran else size - ran + origran

-- The search for an entry that is not warm ends within as many rounds as the table has entries.
pub cold_from_ends :
    (f : ℕ) (present : List Bool) (size origran ran : ℕ)
    → origran < size
    → ran < size
    → left size origran ran ≤ f
    → cold_from f present size origran ran ≢ out_of_fuel
unfolding cold_from
cold_from_ends zero present size origran ran o r h = absurd (ground arith)
cold_from_ends (suc f) present size origran ran o r h = elim (next_cases ran size r) [
  | inl (e, lt) ↦ rw e (ground (arith, cold_from_ends f present size origran (ran + 1)))
  | inr (e, at) ↦ rw e (ground (arith, cold_from_ends f present size origran 0))
]

-- What it finds is an entry of the table that is not warm.
pub cold_from_slot :
    (f : ℕ) (present : List Bool) (size origran ran i : ℕ)
    → ran < size
    → cold_from f present size origran ran ≡ slot i
    → (i < size) × (is_warm present i ≡ false)
unfolding cold_from
cold_from_slot zero present size origran ran i r e = cc
cold_from_slot (suc f) present size origran ran i r e = elim (next_cases ran size r) [
  | inl (n, lt) ↦ ground (arith, cold_from_slot f present size origran (ran + 1) i)
  | inr (n, at) ↦ ground (arith, cold_from_slot f present size origran 0 i)
]

-- It gives up only where every entry of the table is warm.
pub cold_from_full :
    (f : ℕ) (present : List Bool) (size origran ran i : ℕ)
    → origran < size
    → ran < size
    → ((j : ℕ) → j < size → left size origran ran < left size origran j → is_warm present j ≡ true)
    → cold_from f present size origran ran ≡ full
    → i < size
    → is_warm present i ≡ true
unfolding cold_from
cold_from_full zero present size origran ran i o r seen e lt = cc
cold_from_full (suc f) present size origran ran i o r seen e lt = elim (next_cases ran size r) [
  | inl (n, more) ↦ ground (
    arith,
    seen i lt,
    cold_from_full f present size origran (ran + 1) i o more
        (λ j jlt vis. ground (arith, seen j jlt)),
  )
  | inr (n, at) ↦ ground (
    arith,
    seen i lt,
    cold_from_full f present size origran 0 i o (omega arith)
        (λ j jlt vis. ground (arith, seen j jlt)),
  )
]
