-- ===== src/Worker/History/Access.antt =====
-- What an access of the history does to it.
use native.Mathlib.Nat.{mod-lt}
use s19_lambda.Base.{
  ℕ, zero, suc, ◌%◌, ◌<◌, ◌≡◌, ◌⊎◌, inl, inr, refl, String, Bool, true, false, none, some, List, [],
  ◌∷◌, length, set, get_elem?, eq_iff, arith, Option-cases, if◌then◌else◌, length-replicate, ◌∙◌,
}
use s19_lambda.Worker.History.{
  History, Victim, init, scan, cold_from, slot, full, out_of_fuel, is_warm, apply_code, rename,
  evict_random, handler_access,
}
use s19_lambda.Worker.History.Slots.{cold_from_ends, cold_from_slot, cold_from_full}

pub record IsValid (h : History) : Type 0 where
  pub names : length h.hnames ≡ h.log_size
  pub bits : length h.present ≡ h.log_size

pub init-IsValid : (size : ℕ) → IsValid (init size)
unfolding init
init-IsValid size = record { names = length-replicate size ""; bits = length-replicate size false }

-- The four ways of an access: the name is there; a cold spot takes it; an entry that is not warm is
-- replaced; or every entry is warm and nothing happens.
pub data Accessed (hname : String) (code : ℕ) (h : History) (r : History × ℕ) : Type 0 where
  hit :
      (i : ℕ)
      → scan hname h.hnames ≡ some (i, false)
      → r ≡ apply_code i code h
      → Accessed hname code h r
  filled :
      (i : ℕ)
      → scan hname h.hnames ≡ some (i, true)
      → r ≡ apply_code i code (rename i hname h)
      → Accessed hname code h r
  replaced :
      (i : ℕ)
      → scan hname h.hnames ≡ none
      → i < h.log_size
      → is_warm h.present i ≡ false
      → r ≡ apply_code i code (rename i hname h)
      → Accessed hname code h r
  refused :
      scan hname h.hnames ≡ none
      → ((j : ℕ) → j < h.log_size → is_warm h.present j ≡ true)
      → r ≡ (h, 0)
      → Accessed hname code h r

module _ (hname : String) (code random : ℕ) (h : History) where
  pub access_found :
      (i : ℕ) (cold : Bool)
      → scan hname h.hnames ≡ some (i, cold)
      → handler_access hname code random h
        ≡ some (apply_code i code (if cold then rename i hname h else h))
  unfolding handler_access
  access_found i cold e = rw (e, handler_access)

  access_missed :
      scan hname h.hnames ≡ none
      → 0 < h.log_size
      → let ran = random % h.log_size in
        handler_access hname code random h
        ≡ evict_random hname code (cold_from h.log_size h.present h.log_size ran ran) h
  unfolding handler_access
  access_missed e pos = rw (e, handler_access) (ground arith)

  -- An access of a table with entries ends without a panic, in one of the four ways, whatever the
  -- random number.
  pub handler_access-Accessed :
      0 < h.log_size
      → (r : History × ℕ) × (handler_access hname code random h ≡ some r) × Accessed hname code h r
  unfolding evict_random
  handler_access-Accessed pos = elim (Option-cases (scan hname h.hnames)) [
    | inl missing ↦ missed missing (cold_from h.log_size h.present h.log_size ran ran) refl
    | inr ((i, false), e) ↦ (apply_code i code h, access_found i false e, hit i e refl)
    | inr ((i, true), e) ↦
        (apply_code i code (rename i hname h), access_found i true e, filled i e refl)
  ]
    where
      ran : ℕ
      ran = random % h.log_size

      ran-lt : ran < h.log_size
      ran-lt = mod-lt random pos

      missed :
          scan hname h.hnames ≡ none
          → (c : Victim) → cold_from h.log_size h.present h.log_size ran ran ≡ c
          → (r : History × ℕ) × (handler_access hname code random h ≡ some r)
            × Accessed hname code h r
      missed m (slot i) e =
          let (lt, cold) = cold_from_slot h.log_size h.present h.log_size ran ran i ran-lt e in
          (
            apply_code i code (rename i hname h),
            access_missed m pos ∙ (rw (e, evict_random) refl),
            replaced i m lt cold refl,
          )
      missed m full e = (
        (h, 0),
        access_missed m pos ∙ (rw (e, evict_random) refl),
        refused m
            (λ j lt.
              cold_from_full h.log_size h.present h.log_size ran ran j ran-lt ran-lt
                (λ k klt vis. absurd (ground arith)) e lt)
            refl,
      )
      missed m out_of_fuel e =
          absurd
            (cold_from_ends h.log_size h.present h.log_size ran ran ran-lt ran-lt (ground arith) e)

pub scan-lt :
    (hname : String) (ns : List String) (i : ℕ) (c : Bool)
    → scan hname ns ≡ some (i, c)
    → i < length ns
unfolding scan
scan-lt hname [] i c e = cc
scan-lt hname (n ∷ ns) zero c e = omega arith
scan-lt hname (n ∷ ns) (suc i) c e = ground (arith, scan-lt hname ns i c)

pub scan-cold :
    (hname : String) (ns : List String) (i : ℕ)
    → scan hname ns ≡ some (i, true)
    → get_elem? ns i ≡ some ""
unfolding scan
scan-cold hname [] i e = cc
scan-cold hname (n ∷ ns) zero e = ground (arith, eq_iff n "")
scan-cold hname (n ∷ ns) (suc i) e = ground (arith, scan-cold hname ns i)

pub scan_hit :
    (hname : String) (ns : List String) (i : ℕ)
    → scan hname ns ≡ some (i, false)
    → get_elem? ns i ≡ some hname
unfolding scan
scan_hit hname [] i e = cc
scan_hit hname (n ∷ ns) zero e = ground (arith, eq_iff n hname)
scan_hit hname (n ∷ ns) (suc i) e = ground (arith, scan_hit hname ns i)

-- A name written where the scan stops, or anywhere if it does not, is found there.
pub scan-set :
    (hname : String) (ns : List String) (i : ℕ)
    → (scan hname ns ≡ some (i, true)) ⊎ (scan hname ns ≡ none)
    → i < length ns
    → scan hname (set ns i hname) ≡ some (i, false)
unfolding scan
scan-set hname [] i e lt = absurd (omega arith)
scan-set hname (n ∷ ns) zero e lt = ground (arith, eq_iff hname hname)
scan-set hname (n ∷ ns) (suc i) e lt = ground (arith, scan-set hname ns i)
