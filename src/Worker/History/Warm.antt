-- ===== src/Worker/History/Warm.antt =====
-- What the history remembers: an open handler is warm until it is closed, and keeps its entry.
use native.Mathlib.Decide.{ℕ_discrete}
use s19_lambda.Base.{
  ◌∙◌, ◌⊎◌, ℕ, ◌<◌, ◌≤◌, ◌≡◌, ◌≢◌, inl, inr, String, Bool, true, false, none, some, ap, subst, sym,
  length, set, get_elem?, arith, length-set, get_elem?-set_self, get_elem?-set_ne,
}
use s19_lambda.Worker.History.{
  History, bit, peek, open_code, close_code, scan, is_warm, apply_code, rename, handler_access,
}
use s19_lambda.Worker.History.Access.{
  IsValid, Accessed, hit, filled, replaced, refused, access_found, handler_access-Accessed, scan-lt,
  scan-cold, scan-set, scan_hit,
}

-- Every warm entry has a name.
pub record IsNamed (h : History) : Type 0 where
  pub valid : IsValid h
  pub named : (i : ℕ) → is_warm h.present i ≡ true → get_elem? h.hnames i ≢ some ""

apply_code-IsValid : (i code : ℕ) (h : History) → IsValid h → IsValid (apply_code i code h).0
unfolding apply_code
apply_code-IsValid i code h v =
    ground (arith, length-set h.present i true, length-set h.present i false)

rename-IsValid : (i : ℕ) (hname : String) (h : History) → IsValid h → IsValid (rename i hname h)
rename-IsValid i hname h v = record { names = length-set h.hnames i hname ∙ v.names; bits = v.bits }

Accessed-IsValid :
    (hname : String) (code : ℕ) (h : History) (r : History × ℕ)
    → Accessed hname code h r
    → IsValid h
    → IsValid r.0
Accessed-IsValid hname code h r (hit i e p) v =
    subst (λ q. IsValid q.0) (sym p) (apply_code-IsValid i code h v)
Accessed-IsValid hname code h r (filled i e p) v =
    subst (λ q. IsValid q.0) (sym p)
      (apply_code-IsValid i code (rename i hname h) (rename-IsValid i hname h v))
Accessed-IsValid hname code h r (replaced i e lt cold p) v =
    subst (λ q. IsValid q.0) (sym p)
      (apply_code-IsValid i code (rename i hname h) (rename-IsValid i hname h v))
Accessed-IsValid hname code h r (refused e warm p) v = subst (λ q. IsValid q.0) (sym p) v

apply_code-le : (i code : ℕ) (h : History) → (apply_code i code h).1 ≤ 1
unfolding apply_code
apply_code-le i code h = ground arith

Accessed-le :
    (hname : String) (code : ℕ) (h : History) (r : History × ℕ) → Accessed hname code h r → r.1 ≤ 1
Accessed-le hname code h r (hit i e p) = rw p (apply_code-le i code h)
Accessed-le hname code h r (filled i e p) = rw p (apply_code-le i code (rename i hname h))
Accessed-le hname code h r (replaced i e lt cold p) = rw p (apply_code-le i code (rename i hname h))
Accessed-le hname code h r (refused e warm p) = rw p (omega arith)

pub handler_access_total :
    (hname : String) (code random : ℕ) (h : History)
    → IsValid h
    → 0 < h.log_size
    → (r : History × ℕ) × (handler_access hname code random h ≡ some r) × IsValid r.0 × (r.1 ≤ 1)
handler_access_total hname code random h v pos =
    let (r, e, a) = handler_access-Accessed hname code random h pos in
    (r, e, Accessed-IsValid hname code h r a v, Accessed-le hname code h r a)

-- The access at a table with entries, of the result that it gave.
pub Accessed-result :
    (hname : String) (code random : ℕ) (h : History) (r : History × ℕ)
    → 0 < h.log_size
    → handler_access hname code random h ≡ some r
    → Accessed hname code h r
Accessed-result hname code random h r pos e =
    let (q, e', a) = handler_access-Accessed hname code random h pos in
    let same : q ≡ r = cc in subst (Accessed hname code h) same a

peek_at :
    (hname : String) (random i : ℕ) (g : History)
    → scan hname g.hnames ≡ some (i, false)
    → handler_access hname peek random g ≡ some (g, bit (is_warm g.present i))
unfolding apply_code
peek_at hname random i g e = access_found hname peek random g i false e

marked :
    (i : ℕ) (b : Bool) (h : History)
    → IsValid h
    → i < h.log_size
    → is_warm (set h.present i b) i ≡ b
marked i b h v lt = ground (arith, get_elem?-set_self h.present i b)

abbrev mark : ℕ → Bool → History → History
mark i b h = record h { present = set h.present i b }

-- What a `PEEK` returns once an access has stopped at the entry `i`.
handler_access-mark :
    (hname : String) (random i : ℕ) (b : Bool) (h : History)
    → IsValid h
    → scan hname h.hnames ≡ some (i, false)
    → handler_access hname peek random (mark i b h) ≡ some (mark i b h, bit b)
handler_access-mark hname random i b h v e =
    peek_at hname random i (mark i b h) e
    ∙ ap (λ c. some (mark i b h, bit c))
        (marked i b h v (omega (arith, scan-lt hname h.hnames i false e, v.names)))

handler_access-rename :
    (hname : String) (random i : ℕ) (b : Bool) (h : History)
    → IsValid h
    → i < h.log_size
    → (scan hname h.hnames ≡ some (i, true)) ⊎ (scan hname h.hnames ≡ none)
    → let h' = mark i b (rename i hname h) in handler_access hname peek random h' ≡ some (h', bit b)
handler_access-rename hname random i b h v lt e =
    handler_access-mark hname random i b (rename i hname h) (rename-IsValid i hname h v)
      (scan-set hname h.hnames i e (omega (arith, v.names)))

module _ (hname : String) (random again : ℕ) (h : History) (r : History × ℕ) (v : IsValid h) where
  after_open :
      Accessed hname open_code h r → r.1 ≡ 1 → handler_access hname peek again r.0 ≡ some (r.0, 1)
  unfolding apply_code
  after_open (hit i e p) one = rw p (handler_access-mark hname again i true h v e)
  after_open (filled i e p) one = rw p (
      handler_access-rename hname again i true h v
        (omega (arith, scan-lt hname h.hnames i true e, v.names)) (inl e))
  after_open (replaced i e lt cold p) one =
      rw p (handler_access-rename hname again i true h v lt (inr e))
  after_open (refused e warm p) one = absurd (ground arith)

  -- An `OPEN` that returns 1 is remembered: a `PEEK` of the same lambda then returns 1 and changes
  -- nothing.
  pub open_peek :
      0 < h.log_size
      → handler_access hname open_code random h ≡ some r
      → r.1 ≡ 1
      → handler_access hname peek again r.0 ≡ some (r.0, 1)
  open_peek pos e one = after_open (Accessed-result hname open_code random h r pos e) one

  refused_again :
      (q : History × ℕ)
      → scan hname h.hnames ≡ none
      → ((j : ℕ) → j < h.log_size → is_warm h.present j ≡ true)
      → Accessed hname peek h q
      → q ≡ (h, 0)
  refused_again q m warm (hit i e p) = absurd (ground arith)
  refused_again q m warm (filled i e p) = absurd (ground arith)
  refused_again q m warm (replaced i e lt cold p) = absurd (ground (arith, warm i))
  refused_again q m warm (refused e w p) = p

  after_close :
      0 < h.log_size
      → Accessed hname close_code h r
      → handler_access hname peek again r.0 ≡ some (r.0, 0)
  unfolding apply_code
  after_close pos (hit i e p) = rw p (handler_access-mark hname again i false h v e)
  after_close pos (filled i e p) = rw p (
      handler_access-rename hname again i false h v
        (omega (arith, scan-lt hname h.hnames i true e, v.names)) (inl e))
  after_close pos (replaced i e lt cold p) =
      rw p (handler_access-rename hname again i false h v lt (inr e))
  after_close pos (refused e warm p) =
      let (q, f, a) = handler_access-Accessed hname peek again h pos in
      rw p (f ∙ ap some (refused_again q e warm a))

  -- After a `CLOSE` a `PEEK` of the same lambda returns 0 and changes nothing.
  pub close_peek :
      0 < h.log_size
      → handler_access hname close_code random h ≡ some r
      → handler_access hname peek again r.0 ≡ some (r.0, 0)
  close_peek pos e = after_close pos (Accessed-result hname close_code random h r pos e)

apply_code-hnames : (i code : ℕ) (h : History) → (apply_code i code h).0.hnames ≡ h.hnames
unfolding apply_code
apply_code-hnames i code h = ground arith

module _ (hname : String) (code : ℕ) (h : History) (r : History × ℕ) (n : IsNamed h) where
  warm_elsewhere :
      (i j : ℕ)
      → i ≢ j
      → r ≡ apply_code i code (rename i hname h)
      → get_elem? r.0.hnames j ≡ get_elem? h.hnames j
  warm_elsewhere i j ne p =
      ap (λ q. get_elem? q.0.hnames j) p
      ∙ ap (λ l. get_elem? l j) (apply_code-hnames i code (rename i hname h))
      ∙ get_elem?-set_ne h.hnames i j hname ne

  warm_kept_by :
      (j : ℕ)
      → is_warm h.present j ≡ true
      → Accessed hname code h r
      → get_elem? r.0.hnames j ≡ get_elem? h.hnames j
  warm_kept_by j w (hit i e p) =
      ap (λ q. get_elem? q.0.hnames j) p ∙ ap (λ l. get_elem? l j) (apply_code-hnames i code h)
  warm_kept_by j w (filled i e p) =
      warm_elsewhere i j
        (λ same.
          n.named j w
            (subst (λ k. get_elem? h.hnames k ≡ some "") same (scan-cold hname h.hnames i e)))
        p
  warm_kept_by j w (replaced i e lt cold p) = warm_elsewhere i j (λ same. ground arith) p
  warm_kept_by j w (refused e warm p) = ap (λ q. get_elem? q.0.hnames j) p

  -- In a table whose warm entries have names, no access takes the entry of a warm lambda from it.
  pub warm_kept :
      (random j : ℕ)
      → 0 < h.log_size
      → is_warm h.present j ≡ true
      → handler_access hname code random h ≡ some r
      → get_elem? r.0.hnames j ≡ get_elem? h.hnames j
  warm_kept random j pos w e = warm_kept_by j w (Accessed-result hname code random h r pos e)

apply_code-named :
    (i code : ℕ) (g : History)
    → get_elem? g.hnames i ≢ some ""
    → ((j : ℕ) → i ≢ j → is_warm g.present j ≡ true → get_elem? g.hnames j ≢ some "")
    → (j : ℕ) → is_warm (apply_code i code g).0.present j ≡ true
    → get_elem? (apply_code i code g).0.hnames j ≢ some ""
unfolding apply_code
apply_code-named i code g at others j w = elim (ℕ_discrete i j) [
  | yes same ↦ rw (apply_code-hnames i code g, ← same) at
  | no ne ↦ rw (apply_code-hnames i code g) (
      others j ne (
        ground
          (arith, get_elem?-set_ne g.present i j true ne, get_elem?-set_ne g.present i j false ne)))
]

rename-named :
    (hname : String) (code : ℕ) (h : History) (i : ℕ)
    → IsNamed h
    → hname ≢ ""
    → i < length h.hnames
    → let g = (apply_code i code (rename i hname h)).0 in
      (j : ℕ) → is_warm g.present j ≡ true → get_elem? g.hnames j ≢ some ""
rename-named hname code h i n ne lt =
    apply_code-named i code (rename i hname h)
      (λ f. ne (ground (arith, get_elem?-set_self h.hnames i hname lt)))
      (λ j other w. rw (get_elem?-set_ne h.hnames i j hname other) (n.named j w))

named-Accessed :
    (hname : String) (code : ℕ) (h : History) (r : History × ℕ)
    → IsNamed h
    → hname ≢ ""
    → Accessed hname code h r
    → (j : ℕ) → is_warm r.0.present j ≡ true
    → get_elem? r.0.hnames j ≢ some ""
named-Accessed hname code h r n ne (hit i e p) = rw p (
    apply_code-named i code h (λ f. ne (ground (arith, scan_hit hname h.hnames i e)))
      (λ j _. n.named j))
named-Accessed hname code h r n ne (filled i e p) =
    rw p (rename-named hname code h i n ne (omega (arith, scan-lt hname h.hnames i true e)))
named-Accessed hname code h r n ne (replaced i e lt cold p) =
    rw p (rename-named hname code h i n ne (omega (arith, n.valid.names)))
named-Accessed hname code h r n ne (refused e warm p) = rw p n.named

-- An access by a name that is not empty leaves every warm entry with a name.
pub handler_access-IsNamed :
    (hname : String) (code random : ℕ) (h : History) (r : History × ℕ)
    → IsNamed h
    → 0 < h.log_size
    → hname ≢ ""
    → handler_access hname code random h ≡ some r
    → IsNamed r.0
handler_access-IsNamed hname code random h r n pos ne e =
    let a = Accessed-result hname code random h r pos e in
    record {
      valid = Accessed-IsValid hname code h r a n.valid;
      named = named-Accessed hname code h r n ne a;
    }
