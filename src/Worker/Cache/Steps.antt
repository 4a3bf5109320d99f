-- ===== src/Worker/Cache/Steps.antt =====
-- The two parts of `Provision` keep the invariant.
use s19_lambda.Base.{
  ℕ, zero, suc, ◌<◌, ◌≤◌, ◌≡◌, refl, sym, String, Bool, true, false, not, ◌&&◌, none, some, List,
  [], ◌∷◌, ◌++◌, All, All-map, length-append, get_elem?, Bool-cases, Option-cases, inl, inr, arith,
}
use s19_lambda.Worker.ForkRequest.{fork_request}
use s19_lambda.Worker.Matcher.{match_servers}
use s19_lambda.Worker.Cache.{
  HitOps, CacheManager, EntryAnswers, Entry, made, refused, fatal, new_cache_entry,
}
use s19_lambda.Worker.Cache.Provision.{
  Claim, Begun, claimed, begin_waits, panicked, EndAnswers, enter, wait_in, grow, reuse, choose,
  server_imports, set_locked, provision_begin, fork_handler, provision_end, not_empty,
}
use s19_lambda.Worker.Cache.Invariant.{CacheInv}
use s19_lambda.Worker.Cache.Hits.{hit-CacheInv, hit_counts}
use s19_lambda.Worker.Cache.Kept.{
  EntryInv, update-CacheInv, flags-CacheInv, new_cache_entry-EntryInv,
}

module _ {F : Type 0} (o : HitOps F) where
  pub set_locked-CacheInv :
      (c : CacheManager F) (fs : ℕ) (b : Bool)
      → CacheInv o c
      → CacheInv o (record c { heap = set_locked fs b c.heap })
  set_locked-CacheInv c fs b v =
      update-CacheInv o c fs _
        (record { imports = refl; parent = refl; children = refl; size = refl }) refl v

  -- What the first part gives.
  pub record BeginInv (c : CacheManager F) (r : CacheManager F × Begun) : Type 0 where
    pub inv : CacheInv o r.0
    pub old : (claim : Claim) → r.1 ≡ claimed claim → claim.fs < r.0.next
    pub grows : c.next ≤ r.0.next

  wait_in-BeginInv : (c : CacheManager F) → CacheInv o c → BeginInv c (wait_in c)
  unfolding wait_in
  wait_in-BeginInv c v = record {
    inv = flags-CacheInv o c true c.full c.removed v;
    old = λ claim e. absurd (ground (arith, e));
    grows = omega arith;
  }

  All_append : (P : ℕ → Type 0) (l : List ℕ) (x : ℕ) → All P l → P x → All P (l ++ x ∷ [])
  All_append P [] x h p = (p, tt)
  All_append P (y ∷ l) x h p = (h.0, All_append P l x h.1 p)

  made-BeginInv :
      (is_hit : Bool) (base : ℕ) (to_cache : List String) (c d : CacheManager F) (fs : ℕ)
      → 0 < c.next
      → EntryInv o base to_cache c (d, made fs)
      → BeginInv c (enter is_hit d (made fs))
  unfolding enter
  made-BeginInv is_hit base to_cache c d fs more v =
      let at = v.is_new fs refl in
      let (rest, e, all, len) = v.inv.listed in
      let w = set_locked-CacheInv d fs true v.inv in
      record {
        inv = record {
          nonempty = w.nonempty;
          root = w.root;
          listed = (
            rest ++ fs ∷ [],
            rw e refl,
            All_append _ rest fs all (ground (arith, at, v.later), ground (arith, at, v.later)),
            ground (arith, length-append rest (fs ∷ []), len),
          );
          each = w.each;
        };
        old = λ claim z. ground (arith, z, at, v.later);
        grows = omega (arith, v.later);
      }

  enter-BeginInv :
      (is_hit : Bool) (base : ℕ) (to_cache : List String) (c d : CacheManager F) (e : Entry)
      → 0 < c.next
      → EntryInv o base to_cache c (d, e)
      → BeginInv c (enter is_hit d e)
  unfolding enter
  enter-BeginInv is_hit base to_cache c d (made fs) more v =
      made-BeginInv is_hit base to_cache c d fs more v
  enter-BeginInv is_hit base to_cache c d refused more v = record {
    inv = v.inv;
    old = λ claim z. absurd (ground (arith, z));
    grows = omega (arith, v.later);
  }
  enter-BeginInv is_hit base to_cache c d fatal more v = record {
    inv = v.inv;
    old = λ claim z. absurd (ground (arith, z));
    grows = omega (arith, v.later);
  }

  grow-BeginInv :
      (a : EntryAnswers) (base : ℕ) (to_cache : List String) (is_hit : Bool) (c : CacheManager F)
      → base < c.next
      → CacheInv o c
      → BeginInv c (grow o a base to_cache is_hit c)
  unfolding grow
  grow-BeginInv a base to_cache is_hit c old v = elim (Bool-cases (c.heap base).locked) [
    | inl held ↦ rw held (wait_in-BeginInv c v)
    | inr free ↦
        let made = new_cache_entry-EntryInv o a base to_cache c old v in
        let r = new_cache_entry o a base to_cache c in
        rw free (enter-BeginInv is_hit base to_cache c r.0 r.1 v.nonempty made)
  ]

  reuse-BeginInv :
      (fs : ℕ) (to_cache : List String) (is_hit : Bool) (c : CacheManager F)
      → fs < c.next
      → CacheInv o c
      → BeginInv c (reuse fs to_cache is_hit c)
  unfolding reuse
  reuse-BeginInv fs to_cache is_hit c old v = elim (Bool-cases (c.heap fs).locked) [
    | inl held ↦ rw held (wait_in-BeginInv c v)
    | inr free ↦ rw free (record {
      inv = set_locked-CacheInv c fs true v;
      old = λ claim z. ground (arith, z);
      grows = omega arith;
    })
  ]

  choose-BeginInv :
      (a : EntryAnswers) (fs : ℕ) (to_cache : List String) (is_hit : Bool) (c : CacheManager F)
      → fs < c.next
      → CacheInv o c
      → BeginInv c (choose o a fs to_cache is_hit c)
  unfolding choose
  choose-BeginInv a fs to_cache is_hit c old v =
      elim (Bool-cases (not_empty to_cache && not c.full)) [
        | inl more ↦ rw more (grow-BeginInv a fs to_cache is_hit c old v)
        | inr same ↦ rw same (reuse-BeginInv fs to_cache is_hit c old v)
      ]

  pub listed_old :
      (c : CacheManager F) (k fs : ℕ) → CacheInv o c → get_elem? c.servers k ≡ some fs → fs < c.next
  listed_old c k fs v e =
      let (rest, s, all, len) = v.listed in
      go (0 ∷ rest) k (v.nonempty, All-map _ _ rest (λ x p. p.1) all) (rw (sym s) e)
    where
      go : (l : List ℕ) (k : ℕ) → All (λ x. x < c.next) l → get_elem? l k ≡ some fs → fs < c.next
      go [] k h z = absurd (ground (arith, z))
      go (x ∷ l) zero h z = let same : x ≡ fs = ground (arith, z) in ground (arith, same, h.0)
      go (x ∷ l) (suc k) h z = go l k h.1 z

  pub provision_begin_locked :
      (a : EntryAnswers) (imports : List String) (c : CacheManager F)
      → c.locked ≡ true
      → provision_begin o a imports c ≡ (c, begin_waits)
  unfolding provision_begin
  provision_begin_locked a imports c held = simp held

  abbrev stuck : CacheManager F → CacheManager F × Begun
  stuck c = (record c { locked = true }, panicked)

  stuck-BeginInv : (c : CacheManager F) → CacheInv o c → BeginInv c (stuck c)
  stuck-BeginInv c v = record {
    inv = flags-CacheInv o c true c.full c.removed v;
    old = λ claim z. absurd (ground (arith, z));
    grows = omega arith;
  }

  -- A call that gets the manager's mutex, by what the matcher says.
  pub provision_begin_free :
      (a : EntryAnswers) (imports : List String) (c : CacheManager F)
      → c.locked ≡ false
      → provision_begin o a imports c ≡ elim (match_servers (server_imports c) imports) [
        | none ↦ stuck c
        | some (k, to_cache, is_hit) ↦ elim (get_elem? c.servers k) [
          | none ↦ stuck c
          | some fs ↦ choose o a fs to_cache is_hit c
        ]
      ]
  unfolding provision_begin
  provision_begin_free a imports c free = simp free

  pub provision_begin-BeginInv :
      (a : EntryAnswers) (imports : List String) (c : CacheManager F)
      → CacheInv o c
      → BeginInv c (provision_begin o a imports c)
  provision_begin-BeginInv a imports c v = elim (Bool-cases c.locked) [
    | inl held ↦
        rw (provision_begin_locked a imports c held)
          (record { inv = v; old = λ claim z. absurd (ground (arith, z)); grows = omega arith })
    | inr free ↦
        rw (provision_begin_free a imports c free)
          (elim (Option-cases (match_servers (server_imports c) imports)) [
            | inl unmatched ↦ rw unmatched (stuck-BeginInv c v)
            | inr ((k, to_cache, is_hit), chosen) ↦ elim (Option-cases (get_elem? c.servers k)) [
              | inl out ↦ rw (chosen, out) (stuck-BeginInv c v)
              | inr (fs, at) ↦
                  rw (chosen, at)
                    (choose-BeginInv a fs to_cache is_hit c (listed_old c k fs v at) v)
            ]
          ])
  ]

  pub provision_end-CacheInv :
      (a : EndAnswers) (claim : Claim) (c : CacheManager F)
      → claim.fs < c.next
      → CacheInv o c
      → CacheInv o (provision_end o a claim c).0 × ((provision_end o a claim c).0.next ≡ c.next)
  unfolding provision_end fork_handler
  provision_end-CacheInv a claim c old v = elim (Bool-cases (claim.is_new && not a.ready)) [
    | inl late ↦ rw late (v, refl)
    | inr ready ↦
        let (h, e, _) = hit_counts o c claim.fs v old in
        let w =
          set_locked-CacheInv (record c { heap = h }) claim.fs false
            (hit-CacheInv o c claim.fs h v old e) in
        let r = fork_request a.send_fds in
        elim (Bool-cases (r.1 && a.enters r.0)) [
          | inl ok ↦ rw (ready, e, provision_end, ok) (w, refl)
          | inr bad ↦ rw (ready, e, provision_end, bad) (w, refl)
        ]
  ]
