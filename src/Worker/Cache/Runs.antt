-- ===== src/Worker/Cache/Runs.antt =====
-- Runs of the import cache: calls of `Provision`, whose two parts other calls come between, and passes of
-- the evictor.
use s19_lambda.Base.{
  ℕ, zero, suc, ◌<◌, ◌≤◌, ◌≡◌, ◌≢◌, refl, ap, subst, String, Bool, true, false, ◌&&◌, Option, none,
  some, List, [], ◌∷◌, All, All-map, if◌then◌else◌, get_elem?, remove_at, Bool-cases, Option-cases,
  inl, inr, arith,
}
use s19_lambda.Base.Int.{ℤ, pos, ltb_ℤ, eqb_ℤ}
use s19_lambda.Worker.Cache.{HitOps, CacheManager, EntryAnswers, init_cache}
use s19_lambda.Worker.Cache.Provision.{
  Claim, Begun, claimed, exited, begin_failed, panicked, begin_waits, EndAnswers, provision_begin,
  provision_end,
}
use s19_lambda.Worker.Cache.Evictor.{
  ratio, worst_loop, find_victim, evict, usage, check_usage, evicted, no_victim, check_waits,
  no_usage, below,
}
use s19_lambda.Worker.Cache.Invariant.{CacheInv, init_cache-CacheInv, hits_of}
use s19_lambda.Worker.Cache.Kept.{flags-CacheInv}
use s19_lambda.Worker.Cache.Steps.{provision_begin-BeginInv, provision_end-CacheInv}

-- The claims of the calls that are between their two parts.
pub record Run (F : Type 0) : Type 0 where
  pub cache : CacheManager F
  pub claims : List Claim

abbrev pub add_claim : Begun → List Claim → List Claim
add_claim (claimed claim) l = claim ∷ l
add_claim begin_failed l = l
add_claim panicked l = l
add_claim exited l = l
add_claim begin_waits l = l

-- No number of hits over the size 0 is below plus infinity: by IEEE 754 it is plus infinity, or no number.
abbrev pub Unbounded : {F : Type 0} → HitOps F → Type 0
Unbounded o = (k : ℕ) → o.lt (o.div (hits_of o k) o.zero) o.inf ≡ false

module _ {F : Type 0} (o : HitOps F) where
  -- A fatal error ends the process.
  pub data Step (r : Run F) : Run F → Type 0 where
    begins :
        (a : EntryAnswers) (imports : List String)
        → (provision_begin o a imports r.cache).1 ≢ exited
        → Step r (record {
          cache = (provision_begin o a imports r.cache).0;
          claims = add_claim (provision_begin o a imports r.cache).1 r.claims;
        })
    ends :
        (a : EndAnswers) (i : ℕ) (claim : Claim)
        → get_elem? r.claims i ≡ some claim
        → Step r
            (record { cache = (provision_end o a claim r.cache).0; claims = remove_at r.claims i })
    checks :
        (limit : ℤ) (text : Option (List ℕ))
        → Step r (record r { cache = (check_usage o limit text r.cache).0 })

  pub data Reach (r : Run F) : Run F → Type 0 where
    here : Reach r r
    next : {s t : Run F} → Reach r s → Step s t → Reach r t

  -- The invariant of a run: that of its cache, and each claim is on a server of the heap.
  abbrev pub RunInv : Run F → Type 0
  RunInv r = CacheInv o r.cache × All (λ claim. claim.fs < r.cache.next) r.claims

  abbrev pub start : ℕ → List ℕ → Run F
  start container pid = record { cache = init_cache o container pid; claims = [] }

  All_get :
      (P : Claim → Type 0) (l : List Claim) (i : ℕ) (x : Claim)
      → All P l
      → get_elem? l i ≡ some x
      → P x
  All_get P [] i x h e = absurd (ground (arith, e))
  All_get P (y ∷ l) zero x h e = subst P (ground (arith, e)) h.0
  All_get P (y ∷ l) (suc i) x h e = All_get P l i x h.1 e

  All-remove_at : (P : Claim → Type 0) (l : List Claim) (i : ℕ) → All P l → All P (remove_at l i)
  All-remove_at P [] i h = tt
  All-remove_at P (y ∷ l) zero h = h.1
  All-remove_at P (y ∷ l) (suc i) h = (h.0, All-remove_at P l i h.1)

  -- A new claim is on a server of the heap.
  All-add_claim :
      (begun : Begun) (l : List Claim) (bound bound' : ℕ)
      → bound ≤ bound'
      → ((claim : Claim) → begun ≡ claimed claim → claim.fs < bound')
      → All (λ claim. claim.fs < bound) l
      → All (λ claim. claim.fs < bound') (add_claim begun l)
  All-add_claim begun l bound bound' le new h =
      let old = All-map _ _ l (λ claim lt. omega arith) h in go begun new old
    where
      go :
          (b : Begun)
          → ((claim : Claim) → b ≡ claimed claim → claim.fs < bound')
          → All (λ claim. claim.fs < bound') l
          → All (λ claim. claim.fs < bound') (add_claim b l)
      go (claimed claim) f old = (f claim refl, old)
      go begin_failed f old = old
      go panicked f old = old
      go exited f old = old
      go begin_waits f old = old

  pub check_usage_locked :
      (limit : ℤ) (text : Option (List ℕ)) (c : CacheManager F)
      → c.locked ≡ true
      → check_usage o limit text c ≡ (c, check_waits)
  unfolding check_usage
  check_usage_locked limit text c held = simp held

  check_usage_free :
      (limit : ℤ) (text : Option (List ℕ)) (c : CacheManager F)
      → c.locked ≡ false
      → check_usage o limit text c ≡ elim (usage text) [
        | none ↦ (c, no_usage)
        | some bytes ↦
            if ltb_ℤ limit bytes
            then evict o (record c { full = true })
            else (record c { full = false }, below)
      ]
  unfolding check_usage
  check_usage_free limit text c free = simp free

  module _ (law : Unbounded o) where
    -- Servers without a size are never better than plus infinity.
    no_worst :
        (c : CacheManager F) (l : List ℕ) (k : ℕ)
        → CacheInv o c
        → All (λ s. (0 < s) × (s < c.next)) l
        → worst_loop o c.heap l k none o.inf ≡ none
    unfolding worst_loop
    no_worst c [] k v h = refl
    no_worst c (s ∷ l) k v h =
        let w = v.each s h.0.1 in
        let (n, hits) = w.counted in
        let never : o.lt (ratio o (c.heap s)) o.inf ≡ false = rw (w.unsized h.0.0, hits) (law n) in
        let poor : (eqb_ℤ (c.heap s).children (pos 0) && o.lt (ratio o (c.heap s)) o.inf) ≡ false =
          ground (arith, never) in
        rw poor (no_worst c l (suc k) v h.1)

    pub evict_none : (c : CacheManager F) → CacheInv o c → evict o c ≡ (c, no_victim)
    unfolding evict find_victim
    evict_none c v =
        let (rest, e, all, len) = v.listed in
        let z : find_victim o c.heap c.servers ≡ none = rw e (no_worst c rest 1 v all) in
        rw (z, evict) refl

    -- A pass of the evictor changes the flag `full` at most.
    pub check_usage_flag :
        (limit : ℤ) (text : Option (List ℕ)) (c : CacheManager F)
        → CacheInv o c
        → (b : Bool) × ((check_usage o limit text c).0 ≡ record c { full = b })
          × ((v : ℕ) → (check_usage o limit text c).1 ≢ evicted v)
    check_usage_flag limit text c v = elim (Bool-cases c.locked) [
      | inl held ↦
          rw (check_usage_locked limit text c held)
            (c.full, refl, λ v e. absurd (ground (arith, e)))
      | inr free ↦ rw (check_usage_free limit text c free) (elim (Option-cases (usage text)) [
        | inl e ↦ rw e (c.full, refl, λ v e. absurd (ground (arith, e)))
        | inr (bytes, e) ↦ rw e (elim (Bool-cases (ltb_ℤ limit bytes)) [
          | inl over ↦
              rw
                (
                  over,
                  evict_none (record c { full = true })
                      (flags-CacheInv o c c.locked true c.removed v),
                )
                (true, refl, λ v e. absurd (ground (arith, e)))
          | inr under ↦ rw under (false, refl, λ v e. absurd (ground (arith, e)))
        ])
      ])
    ]

    Step-RunInv : {r s : Run F} → Step r s → RunInv r → RunInv s
    Step-RunInv {r} (begins a imports lives) (v, old) =
        let w = provision_begin-BeginInv o a imports r.cache v in
        (
          w.inv,
          All-add_claim (provision_begin o a imports r.cache).1 r.claims _ _ w.grows w.old old,
        )
    Step-RunInv {r} (ends a i claim there) (v, old) =
        let one = All_get _ r.claims i claim old there in
        let (w, same) = provision_end-CacheInv o a claim r.cache one v in
        (w, rw same (All-remove_at _ r.claims i old))
    Step-RunInv {r} (checks limit text) (v, old) =
        let (b, e, _) = check_usage_flag limit text r.cache v in
        rw e (flags-CacheInv o r.cache r.cache.locked b r.cache.removed v, old)

    pub Reach-RunInv : {r s : Run F} → RunInv r → Reach r s → RunInv s
    Reach-RunInv v here = v
    Reach-RunInv v (next path step) = Step-RunInv step (Reach-RunInv v path)

    start-RunInv : (container : ℕ) (pid : List ℕ) → RunInv (start container pid)
    start-RunInv container pid = (init_cache-CacheInv o container pid, tt)

    -- In every state that the cache reaches from its start, by calls of `Provision` whose parts come in any
    -- order and by passes of the evictor, the invariant holds: the parents of a server are older than it
    -- and have no package that it has not, its children are all the entries ever begun on it, and the
    -- root and one entry for each success of `newCacheEntry` are listed. No number of hits over the size 0
    -- is to be below plus infinity.
    pub reachable-CacheInv :
        (container : ℕ) (pid : List ℕ) {r : Run F}
        → Reach (start container pid) r
        → CacheInv o r.cache
    reachable-CacheInv container pid path = (Reach-RunInv (start-RunInv container pid) path).0

    -- In a state that the cache reaches, a pass of the evictor evicts nothing, whatever the usage and the
    -- limit: it leaves the servers and their number as they are. No number of hits over the size 0 is to be
    -- below plus infinity.
    pub reachable_no_eviction :
        (container : ℕ) (pid : List ℕ) (limit : ℤ) (text : Option (List ℕ)) {r : Run F}
        → Reach (start container pid) r
        → let (c, checked) = check_usage o limit text r.cache in
          (c.servers ≡ r.cache.servers)
          × (c.removed ≡ r.cache.removed)
          × ((v : ℕ) → checked ≢ evicted v)
    reachable_no_eviction container pid limit text {r} path =
        let (b, e, none_out) =
          check_usage_flag limit text r.cache (reachable-CacheInv container pid path) in
        (ap (λ c. c.servers) e, ap (λ c. c.removed) e, none_out)
