-- ===== src/Worker/Cache/Hits.antt =====
-- `Hit`: it ends, and what it counts.
use s19_lambda.Base.{
  ℕ, zero, suc, ◌<◌, ◌≡◌, refl, sym, ◌∙◌, ap, subst, Bool, true, false, ◌||◌, Option, none, some,
  update, if◌then◌else◌, ◌==◌, Bool-cases, inl, inr, arith,
}
use s19_lambda.Worker.Cache.{HitOps, ForkServer, Heap, CacheManager, add_hit, hit_loop, hit}
use s19_lambda.Worker.Cache.Invariant.{CacheInv, CacheInv-Same, Same, hits_of}

-- Is `n` the server, or above it?
unfoldable pub is_above : {F : Type 0} → ℕ → Heap F → ℕ → Option ℕ → Bool
is_above zero heap n fs = false
is_above (suc fuel) heap n none = false
is_above (suc fuel) heap n (some fs) =
    let up = is_above fuel heap n (heap fs).parent in fs == n || up

module _ {F : Type 0} (o : HitOps F) where
  -- The heap with a hit on each server that is `fs` or above it.
  pub counted_heap : ℕ → Option ℕ → Heap F → Heap F
  counted_heap fuel fs heap n = if is_above fuel heap n fs then add_hit o (heap n) else heap n

  -- Every parent below `bound` is smaller than its child.
  abbrev Rises : Heap F → ℕ → Type 0
  Rises heap bound = (n p : ℕ) → n < bound → (heap n).parent ≡ some p → p < n

  no_later_above :
      (fuel : ℕ) (heap : Heap F) (bound n : ℕ) (fs : Option ℕ)
      → Rises heap bound
      → ((p : ℕ) → fs ≡ some p → (p < bound) × (p < n))
      → is_above fuel heap n fs ≡ false
  unfolding is_above
  no_later_above zero heap bound n fs r h = refl
  no_later_above (suc fuel) heap bound n none r h = refl
  no_later_above (suc fuel) heap bound n (some fs) r h =
      let (old, less) = h fs refl in
      let rest =
        no_later_above fuel heap bound n (heap fs).parent r
          (λ p e. (omega (arith, r fs p old e), omega (arith, r fs p old e))) in
      ground (arith, rest)

  above_update :
      (fuel : ℕ) (heap : Heap F) (m n : ℕ) (fs : Option ℕ)
      → is_above fuel (update heap m (add_hit o (heap m))) n fs ≡ is_above fuel heap n fs
  unfolding is_above
  above_update zero heap m n fs = refl
  above_update (suc fuel) heap m n none = refl
  above_update (suc fuel) heap m n (some fs) =
      let same : (update heap m (add_hit o (heap m)) fs).parent ≡ (heap fs).parent = ground arith in
      rw (same, above_update fuel heap m n (heap fs).parent) refl

  -- With more fuel than the number of the server, the way up ends and each server on it has one hit more.
  hit_loop_lem :
      (fuel : ℕ) (heap : Heap F) (bound : ℕ) (fs : Option ℕ)
      → Rises heap bound
      → ((p : ℕ) → fs ≡ some p → (p < bound) × (p < fuel))
      → (h : Heap F) × (hit_loop o fuel fs heap ≡ some h)
        × ((n : ℕ) → h n ≡ counted_heap fuel fs heap n)
  unfolding hit_loop is_above counted_heap
  hit_loop_lem zero heap bound none r lt = (heap, refl, λ n. refl)
  hit_loop_lem (suc fuel) heap bound none r lt = (heap, refl, λ n. refl)
  hit_loop_lem zero heap bound (some fs) r lt = absurd (omega (arith, (lt fs refl).1))
  hit_loop_lem (suc fuel) heap bound (some fs) r lt =
      let (old, less) = lt fs refl in
      let heap' = update heap fs (add_hit o (heap fs)) in
      let rises : Rises heap' bound = λ n p l e. r n p l (ground (arith, e)) in
      let (h, e, all) =
        hit_loop_lem fuel heap' bound (heap fs).parent rises
          (λ p e. (omega (arith, r fs p old e), omega (arith, r fs p old e))) in
      (
        h,
        e,
        λ n.
            all n
            ∙ rw (above_update fuel heap fs n (heap fs).parent) (elim (Bool-cases (fs == n)) [
              | inl here ↦
                  let same : fs ≡ n = ground (arith, here) in
                  rw
                    (
                      sym same,
                      no_later_above fuel heap bound fs (heap fs).parent r
                          (λ p e. (omega (arith, r fs p old e), r fs p old e)),
                    )
                    (ground arith)
              | inr there ↦ rw there refl
            ]),
      )

  -- In a cache that satisfies the invariant, `Hit` on a server of the heap comes to its end, with one
  -- hit more on the server and on each server above it, and nothing else changed.
  pub hit_counts :
      (c : CacheManager F) (fs : ℕ)
      → CacheInv o c
      → fs < c.next
      → (h : Heap F) × (hit o fs c ≡ some h)
        × ((n : ℕ)
            → h n ≡ (if is_above c.next c.heap n (some fs) then add_hit o (c.heap n) else c.heap n))
  unfolding hit counted_heap
  hit_counts c fs v old =
      hit_loop_lem c.next c.heap c.next (some fs) (λ n p l e. (v.each n l).above p e)
        (λ p e. (ground (arith, e), ground (arith, e)))

  counted-hits_of :
      (b : Bool) (s : ForkServer F)
      → (k : ℕ) × (s.hits ≡ hits_of o k)
      → (k : ℕ) × ((if b then add_hit o s else s).hits ≡ hits_of o k)
  unfolding hits_of
  counted-hits_of true s (k, e) = (suc k, ap (λ x. o.add x o.one) e)
  counted-hits_of false s k = k

  counted-Same : (b : Bool) (s : ForkServer F) → Same s (if b then add_hit o s else s)
  counted-Same true s = record { imports = refl; parent = refl; children = refl; size = refl }
  counted-Same false s = record { imports = refl; parent = refl; children = refl; size = refl }

  pub hit-CacheInv :
      (c : CacheManager F) (fs : ℕ) (h : Heap F)
      → CacheInv o c
      → fs < c.next
      → hit o fs c ≡ some h
      → CacheInv o (record c { heap = h })
  hit-CacheInv c fs h v old e =
      let (h', e', all) = hit_counts c fs v old in
      let same : h' ≡ h = ground (arith, e, e') in
      subst (λ g. CacheInv o (record c { heap = g })) same
        (CacheInv-Same o c (record c { heap = h' }) refl refl refl
          (λ k. rw (all k) (counted-Same (is_above c.next c.heap k (some fs)) (c.heap k)))
          (λ n lt.
            rw (all n) (
              counted-hits_of (is_above c.next c.heap n (some fs)) (c.heap n)
                (v.each n lt).counted))
          v)
