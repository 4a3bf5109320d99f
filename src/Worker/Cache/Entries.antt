-- ===== src/Worker/Cache/Entries.antt =====
-- `newCacheEntry`: the packages of the new entry, and the invariant.
use s19_lambda.Base.{
  ℕ, zero, suc, ◌+◌, ◌<◌, ◌≡◌, refl, sym, ◌∙◌, ap, String, true, ◌||◌, some, List, [], ◌∷◌, All-map,
  contains, ◌==◌, Bool-cases, Option-cases, inl, inr, arith, eq_iff,
}
use s19_lambda.Base.Int.{pos_add}
use s19_lambda.Subsets.{is_distinct, is_inside}
use s19_lambda.Worker.Matcher.Counted.{inside_trans}
use s19_lambda.Worker.Cache.{HitOps, CacheManager, add_imports, new_fork_server, alloc}
use s19_lambda.Worker.Cache.Invariant.{
  CacheInv, ServerInv, offspring, is_parent, hits_of, offspring_ext,
}

pub contains-add_imports :
    (l xs : List String) (s : String)
    → contains (add_imports l xs) s ≡ (contains l s || contains xs s)
unfolding add_imports contains
contains-add_imports l [] s = ground arith
contains-add_imports l (x ∷ xs) s = ground (arith, contains-add_imports l xs s, eq_iff x s)

add_imports-is_distinct :
    (l xs : List String) → is_distinct l ≡ true → is_distinct (add_imports l xs) ≡ true
unfolding add_imports is_distinct
add_imports-is_distinct l [] d = d
add_imports-is_distinct l (x ∷ xs) d = ground (arith, add_imports-is_distinct l xs d)

add_imports-is_inside : (l xs : List String) → is_inside l (add_imports l xs) ≡ true
add_imports-is_inside l xs =
    inside_trans l (add_imports l xs) (λ s e. ground (arith, contains-add_imports l xs s))

is_inside_refl : (l : List String) → is_inside l l ≡ true
is_inside_refl l = inside_trans l l (λ s e. e)

module _ {F : Type 0} (o : HitOps F) (base : ℕ) (to_cache : List String) (c : CacheManager F)
    (v : CacheInv o c) (old : base < c.next) where
  abbrev after : CacheManager F
  after = alloc o base to_cache c

  -- No server has a later one as its parent.
  childless : (n p : ℕ) → n < suc c.next → n < suc p → offspring c.heap p n ≡ 0
  unfolding offspring is_parent
  childless zero p lt le = refl
  childless (suc n) p lt le = elim (Option-cases (c.heap n).parent) [
    | inl e ↦ rw e (ground (arith, childless n p (omega arith) (omega arith)))
    | inr (q, e) ↦
        let above = (v.each n (omega arith)).above q e in
        rw e (ground (arith, childless n p (omega arith) (omega arith)))
  ]

  offspring-after :
      (p : ℕ)
      → offspring after.heap p (suc c.next) ≡ is_parent p (some base) + offspring c.heap p c.next
  unfolding offspring
  offspring-after p =
      let rest = offspring_ext c.heap after.heap p c.next (λ k lt. ground arith) in
      rw rest (ground arith)

  -- The fields that the invariant reads of a server that was there before.
  kept :
      (n : ℕ)
      → n < c.next
      → ((after.heap n).parent ≡ (c.heap n).parent)
        × ((after.heap n).imports ≡ (c.heap n).imports)
        × ((after.heap n).size ≡ (c.heap n).size)
        × ((after.heap n).hits ≡ (c.heap n).hits)
  kept n lt = (ground arith, ground arith, ground arith, ground arith)

  old-ServerInv : (n : ℕ) → n < c.next → ServerInv o after.heap (suc c.next) n
  unfolding is_parent
  old-ServerInv n lt =
      let w = v.each n lt in
      let (parent, imports, size, hits) = kept n lt in
      record {
        above = λ p e. w.above p (sym parent ∙ e);
        inherits = λ p e.
            let up = sym parent ∙ e in
            let (_, imports', _, _) = kept p (omega (arith, w.above p up)) in
            rw (imports, imports') (w.inherits p up);
        distinct = rw imports w.distinct;
        unsized = λ more. size ∙ w.unsized more;
        counted = (w.counted.0, hits ∙ w.counted.1);
        children_counted = rw (offspring-after n) (elim (Bool-cases (n == base)) [
          | inl here ↦
              let e : n ≡ base = ground (arith, here) in
              ground (arith, w.children_counted, pos_add (offspring c.heap n c.next) 1)
          | inr there ↦ ground (arith, w.children_counted)
        ]);
      }

  pub new_entry :
      after.heap c.next ≡ new_fork_server o (add_imports (c.heap base).imports to_cache) (some base)
  new_entry = ground arith

  new-ServerInv : ServerInv o after.heap (suc c.next) c.next
  unfolding is_parent hits_of
  new-ServerInv =
      let (_, imports, _, _) = kept base old in
      let w = v.each base old in
      record {
        above = λ p e. ground (arith, e, ap (λ s. s.parent) new_entry);
        inherits = λ p e.
            let same : base ≡ p = ground (arith, e, ap (λ s. s.parent) new_entry) in
            rw (new_entry, sym same, imports)
              (add_imports-is_inside (c.heap base).imports to_cache);
        distinct = rw new_entry (add_imports-is_distinct (c.heap base).imports to_cache w.distinct);
        unsized = λ more. ap (λ s. s.size) new_entry;
        counted = (0, ap (λ s. s.hits) new_entry);
        children_counted =
            rw (offspring-after c.next, new_entry)
              (ground (arith, childless c.next c.next (omega arith) (omega arith)));
      }

  pub alloc-CacheInv : CacheInv o after
  alloc-CacheInv = record {
    nonempty = omega arith;
    root = (kept 0 v.nonempty).1 ∙ v.root;
    listed =
        let (rest, e, all, len) = v.listed in
        (rest, e, All-map _ _ rest (λ s lt. (lt.0, omega (arith, lt.1))) all, len);
    each = λ n lt. elim (Bool-cases (n == c.next)) [
      | inl here ↦ let e : n ≡ c.next = ground (arith, here) in rw e new-ServerInv
      | inr there ↦ old-ServerInv n (ground (arith, there))
    ];
  }
