-- ===== src/Worker/Cache/Invariant.antt =====
-- What holds of the import cache in every state that its operations reach, and of the changes that keep
-- the shape of its servers.
use s19_lambda.Base.{
  ℕ, zero, suc, ◌+◌, ◌<◌, ◌≡◌, refl, sym, ◌∙◌, ap, true, Option, none, some, List, [], ◌∷◌, length,
  All, if◌then◌else◌, ◌==◌, arith,
}
use s19_lambda.Base.Int.{pos}
use s19_lambda.Subsets.{is_distinct, is_inside}
use s19_lambda.Worker.Cache.{HitOps, ForkServer, Heap, CacheManager, init_cache}

-- Is `p` the parent?
unfoldable pub is_parent : ℕ → Option ℕ → ℕ
is_parent p none = 0
is_parent p (some q) = if p == q then 1 else 0

-- How many of the first servers of the heap have the parent `p`.
unfoldable pub offspring : {F : Type 0} → Heap F → ℕ → ℕ → ℕ
offspring heap p zero = 0
offspring heap p (suc n) = is_parent p (heap n).parent + offspring heap p n

-- One after another, so many hits.
unfoldable pub hits_of : {F : Type 0} → HitOps F → ℕ → F
hits_of o zero = o.zero
hits_of o (suc k) = o.add (hits_of o k) o.one

pub record ServerInv {F : Type 0} (o : HitOps F) (heap : Heap F) (next n : ℕ) : Type 0 where
  pub above : (p : ℕ) → (heap n).parent ≡ some p → p < n
  pub inherits :
      (p : ℕ) → (heap n).parent ≡ some p → is_inside (heap p).imports (heap n).imports ≡ true
  pub distinct : is_distinct (heap n).imports ≡ true
  pub unsized : 0 < n → (heap n).size ≡ o.zero
  pub counted : (k : ℕ) × ((heap n).hits ≡ hits_of o k)
  pub children_counted : (heap n).children ≡ pos (offspring heap n next)

pub record CacheInv {F : Type 0} (o : HitOps F) (c : CacheManager F) : Type 0 where
  pub nonempty : 0 < c.next
  pub root : (c.heap 0).imports ≡ []
  pub listed :
      (rest : List ℕ) × (c.servers ≡ 0 ∷ rest)
      × All (λ s. (0 < s) × (s < c.next)) rest
      × (length rest ≡ c.seq)
  pub each : (n : ℕ) → n < c.next → ServerInv o c.heap c.next n

-- The fields that neither a hit nor a lock nor the start of a process changes.
pub record Same {F : Type 0} (s t : ForkServer F) : Type 0 where
  pub imports : s.imports ≡ t.imports
  pub parent : s.parent ≡ t.parent
  pub children : s.children ≡ t.children
  pub size : s.size ≡ t.size

pub offspring_ext :
    {F : Type 0} (g h : Heap F) (p n : ℕ)
    → ((k : ℕ) → k < n → (g k).parent ≡ (h k).parent)
    → offspring h p n ≡ offspring g p n
unfolding offspring
offspring_ext g h p zero same = refl
offspring_ext g h p (suc n) same =
    let rest = offspring_ext g h p n (λ k lt. same k (omega arith)) in
    rw (sym (same n (omega arith))) (omega (arith, rest))

module _ {F : Type 0} (o : HitOps F) where
  pub ServerInv-Same :
      (g h : Heap F) (next n : ℕ)
      → ((k : ℕ) → Same (g k) (h k))
      → (k : ℕ) × ((h n).hits ≡ hits_of o k)
      → ServerInv o g next n
      → ServerInv o h next n
  ServerInv-Same g h next n same hits v = record {
    above = λ p e. v.above p ((same n).parent ∙ e);
    inherits =
        λ p e. rw (sym (same n).imports, sym (same p).imports) (v.inherits p ((same n).parent ∙ e));
    distinct = rw (sym (same n).imports) v.distinct;
    unsized = λ lt. sym (same n).size ∙ v.unsized lt;
    counted = hits;
    children_counted =
        sym (same n).children
        ∙ v.children_counted
        ∙ ap pos (sym (offspring_ext g h n next (λ k _. (same k).parent)));
  }

  -- A change of the heap that keeps the shape of the servers, and of what the invariant does not read.
  pub CacheInv-Same :
      (c d : CacheManager F)
      → c.next ≡ d.next
      → c.servers ≡ d.servers
      → c.seq ≡ d.seq
      → ((k : ℕ) → Same (c.heap k) (d.heap k))
      → ((n : ℕ) → n < d.next → (k : ℕ) × ((d.heap n).hits ≡ hits_of o k))
      → CacheInv o c
      → CacheInv o d
  CacheInv-Same c d next servers seq same hits v = record {
    nonempty = rw (sym next) v.nonempty;
    root = sym (same 0).imports ∙ v.root;
    listed = rw (sym next, sym servers, sym seq) v.listed;
    each = λ n lt.
        rw (sym next)
          (ServerInv-Same c.heap d.heap c.next n same (hits n lt) (v.each n (rw next lt)));
  }

  pub init_cache-CacheInv : (container : ℕ) (pid : List ℕ) → CacheInv o (init_cache o container pid)
  unfolding init_cache offspring is_distinct is_parent hits_of
  init_cache-CacheInv container pid = record {
    nonempty = omega arith;
    root = refl;
    listed = ([], refl, tt, refl);
    each = λ n lt. record {
      above = λ p e. absurd (ground (arith, e));
      inherits = λ p e. absurd (ground (arith, e));
      distinct = refl;
      unsized = λ more. absurd (omega arith);
      counted = (0, refl);
      children_counted = refl;
    };
  }
