-- ===== src/Worker/Cache/Kept.antt =====
-- `newCacheEntry` keeps the invariant.
use s19_lambda.Base.{
  ℕ, suc, ◌<◌, ◌≡◌, refl, sym, ◌∙◌, ap, subst, String, Bool, none, List, update, ◌==◌, Bool-cases,
  Option-cases, inl, inr, arith,
}
use s19_lambda.Base.Digits.{atoi}
use s19_lambda.Worker.ForkRequest.Replies.{fork_request-first_process}
use s19_lambda.Worker.Cache.{
  HitOps, ForkServer, CacheManager, EntryAnswers, Entry, made, alloc, mark_dead, kill, enter_server,
  new_cache_entry, add_imports,
}
use s19_lambda.Base.Int.{pos, ◌+ℤ◌}
use s19_lambda.Worker.Cache.Invariant.{CacheInv, CacheInv-Same, Same}
use s19_lambda.Worker.Cache.Entries.{alloc-CacheInv, new_entry}

module _ {F : Type 0} (o : HitOps F) where
  -- A write to one server that the invariant does not see.
  pub update-CacheInv :
      (c : CacheManager F) (fs : ℕ) (s : ForkServer F)
      → Same (c.heap fs) s
      → (c.heap fs).hits ≡ s.hits
      → CacheInv o c
      → CacheInv o (record c { heap = update c.heap fs s })
  update-CacheInv c fs s same hits v =
      CacheInv-Same o c (record c { heap = update c.heap fs s }) refl refl refl
        (λ k. elim (Bool-cases (fs == k)) [
          | inl here ↦
              let e : fs ≡ k = ground (arith, here) in
              rw (here) (subst (λ x. Same (c.heap x) s) e same)
          | inr there ↦
              rw there (record { imports = refl; parent = refl; children = refl; size = refl })
        ])
        (λ n lt.
          let (k, w) = (v.each n lt).counted in
          elim (Bool-cases (fs == n)) [
            | inl here ↦
                let e : fs ≡ n = ground (arith, here) in
                (k, rw here (sym hits ∙ ap (λ x. (c.heap x).hits) e ∙ w))
            | inr there ↦ (k, rw there w)
          ])
        v

  -- A change of what the invariant does not read.
  pub flags-CacheInv :
      (c : CacheManager F) (locked full : Bool) (removed : List ℕ)
      → CacheInv o c
      → CacheInv o (record c { locked = locked; full = full; removed = removed })
  flags-CacheInv c locked full removed v = record {
    nonempty = v.nonempty;
    root = v.root;
    listed = v.listed;
    each = v.each;
  }

  dead-CacheInv :
      (c : CacheManager F) (fs : ℕ)
      → CacheInv o c
      → CacheInv o (record c { heap = mark_dead fs c.heap })
  dead-CacheInv c fs v =
      update-CacheInv c fs _
        (record { imports = refl; parent = refl; children = refl; size = refl }) refl v

  -- A server without a process is only marked.
  kill_new :
      (c : CacheManager F) (fs : ℕ)
      → atoi (c.heap fs).pid ≡ none
      → (kill fs c).0 ≡ record c { heap = mark_dead fs c.heap }
  unfolding kill
  kill_new c fs e = rw (e, kill) refl

  -- What an attempt to make an entry gives.
  pub record EntryInv (base : ℕ) (to_cache : List String) (c : CacheManager F)
      (r : CacheManager F × Entry) : Type 0 where
    pub inv : CacheInv o r.0
    pub is_new : (fs : ℕ) → r.1 ≡ made fs → fs ≡ c.next
    pub later : r.0.next ≡ suc c.next
    pub same_servers : r.0.servers ≡ c.servers
    pub same_seq : r.0.seq ≡ c.seq
    pub packages : (r.0.heap c.next).imports ≡ add_imports (c.heap base).imports to_cache
    pub one_child : (r.0.heap base).children ≡ (c.heap base).children +ℤ pos 1

  pub new_cache_entry-EntryInv :
      (a : EntryAnswers) (base : ℕ) (to_cache : List String) (c : CacheManager F)
      → base < c.next
      → CacheInv o c
      → EntryInv base to_cache c (new_cache_entry o a base to_cache c)
  unfolding new_cache_entry enter_server
  new_cache_entry-EntryInv a base to_cache c old v =
      let w = alloc-CacheInv o base to_cache c v old in
      let after = alloc o base to_cache c in
      elim (Option-cases a.created) [
        | inl none_made ↦
            let no_pid : atoi (after.heap c.next).pid ≡ none =
              unfold atoi in rw (new_entry o base to_cache c v old) refl in
            rw (none_made, new_cache_entry, kill_new after c.next no_pid)
              (record {
                inv = dead-CacheInv after c.next w;
                is_new = λ fs e. absurd (ground (arith, e));
                later = refl;
                same_servers = refl;
                same_seq = refl;
                packages = ground arith;
                one_child = ground arith;
              })
        | inr (container, one) ↦ elim (Bool-cases a.pipe_opened) [
          | inl opened ↦
              rw (one, opened, new_cache_entry, fork_request-first_process a.send_fds, enter_server)
                (record {
                  inv =
                      update-CacheInv after c.next _
                        (record { imports = refl; parent = refl; children = refl; size = refl })
                        refl w;
                  is_new = λ fs e. ground (arith, e);
                  later = refl;
                  same_servers = refl;
                  same_seq = refl;
                  packages = ground arith;
                  one_child = ground arith;
                })
          | inr shut ↦
              rw (one, shut, new_cache_entry)
                (record {
                  inv = w;
                  is_new = λ fs e. absurd (ground (arith, e));
                  later = refl;
                  same_servers = refl;
                  same_seq = refl;
                  packages = ground arith;
                  one_child = ground arith;
                })
        ]
      ]
