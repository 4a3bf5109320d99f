-- ===== src/Worker/Cache/Evictor.antt =====
-- The evictor of the import cache (worker/import-cache/evictor.go), and `Cleanup`. The goroutine that
-- kills a victim runs at once.
use s19_lambda.Base.{
  ℕ, suc, true, false, ◌&&◌, Option, none, some, List, [], ◌∷◌, get_elem?, remove_at, if◌then◌else◌,
}
use s19_lambda.Base.Int.{ℤ, pos, eqb_ℤ, ltb_ℤ}
use s19_lambda.Base.Digits.{atoi}
use s19_lambda.Worker.Cache.{HitOps, ForkServer, Heap, CacheManager, kill}

pub data Checked : Type 0 where
  evicted : ℕ → Checked
  no_victim below check_waits out_of_range no_usage : Checked

-- The usage in the text of the file, without its white space; 0 where it cannot be read.
unfoldable pub usage : Option (List ℕ) → Option ℤ
usage none = some (pos 0)
usage (some text) = atoi text

module _ {F : Type 0} (o : HitOps F) where
  abbrev pub ratio : ForkServer F → F
  ratio s = o.div s.hits s.size

  -- The loop over the servers from the index `k` on.
  unfoldable pub worst_loop : Heap F → List ℕ → ℕ → Option ℕ → F → Option ℕ
  worst_loop heap [] k idx worst = idx
  worst_loop heap (s ∷ servers) k idx worst =
      let better = eqb_ℤ (heap s).children (pos 0) && o.lt (ratio (heap s)) worst in
      worst_loop heap servers (suc k) (if better then some k else idx)
        (if better then ratio (heap s) else worst)

  -- The index of the victim; the root is none.
  unfoldable pub find_victim : Heap F → List ℕ → Option ℕ
  unfolding worst_loop
  find_victim heap [] = none
  find_victim heap (root ∷ servers) = worst_loop heap servers 1 none o.inf

  unfoldable pub evict : CacheManager F → CacheManager F × Checked
  unfolding find_victim
  evict c = elim (find_victim c.heap c.servers) [
    | none ↦ (c, no_victim)
    | some k ↦ elim (get_elem? c.servers k) [
      | none ↦ (c, out_of_range)
      | some victim ↦
          if (c.heap victim).locked
          then (record c { locked = true }, check_waits)
          else ((kill victim (record c { servers = remove_at c.servers k })).0, evicted victim)
    ]
  ]

  -- A text that is no number panics.
  unfoldable pub check_usage : ℤ → Option (List ℕ) → CacheManager F → CacheManager F × Checked
  unfolding usage evict
  check_usage limit text c = if c.locked then (c, check_waits) else elim (usage text) [
    | none ↦ (c, no_usage)
    | some bytes ↦
        if ltb_ℤ limit bytes
        then evict (record c { full = true })
        else (record c { full = false }, below)
  ]

module _ {F : Type 0} where
  unfoldable pub kill_all : List ℕ → CacheManager F → CacheManager F
  kill_all [] c = c
  kill_all (s ∷ servers) c = kill_all servers (kill s c).0

  -- `Cleanup`, before that of the factory.
  unfoldable pub cleanup : CacheManager F → CacheManager F
  unfolding kill_all
  cleanup c = kill_all c.servers c
