-- ===== src/Worker/Cache/Provision.antt =====
-- `Provision` (worker/import-cache/cacheManager.go), in the two parts that other calls can come between:
-- up to the unlocking of the manager's mutex, and from there on with the server's mutex held.
use s19_lambda.Base.{
  ℕ, suc, String, Bool, true, false, not, ◌&&◌, Option, none, some, List, [], ◌∷◌, ◌++◌, map,
  update, if◌then◌else◌, get_elem?,
}
use s19_lambda.Worker.Cache.{
  HitOps, Heap, CacheManager, EntryAnswers, Entry, made, refused, fatal, new_cache_entry, hit,
}
use s19_lambda.Worker.ForkRequest.{fork_request}
use s19_lambda.Worker.Matcher.{match_servers}

-- What a call holds between the two parts: the mutex of `fs`. `is_new` says that `fs` is to become ready.
pub record Claim : Type 0 where
  pub fs : ℕ
  pub to_cache : List String
  pub is_new : Bool
  pub is_hit : Bool

pub data Begun : Type 0 where
  claimed : Claim → Begun
  begin_failed panicked exited begin_waits : Begun

abbrev pub not_empty : List String → Bool
not_empty [] = false
not_empty (x ∷ xs) = true

abbrev pub set_locked : {F : Type 0} → ℕ → Bool → Heap F → Heap F
set_locked fs b heap = update heap fs (record (heap fs) { locked = b })

abbrev pub server_imports : {F : Type 0} → CacheManager F → List (List String)
server_imports c = map (λ s. (c.heap s).imports) c.servers

module _ {F : Type 0} where
  -- The new entry joins the servers.
  unfoldable pub enter : Bool → CacheManager F → Entry → CacheManager F × Begun
  enter is_hit c (made fs) = (
    record c { heap = set_locked fs true c.heap; servers = c.servers ++ fs ∷ []; seq = suc c.seq },
    claimed (record { fs = fs; to_cache = []; is_new = true; is_hit = is_hit }),
  )
  enter is_hit c refused = (c, begin_failed)
  enter is_hit c fatal = (c, exited)

  -- A call that waits for a server's mutex has the manager's in its hands.
  unfoldable pub wait_in : CacheManager F → CacheManager F × Begun
  wait_in c = (record c { locked = true }, begin_waits)

  unfoldable pub reuse : ℕ → List String → Bool → CacheManager F → CacheManager F × Begun
  unfolding wait_in
  reuse fs to_cache is_hit c = if (c.heap fs).locked then wait_in c else (
    record c { heap = set_locked fs true c.heap },
    claimed (record { fs = fs; to_cache = to_cache; is_new = false; is_hit = is_hit }),
  )

module _ {F : Type 0} (o : HitOps F) where
  unfoldable pub grow :
      EntryAnswers → ℕ → List String → Bool → CacheManager F → CacheManager F × Begun
  unfolding enter wait_in
  grow a base to_cache is_hit c =
      let (c', entry) = new_cache_entry o a base to_cache c in
      if (c.heap base).locked then wait_in c else enter is_hit c' entry

  unfoldable pub choose :
      EntryAnswers → ℕ → List String → Bool → CacheManager F → CacheManager F × Begun
  unfolding grow reuse
  choose a fs to_cache is_hit c =
      if not_empty to_cache && not c.full
      then grow a fs to_cache is_hit c
      else reuse fs to_cache is_hit c

  -- The first part. An index out of range panics with the mutex held.
  unfoldable pub provision_begin :
      EntryAnswers → List String → CacheManager F → CacheManager F × Begun
  unfolding choose
  provision_begin a imports c =
      if c.locked then (c, begin_waits) else elim (match_servers (server_imports c) imports) [
        | none ↦ (record c { locked = true }, panicked)
        | some (k, to_cache, is_hit) ↦ elim (get_elem? c.servers k) [
          | none ↦ (record c { locked = true }, panicked)
          | some fs ↦ choose a fs to_cache is_hit c
        ]
      ]

-- What is answered in the second part: has the new entry said that it is ready within its five
-- seconds, the calls of `sendFds`, and whether the process enters the control group.
pub record EndAnswers : Type 0 where
  pub ready : Bool
  pub send_fds : ℕ → Option (List ℕ)
  pub enters : List ℕ → Bool

pub data Ended : Type 0 where
  provisioned : ℕ → Bool → Ended
  end_failed endless : Ended

module _ {F : Type 0} (o : HitOps F) where
  -- From the fork request on, with the hits counted.
  unfoldable pub fork_handler :
      EndAnswers → Claim → CacheManager F → Heap F → CacheManager F × Ended
  fork_handler a claim c heap =
      let (pid, ok) = fork_request a.send_fds in
      let c' = record c { heap = set_locked claim.fs false heap } in
      if ok && a.enters pid then (c', provisioned claim.fs claim.is_hit) else (c', end_failed)

  -- The second part.
  unfoldable pub provision_end : EndAnswers → Claim → CacheManager F → CacheManager F × Ended
  unfolding fork_handler
  provision_end a claim c =
      if claim.is_new && not a.ready
      then (c, end_failed)
      else elim (hit o claim.fs c) [ none ↦ (c, endless) | some heap ↦ fork_handler a claim c heap ]
