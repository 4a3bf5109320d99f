-- ===== src/Worker/Cache/Tests.antt =====
-- The import cache at concrete inputs. Natural numbers, infinity and "no number" stand for `float64`.
use s19_lambda.Base.{
  ℕ, zero, suc, ◌+◌, ◌/◌, ◌≡◌, ◌≢◌, refl, ap, String, Bool, true, false, none, some, List, [], ◌∷◌,
  contains, ltb, if◌then◌else◌, arith,
}
use s19_lambda.Base.Int.{pos, ◌+ℤ◌, ◌-ℤ◌}
use s19_lambda.Base.Digits.{atoi}
use s19_lambda.Worker.Matcher.{match_servers, match_loop, matched_imports}
use s19_lambda.Subsets.{is_distinct, is_inside}
use s19_lambda.Worker.ForkRequest.{fork_request, fork_loop}
use s19_lambda.Worker.ForkRequest.Replies.{first_process, fork_request-first_process}
use s19_lambda.Worker.Cache.{
  HitOps, Heap, CacheManager, EntryAnswers, made, add_imports, init_cache, add_hit, hit, hit_loop,
  kill, enter_server, new_cache_entry,
}
use s19_lambda.Worker.Cache.Provision.{
  Claim, claimed, begin_waits, enter, wait_in, grow, reuse, choose, provision_begin, EndAnswers,
  end_failed, fork_handler, provision_end,
}
use s19_lambda.Worker.Cache.Evictor.{
  check_waits, evicted, worst_loop, find_victim, evict, usage, check_usage,
}
use s19_lambda.Worker.Cache.Invariant.{CacheInv, hits_of, init_cache-CacheInv}
use s19_lambda.Worker.Cache.Hits.{is_above, hit_counts}
use s19_lambda.Worker.Cache.Runs.{
  Reach, here, next, begins, Unbounded, start, reachable-CacheInv, reachable_no_eviction,
}
use s19_lambda.Worker.Cache.Packages.{Covers, provision_begin-Covers}
use s19_lambda.Worker.Cache.Wedge.{late_entry_wedges}
use s19_lambda.Worker.Cache.Outcomes.{new_cache_entry_outcomes}

data Extended : Type 0 where
  finite : ℕ → Extended
  infinite undefined : Extended

abbrev add_extended : Extended → Extended → Extended
add_extended (finite a) (finite b) = finite (a + b)
add_extended (finite a) infinite = infinite
add_extended (finite a) undefined = undefined
add_extended infinite (finite b) = infinite
add_extended infinite infinite = infinite
add_extended infinite undefined = undefined
add_extended undefined b = undefined

abbrev div_extended : Extended → Extended → Extended
div_extended (finite zero) (finite zero) = undefined
div_extended (finite (suc a)) (finite zero) = infinite
div_extended (finite a) (finite (suc b)) = finite (a / suc b)
div_extended (finite a) infinite = finite 0
div_extended (finite a) undefined = undefined
div_extended infinite (finite b) = infinite
div_extended infinite infinite = undefined
div_extended infinite undefined = undefined
div_extended undefined b = undefined

abbrev lt_extended : Extended → Extended → Bool
lt_extended (finite a) (finite b) = ltb a b
lt_extended (finite a) infinite = true
lt_extended (finite a) undefined = false
lt_extended infinite b = false
lt_extended undefined b = false

abbrev extended : HitOps Extended
extended = record {
  zero = finite 0;
  one = finite 1;
  inf = infinite;
  add = add_extended;
  div = div_extended;
  lt = lt_extended;
}

hits_finite : (k : ℕ) → (n : ℕ) × (hits_of extended k ≡ finite n)
unfolding hits_of
hits_finite zero = (0, refl)
hits_finite (suc k) = let (n, e) = hits_finite k in (n + 1, ap (λ x. add_extended x (finite 1)) e)

never_below : (n : ℕ) → lt_extended (div_extended (finite n) (finite 0)) infinite ≡ false
never_below zero = refl
never_below (suc n) = refl

extended-Unbounded : Unbounded extended
extended-Unbounded k = let (n, e) = hits_finite k in rw e (never_below n)

abbrev answers : EntryAnswers
answers = record { created = some 7; pipe_opened = true; send_fds = λ k. some (52 ∷ 50 ∷ []) }

abbrev in_time : EndAnswers
in_time = record { ready = true; send_fds = λ k. some (52 ∷ 51 ∷ []); enters = λ pid. true }

abbrev root_only : CacheManager Extended
root_only = init_cache extended 1 (49 ∷ [])

abbrev asked : List String
asked = "numpy" ∷ "scipy" ∷ []

abbrev first_claim : Claim
first_claim = record { fs = 1; to_cache = []; is_new = true; is_hit = false }

abbrev one_entry : CacheManager Extended
one_entry = (provision_begin extended answers asked root_only).0

-- Opens the code of the cache.
opened : Unit {0}
unfolding init_cache provision_begin choose grow reuse enter wait_in new_cache_entry enter_server
    kill add_imports contains match_servers match_loop matched_imports fork_request fork_loop
    provision_end fork_handler hit hit_loop check_usage evict find_victim worst_loop usage atoi
    is_distinct is_inside is_above first_process ◌+ℤ◌ ◌-ℤ◌
opened = tt

fork_request_test : fork_request (λ k. if ltb k 2 then none else some (52 ∷ [])) ≡ (52 ∷ [], true)
unfolding opened
fork_request_test = refl

first_claim_test : (provision_begin extended answers asked root_only).1 ≡ claimed first_claim
unfolding opened
first_claim_test = refl

one_entry-Reach :
    Reach extended
      (start extended 1 (49 ∷ []))
      (record { cache = one_entry; claims = first_claim ∷ [] })
unfolding opened
one_entry-Reach = next here (begins answers asked (λ e. absurd (ground (arith, e))))

reachable-CacheInv_example : CacheInv extended one_entry
reachable-CacheInv_example =
    reachable-CacheInv extended extended-Unbounded 1 (49 ∷ []) one_entry-Reach

one_entry-CacheInv : CacheInv extended one_entry
one_entry-CacheInv = reachable-CacheInv extended extended-Unbounded 1 (49 ∷ []) one_entry-Reach

reachable_no_eviction_example :
    ((check_usage extended (pos 10) (some (57 ∷ 57 ∷ [])) one_entry).0.servers ≡ one_entry.servers)
    × ((check_usage extended (pos 10) (some (57 ∷ 57 ∷ [])) one_entry).0.removed ≡ [])
    × ((v : ℕ) → (check_usage extended (pos 10) (some (57 ∷ 57 ∷ [])) one_entry).1 ≢ evicted v)
unfolding opened
reachable_no_eviction_example =
    reachable_no_eviction extended extended-Unbounded 1 (49 ∷ []) (pos 10) (some (57 ∷ 57 ∷ []))
      one_entry-Reach

hit_counts_example :
    (h : Heap Extended) × (hit extended 1 one_entry ≡ some h)
    × ((n : ℕ)
        → h n ≡ (
            if is_above one_entry.next one_entry.heap n (some 1)
            then add_hit extended (one_entry.heap n)
            else one_entry.heap n))
unfolding opened
hit_counts_example = hit_counts extended one_entry 1 one_entry-CacheInv (omega arith)

provision_begin-Covers_example : Covers (one_entry.heap 1).imports [] asked
unfolding opened
provision_begin-Covers_example =
    provision_begin-Covers extended answers asked root_only first_claim
      (init_cache-CacheInv extended 1 (49 ∷ [])) refl refl

abbrev too_late : EndAnswers
too_late = record { ready = false; send_fds = λ k. none; enters = λ pid. true }

late_entry_wedges_example :
    let c = (provision_end extended too_late first_claim one_entry).0 in
    let stopped = (provision_begin extended answers asked c).0 in
    ((provision_end extended too_late first_claim one_entry).1 ≡ end_failed)
    × ((provision_begin extended answers asked c).1 ≡ begin_waits)
    × (provision_begin extended answers ("flask" ∷ []) stopped ≡ (stopped, begin_waits))
    × (check_usage extended (pos 10) none stopped ≡ (stopped, check_waits))
unfolding opened
late_entry_wedges_example =
    late_entry_wedges extended too_late first_claim one_entry answers answers asked ("flask" ∷ [])
      [] 1 true (pos 10) none refl refl refl refl refl refl

abbrev no_fork : EntryAnswers
no_fork = record { created = some 7; pipe_opened = true; send_fds = λ k. none }

new_cache_entry_outcomes_example :
    let (d, entry) = new_cache_entry extended no_fork 0 asked root_only in
    (entry ≡ made 1)
    × ((fs : ℕ) → entry ≡ made fs → (d.heap fs).pid ≡ [])
    × ((d.heap 0).children ≡ pos 1)
    × (d.servers ≡ 0 ∷ [])
unfolding opened
new_cache_entry_outcomes_example =
    new_cache_entry_outcomes extended no_fork 0 asked root_only (omega arith)
      (init_cache-CacheInv extended 1 (49 ∷ []))

fork_request-first_process_example :
    fork_request (λ k. if ltb k 2 then none else some (52 ∷ [])) ≡ (52 ∷ [], true)
unfolding opened
fork_request-first_process_example =
    fork_request-first_process (λ k. if ltb k 2 then none else some (52 ∷ []))
