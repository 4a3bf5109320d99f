-- ===== src/Worker/Cache/Wedge.antt =====
-- An entry of the import cache that does not become ready.
use s19_lambda.Base.{
  ℕ, ◌≡◌, refl, ap, ◌∙◌, String, Bool, true, false, not, ◌&&◌, Option, some, List, get_elem?,
  Bool-cases, inl, inr,
}
use s19_lambda.Base.Int.{ℤ}
use s19_lambda.Worker.Matcher.{match_servers}
use s19_lambda.Worker.Cache.{HitOps, CacheManager, EntryAnswers}
use s19_lambda.Worker.Cache.Provision.{
  Claim, begin_waits, wait_in, grow, reuse, choose, not_empty, server_imports, provision_begin,
  EndAnswers, end_failed, provision_end,
}
use s19_lambda.Worker.Cache.Evictor.{check_waits, check_usage}
use s19_lambda.Worker.Cache.Steps.{provision_begin_locked, provision_begin_free}
use s19_lambda.Worker.Cache.Runs.{check_usage_locked}

module _ {F : Type 0} (o : HitOps F) where
  choose_held :
      (a : EntryAnswers) (fs : ℕ) (to_cache : List String) (is_hit : Bool) (c : CacheManager F)
      → (c.heap fs).locked ≡ true
      → choose o a fs to_cache is_hit c ≡ (record c { locked = true }, begin_waits)
  unfolding choose grow reuse wait_in
  choose_held a fs to_cache is_hit c held = elim (Bool-cases (not_empty to_cache && not c.full)) [
    | inl more ↦ rw (more, held) refl
    | inr same ↦ rw (same, held) refl
  ]

  late_entry :
      (a : EndAnswers) (claim : Claim) (c : CacheManager F)
      → claim.is_new ≡ true
      → a.ready ≡ false
      → provision_end o a claim c ≡ (c, end_failed)
  unfolding provision_end
  late_entry a claim c new late = rw (new, late) refl

  -- A new entry that is not ready in time keeps its mutex: the call that made it fails without unlocking
  -- it. The next call of `Provision` that the matcher sends to this entry waits for it with the manager's
  -- mutex in its hands, and from then on every call of `Provision` waits, for every lambda, and so does
  -- the evictor.
  pub late_entry_wedges :
      (a : EndAnswers) (claim : Claim) (c : CacheManager F) (b d : EntryAnswers)
      (imports others to_cache : List String) (k : ℕ) (is_hit : Bool) (limit : ℤ)
      (text : Option (List ℕ))
      → claim.is_new ≡ true
      → a.ready ≡ false
      → (c.heap claim.fs).locked ≡ true
      → c.locked ≡ false
      → match_servers (server_imports c) imports ≡ some (k, to_cache, is_hit)
      → get_elem? c.servers k ≡ some claim.fs
      → let c₁ = (provision_end o a claim c).0 in
        let c₂ = (provision_begin o b imports c₁).0 in
        ((provision_end o a claim c).1 ≡ end_failed)
        × ((provision_begin o b imports c₁).1 ≡ begin_waits)
        × (provision_begin o d others c₂ ≡ (c₂, begin_waits))
        × (check_usage o limit text c₂ ≡ (c₂, check_waits))
  late_entry_wedges a claim c b d imports others to_cache k is_hit limit text new late held free
        chosen at =
      let ended = late_entry a claim c new late in
      let c₁ = (provision_end o a claim c).0 in
      let same : c₁ ≡ c = ap (λ r. r.0) ended in
      let waits : provision_begin o b imports c ≡ (record c { locked = true }, begin_waits) =
        provision_begin_free o b imports c free
        ∙ rw (chosen, at) (choose_held b claim.fs to_cache is_hit c held) in
      rw (ended, waits)
        (
          refl,
          refl,
          provision_begin_locked o d others (record c { locked = true }) refl,
          check_usage_locked o limit text (record c { locked = true }) refl,
        )
