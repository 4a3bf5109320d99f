-- ===== src/Worker/Cache/Packages.antt =====
-- The packages of the fork server that a lambda is forked from.
use s19_lambda.Base.{
  ℕ, zero, suc, ◌<◌, ◌≡◌, refl, sym, ap, subst, String, Bool, true, not, ◌&&◌, ◌||◌, some, List, [],
  ◌∷◌, map, contains, get_elem?, Bool-cases, Option-cases, inl, inr, arith,
}
use s19_lambda.Worker.Matcher.{match_servers}
use s19_lambda.Subsets.{is_distinct, is_inside}
use s19_lambda.Worker.Matcher.Counted.{lacked, contains-lacked, inside_trans, contains-is_inside}
use s19_lambda.Worker.Matcher.Chosen.{match_hit, match_miss}
use s19_lambda.Worker.Cache.{
  HitOps, Heap, CacheManager, EntryAnswers, Entry, made, refused, fatal, add_imports,
  new_cache_entry,
}
use s19_lambda.Worker.Cache.Provision.{
  Claim, Begun, claimed, server_imports, not_empty, set_locked, enter, wait_in, grow, reuse, choose,
  provision_begin,
}
use s19_lambda.Worker.Cache.Invariant.{CacheInv}
use s19_lambda.Worker.Cache.Entries.{contains-add_imports}
use s19_lambda.Worker.Cache.Kept.{EntryInv, new_cache_entry-EntryInv}
use s19_lambda.Worker.Cache.Steps.{listed_old, provision_begin_locked, provision_begin_free}

-- Packages that are all asked for, and that make up what is asked for with those still to import.
abbrev pub Covers : List String → List String → List String → Type 0
Covers has to_cache imports =
    (is_inside has imports ≡ true)
    × ((s : String) → contains imports s ≡ true → (contains has s || contains to_cache s) ≡ true)

get_elem?-map :
    {A B : Type 0} (f : A → B) (l : List A) (k : ℕ) (x : A)
    → get_elem? l k ≡ some x
    → get_elem? (map f l) k ≡ some (f x)
get_elem?-map f [] k x e = absurd (ground (arith, e))
get_elem?-map f (y ∷ l) zero x e = let same : y ≡ x = ground (arith, e) in ap (λ z. some (f z)) same
get_elem?-map f (y ∷ l) (suc k) x e = get_elem?-map f l k x e

root-Covers : (imports : List String) → Covers [] imports imports
unfolding is_inside
root-Covers imports = (refl, λ s e. ground (arith, e))

hit-Covers :
    (has imports : List String)
    → is_inside has imports ≡ true
    → Covers has (lacked has imports) imports
hit-Covers has imports h = (h, λ s e. ground (arith, contains-lacked has imports s, e))

added-Covers :
    (has to_cache imports : List String)
    → ((s : String) → contains to_cache s ≡ true → contains imports s ≡ true)
    → Covers has to_cache imports
    → Covers (add_imports has to_cache) [] imports
unfolding contains
added-Covers has to_cache imports asked (inside, all) = (
  inside_trans _ imports (λ s e. ground (
    arith,
    contains-add_imports has to_cache s,
    asked s,
    contains-is_inside has imports s inside,
    e,
  )),
  λ s e. ground (arith, contains-add_imports has to_cache s, all s e),
)

-- The server at the place that the matcher names covers the imports with what is left.
match-Covers :
    {F : Type 0} (o : HitOps F) (c : CacheManager F) (imports to_cache : List String) (k fs : ℕ)
    (is_hit : Bool)
    → CacheInv o c
    → is_distinct imports ≡ true
    → match_servers (server_imports c) imports ≡ some (k, to_cache, is_hit)
    → get_elem? c.servers k ≡ some fs
    → Covers (c.heap fs).imports to_cache imports
      × ((s : String) → contains to_cache s ≡ true → contains imports s ≡ true)
match-Covers o c imports to_cache k fs is_hit v d e at =
    let (rest, s, _, _) = v.listed in
    let f : ℕ → List String = λ n. (c.heap n).imports in
    let matched : match_servers (f 0 ∷ map f rest) imports ≡ some (k, to_cache, is_hit) =
      subst (λ l. match_servers (map f l) imports ≡ some (k, to_cache, is_hit)) s e in
    let place : get_elem? (0 ∷ rest) k ≡ some fs = subst (λ l. get_elem? l k ≡ some fs) s at in
    elim (Bool-cases is_hit) [
      | inl hit ↦
          let (j, has, suc_j, there, inside, left) =
            match_hit (f 0) (map f rest) imports to_cache k d (rw (sym hit) matched) in
          let owner : get_elem? rest j ≡ some fs =
            subst (λ x. get_elem? (0 ∷ rest) x ≡ some fs) suc_j place in
          let same : f fs ≡ has = ground (arith, get_elem?-map f rest j fs owner, there) in
          rw (same, left)
            (hit-Covers has imports inside, λ s e. ground (arith, contains-lacked has imports s, e))
      | inr miss ↦
          let (zero_k, all) =
            match_miss (f 0) (map f rest) imports to_cache k d (rw (sym miss) matched) in
          let root : 0 ≡ fs =
            ground (arith, subst (λ x. get_elem? (0 ∷ rest) x ≡ some fs) zero_k place) in
          rw (sym root, v.root, all) (root-Covers imports, λ s e. e)
    ]

set_locked-imports :
    {F : Type 0} (fs n : ℕ) (b : Bool) (heap : Heap F)
    → (set_locked fs b heap n).imports ≡ (heap n).imports
set_locked-imports fs n b heap = ground arith

module _ {F : Type 0} (o : HitOps F) (imports : List String) where
  -- A claim on a server that covers the imports with what is sent to it.
  abbrev pub Serves : CacheManager F × Begun → Type 0
  Serves (c, begun) =
      (claim : Claim)
      → begun ≡ claimed claim
      → Covers (c.heap claim.fs).imports claim.to_cache imports

  reuse-Serves :
      (fs : ℕ) (to_cache : List String) (is_hit : Bool) (c : CacheManager F)
      → Covers (c.heap fs).imports to_cache imports
      → Serves (reuse fs to_cache is_hit c)
  unfolding reuse wait_in
  reuse-Serves fs to_cache is_hit c h claim e = elim (Bool-cases (c.heap fs).locked) [
    | inl held ↦ absurd (ground (arith, e, held))
    | inr free ↦
        let at : fs ≡ claim.fs = ground (arith, e, free) in
        let left : to_cache ≡ claim.to_cache = ground (arith, e, free) in
        rw (free, sym at, sym left, set_locked-imports fs fs true c.heap) h
  ]

  enter-Serves :
      (is_hit : Bool) (base : ℕ) (to_cache : List String) (c d : CacheManager F) (e : Entry)
      → EntryInv o base to_cache c (d, e)
      → Covers (add_imports (c.heap base).imports to_cache) [] imports
      → Serves (enter is_hit d e)
  unfolding enter
  enter-Serves is_hit base to_cache c d (made fs) v h claim z =
      let at : fs ≡ claim.fs = ground (arith, z) in
      let none_left : [] ≡ claim.to_cache = ground (arith, z) in
      rw (sym at, sym none_left, set_locked-imports fs fs true d.heap, v.is_new fs refl, v.packages)
        h
  enter-Serves is_hit base to_cache c d refused v h claim z = absurd (ground (arith, z))
  enter-Serves is_hit base to_cache c d fatal v h claim z = absurd (ground (arith, z))

  grow-Serves :
      (a : EntryAnswers) (base : ℕ) (to_cache : List String) (is_hit : Bool) (c : CacheManager F)
      → CacheInv o c
      → base < c.next
      → Covers (add_imports (c.heap base).imports to_cache) [] imports
      → Serves (grow o a base to_cache is_hit c)
  unfolding grow wait_in
  grow-Serves a base to_cache is_hit c v old h = elim (Bool-cases (c.heap base).locked) [
    | inl held ↦ rw held (λ claim e. absurd (ground (arith, e)))
    | inr free ↦
        let r = new_cache_entry o a base to_cache c in
        rw free (
          enter-Serves is_hit base to_cache c r.0 r.1
            (new_cache_entry-EntryInv o a base to_cache c old v) h)
  ]

  choose-Serves :
      (a : EntryAnswers) (fs : ℕ) (to_cache : List String) (is_hit : Bool) (c : CacheManager F)
      → CacheInv o c
      → fs < c.next
      → Covers (c.heap fs).imports to_cache imports
      → ((s : String) → contains to_cache s ≡ true → contains imports s ≡ true)
      → Serves (choose o a fs to_cache is_hit c)
  unfolding choose
  choose-Serves a fs to_cache is_hit c v old h asked =
      elim (Bool-cases (not_empty to_cache && not c.full)) [
        | inl more ↦
            rw more
              (grow-Serves a fs to_cache is_hit c v old (added-Covers _ to_cache imports asked h))
        | inr same ↦ rw same (reuse-Serves fs to_cache is_hit c h)
      ]

-- The server that a call of `Provision` claims has imported only packages that the lambda imports, and
-- each of the lambda's imports is one of them or is sent to it with the fork. The cache is to satisfy its
-- invariant, and the imports are to be distinct.
pub provision_begin-Covers :
    {F : Type 0} (o : HitOps F) (a : EntryAnswers) (imports : List String) (c : CacheManager F)
    (claim : Claim)
    → CacheInv o c
    → is_distinct imports ≡ true
    → (provision_begin o a imports c).1 ≡ claimed claim
    → Covers (((provision_begin o a imports c).0.heap claim.fs).imports) claim.to_cache imports
provision_begin-Covers o a imports c claim v d = elim (Bool-cases c.locked) [
  | inl held ↦ rw (provision_begin_locked o a imports c held) (λ e. absurd (ground (arith, e)))
  | inr free ↦
      rw (provision_begin_free o a imports c free)
        (elim (Option-cases (match_servers (server_imports c) imports)) [
          | inl unmatched ↦ rw unmatched (λ e. absurd (ground (arith, e)))
          | inr ((k, to_cache, is_hit), chosen) ↦ elim (Option-cases (get_elem? c.servers k)) [
            | inl out ↦ rw (chosen, out) (λ e. absurd (ground (arith, e)))
            | inr (fs, at) ↦
                let (covers, asked) = match-Covers o c imports to_cache k fs is_hit v d chosen at in
                rw (chosen, at)
                  (choose-Serves o imports a fs to_cache is_hit c v (listed_old o c k fs v at)
                    covers asked claim)
          ]
        ])
]
