-- ===== src/Worker/Matcher/Chosen.antt =====
-- The server that `Match` chooses: the largest of those whose packages the lambda imports.
use s19_lambda.Base.{
  ℕ, zero, suc, ◌+◌, ◌≤◌, ◌≡◌, ◌⊎◌, refl, ap, sym, ◌∙◌, String, Bool, true, false, ◌&&◌, some, List,
  [], ◌∷◌, length, get_elem?, if◌then◌else◌, leb, arith, Bool-cases, inl, inr, subst,
}
use s19_lambda.Base.Int.{pos, negsuc, ltb_ℤ, leb_ℤ, eqb_ℤ}
use s19_lambda.Worker.Matcher.{matched_imports, Best, match_loop, first_best, match_servers}
use s19_lambda.Subsets.{is_distinct, is_inside}
use s19_lambda.Worker.Matcher.Counted.{
  lacked, matched_imports-lacked, matched_at_most, inside-matched, matched-inside,
}

-- What the loop has found, over servers from the index `i` on.
record Found (imports : List String) (servers : List (List String)) (i : ℕ) (before after : Best)
    : Type 0 where
  not_worse : leb_ℤ before.score after.score ≡ true
  best :
      (k : ℕ) (has : List String)
      → get_elem? servers k ≡ some has
      → length has ≤ (matched_imports has imports).0
      → leb_ℤ (pos (matched_imports has imports).0) after.score ≡ true
  from :
      (after ≡ before)
      ⊎ ((k : ℕ) × (has : List String) × (get_elem? servers k ≡ some has)
          × (after.fs ≡ i + k)
          × (after.score ≡ pos (matched_imports has imports).0)
          × (after.to_cache ≡ (matched_imports has imports).1)
          × (length has ≤ (matched_imports has imports).0))

module _ (imports has : List String) (servers : List (List String)) (i : ℕ)
    (before after : Best) where
  skip_best :
      (ltb_ℤ before.score (pos (matched_imports has imports).0)
          && leb (length has) (matched_imports has imports).0)
        ≡ false
      → Found imports servers (suc i) before after
      → (k : ℕ) (c : List String) → get_elem? (has ∷ servers) k ≡ some c
      → length c ≤ (matched_imports c imports).0
      → leb_ℤ (pos (matched_imports c imports).0) after.score ≡ true
  skip_best poor f zero c there fits =
      let e : has ≡ c = ground (arith, there) in
      let n : (matched_imports has imports).0 ≡ (matched_imports c imports).0 =
        ap (λ x. (matched_imports x imports).0) e in
      let l : length has ≡ length c = ap length e in ground (arith, poor, f.not_worse, n, l, fits)
  skip_best poor f (suc k) c there fits = f.best k c there fits

  skip-Found :
      (ltb_ℤ before.score (pos (matched_imports has imports).0)
          && leb (length has) (matched_imports has imports).0)
        ≡ false
      → Found imports servers (suc i) before after
      → Found imports (has ∷ servers) i before after
  skip-Found poor f = record {
    not_worse = f.not_worse;
    best = λ k c there fits. skip_best poor f k c there fits;
    from = elim f.from [
      | inl same ↦ inl same
      | inr (k, c, there, e, sc, tc, fit) ↦ inr (suc k, c, there, omega (arith, e), sc, tc, fit)
    ];
  }

  take_best :
      let (matched, to_cache) = matched_imports has imports in
      Found imports servers
        (suc i)
        (record { fs = i; score = pos matched; to_cache = to_cache })
        after
      → (k : ℕ) (c : List String) → get_elem? (has ∷ servers) k ≡ some c
      → length c ≤ (matched_imports c imports).0
      → leb_ℤ (pos (matched_imports c imports).0) after.score ≡ true
  take_best f zero c there fits =
      let e : has ≡ c = ground (arith, there) in
      subst (λ x. leb_ℤ (pos (matched_imports x imports).0) after.score ≡ true) e f.not_worse
  take_best f (suc k) c there fits = f.best k c there fits

  take-Found :
      ltb_ℤ before.score (pos (matched_imports has imports).0) ≡ true
      → length has ≤ (matched_imports has imports).0
      → let (matched, to_cache) = matched_imports has imports in
        Found imports servers
          (suc i)
          (record { fs = i; score = pos matched; to_cache = to_cache })
          after
        → Found imports (has ∷ servers) i before after
  take-Found more fits f = record {
    not_worse = ground (arith, more, f.not_worse);
    best = λ k c there within. take_best f k c there within;
    from = inr (elim f.from [
      | inl same ↦ (
        0,
        has,
        refl,
        ap (λ b. b.fs) same ∙ omega arith,
        ap (λ b. b.score) same,
        ap (λ b. b.to_cache) same,
        fits,
      )
      | inr (k, c, there, e, sc, tc, fit) ↦ (suc k, c, there, omega (arith, e), sc, tc, fit)
    ]);
  }

match_loop-Found :
    (imports : List String) (servers : List (List String)) (i : ℕ) (best : Best)
    → Found imports servers i best (match_loop imports servers i best)
unfolding match_loop
match_loop-Found imports [] i best = record {
  not_worse = ground arith;
  best = λ k has there fits. absurd (ground (arith, there));
  from = inl refl;
}
match_loop-Found imports (has ∷ servers) i best =
    let (matched, to_cache) = matched_imports has imports in
    let better = ltb_ℤ best.score (pos matched) && leb (length has) matched in
    elim (Bool-cases better) [
      | inl t ↦
          let rest =
            match_loop-Found imports servers (suc i)
              (record { fs = i; score = pos matched; to_cache = to_cache }) in
          rw (t, match_loop)
            (take-Found imports has servers i best _ (ground (arith, t)) (ground (arith, t)) rest)
      | inr u ↦
          rw (u, match_loop)
            (skip-Found imports has servers i best _ u
              (match_loop-Found imports servers (suc i) best))
    ]

module _ (imports : List String) (servers : List (List String))
    (distinct : is_distinct imports ≡ true) where
  abbrev found : Best
  found = match_loop imports servers 1 (first_best imports)

  found-Found : Found imports servers 1 (first_best imports) found
  found-Found = match_loop-Found imports servers 1 (first_best imports)

  abbrev is_hit : Bool
  is_hit = if eqb_ℤ found.score (negsuc 0) then false else true

  -- With a hit, the server is one after the first, the lambda imports all of its packages, and what is
  -- left to import are the others, in their order.
  hit_lem :
      is_hit ≡ true
      → (k : ℕ) × (has : List String) × (found.fs ≡ suc k)
        × (get_elem? servers k ≡ some has)
        × (is_inside has imports ≡ true)
        × (found.to_cache ≡ lacked has imports)
        × (found.score ≡ pos (matched_imports has imports).0)
  hit_lem h = elim found-Found.from [
    | inl same ↦ absurd (ground (arith, ap (λ b. b.score) same, h))
    | inr (k, has, there, at, score, to_cache, fits) ↦ (
      k,
      has,
      omega (arith, at),
      there,
      matched-inside has imports distinct fits,
      to_cache ∙ matched_imports-lacked has imports,
      score,
    )
  ]

  fit_lem :
      (j : ℕ) (c : List String)
      → get_elem? servers j ≡ some c
      → is_distinct c ≡ true
      → is_inside c imports ≡ true
      → (is_hit ≡ true) × (leb_ℤ (pos (length c)) found.score ≡ true)
  fit_lem j c there d inside =
      let fits = inside-matched c imports d inside in
      let above = found-Found.best j c there fits in
      (ground (arith, above), ground (arith, above, fits))

-- With a hit, the chosen server is one after the first, the lambda imports all of its packages, and
-- what is left to import are the others, in their order. The imports are to be distinct.
pub match_hit :
    (root : List String) (servers : List (List String)) (imports to_cache : List String) (fs : ℕ)
    → is_distinct imports ≡ true
    → match_servers (root ∷ servers) imports ≡ some (fs, to_cache, true)
    → (k : ℕ) × (has : List String) × (fs ≡ suc k)
      × (get_elem? servers k ≡ some has)
      × (is_inside has imports ≡ true)
      × (to_cache ≡ lacked has imports)
unfolding match_servers
match_hit root servers imports to_cache fs d e =
    let best = found imports servers d in
    let same_fs : best.fs ≡ fs = ground (arith, e) in
    let same_cache : best.to_cache ≡ to_cache = ground (arith, e) in
    let hit : is_hit imports servers d ≡ true = ground (arith, e) in
    let (k, has, at, there, inside, left, score) = hit_lem imports servers d hit in
    (k, has, sym same_fs ∙ at, there, inside, sym same_cache ∙ left)

-- Without a hit, the chosen server is the first one, and all the imports are left.
pub match_miss :
    (root : List String) (servers : List (List String)) (imports to_cache : List String) (fs : ℕ)
    → is_distinct imports ≡ true
    → match_servers (root ∷ servers) imports ≡ some (fs, to_cache, false)
    → (fs ≡ 0) × (to_cache ≡ imports)
unfolding match_servers
match_miss root servers imports to_cache fs d e =
    let best = found imports servers d in
    let same_fs : best.fs ≡ fs = ground (arith, e) in
    let same_cache : best.to_cache ≡ to_cache = ground (arith, e) in
    let miss : is_hit imports servers d ≡ false = ground (arith, e) in
    elim (found-Found imports servers d).from [
      | inl same ↦ (sym same_fs ∙ ap (λ b. b.fs) same, sym same_cache ∙ ap (λ b. b.to_cache) same)
      | inr (k, has, there, at, score, left, fits) ↦ absurd (ground (arith, score, miss))
    ]

-- Where some server after the first has only packages that the lambda imports, there is a hit, and the
-- chosen server has at least as many packages. The imports are to be distinct.
pub match_best :
    (root : List String) (servers : List (List String)) (imports to_cache c has : List String)
    (fs j : ℕ) (hit : Bool)
    → is_distinct imports ≡ true
    → match_servers (root ∷ servers) imports ≡ some (fs, to_cache, hit)
    → get_elem? servers j ≡ some c
    → is_distinct c ≡ true
    → is_inside c imports ≡ true
    → get_elem? (root ∷ servers) fs ≡ some has
    → (hit ≡ true) × (length c ≤ length has)
unfolding match_servers
match_best root servers imports to_cache c has fs j hit d e there dc inside chosen =
    let best = found imports servers d in
    let same_fs : best.fs ≡ fs = ground (arith, e) in
    let same_hit : is_hit imports servers d ≡ hit = ground (arith, e) in
    let (found_one, above) = fit_lem imports servers d j c there dc inside in
    let (k, owner, at, here, within, left, score) = hit_lem imports servers d found_one in
    let place : fs ≡ suc k = sym same_fs ∙ at in
    let found_here : get_elem? servers k ≡ some has =
      subst (λ x. get_elem? (root ∷ servers) x ≡ some has) place chosen in
    let one : owner ≡ has = ground (arith, here, found_here) in
    let most = matched_at_most owner imports d in
    let lengths : length owner ≡ length has = ap length one in
    (sym same_hit ∙ found_one, ground (arith, above, score, most, lengths))
