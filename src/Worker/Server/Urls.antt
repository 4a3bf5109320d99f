-- ===== src/Worker/Server/Urls.antt =====
-- The parts of a request's path.
use s19_lambda.Base.{
  ℕ, ◌≡◌, refl, ap, ◌∙◌, Bool, true, false, not, ◌&&◌, List, [], ◌∷◌, ◌++◌, ◌==◌, All, arith,
  Bool-cases, inl, inr,
}
use s19_lambda.Worker.Server.{slash, split, trim_prefix, trim_suffix, get_url_components}

-- The parts with a separator between them.
unfoldable pub join : ℕ → List (List ℕ) → List ℕ
join sep [] = []
join sep (part ∷ []) = part
join sep (part ∷ q ∷ parts) = part ++ sep ∷ join sep (q ∷ parts)

unfoldable pub has_none : ℕ → List ℕ → Bool
has_none sep [] = true
has_none sep (c ∷ cs) = not (c == sep) && has_none sep cs

split_cons :
    (sep : ℕ) (path : List ℕ) → (p : List ℕ) × (ps : List (List ℕ)) × (split sep path ≡ p ∷ ps)
unfolding split
split_cons sep [] = ([], [], refl)
split_cons sep (c ∷ cs) =
    let (p, ps, e) = split_cons sep cs in
    elim (Bool-cases (c == sep)) [
      | inl t ↦ ([], p ∷ ps, rw (e, t, split) refl)
      | inr u ↦ (c ∷ p, ps, rw (e, u, split) refl)
    ]

split-part : (sep : ℕ) (part : List ℕ) → has_none sep part ≡ true → split sep part ≡ part ∷ []
unfolding split has_none
split-part sep [] h = refl
split-part sep (c ∷ cs) h =
    let other : (c == sep) ≡ false = ground (arith, h) in
    rw (split-part sep cs (ground (arith, h)), split, other) refl

pub split-append :
    (sep : ℕ) (part rest : List ℕ)
    → has_none sep part ≡ true
    → split sep (part ++ sep ∷ rest) ≡ part ∷ split sep rest
unfolding split has_none
split-append sep [] rest h =
    let same : (sep == sep) ≡ true = ground arith in
    let (p, ps, e) = split_cons sep rest in rw (e, same, split) refl
split-append sep (c ∷ cs) rest h =
    let other : (c == sep) ≡ false = ground (arith, h) in
    rw (split-append sep cs rest (ground (arith, h)), split, other) refl

pub split-join :
    (sep : ℕ) (part : List ℕ) (parts : List (List ℕ))
    → All (λ p. has_none sep p ≡ true) (part ∷ parts)
    → split sep (join sep (part ∷ parts)) ≡ part ∷ parts
unfolding join
split-join sep part [] (h, _) = split-part sep part h
split-join sep part (q ∷ parts) (h, more) =
    split-append sep part (join sep (q ∷ parts)) h
    ∙ ap (λ l. part ∷ l) (split-join sep q parts more)

trim_suffix-append : (path : List ℕ) → trim_suffix (path ++ slash ∷ []) ≡ path
unfolding trim_suffix
trim_suffix-append [] = refl
trim_suffix-append (c ∷ []) = refl
trim_suffix-append (c ∷ d ∷ cs) = ap (λ l. c ∷ l) (trim_suffix-append (d ∷ cs))

-- The parts of a path are the names that it was put together from, with a slash before the first,
-- between them and after the last, where no name has a slash of its own.
pub get_url_components-join :
    (part : List ℕ) (parts : List (List ℕ))
    → All (λ p. has_none slash p ≡ true) (part ∷ parts)
    → get_url_components (slash ∷ (join slash (part ∷ parts) ++ slash ∷ [])) ≡ part ∷ parts
unfolding get_url_components trim_prefix
get_url_components-join part parts h =
    rw (trim_suffix-append (join slash (part ∷ parts))) (split-join slash part parts h)
