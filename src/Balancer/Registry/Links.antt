-- ===== src/Balancer/Registry/Links.antt =====
-- The loop of `push` that adds the edges.
use text.Mathlib.TextPositions.{eq_refl as str_eq_refl}
use s19_lambda.Base.{
  subst, ℕ, ◌≡◌, ◌≢◌, refl, ap, sym, ◌∙◌, String, some, List, [], ◌∷◌, ◌++◌, get_elem?, update_str,
  get_elem?-append_left, append_assoc, append-nil, str_eq, eq_iff, All, All-map, occurrences,
  replicate, arith, Option-cases, Bool-cases, inl, inr,
}
use s19_lambda.Balancer.Registry.{MetaRegistry, first, link, link_all, names_at, names_after}

names_at-cons :
    (names : List String) (j : ℕ) (is : List ℕ) (l : List String)
    → names_at names (j ∷ is) ≡ some l
    → (n : String) × (ns : List String) × (get_elem? names j ≡ some n)
      × (names_at names is ≡ some ns)
      × (l ≡ n ∷ ns)
unfolding names_at
names_at-cons names j is l e = elim (Option-cases (get_elem? names j)) [
  | inl none_here ↦ absurd (ground arith)
  | inr (n, here) ↦ elim (Option-cases (names_at names is)) [
    | inl none_there ↦ absurd (ground arith)
    | inr (ns, there) ↦ (n, ns, here, there, ground arith)
  ]
]

-- The names at more indices.
pub names_at-append :
    (names : List String) (is : List ℕ) (i : ℕ) (n : String) (l : List String)
    → names_at names is ≡ some l
    → get_elem? names i ≡ some n
    → names_at names (is ++ i ∷ []) ≡ some (l ++ n ∷ [])
unfolding names_at
names_at-append names [] i n l e g = ground arith
names_at-append names (j ∷ is) i n l e g =
    let (m, ns, here, there, split) = names_at-cons names j is l e in
    rw (here, names_at-append names is i n ns there g, split) refl

pub names_after-append :
    (names : List String) (is : List ℕ) (i d : ℕ) (n : String) (l : List String)
    → first is ≡ some d
    → names_after names is ≡ some l
    → get_elem? names i ≡ some n
    → names_after names (is ++ i ∷ []) ≡ some (l ++ n ∷ [])
names_after-append names [] i d n l f e g = cc
names_after-append names (j ∷ is) i d n l f e g = names_at-append names is i n l e g

-- A longer table of names gives the same names.
pub names_at-grow :
    (names more : List String) (is : List ℕ) (l : List String)
    → names_at names is ≡ some l
    → names_at (names ++ more) is ≡ some l
unfolding names_at
names_at-grow names more [] l e = e
names_at-grow names more (i ∷ is) l e =
    let (m, ns, here, there, split) = names_at-cons names i is l e in
    rw (get_elem?-append_left names more i m here, names_at-grow names more is ns there, split) refl

pub first-append : (is : List ℕ) (i d : ℕ) → first is ≡ some d → first (is ++ i ∷ []) ≡ some d
first-append [] i d e = cc
first-append (j ∷ is) i d e = e

-- An index more at a key that has some leaves every first index.
first-update_str :
    (f : String → List ℕ) (p q : String) (i d : ℕ)
    → first (f p) ≡ some d
    → first (update_str f p (f p ++ i ∷ []) q) ≡ first (f q)
first-update_str f p q i d e = elim (Bool-cases (str_eq p q)) [
  | inl t ↦ rw t (first-append (f p) i d e ∙ sym e ∙ ap (λ x. first (f x)) ((eq_iff p q).0 t))
  | inr u ↦ rw u refl
]

-- The registry with one edge more.
abbrev pub linked : String → String → ℕ → ℕ → MetaRegistry → MetaRegistry
linked h p d k mr = record mr {
  dep_map = update_str mr.dep_map h (mr.dep_map h ++ d ∷ []);
  pckg_lut = update_str mr.pckg_lut p (mr.pckg_lut p ++ k ∷ []);
}

link-linked :
    (h p : String) (d k : ℕ) (mr : MetaRegistry)
    → first (mr.pckg_lut p) ≡ some d
    → first (mr.dep_map h) ≡ some k
    → link h p mr ≡ some (linked h p d k mr)
unfolding link
link-linked h p d k mr a b = rw (a, first-append (mr.dep_map h) d k b)

-- What a number of edges, from `h` to each of `ps`, have made of the registry.
pub record LinkedTo (h : String) (ps : List String) (mr : MetaRegistry) (mr' : MetaRegistry)
    : Type 0 where
  pub dep_names : mr'.dep_names ≡ mr.dep_names
  pub handler_names : mr'.handler_names ≡ mr.handler_names
  pub cur_did : mr'.cur_did ≡ mr.cur_did
  pub cur_hid : mr'.cur_hid ≡ mr.cur_hid
  pub package_ids : (q : String) → first (mr'.pckg_lut q) ≡ first (mr.pckg_lut q)
  pub handler_ids : (g : String) → first (mr'.dep_map g) ≡ first (mr.dep_map g)
  pub others : (g : String) → g ≢ h → mr'.dep_map g ≡ mr.dep_map g
  pub deps :
      (l : List String)
      → names_after mr.dep_names (mr.dep_map h) ≡ some l
      → names_after mr.dep_names (mr'.dep_map h) ≡ some (l ++ ps)
  pub used :
      (q : String) (l : List String)
      → names_after mr.handler_names (mr.pckg_lut q) ≡ some l
      → names_after mr.handler_names (mr'.pckg_lut q) ≡ some (l ++ replicate (occurrences q ps) h)

-- What an edge needs: both ends have a node of their own name.
abbrev pub HasPackage : MetaRegistry → String → Type 0
HasPackage mr p = (d : ℕ) × (first (mr.pckg_lut p) ≡ some d) × (get_elem? mr.dep_names d ≡ some p)

abbrev pub HasHandler : MetaRegistry → String → Type 0
HasHandler mr h =
    (k : ℕ) × (first (mr.dep_map h) ≡ some k) × (get_elem? mr.handler_names k ≡ some h)

nothing-LinkedTo : (h : String) (mr : MetaRegistry) → LinkedTo h [] mr mr
unfolding occurrences
nothing-LinkedTo h mr = record {
  dep_names = refl;
  handler_names = refl;
  cur_did = refl;
  cur_hid = refl;
  package_ids = λ q. refl;
  handler_ids = λ g. refl;
  others = λ g ne. refl;
  deps = λ l e. e ∙ ap some (sym (append-nil l));
  used = λ q l e. e ∙ ap some (sym (append-nil l));
}

module _ (h p : String) (ps : List String) (d k : ℕ) (mr mr' : MetaRegistry)
    (pkg_id : first (mr.pckg_lut p) ≡ some d) (pkg_name : get_elem? mr.dep_names d ≡ some p)
    (hnd_id : first (mr.dep_map h) ≡ some k) (hnd_name : get_elem? mr.handler_names k ≡ some h)
    (rest : LinkedTo h ps (linked h p d k mr) mr') where
  more-LinkedTo : LinkedTo h (p ∷ ps) mr mr'
  unfolding occurrences
  more-LinkedTo = record {
    dep_names = rest.dep_names;
    handler_names = rest.handler_names;
    cur_did = rest.cur_did;
    cur_hid = rest.cur_hid;
    package_ids = λ q. rest.package_ids q ∙ first-update_str mr.pckg_lut p q k d pkg_id;
    handler_ids = λ g. rest.handler_ids g ∙ first-update_str mr.dep_map h g d k hnd_id;
    others = λ g ne. ground (arith, rest.others g, eq_iff h g);
    deps = λ l e.
        rest.deps (l ++ p ∷ []) (
          rw (str_eq_refl h)
            (names_after-append mr.dep_names (mr.dep_map h) d k p l hnd_id e pkg_name))
        ∙ ap some (append_assoc l (p ∷ []) ps);
    used = λ q l e. elim (Bool-cases (str_eq p q)) [
      | inl t ↦
          let same : p ≡ q = (eq_iff p q).0 t in
          let before : names_after mr.handler_names (mr.pckg_lut p) ≡ some l =
            subst (λ x. names_after mr.handler_names (mr.pckg_lut x) ≡ some l) (sym same) e in
          rw t (
            rest.used q (l ++ h ∷ []) (
              rw t (
                names_after-append mr.handler_names (mr.pckg_lut p) k d h l pkg_id before hnd_name))
            ∙ ap some (append_assoc l (h ∷ []) (replicate (occurrences q ps) h)))
      | inr u ↦ rw u (rest.used q l (rw u e))
    ];
  }

-- The loop over the packages ends without a panic, and leaves the edges to all of them.
pub link_all-LinkedTo :
    (h : String) (ps : List String) (mr : MetaRegistry)
    → All (HasPackage mr) ps
    → HasHandler mr h
    → (mr' : MetaRegistry) × (link_all h ps mr ≡ some mr') × LinkedTo h ps mr mr'
unfolding link_all
link_all-LinkedTo h [] mr _ _ = (mr, refl, nothing-LinkedTo h mr)
link_all-LinkedTo h (p ∷ ps) mr ((d, pkg_id, pkg_name), more) (k, hnd_id, hnd_name) =
    let step = linked h p d k mr in
    let keep : All (HasPackage step) ps =
      All-map (HasPackage mr) (HasPackage step) ps
        (λ q has. (has.0, first-update_str mr.pckg_lut p q k d pkg_id ∙ has.1, has.2)) more in
    let owner : HasHandler step h =
      (k, first-update_str mr.dep_map h h d k hnd_id ∙ hnd_id, hnd_name) in
    let (mr', run, rest) = link_all-LinkedTo h ps step keep owner in
    (
      mr',
      rw (link-linked h p d k mr pkg_id hnd_id) run,
      more-LinkedTo h p ps d k mr mr' pkg_id pkg_name hnd_id hnd_name rest,
    )
