-- ===== src/Balancer/Registry/Nodes.antt =====
-- The first loop of `push`, and the node that it makes for the lambda.
use text.Mathlib.TextPositions.{eq_refl as str_eq_refl}
use s19_lambda.Base.{
  List-cases, ℕ, suc, ◌≡◌, ◌≢◌, refl, ap, sym, subst, ◌∙◌, String, none, some, List, [], ◌∷◌, ◌++◌,
  get_elem?, update_str, get_elem?-append_left, get_elem?-append_length, length, length-append,
  str_eq, eq_iff, All, arith, Bool-cases, Option-cases, inl, inr,
}
use s19_lambda.Balancer.Registry.{
  MetaRegistry, empty_registry, first, add_handler_node, add_package_node, add_package_nodes,
  names_at, names_after,
}
use s19_lambda.Balancer.Registry.Links.{HasPackage, HasHandler, names_at-grow}

-- The counters count the names, the identity at the head of a node is the place of the node's name,
-- and all that the nodes refer to has a name.
pub record IsSound (mr : MetaRegistry) : Type 0 where
  pub dids : mr.cur_did ≡ length mr.dep_names
  pub hids : mr.cur_hid ≡ length mr.handler_names
  pub packages :
      (p : String) (d : ℕ) → first (mr.pckg_lut p) ≡ some d → get_elem? mr.dep_names d ≡ some p
  pub handlers :
      (h : String) (k : ℕ) → first (mr.dep_map h) ≡ some k → get_elem? mr.handler_names k ≡ some h
  pub deps_known : (h : String) → names_after mr.dep_names (mr.dep_map h) ≢ none
  pub used_known : (p : String) → names_after mr.handler_names (mr.pckg_lut p) ≢ none

pub empty_registry-IsSound : IsSound empty_registry
unfolding empty_registry
empty_registry-IsSound = record {
  dids = refl;
  hids = refl;
  packages = λ p d e. cc;
  handlers = λ h k e. cc;
  deps_known = λ h e. cc;
  used_known = λ p e. cc;
}

pub names_after-grow :
    (names more : List String) (is : List ℕ) (l : List String)
    → names_after names is ≡ some l
    → names_after (names ++ more) is ≡ some l
names_after-grow names more [] l e = e
names_after-grow names more (i ∷ is) l e = names_at-grow names more is l e

names_after-grow_ne :
    (names more : List String) (is : List ℕ)
    → names_after names is ≢ none
    → names_after (names ++ more) is ≢ none
names_after-grow_ne names more is h e = elim (Option-cases (names_after names is)) [
  | inl missing ↦ h missing
  | inr (l, found) ↦ absurd (ground (arith, names_after-grow names more is l found))
]

module _ (h : String) (mr : MetaRegistry) (fresh : mr.dep_map h ≡ []) (v : IsSound mr) where
  pub handler_node-IsSound : IsSound (add_handler_node h mr)
  unfolding add_handler_node names_at
  handler_node-IsSound = record {
    dids = v.dids;
    hids = omega (arith, length-append mr.handler_names (h ∷ []), v.hids);
    packages = v.packages;
    handlers = λ g k e. elim (Bool-cases (str_eq h g)) [
      | inl t ↦
          ground (arith, eq_iff h g, fresh, v.hids, get_elem?-append_length mr.handler_names h)
      | inr u ↦ get_elem?-append_left mr.handler_names (h ∷ []) k g (v.handlers g k (ground arith))
    ];
    deps_known = λ g. ground (arith, fresh, v.deps_known g);
    used_known =
        λ p. names_after-grow_ne mr.handler_names (h ∷ []) (mr.pckg_lut p) (v.used_known p);
  }

  pub handler_node-HasHandler : HasHandler (add_handler_node h mr) h
  unfolding add_handler_node
  handler_node-HasHandler = (
    mr.cur_hid,
    rw (str_eq_refl h, fresh) refl,
    rw v.hids (get_elem?-append_length mr.handler_names h),
  )

-- What nodes for `ps` have made of the registry.
pub record Prepared (ps : List String) (mr mr' : MetaRegistry) : Type 0 where
  pub dep_map : mr'.dep_map ≡ mr.dep_map
  pub handler_names : mr'.handler_names ≡ mr.handler_names
  pub sound : IsSound mr'
  pub has : All (HasPackage mr') ps
  pub kept : (q : String) → HasPackage mr q → HasPackage mr' q
  pub names :
      (is : List ℕ) (l : List String)
      → names_after mr.dep_names is ≡ some l
      → names_after mr'.dep_names is ≡ some l
  pub used :
      (q : String) (l : List String)
      → names_after mr.handler_names (mr.pckg_lut q) ≡ some l
      → names_after mr'.handler_names (mr'.pckg_lut q) ≡ some l

-- The registry with a node more for the package.
abbrev noded : String → MetaRegistry → MetaRegistry
noded p mr = record mr {
  pckg_lut = update_str mr.pckg_lut p (mr.cur_did ∷ []);
  dep_names = mr.dep_names ++ p ∷ [];
  cur_did = suc mr.cur_did;
}

add_package_node-noded :
    (p : String) (mr : MetaRegistry) → mr.pckg_lut p ≡ [] → add_package_node p mr ≡ noded p mr
unfolding add_package_node
add_package_node-noded p mr e = rw (e, add_package_node) refl

add_package_node_same :
    (p : String) (mr : MetaRegistry) (d : ℕ) (ds : List ℕ)
    → mr.pckg_lut p ≡ d ∷ ds
    → add_package_node p mr ≡ mr
unfolding add_package_node
add_package_node_same p mr d ds e = rw (e, add_package_node) refl

module _ (p : String) (mr : MetaRegistry) (v : IsSound mr) where
  known-Prepared : (d : ℕ) (ds : List ℕ) → mr.pckg_lut p ≡ d ∷ ds → Prepared (p ∷ []) mr mr
  known-Prepared d ds e = record {
    dep_map = refl;
    handler_names = refl;
    sound = v;
    has = ((d, ap first e, v.packages p d (ap first e)), tt);
    kept = λ q k. k;
    names = λ is l k. k;
    used = λ q l k. k;
  }

  module _ (fresh : mr.pckg_lut p ≡ []) where
    noded-IsSound : IsSound (noded p mr)
    unfolding names_at
    noded-IsSound = record {
      dids = omega (arith, length-append mr.dep_names (p ∷ []), v.dids);
      hids = v.hids;
      packages = λ q d e. elim (Bool-cases (str_eq p q)) [
        | inl t ↦ ground (arith, eq_iff p q, fresh, v.dids, get_elem?-append_length mr.dep_names p)
        | inr u ↦ get_elem?-append_left mr.dep_names (p ∷ []) d q (v.packages q d (ground arith))
      ];
      handlers = v.handlers;
      deps_known = λ g. names_after-grow_ne mr.dep_names (p ∷ []) (mr.dep_map g) (v.deps_known g);
      used_known = λ q. ground (arith, fresh, v.used_known q);
    }

    noded-Prepared : Prepared (p ∷ []) mr (noded p mr)
    unfolding names_at
    noded-Prepared = record {
      dep_map = refl;
      handler_names = refl;
      sound = noded-IsSound;
      has = (
        (mr.cur_did, rw (str_eq_refl p) refl, rw v.dids (get_elem?-append_length mr.dep_names p)),
        tt,
      );
      kept = λ q k. (
        k.0,
        ground (arith, eq_iff p q, fresh, k.1),
        get_elem?-append_left mr.dep_names (p ∷ []) k.0 q k.2,
      );
      names = λ is l k. names_after-grow mr.dep_names (p ∷ []) is l k;
      used = λ q l k. ground (arith, eq_iff p q, fresh, k);
    }

  package_node-Prepared : Prepared (p ∷ []) mr (add_package_node p mr)
  package_node-Prepared = elim (List-cases (mr.pckg_lut p)) [
    | inl fresh ↦
        subst (Prepared (p ∷ []) mr) (sym (add_package_node-noded p mr fresh))
          (noded-Prepared fresh)
    | inr (d, ds, e) ↦
        subst (Prepared (p ∷ []) mr) (sym (add_package_node_same p mr d ds e))
          (known-Prepared d ds e)
  ]

-- The first loop of `push`.
pub package_nodes-Prepared :
    (ps : List String) (mr : MetaRegistry) → IsSound mr → Prepared ps mr (add_package_nodes ps mr)
unfolding add_package_nodes
package_nodes-Prepared [] mr v = record {
  dep_map = refl;
  handler_names = refl;
  sound = v;
  has = tt;
  kept = λ q k. k;
  names = λ is l k. k;
  used = λ q l k. k;
}
package_nodes-Prepared (p ∷ ps) mr v =
    let one = package_node-Prepared p mr v in
    let rest = package_nodes-Prepared ps (add_package_node p mr) one.sound in
    record {
      dep_map = rest.dep_map ∙ one.dep_map;
      handler_names = rest.handler_names ∙ one.handler_names;
      sound = rest.sound;
      has = (rest.kept p one.has.0, rest.has);
      kept = λ q k. rest.kept q (one.kept q k);
      names = λ is l k. rest.names is l (one.names is l k);
      used = λ q l k. rest.used q l (one.used q l k);
    }
