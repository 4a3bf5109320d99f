-- ===== src/Balancer/Registry/Push.antt =====
-- `push` as a whole.
use text.Mathlib.TextPositions.{eq_refl as str_eq_refl}
use s19_lambda.Base.{
  ℕ, ◌≡◌, ◌≢◌, refl, ap, sym, ◌∙◌, String, some, List, [], ◌∷◌, ◌++◌, get_elem?, length, str_eq,
  eq_iff, occurrences, replicate, arith, Bool-cases, Option-cases, inl, inr,
}
use s19_lambda.Base.Int.{pos}
use s19_lambda.Balancer.Registry.{
  MetaRegistry, first, add_handler_node, add_package_nodes, push, names_at, names_after,
  peek_handler_deps, peek_deps_used_by,
}
use s19_lambda.Balancer.Registry.Links.{LinkedTo, HasHandler, link_all-LinkedTo}
use s19_lambda.Balancer.Registry.Nodes.{
  IsSound, Prepared, names_after-grow, handler_node-IsSound, handler_node-HasHandler,
  package_nodes-Prepared,
}

-- What a push has made of the registry.
pub record Pushed (h : String) (ps : List String) (mr mr' : MetaRegistry) : Type 0 where
  pub sound : IsSound mr'
  pub node : (k : ℕ) × (first (mr'.dep_map h) ≡ some k)
  pub deps : peek_handler_deps h mr' ≡ some ps
  pub other_nodes : (g : String) → g ≢ h → mr'.dep_map g ≡ mr.dep_map g
  pub other_deps :
      (g : String) (l : List String)
      → g ≢ h
      → peek_handler_deps g mr ≡ some l
      → peek_handler_deps g mr' ≡ some l
  pub used :
      (q : String) (l : List String)
      → peek_deps_used_by q mr ≡ some l
      → peek_deps_used_by q mr' ≡ some (l ++ replicate (occurrences q ps) h)

-- The edges keep the registry sound.
module _ (h : String) (ps : List String) (b c : MetaRegistry) (v : IsSound b)
    (done : LinkedTo h ps b c) where
  linked-IsSound : names_after c.dep_names (c.dep_map h) ≡ some ps → IsSound c
  linked-IsSound own = record {
    dids = done.cur_did ∙ v.dids ∙ ap length (sym done.dep_names);
    hids = done.cur_hid ∙ v.hids ∙ ap length (sym done.handler_names);
    packages = λ q d e. rw done.dep_names (v.packages q d (sym (done.package_ids q) ∙ e));
    handlers = λ g k e. rw done.handler_names (v.handlers g k (sym (done.handler_ids g) ∙ e));
    deps_known = λ g e. elim (Bool-cases (str_eq h g)) [
      | inl t ↦ ground (arith, (eq_iff h g).0 t, own)
      | inr u ↦
          v.deps_known g (ground (arith, done.others g, eq_iff g h, eq_iff h g, done.dep_names, e))
    ];
    used_known = λ q e. elim (Option-cases (names_after b.handler_names (b.pckg_lut q))) [
      | inl missing ↦ v.used_known q missing
      | inr (l, found) ↦ absurd (ground (arith, done.used q l found, done.handler_names, e))
    ];
  }

module _ (h : String) (ps : List String) (mr b c : MetaRegistry) (fresh : mr.dep_map h ≡ [])
    (prep : Prepared ps (add_handler_node h mr) b) (done : LinkedTo h ps b c) where
  own_deps : names_after c.dep_names (c.dep_map h) ≡ some ps
  unfolding add_handler_node names_at
  own_deps =
      let node : b.dep_map h ≡ mr.cur_hid ∷ [] =
        ap (λ f. f h) prep.dep_map ∙ rw (str_eq_refl h, fresh) refl in
      rw done.dep_names (done.deps [] (rw node refl))

  other_node : (g : String) → g ≢ h → c.dep_map g ≡ mr.dep_map g
  unfolding add_handler_node
  other_node g ne = done.others g ne ∙ ap (λ f. f g) prep.dep_map ∙ ground (arith, eq_iff h g)

  prepared-Pushed : Pushed h ps mr c
  unfolding peek_handler_deps peek_deps_used_by add_handler_node
  prepared-Pushed = record {
    sound = linked-IsSound h ps b c prep.sound done own_deps;
    node = (
      mr.cur_hid,
      done.handler_ids h ∙ ap (λ f. first (f h)) prep.dep_map ∙ rw (str_eq_refl h, fresh) refl,
    );
    deps = own_deps;
    other_nodes = other_node;
    other_deps = λ g l ne e. rw (done.dep_names, other_node g ne) (prep.names (mr.dep_map g) l e);
    used = λ q l e. rw done.handler_names (
        done.used q l
          (prep.used q l (names_after-grow mr.handler_names (h ∷ []) (mr.pckg_lut q) l e)));
  }

pub push-Pushed :
    (h : String) (ps : List String) (mr : MetaRegistry)
    → IsSound mr
    → mr.dep_map h ≡ []
    → (mr' : MetaRegistry) × (push h ps mr ≡ some (mr', pos 0)) × Pushed h ps mr mr'
unfolding push
push-Pushed h ps mr v fresh =
    let a = add_handler_node h mr in
    let prep = package_nodes-Prepared ps a (handler_node-IsSound h mr fresh v) in
    let (k, id, name) = handler_node-HasHandler h mr fresh v in
    let b = add_package_nodes ps a in
    let owner : HasHandler b h = (
      k,
      ap (λ f. first (f h)) prep.dep_map ∙ id,
      ap (λ l. get_elem? l k) prep.handler_names ∙ name,
    ) in
    let (c, run, done) = link_all-LinkedTo h ps b prep.has owner in
    (c, rw (fresh, push, run) refl, prepared-Pushed h ps mr b c fresh prep done)
