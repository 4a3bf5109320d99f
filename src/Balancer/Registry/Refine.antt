-- ===== src/Balancer/Registry/Refine.antt =====
-- The registry against a plain list of the lambdas that were registered, each with its packages.
use s19_lambda.Base.{
  List-cases, ℕ, ◌≡◌, refl, ap, sym, ◌∙◌, String, Bool, true, false, Option, some, List, [], ◌∷◌,
  ◌++◌, append_assoc, append-nil, str_eq, if◌then◌else◌, eq_iff, occurrences, replicate, arith,
  Bool-cases, inl, inr, subst,
}
use s19_lambda.Base.Int.{pos, negsuc}
use s19_lambda.Balancer.Registry.{
  MetaRegistry, empty_registry, ◌>>=◌, push, first, peek_handler_deps, peek_deps_used_by,
}
use s19_lambda.Balancer.Registry.Nodes.{IsSound, empty_registry-IsSound}
use s19_lambda.Balancer.Registry.Push.{Pushed, push-Pushed}

-- Calls of `push`, one after the other.
unfoldable pub push_each : List (String × List String) → MetaRegistry → Option MetaRegistry
push_each [] mr = some mr
push_each ((h, ps) ∷ reqs) mr = do r ← push h ps mr; push_each reqs r.0

unfoldable pub is_registered : String → List (String × List String) → Bool
is_registered h [] = false
is_registered h ((g, _) ∷ log) = let rest = is_registered h log in if str_eq g h then true else rest

-- The log after the calls: a lambda counts the first time.
unfoldable pub logged :
    List (String × List String) → List (String × List String) → List (String × List String)
logged log [] = log
logged log ((h, ps) ∷ reqs) = logged (if is_registered h log then log else log ++ (h, ps) ∷ []) reqs

unfoldable pub deps_of : String → List (String × List String) → List String
deps_of h [] = []
deps_of h ((g, ps) ∷ log) = let rest = deps_of h log in if str_eq g h then ps else rest

-- A lambda, as often as it names the package.
unfoldable pub users_of : String → List (String × List String) → List String
users_of p [] = []
users_of p ((g, ps) ∷ log) = replicate (occurrences p ps) g ++ users_of p log

is_registered-append :
    (h g : String) (ps : List String) (log : List (String × List String))
    → is_registered g (log ++ (h, ps) ∷ []) ≡ (if str_eq h g then true else is_registered g log)
unfolding is_registered
is_registered-append h g ps [] = ground arith
is_registered-append h g ps ((f, _) ∷ log) = ground (arith, is_registered-append h g ps log)

deps_of-append_other :
    (h g : String) (ps : List String) (log : List (String × List String))
    → str_eq h g ≡ false
    → deps_of g (log ++ (h, ps) ∷ []) ≡ deps_of g log
unfolding deps_of
deps_of-append_other h g ps [] e = ground arith
deps_of-append_other h g ps ((f, _) ∷ log) e = ground (arith, deps_of-append_other h g ps log e)

deps_of-append_new :
    (h : String) (ps : List String) (log : List (String × List String))
    → is_registered h log ≡ false
    → deps_of h (log ++ (h, ps) ∷ []) ≡ ps
unfolding deps_of is_registered
deps_of-append_new h ps [] e = ground (arith, eq_iff h h)
deps_of-append_new h ps ((f, _) ∷ log) e = ground (arith, deps_of-append_new h ps log)

users_of-append :
    (p h : String) (ps : List String) (log : List (String × List String))
    → users_of p (log ++ (h, ps) ∷ []) ≡ users_of p log ++ replicate (occurrences p ps) h
unfolding users_of
users_of-append p h ps [] = append-nil (replicate (occurrences p ps) h)
users_of-append p h ps ((g, qs) ∷ log) = rw (users_of-append p h ps log) (
    sym (
      append_assoc (replicate (occurrences p qs) g) (users_of p log)
        (replicate (occurrences p ps) h)))

push_registered :
    (h : String) (ps : List String) (mr : MetaRegistry) (k : ℕ) (ds : List ℕ)
    → mr.dep_map h ≡ k ∷ ds
    → push h ps mr ≡ some (mr, negsuc 0)
unfolding push
push_registered h ps mr k ds e = rw (e, push) refl

-- The registry holds what the log lists.
pub record Represents (log : List (String × List String)) (mr : MetaRegistry) : Type 0 where
  pub sound : IsSound mr
  pub fresh : (h : String) → is_registered h log ≡ false → mr.dep_map h ≡ []
  pub known : (h : String) → is_registered h log ≡ true → (k : ℕ) × (first (mr.dep_map h) ≡ some k)
  pub deps : (h : String) → peek_handler_deps h mr ≡ some (deps_of h log)
  pub used : (p : String) → peek_deps_used_by p mr ≡ some (users_of p log)

pub empty_registry-Represents : Represents [] empty_registry
unfolding empty_registry is_registered deps_of users_of peek_handler_deps peek_deps_used_by
empty_registry-Represents = record {
  sound = empty_registry-IsSound;
  fresh = λ h e. refl;
  known = λ h e. absurd (ground arith);
  deps = λ h. refl;
  used = λ p. refl;
}

module _ (h : String) (ps : List String) (log : List (String × List String)) (mr : MetaRegistry)
    (rep : Represents log mr) where
  push_again : is_registered h log ≡ true → push h ps mr ≡ some (mr, negsuc 0)
  push_again e = elim (List-cases (mr.dep_map h)) [
    | inl none_yet ↦ absurd (ground (arith, rep.known h e, none_yet))
    | inr (k, ds, node) ↦ push_registered h ps mr k ds node
  ]

  module _ (new : is_registered h log ≡ false) (mr' : MetaRegistry) (did : Pushed h ps mr mr') where
    fresh_after : (g : String) → is_registered g (log ++ (h, ps) ∷ []) ≡ false → mr'.dep_map g ≡ []
    fresh_after g k =
        did.other_nodes g (ground (arith, is_registered-append h g ps log, eq_iff h g))
        ∙ rep.fresh g (ground (arith, is_registered-append h g ps log))

    known_after :
        (g : String)
        → is_registered g (log ++ (h, ps) ∷ []) ≡ true
        → (k : ℕ) × (first (mr'.dep_map g) ≡ some k)
    known_after g k = elim (Bool-cases (str_eq h g)) [
      | inl t ↦ subst (λ x. (k : ℕ) × (first (mr'.dep_map x) ≡ some k)) ((eq_iff h g).0 t) did.node
      | inr u ↦
          let (i, old) = rep.known g (ground (arith, is_registered-append h g ps log)) in
          (i, ap first (did.other_nodes g (ground (arith, eq_iff h g))) ∙ old)
    ]

    deps_after : (g : String) → peek_handler_deps g mr' ≡ some (deps_of g (log ++ (h, ps) ∷ []))
    deps_after g = elim (Bool-cases (str_eq h g)) [
      | inl t ↦
          subst (λ x. peek_handler_deps x mr' ≡ some (deps_of x (log ++ (h, ps) ∷ [])))
            ((eq_iff h g).0 t) (did.deps ∙ ap some (sym (deps_of-append_new h ps log new)))
      | inr u ↦
          did.other_deps g (deps_of g log) (ground (arith, eq_iff h g)) (rep.deps g)
          ∙ ap some (sym (deps_of-append_other h g ps log u))
    ]

    pushed-Represents : Represents (log ++ (h, ps) ∷ []) mr'
    pushed-Represents = record {
      sound = did.sound;
      fresh = fresh_after;
      known = known_after;
      deps = deps_after;
      used = λ p.
          did.used p (users_of p log) (rep.used p) ∙ ap some (sym (users_of-append p h ps log));
    }

push_each-Represents :
    (reqs log : List (String × List String)) (mr : MetaRegistry)
    → Represents log mr
    → (mr' : MetaRegistry) × (push_each reqs mr ≡ some mr') × Represents (logged log reqs) mr'
unfolding push_each logged
push_each-Represents [] log mr rep = (mr, refl, rep)
push_each-Represents ((h, ps) ∷ reqs) log mr rep = elim (Bool-cases (is_registered h log)) [
  | inl old ↦
      let (mr', run, after) = push_each-Represents reqs log mr rep in
      (mr', rw (push_again h ps log mr rep old) run, rw old after)
  | inr new ↦
      let (next, once, did) = push-Pushed h ps mr rep.sound (rep.fresh h new) in
      let (mr', run, after) =
        push_each-Represents reqs (log ++ (h, ps) ∷ []) next
          (pushed-Represents h ps log mr rep new next did) in
      (mr', rw once run, rw new after)
]

-- Calls of `push` from the empty registry never panic. Afterwards `peek_handler_deps` gives each lambda
-- the packages of the first call that named it, in their order, and `peek_deps_used_by` gives each
-- package the lambdas that name it, in the order of those first calls.
pub pushes_refine :
    (reqs : List (String × List String)) (h p : String)
    → (mr : MetaRegistry) × (push_each reqs empty_registry ≡ some mr)
      × (peek_handler_deps h mr ≡ some (deps_of h (logged [] reqs)))
      × (peek_deps_used_by p mr ≡ some (users_of p (logged [] reqs)))
pushes_refine reqs h p =
    let (mr, run, rep) = push_each-Represents reqs [] empty_registry empty_registry-Represents in
    (mr, run, rep.deps h, rep.used p)

-- A sound registry takes a lambda without a node: the call returns 0, the registry stays sound, and the
-- lambda's packages are found in the order given.
pub push_new :
    (h : String) (ps : List String) (mr : MetaRegistry)
    → IsSound mr
    → mr.dep_map h ≡ []
    → (mr' : MetaRegistry) × (push h ps mr ≡ some (mr', pos 0))
      × IsSound mr'
      × (peek_handler_deps h mr' ≡ some ps)
push_new h ps mr v fresh =
    let (mr', run, did) = push-Pushed h ps mr v fresh in (mr', run, did.sound, did.deps)

-- Once a lambda is registered, registering it again returns -1 and leaves the registry as it was,
-- whatever the packages.
pub push_twice :
    (h : String) (ps qs : List String) (mr : MetaRegistry)
    → IsSound mr
    → mr.dep_map h ≡ []
    → (mr' : MetaRegistry) × (push h ps mr ≡ some (mr', pos 0))
      × (push h qs mr' ≡ some (mr', negsuc 0))
push_twice h ps qs mr v fresh =
    let (mr', run, did) = push-Pushed h ps mr v fresh in
    elim (List-cases (mr'.dep_map h)) [
      | inl none_yet ↦ absurd (ground (arith, did.node, none_yet))
      | inr (k, ds, node) ↦ (mr', run, push_registered h qs mr' k ds node)
    ]
