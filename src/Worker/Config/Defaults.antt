-- ===== src/Worker/Config/Defaults.antt =====
-- What `Defaults` gives.
use s19_lambda.Base.{
  ℕ, ◌≡◌, refl, sym, ◌∙◌, ap, subst, String, true, false, Option, some, List, [], ◌∷◌, ◌++◌, ◌⊎◌,
  inl, inr, str_eq, arith, Bool-cases, Option-cases,
}
use s19_lambda.Base.Int.{ℤ, pos}
use s19_lambda.Worker.Server.{slash}
use s19_lambda.Worker.Paths.{is_abs, is_empty, clean, join_path, dir, abs}
use s19_lambda.Worker.Config.{
  Config, ConfigError, and_then, absolute, required, zero_default, blank_default, packages,
  set_values, set_sandbox_dirs, defaults, no_registry_dir, relative_registry_dir, no_worker_dir,
  relative_worker_dir, no_sock_base_path, relative_sock_base_path, no_pkgs_dir, relative_pkgs_dir,
}

clean-is_abs : (p : List ℕ) → is_abs p ≡ true → is_abs (clean p) ≡ true
unfolding clean
clean-is_abs p h = rw h (ground arith)

-- The working directory is absolute, where it is known.
abbrev pub WdIsAbs : Option (List ℕ) → Type 0
WdIsAbs wd = (w : List ℕ) → wd ≡ some w → is_abs w ≡ true

abs_given : (p : List ℕ) → is_abs p ≡ true → is_empty p ≡ false
abs_given [] h = absurd (ground (arith, h))
abs_given (c ∷ cs) h = refl

append_abs : (p q : List ℕ) → is_abs p ≡ true → is_abs (p ++ q) ≡ true
append_abs [] q h = absurd (ground (arith, h))
append_abs (c ∷ cs) q h = h

join_path-is_abs : (a b : List ℕ) → is_abs a ≡ true → is_abs (join_path a b) ≡ true
unfolding join_path
join_path-is_abs a b h = rw (abs_given a h) (elim (Bool-cases (is_empty b)) [
  | inl e ↦ rw e (clean-is_abs a h)
  | inr e ↦ rw e (clean-is_abs (a ++ slash ∷ b) (append_abs a (slash ∷ b) h))
])

abs-is_abs :
    (wd : Option (List ℕ)) (p q : List ℕ) → WdIsAbs wd → abs wd p ≡ some q → is_abs q ≡ true
unfolding abs
abs-is_abs wd p q w h = elim (Bool-cases (is_abs p)) [
  | inl a ↦ let e : clean p ≡ q = ground (arith, a, h) in rw (sym e) (clean-is_abs p a)
  | inr r ↦ elim (Option-cases wd) [
    | inl z ↦ absurd (ground (arith, h, r, z))
    | inr (v, z) ↦
        let e : join_path v p ≡ q = ground (arith, h, r, z) in
        rw (sym e) (join_path-is_abs v p (w v z))
  ]
]

module _ (wd : Option (List ℕ)) (known : WdIsAbs wd) (path : List ℕ)
    (missing relative : ConfigError) where
  absolute-is_abs : (x y : List ℕ) → absolute wd path relative x ≡ inr y → is_abs y ≡ true
  unfolding absolute
  absolute-is_abs x y h = elim (Bool-cases (is_abs x)) [
    | inl a ↦ let e : x ≡ y = ground (arith, a, h) in rw (sym e) a
    | inr r ↦ elim (Bool-cases (is_empty path)) [
      | inl e ↦ absurd (ground (arith, r, e, h))
      | inr e ↦ elim (Option-cases (abs wd (join_path (dir path) x))) [
        | inl z ↦ absurd (ground (arith, r, e, z, h))
        | inr (a, z) ↦
            let same : a ≡ y = ground (arith, r, e, z, h) in
            rw (sym same) (abs-is_abs wd (join_path (dir path) x) a known z)
      ]
    ]
  ]

  required-is_abs : (x y : List ℕ) → required wd path missing relative x ≡ inr y → is_abs y ≡ true
  unfolding required
  required-is_abs x y h = elim (Bool-cases (is_empty x)) [
    | inl e ↦ absurd (ground (arith, e, h))
    | inr e ↦ absolute-is_abs x y (ground (arith, e, h))
  ]

  required_given : (x : List ℕ) → is_abs x ≡ true → required wd path missing relative x ≡ inr x
  unfolding required absolute
  required_given x a = rw (abs_given x a, a) refl

pub and_then-inr :
    {A B : Type 0} (x : ConfigError ⊎ A) (f : A → ConfigError ⊎ B) (b : B)
    → and_then x f ≡ inr b
    → (a : A) × (x ≡ inr a) × (f a ≡ inr b)
and_then-inr (inl e) f b h = absurd (ground (arith, h))
and_then-inr (inr a) f b h = (a, refl, h)

-- What is found of the directories of the sandboxes.
abbrev pub SandboxDirs : Config → List ℕ → List ℕ → Type 0
SandboxDirs c base d =
    (is_abs d ≡ true)
    × (str_eq c.sandbox "sock" ≡ true → (is_abs base ≡ true) × (d ≡ join_path base packages))

module _ (wd : Option (List ℕ)) (known : WdIsAbs wd) where
  set_sandbox_dirs-SandboxDirs :
      (c d : Config)
      → set_sandbox_dirs wd c ≡ inr d
      → (base pkgs : List ℕ) × (d ≡ record c { sock_base_path = base; pkgs_dir = pkgs })
        × SandboxDirs c base pkgs
  unfolding set_sandbox_dirs
  set_sandbox_dirs-SandboxDirs c d h = elim (Bool-cases (str_eq c.sandbox "sock")) [
    | inl sock ↦
        let (base, e, z) =
          and_then-inr
            (required wd c.path no_sock_base_path relative_sock_base_path c.sock_base_path)
            (λ base. inr (record c { sock_base_path = base; pkgs_dir = join_path base packages })) d
            (ground (arith, h, sock)) in
        let a =
          required-is_abs wd known c.path no_sock_base_path relative_sock_base_path c.sock_base_path
            base e in
        (
          base,
          join_path base packages,
          ground (arith, z),
          (join_path-is_abs base packages a, λ _. (a, refl)),
        )
    | inr other ↦
        let (pkgs, e, z) =
          and_then-inr (required wd c.path no_pkgs_dir relative_pkgs_dir c.pkgs_dir)
            (λ pkgs. inr (record c { pkgs_dir = pkgs })) d (ground (arith, h, other)) in
        (
          c.sock_base_path,
          pkgs,
          ground (arith, z),
          (
            required-is_abs wd known c.path no_pkgs_dir relative_pkgs_dir c.pkgs_dir pkgs e,
            λ sock. absurd (ground (arith, sock, other)),
          ),
        )
  ]

  -- The directories that are found once are found again.
  set_sandbox_dirs_again :
      (c : Config) → SandboxDirs c c.sock_base_path c.pkgs_dir → set_sandbox_dirs wd c ≡ inr c
  unfolding set_sandbox_dirs
  set_sandbox_dirs_again c (a, base) = elim (Bool-cases (str_eq c.sandbox "sock")) [
    | inl sock ↦
        let (b, e) = base sock in
        simp (
          sock,
          required_given wd known c.path no_sock_base_path relative_sock_base_path c.sock_base_path
              b,
          sym e,
        )
    | inr other ↦
        simp (other, required_given wd known c.path no_pkgs_dir relative_pkgs_dir c.pkgs_dir a)
  ]

  -- What `Defaults` has found.
  record Found (c d : Config) : Type 0 where
    registry : is_abs d.registry_dir ≡ true
    worker : is_abs d.worker_dir ≡ true
    sandbox_dirs : SandboxDirs d d.sock_base_path d.pkgs_dir
    values : set_values d ≡ d
    same_sandbox : d.sandbox ≡ c.sandbox

  values_twice :
      (s t : String) (m n : ℤ)
      → (blank_default (blank_default s "default") "default" ≡ blank_default s "default")
        × (blank_default (blank_default t "8080") "8080" ≡ blank_default t "8080")
        × (zero_default (zero_default m (pos 100)) (pos 100) ≡ zero_default m (pos 100))
        × (zero_default (zero_default n (pos 10)) (pos 10) ≡ zero_default n (pos 10))
  values_twice s t m n = (ground arith, ground arith, ground arith, ground arith)

  defaults-Found : (c d : Config) → defaults wd c ≡ inr d → Found c d
  unfolding defaults
  defaults-Found c d h =
      let (registry, er, h₁) =
        and_then-inr (required wd c.path no_registry_dir relative_registry_dir c.registry_dir) _ d
          h in
      let (worker, ew, h₂) =
        and_then-inr (required wd c.path no_worker_dir relative_worker_dir c.worker_dir) _ d h₁ in
      let s : Config = record (set_values c) { registry_dir = registry; worker_dir = worker } in
      let (base, pkgs, e, dirs) = set_sandbox_dirs-SandboxDirs s d h₂ in
      let (t₁, t₂, t₃, t₄) =
        values_twice c.cluster_name c.worker_port c.sandbox_create_queue_size
          c.handler_usage_update_interval in
      subst (Found c) (sym e) (record {
        registry =
            required-is_abs wd known c.path no_registry_dir relative_registry_dir c.registry_dir
              registry er;
        worker =
            required-is_abs wd known c.path no_worker_dir relative_worker_dir c.worker_dir worker
              ew;
        sandbox_dirs = dirs;
        values = simp (t₁, t₂, t₃, t₄);
        same_sandbox = refl;
      })

  -- Where `Defaults` accepts a configuration, the directories of the registry, the worker and the packages
  -- are absolute, and so is the base path of the SOCK containers where the sandbox is `sock`; a second call
  -- changes nothing. The working directory is to be absolute, where it is known.
  pub defaults_twice :
      (c d : Config)
      → defaults wd c ≡ inr d
      → (is_abs d.registry_dir ≡ true)
        × (is_abs d.worker_dir ≡ true)
        × (is_abs d.pkgs_dir ≡ true)
        × (str_eq d.sandbox "sock" ≡ true → is_abs d.sock_base_path ≡ true)
        × (defaults wd d ≡ inr d)
  unfolding defaults
  defaults_twice c d h =
      let f = defaults-Found c d h in
      (
        f.registry,
        f.worker,
        f.sandbox_dirs.0,
        λ sock. (f.sandbox_dirs.1 sock).0,
        simp
            (
              required_given wd known d.path no_registry_dir relative_registry_dir d.registry_dir
                  f.registry,
              required_given wd known d.path no_worker_dir relative_worker_dir d.worker_dir
                  f.worker,
            )
            (ap (set_sandbox_dirs wd) f.values ∙ set_sandbox_dirs_again d f.sandbox_dirs),
      )
