-- ===== src/Worker/Config/Accepts.antt =====
-- Which configurations `Defaults` accepts.
use s19_lambda.Base.{
  ℕ, ◌≡◌, ◌↔◌, refl, Bool, true, false, not, ◌&&◌, some, List, inl, inr, if◌then◌else◌, str_eq,
  arith, Bool-cases,
}
use s19_lambda.Worker.Paths.{is_abs, is_empty, join_path, dir, abs}
use s19_lambda.Worker.Config.{
  Config, ConfigError, absolute, required, set_values, set_sandbox_dirs, defaults, no_registry_dir,
  relative_registry_dir, no_worker_dir, relative_worker_dir, no_sock_base_path,
  relative_sock_base_path, no_pkgs_dir, relative_pkgs_dir,
}
use s19_lambda.Worker.Config.Defaults.{and_then-inr}

-- Is every directory given that a worker with such sandboxes wants?
unfoldable pub is_complete : Config → Bool
is_complete c =
    not (is_empty c.registry_dir)
    && not (is_empty c.worker_dir)
    && not (is_empty (if str_eq c.sandbox "sock" then c.sock_base_path else c.pkgs_dir))

abs_known : (w p : List ℕ) → (q : List ℕ) × (abs (some w) p ≡ some q)
unfolding abs
abs_known w p = elim (Bool-cases (is_abs p)) [ inl a ↦ rw a (_, refl) | inr r ↦ rw r (_, refl) ]

module _ (w path : List ℕ) (missing relative : ConfigError)
    (from_file : is_empty path ≡ false) where
  required_found :
      (x : List ℕ)
      → is_empty x ≡ false
      → (y : List ℕ) × (required (some w) path missing relative x ≡ inr y)
  unfolding required absolute
  required_found x given =
      rw (given, from_file)
        (elim (Bool-cases (is_abs x)) [
          | inl a ↦ rw a (x, refl)
          | inr r ↦ let (y, e) = abs_known w (join_path (dir path) x) in rw (r, e) (y, refl)
        ])

  required_missing :
      (x y : List ℕ) → required (some w) path missing relative x ≡ inr y → is_empty x ≡ false
  unfolding required
  required_missing x y h = elim (Bool-cases (is_empty x)) [
    | inl e ↦ absurd (ground (arith, e, h))
    | inr e ↦ e
  ]

module _ (w : List ℕ) (c : Config) (from_file : is_empty c.path ≡ false) where
  sandbox_dirs_found :
      is_empty (if str_eq c.sandbox "sock" then c.sock_base_path else c.pkgs_dir) ≡ false
      → (registry worker : List ℕ)
      → (d : Config) × (set_sandbox_dirs
            (some w)
            (record (set_values c) { registry_dir = registry; worker_dir = worker })
          ≡ inr d)
  unfolding set_sandbox_dirs
  sandbox_dirs_found given registry worker = elim (Bool-cases (str_eq c.sandbox "sock")) [
    | inl sock ↦
        let (base, e) =
          required_found w c.path no_sock_base_path relative_sock_base_path from_file
            c.sock_base_path (ground (arith, given, sock)) in
        simp (sock, e) (_, refl)
    | inr other ↦
        let (pkgs, e) =
          required_found w c.path no_pkgs_dir relative_pkgs_dir from_file c.pkgs_dir
            (ground (arith, given, other)) in
        simp (other, e) (_, refl)
  ]

  sandbox_dirs_missing :
      (registry worker : List ℕ) (d : Config)
      → set_sandbox_dirs
          (some w)
          (record (set_values c) { registry_dir = registry; worker_dir = worker })
        ≡ inr d
      → is_empty (if str_eq c.sandbox "sock" then c.sock_base_path else c.pkgs_dir) ≡ false
  unfolding set_sandbox_dirs
  sandbox_dirs_missing registry worker d h = elim (Bool-cases (str_eq c.sandbox "sock")) [
    | inl sock ↦
        let (base, e, _) =
          and_then-inr
            (required (some w) c.path no_sock_base_path relative_sock_base_path c.sock_base_path) _
            d (simp sock at h) in
        rw sock (
          required_missing w c.path no_sock_base_path relative_sock_base_path from_file
            c.sock_base_path base e)
    | inr other ↦
        let (pkgs, e, _) =
          and_then-inr (required (some w) c.path no_pkgs_dir relative_pkgs_dir c.pkgs_dir) _ d
            (simp other at h) in
        rw other
          (required_missing w c.path no_pkgs_dir relative_pkgs_dir from_file c.pkgs_dir pkgs e)
  ]

-- A configuration that is read from a file, with the working directory known, is accepted exactly where
-- the directories are given that a worker with such sandboxes wants.
pub defaults_accepts :
    (w : List ℕ) (c : Config)
    → is_empty c.path ≡ false
    → ((d : Config) × (defaults (some w) c ≡ inr d)) ↔ (is_complete c ≡ true)
unfolding defaults is_complete
defaults_accepts w c from_file = (
  λ (d, h).
      let (registry, er, h₁) =
        and_then-inr (required (some w) c.path no_registry_dir relative_registry_dir c.registry_dir)
          _ d h in
      let (worker, ew, h₂) =
        and_then-inr (required (some w) c.path no_worker_dir relative_worker_dir c.worker_dir) _ d
          h₁ in
      let a =
        required_missing w c.path no_registry_dir relative_registry_dir from_file c.registry_dir
          registry er in
      let b =
        required_missing w c.path no_worker_dir relative_worker_dir from_file c.worker_dir worker
          ew in
      let e = sandbox_dirs_missing w c from_file registry worker d h₂ in rw (a, b, e) refl,
  λ h.
      let (registry, er) =
        required_found w c.path no_registry_dir relative_registry_dir from_file c.registry_dir
          (ground (arith, h)) in
      let (worker, ew) =
        required_found w c.path no_worker_dir relative_worker_dir from_file c.worker_dir
          (ground (arith, h)) in
      simp (er, ew) (sandbox_dirs_found w c from_file (ground (arith, h)) registry worker),
)
