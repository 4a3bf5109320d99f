-- ===== src/Worker/Config.antt =====
-- The configuration of a worker (worker/config/config.go): the fields that `Defaults` reads or writes. The
-- text of a path is the list of its characters. What `ParseConfig` decodes is an argument; the
-- global copy of `Timing` is left out.
pub mod Defaults
pub mod Accepts
mod Tests
use s19_lambda.Base.{
  ℕ, String, Bool, true, false, not, Option, none, some, List, [], ◌∷◌, ◌⊎◌, inl, inr,
  if◌then◌else◌, str_eq,
}
use s19_lambda.Base.Int.{ℤ, pos, eqb_ℤ}
use s19_lambda.Worker.Paths.{is_abs, is_empty, join_path, dir, abs}

pub record Config : Type 0 where
  pub path : List ℕ
  pub sandbox : String
  pub registry_dir : List ℕ
  pub cluster_name : String
  pub pkgs_dir : List ℕ
  pub sandbox_create_queue_size : ℤ
  pub handler_usage_update_interval : ℤ
  pub worker_dir : List ℕ
  pub sock_base_path : List ℕ
  pub worker_port : String

-- The errors, by the field that they name; `no_wd` is the one of `filepath.Abs`.
pub data ConfigError : Type 0 where
  no_registry_dir relative_registry_dir no_worker_dir relative_worker_dir no_sock_base_path :
      ConfigError
  relative_sock_base_path no_pkgs_dir relative_pkgs_dir no_wd unreadable malformed : ConfigError

abbrev pub and_then : {A B : Type 0} → ConfigError ⊎ A → (A → ConfigError ⊎ B) → ConfigError ⊎ B
and_then (inl e) f = inl e
and_then (inr a) f = f a

-- A directory of the configuration as an absolute path: a relative one counts from the configuration's
-- file.
unfoldable pub absolute : Option (List ℕ) → List ℕ → ConfigError → List ℕ → ConfigError ⊎ List ℕ
absolute wd path relative d =
    if is_abs d
    then inr d
    else if is_empty path
    then inl relative
    else elim (abs wd (join_path (dir path) d)) [ none ↦ inl no_wd | some a ↦ inr a ]

-- A directory that has to be given.
unfoldable pub required :
    Option (List ℕ) → List ℕ → ConfigError → ConfigError → List ℕ → ConfigError ⊎ List ℕ
unfolding absolute
required wd path missing relative d =
    if is_empty d then inl missing else absolute wd path relative d

abbrev pub zero_default : ℤ → ℤ → ℤ
zero_default n d = if eqb_ℤ n (pos 0) then d else n

abbrev pub blank_default : String → String → String
blank_default s d = if str_eq s "" then d else s

-- "packages"
abbrev pub packages : List ℕ
packages = 112 ∷ 97 ∷ 99 ∷ 107 ∷ 97 ∷ 103 ∷ 101 ∷ 115 ∷ []

-- The defaults that need no check.
abbrev pub set_values : Config → Config
set_values c = record c {
  cluster_name = blank_default c.cluster_name "default";
  worker_port = blank_default c.worker_port "8080";
  sandbox_create_queue_size = zero_default c.sandbox_create_queue_size (pos 100);
  handler_usage_update_interval = zero_default c.handler_usage_update_interval (pos 10);
}

-- The directories of the sandboxes.
unfoldable pub set_sandbox_dirs : Option (List ℕ) → Config → ConfigError ⊎ Config
unfolding required
set_sandbox_dirs wd c =
    if str_eq c.sandbox "sock"
    then and_then (required wd c.path no_sock_base_path relative_sock_base_path c.sock_base_path)
        (λ base. inr (record c { sock_base_path = base; pkgs_dir = join_path base packages }))
    else and_then (required wd c.path no_pkgs_dir relative_pkgs_dir c.pkgs_dir)
        (λ d. inr (record c { pkgs_dir = d }))

-- `Defaults`, in the order of its checks.
unfoldable pub defaults : Option (List ℕ) → Config → ConfigError ⊎ Config
unfolding set_sandbox_dirs
defaults wd c =
    and_then (required wd c.path no_registry_dir relative_registry_dir c.registry_dir) (λ registry.
      and_then (required wd c.path no_worker_dir relative_worker_dir c.worker_dir) (λ worker.
        set_sandbox_dirs wd
          (record (set_values c) { registry_dir = registry; worker_dir = worker })))

-- `ParseConfig`, with the text of the file, or the error of reading it, and the JSON decoder.
unfoldable pub parse_config :
    {T : Type 0} → Option (List ℕ) → (T → Option Config) → List ℕ → Option T → ConfigError ⊎ Config
unfolding defaults
parse_config wd decode path none = inl unreadable
parse_config wd decode path (some text) = elim (decode text) [
  | none ↦ inl malformed
  | some c ↦ defaults wd (record c { path = path })
]
