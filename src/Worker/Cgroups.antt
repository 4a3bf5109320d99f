-- ===== src/Worker/Cgroups.antt =====
-- The control groups of SOCK containers (worker/sandbox/cgroupFactory.go), and the identifiers that
-- SOCKContainerFactory.Create (worker/sandbox/sockFactory.go) draws. What the file system answers is an
-- argument: `false` is an error.
pub mod Pool
pub mod PoolRuns
pub mod Apart
mod Tests
use s19_lambda.Base.{
  ℕ, zero, suc, ◌+◌, Bool, true, false, Option, none, some, List, [], ◌∷◌, ◌++◌, ◌==◌,
  if◌then◌else◌,
}

-- The name of a control group: of the pool, `<prefix>-<i>`, or of a container's own, its identifier in
-- decimal. The first has a dash, the second has none. `InitCacheContainerFactory` and
-- `InitHandlerContainerFactory` give two prefixes.
pub data CgName : Type 0 where
  pool_cg : (prefix i : ℕ) → CgName
  own_cg : ℕ → CgName

-- `id == cgId`
abbrev pub is_own : ℕ → CgName → Bool
is_own id (pool_cg prefix i) = false
is_own id (own_cg n) = n == id

-- `free_cg` is none where the pool has the size 0.
pub record CgroupFactory : Type 0 where
  pub pool_size : ℕ
  pub free_cg : Option (List CgName)

-- The loop that fills the pool, from `i` on.
unfoldable pub fill_pool : (CgName → Bool) → ℕ → ℕ → ℕ → List CgName → Option (List CgName)
fill_pool create prefix i zero free = some free
fill_pool create prefix i (suc left) free =
    let rest = fill_pool create prefix (suc i) left (free ++ pool_cg prefix i ∷ []) in
    if create (pool_cg prefix i) then rest else none

unfoldable pub new_cgroup_factory : (CgName → Bool) → ℕ → ℕ → Option CgroupFactory
unfolding fill_pool
new_cgroup_factory create prefix pool_size =
    if pool_size == 0
    then some (record { pool_size = pool_size; free_cg = none })
    else elim (fill_pool create prefix 1 pool_size []) [
      | none ↦ none
      | some free ↦ some (record { pool_size = pool_size; free_cg = some free })
    ]

-- The front of the pool, and the rest.
abbrev pub front : Option (List CgName) → Option CgName
front none = none
front (some []) = none
front (some (cg ∷ free)) = some cg

abbrev pub behind : Option (List CgName) → Option (List CgName)
behind none = none
behind (some []) = some []
behind (some (cg ∷ free)) = some free

-- `GetCg`: with an error where the control group of the container's own cannot be created.
unfoldable pub get_cg : (CgName → Bool) → ℕ → CgroupFactory → CgroupFactory × Option CgName
get_cg create id f = elim (front f.free_cg) [
  | none ↦ (f, if create (own_cg id) then some (own_cg id) else none)
  | some cg ↦ (record f { free_cg = behind f.free_cg }, some cg)
]

pub data Put : Type 0 where
  put_ok put_error nil_list : Put

-- `PutCg`: a control group of the pool goes to its back. Without a list that panics.
unfoldable pub put_cg : (CgName → Bool) → ℕ → CgName → CgroupFactory → CgroupFactory × Put
put_cg destroy id cg f =
    if is_own id cg then (f, if destroy cg then put_ok else put_error) else elim f.free_cg [
      | none ↦ (f, nil_list)
      | some free ↦ (record f { free_cg = some (free ++ cg ∷ []) }, put_ok)
    ]

-- A factory of containers: its control groups, and the last identifier that it gave plus one.
pub record ContainerFactory : Type 0 where
  pub cgf : CgroupFactory
  pub next_id : ℕ

-- How `Create` ends: an error before a control group is asked for, one of `GetCg`, one of the mounts
-- after it, or a container with its control group.
pub data Created : Type 0 where
  early_error cg_error mount_error : Created
  created : ℕ → CgName → Created

-- What is answered to `Create`: of all that comes before `GetCg`, and of `MountDirs` after it.
pub record CreateAnswers : Type 0 where
  pub prepared : Bool
  pub create_cg : CgName → Bool
  pub mounted : Bool

abbrev pub with_cg : CreateAnswers → ℕ → Option CgName → Created
with_cg a id none = cg_error
with_cg a id (some cg) = if a.mounted then created id cg else mount_error

unfoldable pub create : CreateAnswers → ContainerFactory → ContainerFactory × Created
unfolding get_cg
create a f =
    let id = f.next_id in
    if a.prepared
    then (
      record { cgf = (get_cg a.create_cg id f.cgf).0; next_id = suc id },
      with_cg a id (get_cg a.create_cg id f.cgf).1,
    )
    else (record f { next_id = suc id }, early_error)
