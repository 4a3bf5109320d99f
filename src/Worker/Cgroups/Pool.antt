-- ===== src/Worker/Cgroups/Pool.antt =====
-- The control groups that are free and in use: the steps of a factory, and what holds of its states.
use s19_lambda.Base.{
  ℕ, zero, suc, ◌+◌, ◌≤◌, ◌<◌, ◌≡◌, Bool, false, Option, none, some, List, [], ◌∷◌, ◌++◌, ◌==◌,
  ◌&&◌, if◌then◌else◌, ltb, get_elem?, remove_at, arith, Bool-cases, inl, inr,
}
use s19_lambda.Worker.Cgroups.{
  CgName, pool_cg, own_cg, put_cg, ContainerFactory, Created, early_error, cg_error, mount_error,
  created, CreateAnswers, create,
}

abbrev pub same_cg : CgName → CgName → Bool
same_cg (pool_cg p i) (pool_cg q j) = p == q && i == j
same_cg (pool_cg p i) (own_cg n) = false
same_cg (own_cg n) (pool_cg p i) = false
same_cg (own_cg n) (own_cg m) = n == m

-- How often a control group stands in a list.
unfoldable pub count_cg : CgName → List CgName → ℕ
count_cg cg [] = 0
count_cg cg (x ∷ xs) = (if same_cg x cg then 1 else 0) + count_cg cg xs

-- The containers that are in use.
pub record System : Type 0 where
  pub factory : ContainerFactory
  pub used : List (ℕ × CgName)

-- How often a control group is in use.
unfoldable pub count_used : CgName → List (ℕ × CgName) → ℕ
count_used cg [] = 0
count_used cg ((id, x) ∷ used) = (if same_cg x cg then 1 else 0) + count_used cg used

abbrev pub listed : Option (List CgName) → List CgName
listed none = []
listed (some free) = free

abbrev pub add_used : Created → List (ℕ × CgName) → List (ℕ × CgName)
add_used early_error used = used
add_used cg_error used = used
add_used mount_error used = used
add_used (created id cg) used = (id, cg) ∷ used

-- Containers come, and each goes once.
pub data Step (s : System) : System → Type 0 where
  creates :
      (a : CreateAnswers)
      → Step s (record {
        factory = (create a s.factory).0;
        used = add_used (create a s.factory).1 s.used;
      })
  removes :
      (destroy : CgName → Bool) (i id : ℕ) (cg : CgName)
      → get_elem? s.used i ≡ some (id, cg)
      → Step s (record {
        factory = record s.factory { cgf = (put_cg destroy id cg s.factory.cgf).0 };
        used = remove_at s.used i;
      })

pub data Reach (s : System) : System → Type 0 where
  here : Reach s s
  next : {t u : System} → Reach s t → Step t u → Reach s u

-- Each control group of the pool is free or in use, once at most; one of a container's own is in use,
-- once at most, and under an identifier that is given.
pub record PoolInv (s : System) : Type 0 where
  pub once : (cg : CgName) → count_cg cg (listed s.factory.cgf.free_cg) + count_used cg s.used ≤ 1
  pub given : (n : ℕ) → 0 < count_used (own_cg n) s.used → n < s.factory.next_id
  pub not_free : (n : ℕ) → count_cg (own_cg n) (listed s.factory.cgf.free_cg) ≡ 0
  pub own : (i id n : ℕ) → get_elem? s.used i ≡ some (id, own_cg n) → n ≡ id

pub count_cg-append :
    (cg : CgName) (l m : List CgName) → count_cg cg (l ++ m) ≡ count_cg cg l + count_cg cg m
unfolding count_cg
count_cg-append cg [] m = omega arith
count_cg-append cg (x ∷ l) m = omega (arith, count_cg-append cg l m)

pub count_used-remove_at :
    (cg : CgName) (used : List (ℕ × CgName)) (i id : ℕ) (x : CgName)
    → get_elem? used i ≡ some (id, x)
    → count_used cg (remove_at used i) + (if same_cg x cg then 1 else 0) ≡ count_used cg used
unfolding count_used
count_used-remove_at cg [] i id x e = absurd (ground (arith, e))
count_used-remove_at cg ((n, y) ∷ used) zero id x e =
    let same : y ≡ x = ground (arith, e) in rw same (omega arith)
count_used-remove_at cg ((n, y) ∷ used) (suc i) id x e =
    omega (arith, count_used-remove_at cg used i id x e)

pub get_elem?-remove_at :
    (used : List (ℕ × CgName)) (i j : ℕ) (x : ℕ × CgName)
    → get_elem? (remove_at used i) j ≡ some x
    → (k : ℕ) × (get_elem? used k ≡ some x)
get_elem?-remove_at [] i j x e = absurd (ground (arith, e))
get_elem?-remove_at (y ∷ used) zero j x e = (suc j, e)
get_elem?-remove_at (y ∷ used) (suc i) zero x e = (0, e)
get_elem?-remove_at (y ∷ used) (suc i) (suc j) x e =
    let (k, h) = get_elem?-remove_at used i j x e in (suc k, h)

abbrev pub system : ℕ → Option (List CgName) → ℕ → List (ℕ × CgName) → System
system pool_size free next_id used = record {
  factory = record { cgf = record { pool_size = pool_size; free_cg = free }; next_id = next_id };
  used = used;
}

-- The next identifier is in no use.
pub unused : (s : System) → PoolInv s → count_used (own_cg s.factory.next_id) s.used ≡ 0
unused s v = elim (Bool-cases (ltb 0 (count_used (own_cg s.factory.next_id) s.used))) [
  | inl more ↦ absurd (ground (arith, v.given s.factory.next_id (ground (arith, more))))
  | inr none_left ↦ ground (arith, none_left)
]
