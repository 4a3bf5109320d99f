-- ===== src/Balancer/Registry.antt =====
-- The graph of lambdas and packages (load_balancer/metaregistry.go). A map of slices gives the empty
-- list for a key that is missing, as Go gives nil. An index out of range panics: `none`.
pub mod Links
pub mod Nodes
pub mod Push
pub mod Refine
pub mod Files
mod Tests
use s19_lambda.Base.{
  ℕ, zero, suc, ◌+◌, String, Bool, true, false, Option, none, some, List, [], ◌∷◌, ◌++◌, get_elem?,
  update_str, str_eq, if◌then◌else◌, length, leb, map,
}
use s19_lambda.Worker.Server.{split}
use s19_lambda.Base.Int.{ℤ, pos, negsuc}

pub record MetaRegistry : Type 0 where
  pub dep_map : String → List ℕ
  pub pckg_lut : String → List ℕ
  pub dep_names : List String
  pub handler_names : List String
  pub cur_did : ℕ
  pub cur_hid : ℕ

-- `init` of a new registry.
unfoldable pub empty_registry : MetaRegistry
empty_registry = record {
  dep_map = λ _. [];
  pckg_lut = λ _. [];
  dep_names = [];
  handler_names = [];
  cur_did = 0;
  cur_hid = 0;
}

infixl 5 ◌>>=◌
abbrev pub ◌>>=◌ {ℓ κ} : {A : Type ℓ} {B : Type κ} → Option A → (A → Option B) → Option B
none >>= f = none
some a >>= f = f a

-- `l[0]`
abbrev pub first : List ℕ → Option ℕ
first [] = none
first (i ∷ _) = some i

-- The handler's node, with its identity at index 0.
unfoldable pub add_handler_node : String → MetaRegistry → MetaRegistry
add_handler_node h mr = record mr {
  dep_map = update_str mr.dep_map h (mr.dep_map h ++ mr.cur_hid ∷ []);
  handler_names = mr.handler_names ++ h ∷ [];
  cur_hid = suc mr.cur_hid;
}

-- A pass of the first loop: a node for a package that has none.
unfoldable pub add_package_node : String → MetaRegistry → MetaRegistry
add_package_node p mr = elim (mr.pckg_lut p) [
  | [] ↦ record mr {
    pckg_lut = update_str mr.pckg_lut p (mr.cur_did ∷ []);
    dep_names = mr.dep_names ++ p ∷ [];
    cur_did = suc mr.cur_did;
  }
  | _ ∷ _ ↦ mr
]

unfoldable pub add_package_nodes : List String → MetaRegistry → MetaRegistry
add_package_nodes [] mr = mr
add_package_nodes (p ∷ ps) mr = add_package_nodes ps (add_package_node p mr)

-- A pass of the second loop: the edge in both directions.
unfoldable pub link : String → String → MetaRegistry → Option MetaRegistry
link h p mr = do
  d ← first (mr.pckg_lut p)
  let deps = mr.dep_map h ++ d ∷ []
  k ← first deps
  some (record mr {
    dep_map = update_str mr.dep_map h deps;
    pckg_lut = update_str mr.pckg_lut p (mr.pckg_lut p ++ k ∷ []);
  })

unfoldable pub link_all : String → List String → MetaRegistry → Option MetaRegistry
link_all h [] mr = some mr
link_all h (p ∷ ps) mr = do mr' ← link h p mr; link_all h ps mr'

-- `push`: -1 where the handler is registered already.
unfoldable pub push : String → List String → MetaRegistry → Option (MetaRegistry × ℤ)
push h ps mr = elim (mr.dep_map h) [
  | [] ↦ do mr' ← link_all h ps (add_package_nodes ps (add_handler_node h mr)); some (mr', pos 0)
  | _ ∷ _ ↦ some (mr, negsuc 0)
]

-- The loop of the two look-ups, over the indices after the first.
unfoldable pub names_at : List String → List ℕ → Option (List String)
names_at names [] = some []
names_at names (i ∷ is) = do n ← get_elem? names i; ns ← names_at names is; some (n ∷ ns)

abbrev pub names_after : List String → List ℕ → Option (List String)
names_after names [] = some []
names_after names (_ ∷ is) = names_at names is

-- `peek_handler_deps`
unfoldable pub peek_handler_deps : String → MetaRegistry → Option (List String)
peek_handler_deps h mr = names_after mr.dep_names (mr.dep_map h)

-- `peek_deps_used_by`
unfoldable pub peek_deps_used_by : String → MetaRegistry → Option (List String)
peek_deps_used_by p mr = names_after mr.handler_names (mr.pckg_lut p)

-- `l[0:len(l)-1]`
unfoldable pub without_last : List (List ℕ) → List (List ℕ)
without_last [] = []
without_last (x ∷ []) = []
without_last (x ∷ y ∷ l) = x ∷ without_last (y ∷ l)

-- "\n"
abbrev pub newline : ℕ
newline = 10

-- `push_cluster_handler`, from the file `packages.txt` of the handler on; a file that cannot be read ends
-- the process. `text` is the string of a row of characters.
unfoldable pub push_cluster_handler :
    (List ℕ → String) → String → Option (List ℕ) → MetaRegistry → Option (MetaRegistry × ℤ)
push_cluster_handler text h none mr = none
push_cluster_handler text h (some file) mr =
    let raw_package_list = split newline file in
    if leb (length raw_package_list) 1
    then some (mr, negsuc 0)
    else push h (map text (without_last raw_package_list)) mr
