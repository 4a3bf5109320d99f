-- ===== src/Balancer/Servers.antt =====
-- `Server` and its load (load_balancer/server.go), and `Proxy` (load_balancer/proxy.go) with the two
-- global indices. A pointer to a server is its place in `servers`. The operations on `float64` are a
-- record.
use s19_lambda.Base.{ℕ, ◌-◌, ◌^◌, String, Bool, Option, List, if◌then◌else◌, str_eq}
use s19_lambda.Base.Int.{ℤ, pos, negsuc, eqb_ℤ}

pub record FloatOps (F : Type 0) : Type 0 where
  pub of_int : ℤ → F
  pub add : F → F → F
  pub sub : F → F → F
  pub mul : F → F → F
  pub div : F → F → F
  pub max : F → F → F
  pub lt : F → F → Bool
  pub ge : F → F → Bool
  pub eq : F → F → Bool
  -- 0.5, 0.4 and 0.2
  pub half : F
  pub two_fifths : F
  pub one_fifth : F

pub record Server (F : Type 0) : Type 0 where
  pub name : String
  pub scheme : String
  pub host : String
  pub port : ℤ
  pub max_conn : ℤ
  pub cpu_usage : F
  pub mem_usage : F
  pub connections : ℤ

pub record Proxy (F : Type 0) : Type 0 where
  pub host : String
  pub port : ℤ
  pub scheme : String
  pub policy : String
  pub load_formula : String
  pub servers : List (Server F)
  pub request_server_map : String → Option ℕ
  pub load_high : F
  pub load_low : F
  pub connections : ℤ
  pub max_conn : ℤ
  pub rr_server_idx : ℕ
  pub least_load_idx : ℕ

-- -1, where a server has no limit.
abbrev pub unlimited : ℤ
unlimited = negsuc 0

module _ {F : Type 0} (o : FloatOps F) where
  unfoldable pub get_load_by_conn : Server F → F
  get_load_by_conn s =
      if eqb_ℤ s.max_conn unlimited
      then o.div (o.of_int s.connections) (o.of_int (pos (2 ^ 63 - 1)))
      else o.div (o.of_int s.connections) (o.of_int s.max_conn)

  -- A formula of another name leaves `load` at 0.
  unfoldable pub get_load : String → Server F → F
  get_load formula s =
      if str_eq formula "AverageResource"
      then o.add (o.mul o.half s.mem_usage) (o.mul o.half s.cpu_usage)
      else if str_eq formula "AverageResourceConnections"
      then o.div (o.add (o.add s.mem_usage s.cpu_usage) (get_load_by_conn s)) (o.of_int (pos 3))
      else if str_eq formula "DominantResource"
      then o.max s.mem_usage s.cpu_usage
      else if str_eq formula "DominantResourceConnections"
      then o.max (o.max s.mem_usage s.cpu_usage) (get_load_by_conn s)
      else if str_eq formula "Connections"
      then get_load_by_conn s
      else o.of_int (pos 0)
