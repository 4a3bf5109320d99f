-- ===== src/Balancer/Config.antt =====
-- The defaults and the checks of the load balancer's configuration (load_balancer/config.go). The
-- configuration comes from a parser, which leaves zero values for what is not given.
pub mod Defaults
use s19_lambda.Base.{
  ℕ, String, Bool, true, false, not, ◌&&◌, List, [], ◌∷◌, map, length, ◌==◌, str_eq, if◌then◌else◌,
}
use s19_lambda.Base.Int.{ℤ, pos, ◌+ℤ◌, eqb_ℤ}
use s19_lambda.Balancer.Servers.{FloatOps, Server, Proxy, unlimited}

abbrev pub validation : Bool → String → String
validation condition error_message = if condition then error_message else ""

unfoldable pub remove_empty : List String → List String
remove_empty [] = []
remove_empty (e ∷ errors) = let rest = remove_empty errors in if str_eq e "" then rest else e ∷ rest

-- A value of the configuration, or its default.
abbrev pub or_default : String → String → String
or_default s d = if str_eq s "" then d else s

-- A server without a limit in the configuration has none.
abbrev pub default_limit : {F : Type 0} → Server F → Server F
default_limit s = if eqb_ℤ s.max_conn (pos 0) then record s { max_conn = unlimited } else s

-- The loop over the servers' limits, up to the first that has none.
unfoldable pub add_limits : {F : Type 0} → List (Server F) → ℤ → ℤ
add_limits [] total = total
add_limits (s ∷ rest) total =
    let more = add_limits rest (total +ℤ s.max_conn) in
    if eqb_ℤ s.max_conn unlimited then unlimited else more

unfoldable pub total_limit : {F : Type 0} → List (Server F) → ℤ → ℤ
unfolding add_limits
total_limit servers max_conn =
    if eqb_ℤ max_conn (pos 0)
    then if length servers == 0 then unlimited else add_limits servers max_conn
    else max_conn

module _ {F : Type 0} (o : FloatOps F) where
  unfoldable pub generate_validation_errors : Proxy F → List String
  unfolding remove_empty
  generate_validation_errors p = remove_empty (
      validation (str_eq p.host "") "the 'host' field cannot be blank"
      ∷ validation (eqb_ℤ p.port (pos 0)) "the 'port' field cannot be blank"
      ∷ validation (not (str_eq p.scheme "http") && not (str_eq p.scheme "https"))
          "the proxy scheme must be either 'http' or 'https'"
      ∷ [])

  unfoldable pub set_default_values : Proxy F → Proxy F
  unfolding total_limit
  set_default_values p =
      let servers = map default_limit p.servers in
      record p {
        host = or_default p.host "localhost";
        port = if eqb_ℤ p.port (pos 0) then pos 7079 else p.port;
        scheme = or_default p.scheme "http";
        policy = or_default p.policy "LARD";
        load_formula = or_default p.load_formula "Connections";
        servers = servers;
        load_high = if o.eq p.load_high (o.of_int (pos 0)) then o.two_fifths else p.load_high;
        load_low = if o.eq p.load_low (o.of_int (pos 0)) then o.one_fifth else p.load_low;
        max_conn = total_limit servers p.max_conn;
      }
