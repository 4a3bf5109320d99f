-- ===== src/Balancer/Config/Defaults.antt =====
-- What the defaults make of a configuration.
use s19_lambda.Base.{
  ℕ, suc, ◌+◌, ◌≡◌, ◌↔◌, refl, ap, sym, ◌∙◌, String, Bool, true, false, not, ◌&&◌, List, [], ◌∷◌,
  map, str_eq, if◌then◌else◌, All, arith, length, ◌==◌, ◌||◌, Bool-cases, inl, inr,
}
use s19_lambda.Base.Int.{ℤ, pos, eqb_ℤ, pos_part, pos_add, eqb_ℤ_iff}
use s19_lambda.Balancer.Servers.{FloatOps, Server, Proxy}
use s19_lambda.Balancer.Config.{
  or_default, default_limit, add_limits, total_limit, remove_empty, generate_validation_errors,
  set_default_values,
}

or_default_given : (s d : String) → str_eq d "" ≡ false → str_eq (or_default s d) "" ≡ false
or_default_given s d e = ground arith

or_default_twice : (s d : String) → or_default (or_default s d) d ≡ or_default s d
or_default_twice s d = ground arith

port_given : (n : ℤ) → eqb_ℤ (if eqb_ℤ n (pos 0) then pos 7079 else n) (pos 0) ≡ false
port_given n = ground arith

port_twice :
    (n : ℤ)
    → let d = if eqb_ℤ n (pos 0) then pos 7079 else n in
      (if eqb_ℤ d (pos 0) then pos 7079 else d) ≡ d
port_twice n = ground arith

zero_twice :
    {F : Type 0} (o : FloatOps F) (x d : F)
    → o.eq d (o.of_int (pos 0)) ≡ false
    → let y = if o.eq x (o.of_int (pos 0)) then d else x in
      (if o.eq y (o.of_int (pos 0)) then d else y) ≡ y
zero_twice o x d e = elim (Bool-cases (o.eq x (o.of_int (pos 0)))) [
  | inl t ↦ rw (t, e) refl
  | inr u ↦ rw (u, u) refl
]

abbrev pub is_known : String → Bool
is_known scheme = str_eq scheme "" || str_eq scheme "http" || str_eq scheme "https"

scheme_checked :
    (s : String)
    → let t = or_default s "http" in
      (not (str_eq t "http") && not (str_eq t "https")) ≡ not (is_known s)
scheme_checked s = elim (Bool-cases (str_eq s "")) [ inl t ↦ rw t refl | inr u ↦ ground (arith, u) ]

-- With the defaults, a configuration passes the checks exactly when its scheme is http, https or not
-- given.
pub defaults_pass_checks :
    {F : Type 0} (o : FloatOps F) (p : Proxy F)
    → (generate_validation_errors o (set_default_values o p) ≡ []) ↔ (is_known p.scheme ≡ true)
unfolding generate_validation_errors set_default_values remove_empty
defaults_pass_checks o p =
    rw (or_default_given p.host "localhost" refl, port_given p.port, scheme_checked p.scheme)
      (elim (Bool-cases (is_known p.scheme)) [
        | inl t ↦ rw t (λ e. refl, λ e. refl)
        | inr u ↦ rw u (λ e. absurd cc, λ e. absurd cc)
      ])

default_limit_twice :
    {F : Type 0} (s : Server F) → default_limit (default_limit s) ≡ default_limit s
default_limit_twice s = elim (Bool-cases (eqb_ℤ s.max_conn (pos 0))) [
  | inl t ↦ rw t refl
  | inr u ↦ rw (u, u) refl
]

map-default_limit :
    {F : Type 0} (l : List (Server F))
    → map default_limit (map default_limit l) ≡ map default_limit l
map-default_limit [] = refl
map-default_limit (s ∷ l) = rw (default_limit_twice s, map-default_limit l) refl

total_limit_given :
    {F : Type 0} (l : List (Server F)) (n : ℤ) → eqb_ℤ n (pos 0) ≡ false → total_limit l n ≡ n
unfolding total_limit
total_limit_given l n e = rw (e, total_limit) refl

total_limit_twice :
    {F : Type 0} (l : List (Server F)) (n : ℤ) → total_limit l (total_limit l n) ≡ total_limit l n
total_limit_twice l n = elim (Bool-cases (eqb_ℤ (total_limit l n) (pos 0))) [
  | inr given ↦ total_limit_given l (total_limit l n) given
  | inl none_given ↦ elim (Bool-cases (eqb_ℤ n (pos 0))) [
    | inr given ↦ rw (total_limit_given l n given) (total_limit_given l n given)
    | inl zero_given ↦
        let before : n ≡ pos 0 = (eqb_ℤ_iff n (pos 0)).0 zero_given in
        let after : total_limit l n ≡ pos 0 = (eqb_ℤ_iff (total_limit l n) (pos 0)).0 none_given in
        ap (total_limit l) (after ∙ sym before)
  ]
]

-- The defaults of a configuration that has them change nothing more, where the default thresholds are
-- not 0.
pub set_default_values_twice :
    {F : Type 0} (o : FloatOps F) (p : Proxy F)
    → o.eq o.two_fifths (o.of_int (pos 0)) ≡ false
    → o.eq o.one_fifth (o.of_int (pos 0)) ≡ false
    → set_default_values o (set_default_values o p) ≡ set_default_values o p
unfolding set_default_values
set_default_values_twice o p high low =
    let servers = map default_limit p.servers in
    let limits = map-default_limit p.servers in
    let total : total_limit (map default_limit servers) (total_limit servers p.max_conn)
        ≡ total_limit servers p.max_conn =
      ap (λ l. total_limit l (total_limit servers p.max_conn)) limits
      ∙ total_limit_twice servers p.max_conn in
    rw
      (
        or_default_twice p.host "localhost",
        port_twice p.port,
        or_default_twice p.scheme "http",
        or_default_twice p.policy "LARD",
        or_default_twice p.load_formula "Connections",
        total,
        limits,
        zero_twice o p.load_high o.two_fifths high,
        zero_twice o p.load_low o.one_fifth low,
      )
      refl

unfoldable pub limits_of : {F : Type 0} → List (Server F) → ℕ
limits_of [] = 0
limits_of (s ∷ l) = pos_part s.max_conn + limits_of l

abbrev pub IsLimited : {F : Type 0} → Server F → Type 0
IsLimited s = (n : ℕ) × (s.max_conn ≡ pos (suc n))

add_limits_sum :
    {F : Type 0} (l : List (Server F)) (n : ℕ)
    → All IsLimited l
    → add_limits l (pos n) ≡ pos (n + limits_of l)
unfolding add_limits limits_of
add_limits_sum [] n limited = ground arith
add_limits_sum (s ∷ l) n ((k, e), limited) =
    rw (e, add_limits, pos_add n (suc k), add_limits_sum l (n + suc k) limited) (ground arith)

-- The limit of the whole system, where the configuration gives none and each server has a limit of its
-- own: it is the sum of those.
pub total_limit_sum :
    {F : Type 0} (s : Server F) (l : List (Server F))
    → All IsLimited (s ∷ l)
    → total_limit (s ∷ l) (pos 0) ≡ pos (limits_of (s ∷ l))
unfolding total_limit limits_of
total_limit_sum s l limited =
    let left : (length (s ∷ l) == 0) ≡ false = ground arith in
    rw (left, total_limit, add_limits_sum (s ∷ l) 0 limited) (ground arith)
