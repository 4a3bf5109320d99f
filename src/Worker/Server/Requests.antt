-- ===== src/Worker/Server/Requests.antt =====
-- What a request leaves behind.
use s19_lambda.Base.{
  ℕ, ◌<◌, ◌≡◌, ◌≢◌, refl, ap, ◌∙◌, String, some, List, [], ◌∷◌, str_eq, if◌then◌else◌, arith,
  Bool-cases, Option-cases, inl, inr,
}
use s19_lambda.Worker.History.{
  History, handler_access, open_code, close_code, peek, apply_code, rename,
}
use s19_lambda.Worker.History.Access.{IsValid, Accessed, hit, filled, replaced, refused}
use s19_lambda.Worker.History.Warm.{close_peek, handler_access_total, Accessed-result}
use s19_lambda.Worker.Server.{
  Env, Worker, Response, ok, http_error, crash, waiting, forward_to_sandbox, run_handler,
  run_lambda_err, close_history, run_lambda, get_url_components, image,
}

-- A path of a single part crashes the request, after the answer that the name is missing: the history
-- reads the second part all the same.
pub short_path_crashes :
    (env : Env) (method : String) (path part : List ℕ) (w : Worker)
    → get_url_components path ≡ part ∷ []
    → run_lambda env method path w ≡ (w, crash)
unfolding run_lambda run_lambda_err close_history
short_path_crashes env method path part w e =
    let before : run_lambda_err env path w ≡ (w, http_error 400) = rw (e, run_lambda_err) refl in
    elim (Bool-cases (str_eq method "OPTIONS")) [
      | inl t ↦ rw (run_lambda, t) (rw (e, close_history) refl)
      | inr u ↦ rw (run_lambda, u) (rw (before) (rw (e, close_history) refl))
    ]

abbrev IsUsable : History → Type 0
IsUsable h = IsValid h × (0 < h.log_size)

run_handler-history :
    (env : Env) (name : String) (w : Worker) → (run_handler env name w).0.history ≡ w.history
unfolding run_handler forward_to_sandbox
run_handler-history env name w = ground arith

apply_code-log_size : (i code : ℕ) (h : History) → (apply_code i code h).0.log_size ≡ h.log_size
unfolding apply_code
apply_code-log_size i code h = ground arith

Accessed-log_size :
    (hname : String) (code : ℕ) (h : History) (r : History × ℕ)
    → Accessed hname code h r
    → r.0.log_size ≡ h.log_size
Accessed-log_size hname code h r (hit i e p) =
    ap (λ q. q.0.log_size) p ∙ apply_code-log_size i code h
Accessed-log_size hname code h r (filled i e p) =
    ap (λ q. q.0.log_size) p ∙ apply_code-log_size i code (rename i hname h)
Accessed-log_size hname code h r (replaced i e lt cold p) =
    ap (λ q. q.0.log_size) p ∙ apply_code-log_size i code (rename i hname h)
Accessed-log_size hname code h r (refused e warm p) = ap (λ q. q.0.log_size) p

access-IsUsable :
    (hname : String) (code random : ℕ) (h : History)
    → IsUsable h
    → (r : History × ℕ) × (handler_access hname code random h ≡ some r) × IsUsable r.0
access-IsUsable hname code random h (v, pos) =
    let (r, e, valid, bit) = handler_access_total hname code random h v pos in
    let size = Accessed-log_size hname code h r (Accessed-result hname code random h r pos e) in
    (r, e, (valid, omega (arith, size)))

run_lambda_err-IsUsable :
    (env : Env) (path first part : List ℕ) (rest : List (List ℕ)) (w : Worker)
    → get_url_components path ≡ first ∷ part ∷ rest
    → IsUsable w.history
    → IsUsable (run_lambda_err env path w).0.history
unfolding run_lambda_err
run_lambda_err-IsUsable env path first part rest w e u = elim (Option-cases (image part)) [
  | inl none_left ↦ rw (e, none_left, run_lambda_err) u
  | inr (img, left) ↦ elim (Bool-cases env.body_read) [
    | inr no_body ↦ rw (e, left, no_body, run_lambda_err) u
    | inl body ↦
        let (r, access, after) = access-IsUsable (env.text part) open_code env.random w.history u in
        rw (e, left, body, access, run_lambda_err)
          (rw (run_handler-history env (env.text img) (record w { history = r.0 })) after)
  ]
]

close-closes :
    (env : Env) (path first part : List ℕ) (rest : List (List ℕ)) (w : Worker) (response : Response)
    (again : ℕ)
    → get_url_components path ≡ first ∷ part ∷ rest
    → IsUsable w.history
    → (close_history env path (w, response)).1 ≢ crash
    → (close_history env path (w, response)).1 ≢ waiting
    → let history = (close_history env path (w, response)).0.history in
      handler_access (env.text part) peek again history ≡ some (history, 0)
unfolding close_history
close-closes env path first part rest w response again e u no_crash no_wait =
    let (r, access, after) =
      access-IsUsable (env.text part) close_code env.random_after w.history u in
    let peeked = close_peek (env.text part) env.random_after again w.history r u.0 u.1 access in
    elim response
        as (λ x.
          (close_history env path (w, x)).1 ≢ crash
          → (close_history env path (w, x)).1 ≢ waiting
          → handler_access (env.text part) peek again (close_history env path (w, x)).0.history
            ≡ some ((close_history env path (w, x)).0.history, 0)) [
              | ok c ↦ λ a b. rw (e, access, close_history) peeked
              | http_error c ↦ λ a b. rw (e, access, close_history) peeked
              | crash ↦ λ a b. absurd (a refl)
              | waiting ↦ λ a b. absurd (b refl)
            ]
      no_crash no_wait

-- After a request of a path with a name that neither crashes nor waits for ever, the history shows the
-- lambda as closed, whatever happened on the way.
pub run_lambda_closes :
    (env : Env) (method : String) (path first part : List ℕ) (rest : List (List ℕ)) (w : Worker)
    (again : ℕ)
    → IsValid w.history
    → 0 < w.history.log_size
    → get_url_components path ≡ first ∷ part ∷ rest
    → (run_lambda env method path w).1 ≢ crash
    → (run_lambda env method path w).1 ≢ waiting
    → let history = (run_lambda env method path w).0.history in
      handler_access (env.text part) peek again history ≡ some (history, 0)
unfolding run_lambda
run_lambda_closes env method path first part rest w again v pos parts no_crash no_wait =
    let before = if str_eq method "OPTIONS" then (w, ok 200) else run_lambda_err env path w in
    let usable : IsUsable before.0.history = elim (Bool-cases (str_eq method "OPTIONS")) [
      | inl t ↦ rw t (v, pos)
      | inr u ↦ rw u (run_lambda_err-IsUsable env path first part rest w parts (v, pos))
    ] in
    close-closes env path first part rest before.0 before.1 again parts usable no_crash no_wait
