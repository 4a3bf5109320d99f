-- ===== src/Worker/Server.antt =====
-- The requests of worker/server/server.go: from the path to the handler and back. A path is a list of
-- bytes, `text` makes a string of bytes, and `Env` is what a request meets on its way.
pub mod Urls
pub mod Requests
mod Tests
use mathlib.Core.Option
use s19_lambda.Base.{
  ℕ, zero, suc, ◌+◌, String, Bool, true, false, not, Option, none, some, List, [], ◌∷◌, str_eq,
  if◌then◌else◌, ◌==◌,
}
use s19_lambda.Worker.Pool.{
  HandlerManagerSet, Code, get, got, failed, blocked, run_finish, Finished, panicked,
}
use s19_lambda.Worker.History.{History, handler_access, open_code, close_code}

-- "/" and "?"
abbrev pub slash : ℕ
slash = 47

abbrev pub question : ℕ
question = 63

-- `strings.Split`: there is always one part at least.
unfoldable pub split : ℕ → List ℕ → List (List ℕ)
split sep [] = [] ∷ []
split sep (c ∷ cs) = elim (split sep cs) [
  | [] ↦ []
  | part ∷ parts ↦ if c == sep then [] ∷ part ∷ parts else (c ∷ part) ∷ parts
]

unfoldable pub trim_prefix : List ℕ → List ℕ
trim_prefix [] = []
trim_prefix (c ∷ cs) = if c == slash then cs else c ∷ cs

unfoldable pub trim_suffix : List ℕ → List ℕ
trim_suffix [] = []
trim_suffix (c ∷ []) = if c == slash then [] else c ∷ []
trim_suffix (c ∷ d ∷ cs) = c ∷ trim_suffix (d ∷ cs)

-- `getUrlComponents`
unfoldable pub get_url_components : List ℕ → List (List ℕ)
unfolding split trim_prefix trim_suffix
get_url_components path = split slash (trim_suffix (trim_prefix path))

-- `strings.Index`
unfoldable pub index : ℕ → List ℕ → Option ℕ
index c [] = none
index c (x ∷ xs) = if x == c then some 0 else Option.map suc (index c xs)

unfoldable pub take : ℕ → List ℕ → List ℕ
take zero xs = []
take (suc n) [] = []
take (suc n) (x ∷ xs) = x ∷ take n xs

-- The name of the lambda in the second part: up to the byte before the "?". A slice that ends at -1
-- panics.
unfoldable pub image : List ℕ → Option (List ℕ)
unfolding index take
image part = elim (index question part) [
  | none ↦ some part
  | some zero ↦ none
  | some (suc i) ↦ some (take i part)
]

-- What a request meets: whether the body is read, what the pull gives, whether `RunStart` gives a
-- channel, whether the request to the sandbox can be made, what the tries to send it give, what
-- `RunFinish` finds, and whether the answer is written.
pub record Env : Type 0 where
  pub text : List ℕ → String
  pub body_read : Bool
  pub pulled : Option Code
  pub started : Bool
  pub request_made : Bool
  pub replies : ℕ → Option ℕ
  pub usage : Option ℕ
  pub usage_again : Option ℕ
  pub pause_ok : Bool
  pub now : ℕ
  pub written : Bool
  pub random : ℕ
  pub random_after : ℕ

pub record Worker : Type 0 where
  pub pool : HandlerManagerSet
  pub history : History

-- The end of a request; `waiting` is one that waits for a mutex for ever.
pub data Response : Type 0 where
  ok : ℕ → Response
  http_error : ℕ → Response
  crash : Response
  waiting : Response

-- `max_tries`
abbrev pub max_tries : ℕ
max_tries = 10

-- The tries to send the request; `none` of the fuel runs out where `max_tries` is not met.
unfoldable pub send_tries : ℕ → (ℕ → Option ℕ) → ℕ → Option ℕ
send_tries zero replies tries = none
send_tries (suc f) replies tries =
    let rest = send_tries f replies (suc tries) in
    elim (replies tries) [
      | some code ↦ some code
      | none ↦ if tries == max_tries then none else rest
    ]

-- `ForwardToSandbox` of a handler that runs: `RunFinish` is deferred.
unfoldable pub forward_to_sandbox : Env → ℕ → HandlerManagerSet → HandlerManagerSet × Response
unfolding send_tries
forward_to_sandbox env h pool =
    if not env.started
    then (pool, http_error 500)
    else let sent = if env.request_made then send_tries max_tries env.replies 1 else none in
      let (pool', finish) = run_finish pool h env.usage env.usage_again env.pause_ok env.now in
      (
        pool',
        elim finish [
          | panicked ↦ crash
          | _ ↦ elim sent [ none ↦ http_error 500 | some code ↦ ok code ]
        ],
      )

-- From `Get` on.
unfoldable pub run_handler : Env → String → Worker → Worker × Response
unfolding forward_to_sandbox
run_handler env name w =
    let (pool, result) = get w.pool name env.pulled in
    elim result [
      | failed ↦ (record w { pool = pool }, http_error 500)
      | blocked ↦ (record w { pool = pool }, waiting)
      | got h ↦
          let (pool', response) = forward_to_sandbox env h pool in
          (
            record w { pool = pool' },
            elim response [
              | ok code ↦ if env.written then ok code else http_error 500
              | other ↦ other
            ],
          )
    ]

-- `RunLambdaErr`
unfoldable pub run_lambda_err : Env → List ℕ → Worker → Worker × Response
unfolding get_url_components image run_handler
run_lambda_err env path w = elim (get_url_components path) [
  | [] ↦ (w, http_error 400)
  | _ ∷ [] ↦ (w, http_error 400)
  | _ ∷ part ∷ _ ↦ elim (image part) [
    | none ↦ (w, crash)
    | some img ↦
        if env.body_read
        then elim (handler_access (env.text part) open_code env.random w.history) [
          | none ↦ (w, crash)
          | some (history, _) ↦ run_handler env (env.text img) (record w { history = history })
        ]
        else (w, http_error 500)
  ]
]

-- The end of `RunLambda`, where nothing panicked before and nothing waits.
unfoldable pub close_history : Env → List ℕ → Worker × Response → Worker × Response
unfolding get_url_components
close_history env path (w, crash) = (w, crash)
close_history env path (w, waiting) = (w, waiting)
close_history env path (w, response) = elim (get_url_components path) [
  | [] ↦ (w, crash)
  | _ ∷ [] ↦ (w, crash)
  | _ ∷ part ∷ _ ↦ elim (handler_access (env.text part) close_code env.random_after w.history) [
    | none ↦ (w, crash)
    | some (history, _) ↦ (record w { history = history }, response)
  ]
]

-- `RunLambda`
unfoldable pub run_lambda : Env → String → List ℕ → Worker → Worker × Response
unfolding run_lambda_err close_history
run_lambda env method path w =
    close_history env path
      (if str_eq method "OPTIONS" then (w, ok 200) else run_lambda_err env path w)
