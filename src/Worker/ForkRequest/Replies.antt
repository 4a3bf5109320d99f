-- ===== src/Worker/ForkRequest/Replies.antt =====
-- The reply of the request to a fork server.
use s19_lambda.Base.{
  ℕ, zero, suc, ◌+◌, ◌≡◌, refl, true, Option, none, some, List, [], ◌∷◌, map, range, Option-cases,
  List-cases, inl, inr,
}
use s19_lambda.Worker.ForkRequest.{fork_loop, attempts, fork_request}

-- The first text that is not empty, of the answers of `sendFds` that are no errors.
unfoldable pub first_process : List (Option (List ℕ)) → List ℕ
first_process [] = []
first_process (none ∷ l) = first_process l
first_process (some [] ∷ l) = first_process l
first_process (some (c ∷ cs) ∷ l) = c ∷ cs

fork_loop-first_process :
    (f : ℕ → Option (List ℕ)) (k left : ℕ)
    → fork_loop f k left ≡ (first_process (map f (range k left)), true)
unfolding fork_loop first_process
fork_loop-first_process f k zero = refl
fork_loop-first_process f k (suc left) =
    let rest = fork_loop-first_process f (k + 1) left in
    elim (Option-cases (f k)) [
      | inl e ↦ rw (e, fork_loop, first_process) rest
      | inr (text, e) ↦ elim (List-cases text) [
        | inl z ↦ rw (e, z, fork_loop, first_process) rest
        | inr (c, cs, z) ↦ rw (e, z, fork_loop, first_process) refl
      ]
    ]

-- The request gives the first process that one of its five calls gives, and never an error: where no
-- call gives a process, the reply is the empty text and no error.
pub fork_request-first_process :
    (f : ℕ → Option (List ℕ)) → fork_request f ≡ (first_process (map f (range 0 attempts)), true)
unfolding fork_request
fork_request-first_process f = fork_loop-first_process f 0 attempts
