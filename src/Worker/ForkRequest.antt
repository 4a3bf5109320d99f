-- ===== src/Worker/ForkRequest.antt =====
-- The request to a fork server (worker/import-cache/forkRequest.go): up to five calls of `sendFds`,
-- which is C and an argument: the answer of the call `k` is a text, the number of the new process, or
-- the error `none`. A text is the list of its characters.
pub mod Replies
use s19_lambda.Base.{ℕ, zero, suc, ◌+◌, Bool, true, false, Option, none, some, List, [], ◌∷◌}

-- The number of the process, and whether there is no error.
abbrev pub Reply : Type 0
Reply = List ℕ × Bool

-- The loop from the call `k` on, with `left` calls left. Each round declares an `err` of its own, so
-- that the one which is returned at the end is still nil.
unfoldable pub fork_loop : (ℕ → Option (List ℕ)) → ℕ → ℕ → Reply
fork_loop send_fds k zero = ([], true)
fork_loop send_fds k (suc left) =
    let rest = fork_loop send_fds (k + 1) left in
    elim (send_fds k) [ none ↦ rest | some [] ↦ rest | some (c ∷ cs) ↦ (c ∷ cs, true) ]

abbrev pub attempts : ℕ
attempts = 5

unfoldable pub fork_request : (ℕ → Option (List ℕ)) → Reply
unfolding fork_loop
fork_request send_fds = fork_loop send_fds 0 attempts
