-- ===== src/Balancer/Registry/Files.antt =====
-- The packages of a handler that `push_cluster_handler` reads from a file.
use s19_lambda.Base.{
  ℕ, ◌≡◌, refl, ap, ◌∙◌, String, true, false, some, List, [], ◌∷◌, ◌++◌, map, length, leb, ◌==◌,
  All, sym, if◌then◌else◌, arith,
}
use s19_lambda.Base.Int.{negsuc}
use s19_lambda.Worker.Server.{split}
use s19_lambda.Worker.Server.Urls.{has_none, join, split-append, split-join}
use s19_lambda.Balancer.Registry.{MetaRegistry, push, without_last, newline, push_cluster_handler}

-- A line for each name, with its end.
unfoldable pub lines : List (List ℕ) → List ℕ
lines [] = []
lines (name ∷ names) = name ++ newline ∷ lines names

split-lines :
    (names : List (List ℕ))
    → All (λ n. has_none newline n ≡ true) names
    → split newline (lines names) ≡ names ++ [] ∷ []
unfolding split lines
split-lines [] h = refl
split-lines (name ∷ names) h =
    split-append newline name (lines names) h.0 ∙ ap (λ l. name ∷ l) (split-lines names h.1)

without_last-append : (l : List (List ℕ)) (x : List ℕ) → without_last (l ++ x ∷ []) ≡ l
unfolding without_last
without_last-append [] x = refl
without_last-append (y ∷ []) x = refl
without_last-append (y ∷ z ∷ l) x = ap (λ k. y ∷ k) (without_last-append (z ∷ l) x)

push_rows :
    (text : List ℕ → String) (h : String) (file : List ℕ) (row : List ℕ) (other : List ℕ)
    (rows : List (List ℕ)) (mr : MetaRegistry)
    → split newline file ≡ row ∷ other ∷ rows
    → push_cluster_handler text h (some file) mr
      ≡ push h (map text (without_last (row ∷ other ∷ rows))) mr
unfolding push_cluster_handler
push_rows text h file row other rows mr e =
    let few : leb (length (row ∷ other ∷ rows)) 1 ≡ false = ground arith in rw (e, few) refl

two_rows :
    (name last : List ℕ) (names : List (List ℕ))
    → (other : List ℕ) × (rows : List (List ℕ)) × ((name ∷ names) ++ last ∷ []
        ≡ name ∷ other ∷ rows)
two_rows name last [] = (last, [], refl)
two_rows name last (other ∷ names) = (other, names ++ last ∷ [], refl)

-- The file without the end of its last line.
join_pushed :
    (text : List ℕ → String) (h : String) (name : List ℕ) (names : List (List ℕ))
    (mr : MetaRegistry)
    → All (λ n. has_none newline n ≡ true) (name ∷ names)
    → push_cluster_handler text h (some (join newline (name ∷ names))) mr ≡ (
        if length names == 0
        then some (mr, negsuc 0)
        else push h (map text (without_last (name ∷ names))) mr)
unfolding push_cluster_handler
join_pushed text h name [] mr ok = rw (split-join newline name [] ok) refl
join_pushed text h name (q ∷ more) mr ok =
    let many : (length (q ∷ more) == 0) ≡ false = ground arith in
    push_rows text h (join newline (name ∷ q ∷ more)) name q more mr
      (split-join newline name (q ∷ more) ok)
    ∙ rw many refl

-- From a file with a line for each of one or more names, in which no name holds a line's end, the handler is pushed with
-- exactly those names. Where the last line is not ended, its name is left out; a single such line is an
-- error, and the registry stays as it is.
pub push_cluster_handler-lines :
    (text : List ℕ → String) (h : String) (name : List ℕ) (names : List (List ℕ))
    (mr : MetaRegistry)
    → All (λ n. has_none newline n ≡ true) (name ∷ names)
    → (push_cluster_handler text h (some (lines (name ∷ names))) mr
        ≡ push h (map text (name ∷ names)) mr)
      × (push_cluster_handler text h (some (join newline (name ∷ names))) mr ≡ (
          if length names == 0
          then some (mr, negsuc 0)
          else push h (map text (without_last (name ∷ names))) mr))
push_cluster_handler-lines text h name names mr ok =
    let (other, rows, e) = two_rows name [] names in
    (
      push_rows text h (lines (name ∷ names)) name other rows mr (split-lines (name ∷ names) ok ∙ e)
          ∙ ap (λ l. push h (map text l) mr)
              (ap without_last (sym e) ∙ without_last-append (name ∷ names) []),
      join_pushed text h name names mr ok,
    )
