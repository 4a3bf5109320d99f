-- ===== src/Worker/Paths.antt =====
-- The functions of Go's `path` and `path/filepath` that the worker uses, on Unix. A path is the list of its
-- characters.
use s19_lambda.Base.{
  ℕ, Bool, true, false, ◌&&◌, ◌||◌, Option, none, some, List, [], ◌∷◌, ◌++◌, if◌then◌else◌, ◌==◌,
}
use s19_lambda.Worker.Server.{slash, split}

abbrev pub is_abs : List ℕ → Bool
is_abs [] = false
is_abs (c ∷ cs) = c == slash

abbrev pub is_empty : List ℕ → Bool
is_empty [] = true
is_empty (c ∷ cs) = false

abbrev pub dot : ℕ
dot = 46

-- "."
abbrev pub is_dot : List ℕ → Bool
is_dot [] = false
is_dot (c ∷ []) = c == dot
is_dot (c ∷ d ∷ cs) = false

-- ".."
abbrev pub is_dot_dot : List ℕ → Bool
is_dot_dot [] = false
is_dot_dot (c ∷ []) = false
is_dot_dot (c ∷ d ∷ []) = c == dot && d == dot
is_dot_dot (c ∷ d ∷ e ∷ cs) = false

-- A ".." removes the element before it; one that has none before it is kept, but not behind a root.
abbrev pub step_up : Bool → List (List ℕ) → List ℕ → List (List ℕ)
step_up rooted [] part = if rooted then [] else part ∷ []
step_up rooted (top ∷ stack) part = if is_dot_dot top then part ∷ top ∷ stack else stack

-- The elements that are left, the last one first.
unfoldable pub clean_parts : Bool → List (List ℕ) → List (List ℕ) → List (List ℕ)
clean_parts rooted stack [] = stack
clean_parts rooted stack (part ∷ parts) =
    clean_parts rooted
      (if is_empty part || is_dot part
        then stack
        else if is_dot_dot part
        then step_up rooted stack part
        else part ∷ stack)
      parts

-- The elements, the last one first, with a slash between them.
unfoldable pub join_parts : List (List ℕ) → List ℕ
join_parts [] = []
join_parts (part ∷ []) = part
join_parts (part ∷ q ∷ stack) = join_parts (q ∷ stack) ++ slash ∷ part

unfoldable pub clean : List ℕ → List ℕ
unfolding clean_parts join_parts
clean path =
    let parts = join_parts (clean_parts (is_abs path) [] (split slash path)) in
    if is_abs path then slash ∷ parts else if is_empty parts then dot ∷ [] else parts

-- `filepath.Join` of two elements; an empty element is left out.
unfoldable pub join_path : List ℕ → List ℕ → List ℕ
unfolding clean
join_path a b =
    if is_empty a
    then if is_empty b then [] else clean b
    else if is_empty b
    then clean a
    else clean (a ++ slash ∷ b)

-- What stands before the last slash, with it.
unfoldable pub up_to_slash : List ℕ → List ℕ
up_to_slash [] = []
up_to_slash (c ∷ cs) =
    let rest = up_to_slash cs in
    if is_empty rest then if c == slash then c ∷ [] else [] else c ∷ rest

unfoldable pub dir : List ℕ → List ℕ
unfolding up_to_slash clean
dir path = clean (up_to_slash path)

-- `filepath.Abs`; `wd` is the working directory, or the error of asking for it.
unfoldable pub abs : Option (List ℕ) → List ℕ → Option (List ℕ)
unfolding clean join_path
abs wd path =
    if is_abs path
    then some (clean path)
    else elim wd [ none ↦ none | some w ↦ some (join_path w path) ]
