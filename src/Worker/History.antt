-- ===== src/Worker/History.antt =====
-- The history of the lambdas that a worker has run (worker/server/hist.go). The slices `hnames` and
-- `present` have `logSize` entries, which `Init` sees to. The random number is an argument.
pub mod Slots
pub mod Access
pub mod Warm
mod Tests
use mathlib.Core.Option
use s19_lambda.Base.{
  ℕ, zero, suc, ◌+◌, ◌%◌, String, Bool, true, false, Option, none, some, List, [], ◌∷◌, ◌++◌,
  length, set, replicate, get_elem?, str_eq, if◌then◌else◌, ◌==◌, map,
}

pub record History : Type 0 where
  pub log_size : ℕ
  pub hnames : List String
  pub present : List Bool

-- `CODES`; a code is a `uint8`.
abbrev pub peek : ℕ
peek = 0

abbrev pub open_code : ℕ
open_code = 1

abbrev pub close_code : ℕ
close_code = 2

-- `Init`
unfoldable pub init : ℕ → History
init size = record { log_size = size; hnames = replicate size ""; present = replicate size false }

abbrev pub bit : Bool → ℕ
bit true = 1
bit false = 0

-- A line of `PrintCSVToResp`: the name, or `[cold]`, and whether the handler is warm.
abbrev pub csv_name : String → String
csv_name s = if str_eq s "" then "[cold]" else s

unfoldable pub csv_lines : List String → List Bool → List (String × ℕ)
csv_lines [] _ = []
csv_lines (n ∷ ns) [] = []
csv_lines (n ∷ ns) (p ∷ ps) = (csv_name n, bit p) ∷ csv_lines ns ps

-- The first loop of `HandlerAccess`: the index where it stops, and whether that is a cold spot.
unfoldable pub scan : String → List String → Option (ℕ × Bool)
scan hname [] = none
scan hname (n ∷ ns) =
    if str_eq n hname
    then some (0, false)
    else if str_eq n ""
    then some (0, true)
    else Option.map (λ r. (suc r.0, r.1)) (scan hname ns)

pub data Victim : Type 0 where
  slot : ℕ → Victim
  full : Victim
  out_of_fuel : Victim

abbrev pub is_warm : List Bool → ℕ → Bool
is_warm ps i = elim (get_elem? ps i) [ none ↦ false | some p ↦ p ]

-- The second loop: from a random entry on, round the table, to the first that is not warm.
unfoldable pub cold_from : ℕ → List Bool → ℕ → ℕ → ℕ → Victim
cold_from zero present size origran ran = out_of_fuel
cold_from (suc f) present size origran ran =
    let next = (ran + 1) % size in
    let rest = cold_from f present size origran next in
    let more = if origran == next then full else rest in
    if is_warm present ran then more else slot ran

-- The end of `HandlerAccess`: what the code does at the entry `ind`, and the bit it returns.
unfoldable pub apply_code : ℕ → ℕ → History → History × ℕ
apply_code ind code h =
    if code == open_code
    then (record h { present = set h.present ind true }, 1)
    else if code == close_code
    then (record h { present = set h.present ind false }, 0)
    else (h, if code == peek then bit (is_warm h.present ind) else 0)

abbrev pub rename : ℕ → String → History → History
rename ind hname h = record h { hnames = set h.hnames ind hname }

-- The eviction of a random entry that is not warm.
unfoldable pub evict_random : String → ℕ → Victim → History → Option (History × ℕ)
evict_random hname code (slot i) h = some (apply_code i code (rename i hname h))
evict_random hname code full h = some (h, 0)
evict_random hname code out_of_fuel h = none

-- `HandlerAccess`. An empty table divides by 0, which panics: `none`.
unfoldable pub handler_access : String → ℕ → ℕ → History → Option (History × ℕ)
unfolding evict_random
handler_access hname code random h = elim (scan hname h.hnames) [
  | some (i, cold) ↦ some (apply_code i code (if cold then rename i hname h else h))
  | none ↦
      if h.log_size == 0
      then none
      else let ran = random % h.log_size in
        evict_random hname code (cold_from h.log_size h.present h.log_size ran ran) h
]
