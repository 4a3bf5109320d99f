-- ===== src/Base/Digits.antt =====
-- Go's `strconv.Atoi` on the characters of a text: an optional sign and one or more decimal digits,
-- within the bounds of a 64-bit `int`.
use Prim.Native.Nat.{ℕ, ◌+◌, ◌-◌, ◌*◌, ◌^◌}
use mathlib.Core.Bool.{Bool, true, false, ◌&&◌}
use mathlib.Core.Option.{Option, none, some}
use mathlib.Core.List.{List, [], ◌∷◌}
use s19_lambda.Base.Tests.{ltb, leb, ◌==◌, if◌then◌else◌}
use s19_lambda.Base.Int.{ℤ, pos, negsuc}

-- '0' is 48, '9' is 57.
abbrev is_digit : ℕ → Bool
is_digit c = leb 48 c && leb c 57

-- The value of the digits after those that make `acc`.
read_digits : ℕ → List ℕ → Option ℕ
read_digits acc [] = some acc
read_digits acc (c ∷ cs) =
    let rest = read_digits (acc * 10 + (c - 48)) cs in if is_digit c then rest else none

read_number : List ℕ → Option ℕ
unfolding read_digits
read_number [] = none
read_number (c ∷ cs) = read_digits 0 (c ∷ cs)

-- The negation of a number below `suc bound`.
abbrev negative : ℕ → ℤ
negative n = if n == 0 then pos 0 else negsuc (n - 1)

abbrev checked : Bool → ℕ → Option ℤ
checked minus n =
    if minus
    then if leb n (2 ^ 63) then some (negative n) else none
    else if ltb n (2 ^ 63)
    then some (pos n)
    else none

abbrev signed : Bool → Option ℕ → Option ℤ
signed minus none = none
signed minus (some n) = checked minus n

-- '-' is 45, '+' is 43.
unfoldable pub atoi : List ℕ → Option ℤ
unfolding read_number
atoi [] = none
atoi (c ∷ cs) =
    if c == 45
    then signed true (read_number cs)
    else if c == 43
    then signed false (read_number cs)
    else signed false (read_number (c ∷ cs))
