-- ===== src/Worker/Util.antt =====
-- The identifiers of worker/util/util.go. What the source of random bytes gives is an argument: fewer bytes are
-- an error. A text is the list of its characters.
pub mod Digits
mod Tests
use Prim.Native.Nat.{bit_and, bit_or}
use s19_lambda.Base.{
  ℕ, ◌+◌, ◌-◌, ◌/◌, ◌%◌, Option, none, some, List, [], ◌∷◌, length, get_elem?, set, ltb, ◌==◌,
  if◌then◌else◌,
}

-- Go's `a &^ b`: the bits of `a` that `b` has not.
abbrev pub and_not : ℕ → ℕ → ℕ
and_not a b = a - bit_and a b

unfoldable pub variant : ℕ → ℕ
variant b = bit_or (and_not b 192) 128

unfoldable pub version : ℕ → ℕ
version b = bit_or (and_not b 240) 64

-- `l[i] = f(l[i])`
unfoldable pub change : (ℕ → ℕ) → ℕ → List ℕ → List ℕ
change f i l = elim (get_elem? l i) [ none ↦ l | some b ↦ set l i (f b) ]

-- '0' is 48 and 'a' is 97.
abbrev pub hex_digit : ℕ → ℕ
hex_digit d = if ltb d 10 then 48 + d else 87 + d

-- `fmt.Sprintf("%x", l)`
unfoldable pub hex : List ℕ → List ℕ
hex [] = []
hex (b ∷ l) = hex_digit (b / 16) ∷ hex_digit (b % 16) ∷ hex l

-- `UUID`
unfoldable pub uuid : List ℕ → Option (List ℕ)
unfolding variant version change hex
uuid bytes =
    if length bytes == 16 then some (hex (change version 6 (change variant 8 bytes))) else none
