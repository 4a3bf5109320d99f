-- ===== src/Worker/Util/Digits.antt =====
-- The digits of an identifier.
use s19_lambda.Base.{
  ℕ, zero, suc, ◌+◌, ◌*◌, ◌/◌, ◌%◌, ◌≡◌, ◌≢◌, ◌<◌, refl, sym, ◌∙◌, subst, Bool, true, ◌&&◌, ◌||◌,
  some, List, [], ◌∷◌, length, length-set, get_elem?, get_elem?_of_lt, get_elem?-set_self,
  get_elem?-set_ne, set, ltb, leb, ◌==◌, All, arith, Bool-cases, inl, inr,
}
use s19_lambda.Worker.Util.{variant, version, change, hex_digit, hex, uuid}

all_below : ℕ → (ℕ → Bool) → Bool
all_below zero f = true
all_below (suc n) f = let rest = all_below n f in f n && rest

below : (n : ℕ) (f : ℕ → Bool) (k : ℕ) → all_below n f ≡ true → k < n → f k ≡ true
unfolding all_below
below zero f k h lt = absurd (omega arith)
below (suc n) f k h lt = elim (Bool-cases (k == n)) [
  | inl e ↦ let same : k ≡ n = ground (arith, e) in rw same (ground (arith, h))
  | inr ne ↦ below n f k (ground (arith, h)) (ground (arith, ne))
]

-- '0' to '9' and 'a' to 'f'.
abbrev pub is_hex : ℕ → Bool
is_hex c = (leb 48 c && leb c 57) || (leb 97 c && leb c 102)

-- '8', '9', 'a' or 'b'.
abbrev pub is_variant : ℕ → Bool
is_variant c = (c == 56 || c == 57) || (c == 97 || c == 98)

abbrev version_fits : ℕ → Bool
version_fits b = ltb (version b) 256 && hex_digit (version b / 16) == 52

abbrev variant_fits : ℕ → Bool
variant_fits b = ltb (variant b) 256 && is_variant (hex_digit (variant b / 16))

all_versions : all_below 256 version_fits ≡ true
unfolding all_below version
all_versions = refl

all_variants : all_below 256 variant_fits ≡ true
unfolding all_below variant
all_variants = refl

-- A byte.
abbrev pub IsByte : ℕ → Type 0
IsByte b = b < 256

All_set : (l : List ℕ) (i b : ℕ) → b < 256 → All IsByte l → All IsByte (set l i b)
All_set [] i b p h = tt
All_set (x ∷ l) zero b p h = (p, h.1)
All_set (x ∷ l) (suc i) b p h = (h.0, All_set l i b p h.1)

All_get : (l : List ℕ) (i b : ℕ) → All IsByte l → get_elem? l i ≡ some b → b < 256
All_get [] i b h e = absurd (ground (arith, e))
All_get (x ∷ l) zero b h e = subst IsByte (ground (arith, e)) h.0
All_get (x ∷ l) (suc i) b h e = All_get l i b h.1 e

hex_digit-is_hex : (d : ℕ) → d < 16 → is_hex (hex_digit d) ≡ true
hex_digit-is_hex d lt = ground arith

hex-is_hex : (l : List ℕ) → All IsByte l → All (λ c. is_hex c ≡ true) (hex l)
unfolding hex
hex-is_hex [] h = tt
hex-is_hex (b ∷ l) h = (
  hex_digit-is_hex (b / 16) (omega (arith, h.0)),
  (hex_digit-is_hex (b % 16) (omega arith), hex-is_hex l h.1),
)

length-hex : (l : List ℕ) → length (hex l) ≡ 2 * length l
unfolding hex
length-hex [] = refl
length-hex (b ∷ l) = omega (arith, length-hex l)

hex_at :
    (l : List ℕ) (k b : ℕ)
    → get_elem? l k ≡ some b
    → get_elem? (hex l) (k + k) ≡ some (hex_digit (b / 16))
unfolding hex
hex_at [] k b e = absurd (ground (arith, e))
hex_at (x ∷ l) zero b e = let same : x ≡ b = ground (arith, e) in rw same refl
hex_at (x ∷ l) (suc k) b e =
    let twice : suc k + suc k ≡ suc (suc (k + k)) = omega arith in rw twice (hex_at l k b e)

change-set :
    (f : ℕ → ℕ) (i : ℕ) (l : List ℕ) (b : ℕ) → get_elem? l i ≡ some b → change f i l ≡ set l i (f b)
unfolding change
change-set f i l b e = rw (e, change) refl

-- What a change of a byte leaves.
change_lem :
    (f : ℕ → ℕ) (i : ℕ) (l : List ℕ)
    → i < length l
    → ((b : ℕ) → b < 256 → f b < 256)
    → All IsByte l
    → (b : ℕ) × (b < 256)
      × (get_elem? (change f i l) i ≡ some (f b))
      × (length (change f i l) ≡ length l)
      × All IsByte (change f i l)
      × ((j : ℕ) → i ≢ j → get_elem? (change f i l) j ≡ get_elem? l j)
change_lem f i l lt fits h =
    let (b, e) = get_elem?_of_lt l i lt in
    let byte = All_get l i b h e in
    rw (change-set f i l b e) (
      b,
      byte,
      get_elem?-set_self l i (f b) lt,
      length-set l i (f b),
      All_set l i (f b) (fits b byte) h,
      λ j ne. get_elem?-set_ne l i j (f b) ne,
    )

version_fit : (b : ℕ) → b < 256 → version_fits b ≡ true
version_fit b lt = below 256 version_fits b all_versions lt

variant_fit : (b : ℕ) → b < 256 → variant_fits b ≡ true
variant_fit b lt = below 256 variant_fits b all_variants lt

-- Sixteen random bytes give an identifier of 32 hexadecimal digits, whatever the bytes: the digit of the
-- version, at 12, is 4, and that of the variant, at 16, is 8, 9, a or b.
pub uuid_digits :
    (bytes : List ℕ)
    → length bytes ≡ 16
    → All IsByte bytes
    → (t : List ℕ) × (uuid bytes ≡ some t)
      × (length t ≡ 32)
      × All (λ c. is_hex c ≡ true) t
      × (get_elem? t 12 ≡ some 52)
      × ((c : ℕ) × (get_elem? t 16 ≡ some c) × (is_variant c ≡ true))
unfolding uuid
uuid_digits bytes size h =
    let (b, byte, at_8, len, all, _) =
      change_lem variant 8 bytes (omega arith) (λ b lt. ground (arith, variant_fit b lt)) h in
    let (c, byte', at_6, len', all', others) =
      change_lem version 6 (change variant 8 bytes) (omega arith)
        (λ b lt. ground (arith, version_fit b lt)) all in
    let l = change version 6 (change variant 8 bytes) in
    let digit : hex_digit (version c / 16) ≡ 52 = ground (arith, version_fit c byte') in
    rw size (
      hex l,
      refl,
      omega (arith, length-hex l, len', len),
      hex-is_hex l all',
      rw (sym digit) (hex_at l 6 (version c) at_6),
      (
        hex_digit (variant b / 16),
        hex_at l 8 (variant b) (others 8 (λ e. absurd (omega arith)) ∙ at_8),
        ground (arith, variant_fit b byte),
      ),
    )
