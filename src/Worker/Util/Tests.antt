-- ===== src/Worker/Util/Tests.antt =====
-- An identifier at a concrete input.
use s19_lambda.Base.{
  ℕ, zero, suc, ◌≡◌, refl, true, some, List, replicate, length, get_elem?, All, arith,
}
use s19_lambda.Worker.Util.{uuid}
use s19_lambda.Worker.Util.Digits.{IsByte, is_hex, is_variant, uuid_digits}

all_bytes : (n : ℕ) → All IsByte (replicate n 255)
all_bytes zero = tt
all_bytes (suc n) = (omega arith, all_bytes n)

uuid_digits_example :
    (t : List ℕ) × (uuid (replicate 16 255) ≡ some t)
    × (length t ≡ 32)
    × All (λ c. is_hex c ≡ true) t
    × (get_elem? t 12 ≡ some 52)
    × ((c : ℕ) × (get_elem? t 16 ≡ some c) × (is_variant c ≡ true))
uuid_digits_example = uuid_digits (replicate 16 255) refl (all_bytes 16)
