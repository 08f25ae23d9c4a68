-- ===== src/Prelude/Bytes.antt =====
-- `to_le_bytes`, `from_le_bytes`, `to_be_bytes` and `from_be_bytes`, for any number of bytes.
use Prim.Native.Nat.{ℕ, zero, suc, ◌+◌, ◌*◌, ◌/◌, ◌%◌, ◌<◌}
use mathlib.Core.Path.{◌≡◌, refl, ap, ◌∙◌}
use mathlib.Core.List.{List, [], ◌∷◌, reverse, reverse-reverse, reverse-cons}
use native.Mathlib.Omega.{arith}
use holo.Prelude.Lists.{length, length-append, All}

-- How many values n bytes have.
abbrev pub byte_range : ℕ → ℕ
byte_range zero = 1
byte_range (suc n) = 256 * byte_range n

unfoldable pub le_bytes : ℕ → ℕ → List ℕ
le_bytes zero x = []
le_bytes (suc n) x = (x % 256) ∷ le_bytes n (x / 256)

unfoldable pub of_le : List ℕ → ℕ
of_le [] = 0
of_le (b ∷ bs) = b + 256 * of_le bs

unfoldable pub be_bytes : ℕ → ℕ → List ℕ
unfolding le_bytes
be_bytes n x = reverse (le_bytes n x)

unfoldable pub of_be : List ℕ → ℕ
unfolding of_le
of_be bs = of_le (reverse bs)

pub of_le-le_bytes : (n x : ℕ) → x < byte_range n → of_le (le_bytes n x) ≡ x
unfolding of_le le_bytes
of_le-le_bytes zero x h = omega arith
of_le-le_bytes (suc n) x h = omega (arith, of_le-le_bytes n (x / 256) (omega arith))

pub of_be-be_bytes : (n x : ℕ) → x < byte_range n → of_be (be_bytes n x) ≡ x
of_be-be_bytes n x h =
    unfold of_be be_bytes in ap of_le (reverse-reverse (le_bytes n x)) ∙ of_le-le_bytes n x h

pub length-le_bytes : (n x : ℕ) → length (le_bytes n x) ≡ n
unfolding le_bytes
length-le_bytes zero x = refl
length-le_bytes (suc n) x = ap suc (length-le_bytes n (x / 256))

abbrev pub IsByte : ℕ → Type 0
IsByte b = b < 256

pub le_bytes-IsByte : (n x : ℕ) → All IsByte (le_bytes n x)
unfolding le_bytes
le_bytes-IsByte zero x = tt
le_bytes-IsByte (suc n) x = (omega arith, le_bytes-IsByte n (x / 256))

length-reverse : (xs : List ℕ) → length (reverse xs) ≡ length xs
length-reverse [] = refl
length-reverse (x ∷ xs) =
    omega
      (arith, ap length (reverse-cons x xs), length-append (reverse xs) (x ∷ []), length-reverse xs)

pub length-be_bytes : (n x : ℕ) → length (be_bytes n x) ≡ n
length-be_bytes n x = unfold be_bytes in length-reverse (le_bytes n x) ∙ length-le_bytes n x
