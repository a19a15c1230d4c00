-- ===== src/Base/Bytes.antt =====
-- Bytes, and the masks on one byte that the sources use, as arithmetic.
use Prim.Native.Nat.{
  ℕ, zero, suc, ◌+◌, ◌*◌, ◌/◌, ◌%◌, ◌≤◌, ◌<◌, min, bit_and, bit_or, digits, bit_and-bitwise,
}
use mathlib.Core.Path.{◌≡◌, refl}
use mathlib.Core.Bool.{Bool, true, ◌&&◌}
use mathlib.Core.List.{List, [], ◌∷◌, ◌++◌}
use native.Mathlib.Omega.{arith}
use hypertable.Base.Tests.{◌==◌}

abbrev pub IsByte : ℕ → Type 0
IsByte b = b < 256

module _ {ℓ} {A : Type ℓ} where
  abbrev pub All {κ} : (A → Type κ) → List A → Type κ
  All P [] = Unit {κ}
  All P (x ∷ xs) = P x × All P xs

  pub All-append {κ} :
      (P : A → Type κ) (front back : List A) → All P front → All P back → All P (front ++ back)
  All-append P [] back h k = k
  All-append P (a ∷ front) back h k = (h.0, All-append P front back h.1 k)

-- Two functions agree at every number below a bound, found out by evaluation.
same_below : (ℕ → ℕ) → (ℕ → ℕ) → ℕ → Bool
same_below f g zero = true
same_below f g (suc n) = (f n == g n) && same_below f g n

same_below_sound : (f g : ℕ → ℕ) (n : ℕ) → same_below f g n ≡ true → (i : ℕ) → i < n → f i ≡ g i
unfolding same_below
same_below_sound f g zero e i h = absurd (omega arith)
same_below_sound f g (suc n) e i h = ground (arith, same_below_sound f g n (ground arith) i)

-- `b & 0x7f`, `b & 0x80` and `b | 0x80` on a byte.
pub low_seven : (b : ℕ) → IsByte b → bit_and b 0x7f ≡ b % 128
unfolding same_below
low_seven = same_below_sound _ _ 256 refl

pub top_bit : (b : ℕ) → IsByte b → bit_and b 0x80 ≡ b / 128 * 128
unfolding same_below
top_bit = same_below_sound _ _ 256 refl

pub set_top_bit : (b : ℕ) → IsByte b → bit_or b 0x80 ≡ b % 128 + 128
unfolding same_below
set_top_bit = same_below_sound _ _ 256 refl

-- A mask bounds what is left.
digits-le : (n a b : ℕ) → digits (λ b. zero) min n a b ≤ b
digits-le zero a b = omega arith
digits-le (suc n) zero b = omega arith
digits-le (suc n) (suc a) b = omega (arith, digits-le n (suc a / 2) (b / 2))

pub bit_and-le : (a b : ℕ) → bit_and a b ≤ b
bit_and-le a b = omega (arith, bit_and-bitwise a b, digits-le a a b)
