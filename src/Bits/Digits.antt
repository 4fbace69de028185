-- ===== src/Bits/Digits.antt =====
-- Binary digits: what `bit_and`, `bit_or` and `bit_xor` do to them.
use Prim.Native.Nat.{
  min, max, differ, digits, bitwise, bit_and, bit_or, bit_xor, bit_and-bitwise, bit_or-bitwise,
  bit_xor-bitwise,
}
use rsyscall.Base.{ℕ, zero, suc, ◌+◌, ◌*◌, ◌/◌, ◌%◌, ◌^◌, ◌≤◌, ◌≡◌, refl, ap, arith}

-- Fuel beyond the first number makes no difference, so an operation is known by its lowest digit.
enough_digits : (z : ℕ → ℕ) (f : ℕ → ℕ → ℕ) (m a b : ℕ) → a ≤ m → digits z f m a b ≡ bitwise z f a b
enough_digits z f m a b h = same m a a b h (omega arith)
  where
    same : (n k x y : ℕ) → x ≤ n → x ≤ k → digits z f n x y ≡ digits z f k x y
    same zero zero x y p q = refl
    same (suc n) (suc k) zero y p q = refl
    same zero (suc k) zero y p q = refl
    same (suc n) zero zero y p q = refl
    same zero k (suc x) y p q = elim p [ ]
    same (suc n) zero (suc x) y p q = elim q [ ]
    same (suc n) (suc k) (suc x) y p q =
        ap (λ d. d * 2 + f (suc x % 2) (y % 2))
          (same n k (suc x / 2) (y / 2) (omega arith) (omega arith))

pub bit_and-digit : (a b : ℕ) → bit_and a b ≡ bit_and (a / 2) (b / 2) * 2 + min (a % 2) (b % 2)
bit_and-digit zero b = omega (arith, bit_and-bitwise 0 b, bit_and-bitwise 0 (b / 2))
bit_and-digit (suc a) b = omega (
  arith,
  bit_and-bitwise (suc a) b,
  bit_and-bitwise (suc a / 2) (b / 2),
  enough_digits (λ y. 0) min a (suc a / 2) (b / 2) (omega arith),
)

pub bit_or-digit : (a b : ℕ) → bit_or a b ≡ bit_or (a / 2) (b / 2) * 2 + max (a % 2) (b % 2)
bit_or-digit zero b = omega (arith, bit_or-bitwise 0 b, bit_or-bitwise 0 (b / 2))
bit_or-digit (suc a) b = omega (
  arith,
  bit_or-bitwise (suc a) b,
  bit_or-bitwise (suc a / 2) (b / 2),
  enough_digits (λ y. y) max a (suc a / 2) (b / 2) (omega arith),
)

pub bit_xor-digit : (a b : ℕ) → bit_xor a b ≡ bit_xor (a / 2) (b / 2) * 2 + differ (a % 2) (b % 2)
bit_xor-digit zero b = omega (arith, bit_xor-bitwise 0 b, bit_xor-bitwise 0 (b / 2))
bit_xor-digit (suc a) b = omega (
  arith,
  bit_xor-bitwise (suc a) b,
  bit_xor-bitwise (suc a / 2) (b / 2),
  enough_digits (λ y. y) differ a (suc a / 2) (b / 2) (omega arith),
)

abbrev pub bit : ℕ → ℕ → ℕ
bit zero n = n % 2
bit (suc i) n = bit i (n / 2)

pub two_pow : (w : ℕ) → 2 ^ suc w ≡ 2 * 2 ^ w
two_pow w = omega arith

pub two_pow_pos : (w : ℕ) → 1 ≤ 2 ^ w
two_pow_pos zero = omega arith
two_pow_pos (suc w) = omega (arith, two_pow w, two_pow_pos w)
