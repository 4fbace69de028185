-- ===== src/Memory/Arena/Align.antt =====
-- `align` of allocator.py.
use rsyscall.Base.{ℕ, ◌+◌, ◌*◌, ◌/◌, ◌%◌, ◌≤◌, ◌<◌, ◌≡◌, ◌⊎◌, inl, inr, arith, Bool-cases, ltb}
use native.Mathlib.Nat.{mod-lt, div-add-mod, mul-mod_right}
use rsyscall.Memory.Arena.{ok, align, round_up}

pub le-round_up : (n a : ℕ) → n ≤ round_up n a
unfolding round_up
le-round_up n a = ground arith

-- The two cases of `overhang`.
round_up-cases :
    (n a : ℕ)
    → 0 < a
    → ((n % a ≡ 0) × (round_up n a ≡ n)) ⊎ ((0 < n % a) × (round_up n a ≡ a * (n / a + 1)))
unfolding round_up
round_up-cases n a h = elim (Bool-cases (ltb 0 (n % a))) [
  | inl over ↦ inr (ground arith, rw over (omega (arith, div-add-mod n a, mod-lt n h)))
  | inr even ↦ inl (ground arith, rw even)
]

pub round_up-mod : (n a : ℕ) → 0 < a → round_up n a % a ≡ 0
round_up-mod n a h = elim (round_up-cases n a h) [
  | inl (r, e) ↦ rw e r
  | inr (r, e) ↦ rw e (mul-mod_right a (n / a + 1))
]

multiple-le : (n a m : ℕ) → 0 < a → m % a ≡ 0 → n ≤ m → 0 < n % a → a * (n / a + 1) ≤ m
multiple-le n a m h e le over = grind (arith, div-add-mod n a, div-add-mod m a)

-- It is the lowest such number.
pub round_up-le : (n a m : ℕ) → 0 < a → m % a ≡ 0 → n ≤ m → round_up n a ≤ m
round_up-le n a m h e le = elim (round_up-cases n a h) [
  | inl (r, same) ↦ rw same le
  | inr (r, up) ↦ rw up (multiple-le n a m h e le r)
]

pub align_pos : (n a : ℕ) → 0 < a → align n a ≡ ok (round_up n a)
unfolding align
align_pos n a h = ground arith

-- For a positive alignment, `align` returns a multiple of it that is not below `num`, and no smaller
-- number is such a multiple.
pub align_lem :
    (num alignment : ℕ)
    → 0 < alignment
    → (m : ℕ) × (align num alignment ≡ ok m)
      × (num ≤ m)
      × (m % alignment ≡ 0)
      × ((k : ℕ) → k % alignment ≡ 0 → num ≤ k → m ≤ k)
align_lem num alignment h = (
  round_up num alignment,
  align_pos num alignment h,
  le-round_up num alignment,
  round_up-mod num alignment h,
  λ k e le. round_up-le num alignment k h e le,
)
