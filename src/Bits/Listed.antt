-- ===== src/Bits/Listed.antt =====
-- struct.py: `bits` lists the binary digits that are one, in order.
use Prim.Native.Nat.{min, differ, bit_and, bit_xor, bit_and-bitwise, bit_xor-bitwise}
use rsyscall.Base.{
  ℕ, zero, suc, ◌+◌, ◌-◌, ◌*◌, ◌/◌, ◌%◌, ◌^◌, ◌≤◌, ◌<◌, ◌≡◌, refl, sym, ap, ◌∙◌, Bool, true, false,
  List, [], ◌∷◌, map, arith, ◌==◌, if◌then◌else◌, ◌⊎◌, inl, inr, Bool-cases,
}
use rsyscall.Bits.{lowest_bit, bit_length, bits_loop, bits}
use rsyscall.Bits.Digits.{bit_and-digit, bit_xor-digit, two_pow, two_pow_pos}

-- The places of the ones among the lowest `w` digits.
abbrev pub ones : ℕ → ℕ → List ℕ
ones zero n = []
ones (suc w) n = if n % 2 == 1 then 0 ∷ map suc (ones w (n / 2)) else map suc (ones w (n / 2))

parity : (n : ℕ) → (n % 2 ≡ 0) ⊎ (n % 2 ≡ 1)
parity n = elim (Bool-cases (n % 2 == 0)) [
  | inl e ↦ inl (ground (arith, e))
  | inr e ↦ inr (ground (arith, e))
]

and_complement : (w m : ℕ) → m < 2 ^ w → bit_and m (2 ^ w - 1 - m) ≡ 0
and_complement zero zero h = bit_and-bitwise 0 0
and_complement zero (suc m) h = absurd (omega (arith, h))
and_complement (suc w) m h =
    let half : (2 ^ suc w - 1 - m) / 2 ≡ 2 ^ w - 1 - m / 2 = omega (arith, two_pow w, h) in
    bit_and-digit m (2 ^ suc w - 1 - m)
    ∙ ap (λ k. bit_and (m / 2) k * 2 + min (m % 2) ((2 ^ suc w - 1 - m) % 2)) half
    ∙ omega (arith, and_complement w (m / 2) (omega (arith, two_pow w, h)), two_pow w, h)

lowest_even : (w n : ℕ) → n % 2 ≡ 0 → lowest_bit (suc w) n ≡ 2 * lowest_bit w (n / 2)
unfolding lowest_bit
lowest_even w n e =
    let half : (2 ^ suc w - n) / 2 ≡ 2 ^ w - n / 2 = omega (arith, two_pow w, e) in
    bit_and-digit n (2 ^ suc w - n)
    ∙ ap (λ k. bit_and (n / 2) k * 2 + min (n % 2) ((2 ^ suc w - n) % 2)) half
    ∙ omega (arith, e)

lowest_odd : (w n : ℕ) → n % 2 ≡ 1 → n < 2 ^ suc w → lowest_bit (suc w) n ≡ 1
unfolding lowest_bit
lowest_odd w n e h =
    let half : (2 ^ suc w - n) / 2 ≡ 2 ^ w - 1 - n / 2 = omega (arith, two_pow w, e, h) in
    bit_and-digit n (2 ^ suc w - n)
    ∙ ap (λ k. bit_and (n / 2) k * 2 + min (n % 2) ((2 ^ suc w - n) % 2)) half
    ∙ omega (arith, and_complement w (n / 2) (omega (arith, two_pow w, h)), e, two_pow w, h)

lowest_bounds : (w n : ℕ) → 0 < n → n < 2 ^ w → (0 < lowest_bit w n) × (lowest_bit w n < 2 ^ w)
lowest_bounds zero n p h = omega (arith, p, h)
lowest_bounds (suc w) n p h = elim (parity n) [
  | inl e ↦ omega (
    arith,
    lowest_even w n e,
    lowest_bounds w (n / 2) (omega (arith, p, e)) (omega (arith, two_pow w, h)),
    two_pow w,
  )
  | inr e ↦ omega (arith, lowest_odd w n e h, two_pow w, two_pow_pos w)
]

xor_bound : (w a b : ℕ) → a < 2 ^ w → b < 2 ^ w → bit_xor a b < 2 ^ w
xor_bound zero zero zero h k = omega (arith, bit_xor-bitwise 0 0)
xor_bound zero (suc a) b h k = absurd (omega (arith, h))
xor_bound zero zero (suc b) h k = absurd (omega (arith, k))
xor_bound (suc w) a b h k = omega (
  arith,
  bit_xor-digit a b,
  two_pow w,
  digit (a % 2) (b % 2) (omega arith) (omega arith),
  xor_bound w (a / 2) (b / 2) (omega (arith, two_pow w, h)) (omega (arith, two_pow w, k)),
)
  where
    digit : (x y : ℕ) → x < 2 → y < 2 → differ x y < 2
    digit zero y p q = q
    digit (suc x) zero p q = p
    digit (suc zero) (suc y) p q = omega arith
    digit (suc (suc x)) (suc y) p q = absurd (omega arith)

xor_zero : (w a : ℕ) → a < 2 ^ w → bit_xor a 0 ≡ a
xor_zero zero zero h = bit_xor-bitwise 0 0
xor_zero zero (suc a) h = absurd (omega (arith, h))
xor_zero (suc w) a h = omega (
  arith,
  bit_xor-digit a 0,
  xor_zero w (a / 2) (omega (arith, two_pow w, h)),
  differ_zero (a % 2),
)
  where
    differ_zero : (x : ℕ) → differ x 0 ≡ x
    differ_zero zero = refl
    differ_zero (suc x) = refl

xor_even : (n b : ℕ) → n % 2 ≡ 0 → bit_xor n (2 * b) ≡ 2 * bit_xor (n / 2) b
xor_even n b e =
    let half : (2 * b) / 2 ≡ b = omega arith in
    let low : (2 * b) % 2 ≡ 0 = omega arith in
    bit_xor-digit n (2 * b)
    ∙ ap (λ k. bit_xor (n / 2) k * 2 + differ (n % 2) ((2 * b) % 2)) half
    ∙ ap (λ k. bit_xor (n / 2) b * 2 + differ (n % 2) k) low
    ∙ ap (λ k. bit_xor (n / 2) b * 2 + differ k 0) e
    ∙ omega arith

xor_odd : (w n : ℕ) → n < 2 ^ suc w → n % 2 ≡ 1 → bit_xor n 1 ≡ 2 * (n / 2)
xor_odd w n h e =
    bit_xor-digit n 1
    ∙ ap (λ k. bit_xor (n / 2) 0 * 2 + differ k 1) e
    ∙ omega (arith, xor_zero w (n / 2) (omega (arith, two_pow w, h)))

bit_length_pos : (w b : ℕ) → 0 < b → b < 2 ^ w → 0 < bit_length w b
unfolding bit_length
bit_length_pos zero b p h = absurd (omega (arith, p, h))
bit_length_pos (suc w) b p h = ground (arith, p)

bit_length_double : (w b : ℕ) → 0 < b → bit_length (suc w) (2 * b) ≡ suc (bit_length w b)
unfolding bit_length
bit_length_double w b p = let half : (2 * b) / 2 ≡ b = omega arith in rw half (ground (arith, p))

bit_length_one : (w : ℕ) → bit_length (suc w) 1 ≡ 1
unfolding bit_length
bit_length_one zero = refl
bit_length_one (suc w) = refl

loop_zero : (fuel w shift : ℕ) → bits_loop fuel w shift 0 ≡ []
unfolding bits_loop
loop_zero zero w shift = refl
loop_zero (suc fuel) w shift = refl

loop_turn :
    (fuel w shift n : ℕ)
    → 0 < n
    → bits_loop (suc fuel) w shift n
      ≡ (bit_length w (lowest_bit w n) - shift)
        ∷ bits_loop fuel w shift (bit_xor n (lowest_bit w n))
unfolding bits_loop
loop_turn fuel w shift n p = ground (arith, p)

-- The digits of an even number are those of its half, one place up.
loop_even :
    (fuel w n : ℕ)
    → n % 2 ≡ 0
    → n < 2 ^ suc w
    → bits_loop fuel (suc w) 1 n ≡ map suc (bits_loop fuel w 1 (n / 2))
loop_even zero w n e h = unfold bits_loop in refl
loop_even (suc fuel) w n e h = elim (Bool-cases (n == 0)) [
  | inl z ↦
      let zero_n : n ≡ 0 = ground (arith, z) in
      ap (bits_loop (suc fuel) (suc w) 1) zero_n
      ∙ loop_zero (suc fuel) (suc w) 1
      ∙ ap (map suc) (sym (loop_zero (suc fuel) w 1))
      ∙ ap (λ k. map suc (bits_loop (suc fuel) w 1 k)) (omega (arith, zero_n))
  | inr z ↦
      let p : 0 < n = ground (arith, z) in
      let b = lowest_bit w (n / 2) in
      let x = bit_xor (n / 2) b in
      let bound : (0 < b) × (b < 2 ^ w) =
        lowest_bounds w (n / 2) (omega (arith, p, e)) (omega (arith, two_pow w, h)) in
      let head : bit_length (suc w) (2 * b) - 1 ≡ suc (bit_length w b - 1) =
        omega (arith, bit_length_double w b bound.0, bit_length_pos w b bound.0 bound.1) in
      let half : (2 * x) / 2 ≡ x = omega arith in
      loop_turn fuel (suc w) 1 n p
      ∙ ap (λ k. (bit_length (suc w) k - 1) ∷ bits_loop fuel (suc w) 1 (bit_xor n k))
          (lowest_even w n e)
      ∙ ap (λ k. k ∷ bits_loop fuel (suc w) 1 (bit_xor n (2 * b))) head
      ∙ ap (λ k. suc (bit_length w b - 1) ∷ bits_loop fuel (suc w) 1 k) (xor_even n b e)
      ∙ ap (λ l. suc (bit_length w b - 1) ∷ l)
          (loop_even fuel w (2 * x) (omega arith) (
              omega (arith, two_pow w, xor_bound w (n / 2) b (omega (arith, two_pow w, h)) bound.1))
            ∙ ap (λ k. map suc (bits_loop fuel w 1 k)) half)
      ∙ ap (map suc) (sym (loop_turn fuel w 1 (n / 2) (omega (arith, p, e))))
]

loop-ones : (w fuel n : ℕ) → n < 2 ^ w → w ≤ fuel → bits_loop fuel w 1 n ≡ ones w n
loop-ones zero fuel zero h le = loop_zero fuel 0 1
loop-ones zero fuel (suc n) h le = absurd (omega (arith, h))
loop-ones (suc w) zero n h le = elim le [ ]
loop-ones (suc w) (suc fuel) n h le = elim (parity n) [
  | inl e ↦
      loop_even (suc fuel) w n e h
      ∙ ap (map suc)
          (loop-ones w (suc fuel) (n / 2) (omega (arith, two_pow w, h)) (omega (arith, le)))
      ∙ ground (arith, e)
  | inr e ↦
      let m = n / 2 in
      let half : (2 * m) / 2 ≡ m = omega arith in
      loop_turn fuel (suc w) 1 n (omega (arith, e))
      ∙ ap (λ k. (bit_length (suc w) k - 1) ∷ bits_loop fuel (suc w) 1 (bit_xor n k))
          (lowest_odd w n e h)
      ∙ ap (λ k. (k - 1) ∷ bits_loop fuel (suc w) 1 (bit_xor n 1)) (bit_length_one w)
      ∙ ap (λ k. 0 ∷ bits_loop fuel (suc w) 1 k) (xor_odd w n h e)
      ∙ ap (λ l. 0 ∷ l)
          (loop_even fuel w (2 * m) (omega arith) (omega (arith, two_pow w, h))
            ∙ ap (λ k. map suc (bits_loop fuel w 1 k)) half
            ∙ ap (map suc) (loop-ones w fuel m (omega (arith, two_pow w, h)) (omega (arith, le))))
      ∙ ground (arith, e)
]

loop_shift : (fuel w n : ℕ) → n < 2 ^ w → bits_loop fuel w 0 n ≡ map suc (bits_loop fuel w 1 n)
loop_shift zero w n h = unfold bits_loop in refl
loop_shift (suc fuel) w n h = elim (Bool-cases (n == 0)) [
  | inl z ↦
      let zero_n : n ≡ 0 = ground (arith, z) in
      ap (bits_loop (suc fuel) w 0) zero_n
      ∙ loop_zero (suc fuel) w 0
      ∙ ap (map suc) (sym (loop_zero (suc fuel) w 1))
      ∙ ap (λ k. map suc (bits_loop (suc fuel) w 1 k)) (sym zero_n)
  | inr z ↦
      let p : 0 < n = ground (arith, z) in
      let b = lowest_bit w n in
      let bound : (0 < b) × (b < 2 ^ w) = lowest_bounds w n p h in
      let head : bit_length w b - 0 ≡ suc (bit_length w b - 1) =
        omega (arith, bit_length_pos w b bound.0 bound.1) in
      loop_turn fuel w 0 n p
      ∙ ap (λ k. k ∷ bits_loop fuel w 0 (bit_xor n b)) head
      ∙ ap (λ l. suc (bit_length w b - 1) ∷ l)
          (loop_shift fuel w (bit_xor n b) (xor_bound w n b h bound.1))
      ∙ ap (map suc) (sym (loop_turn fuel w 1 n p))
]

-- For a number below 2 ^ w, `bits` lists the places of the ones among its digits from the lowest up,
-- which count from 1 when `one_indexed` is set and from 0 when it is not.
pub bits-ones :
    (w n : ℕ) (one_indexed : Bool)
    → n < 2 ^ w
    → bits w one_indexed n ≡ (if one_indexed then map suc (ones w n) else ones w n)
unfolding bits
bits-ones w n true h = loop_shift w w n h ∙ ap (map suc) (loop-ones w w n h (omega arith))
bits-ones w n false h = loop-ones w w n h (omega arith)
