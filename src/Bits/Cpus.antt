-- ===== src/Bits/Cpus.antt =====
-- sched.py: a set of processors in sixteen words.
use Prim.Native.Nat.{bit_or-bitwise}
use rsyscall.Base.{
  ℕ, zero, suc, ◌/◌, ◌%◌, ◌^◌, ◌<◌, ◌≡◌, refl, ap, ◌∙◌, false, List, [], ◌∷◌, ◌++◌, map, arith,
  some, set, get_elem?, replicate,
}
use mathlib.Core.List.{append-nil}
use rsyscall.Bits.{bits, or_bit, or_into, and_then, to_words, cpu_set_to_words, cpu_set_from_words}
use rsyscall.Bits.Digits.{two_pow}
use rsyscall.Bits.Listed.{ones, bits-ones}
use rsyscall.Bits.Sets.{pow_bound}

-- The digits of a power of two.
ones_zero : (w : ℕ) → ones w 0 ≡ []
ones_zero zero = refl
ones_zero (suc w) = rw (ones_zero w) refl

ones-pow : (w k : ℕ) → k < w → ones w (2 ^ k) ≡ k ∷ []
ones-pow zero k h = elim h [ ]
ones-pow (suc w) zero h = rw (ones_zero w) refl
ones-pow (suc w) (suc k) h =
    let half : (2 ^ suc k) / 2 ≡ 2 ^ k = omega (arith, two_pow k) in
    let low : (2 ^ suc k) % 2 ≡ 0 = omega (arith, two_pow k) in
    rw (low, half) (ap (map suc) (ones-pow w k (omega (arith, h))))

-- All words but one are zero.
from_words-set :
    (m i v : ℕ) → i < m → cpu_set_from_words (set (replicate m 0) i v) ≡ bits 64 false v
unfolding cpu_set_from_words
from_words-set zero i v h = elim h [ ]
from_words-set (suc m) zero v h =
    ap (λ l. bits 64 false v ++ l) (from_words-zero m) ∙ append-nil (bits 64 false v)
  where
    from_words-zero : (k : ℕ) → cpu_set_from_words (replicate k 0) ≡ []
    from_words-zero zero = refl
    from_words-zero (suc k) =
        ap (λ l. l ++ cpu_set_from_words (replicate k 0)) (bits-ones 64 0 false (omega arith))
        ∙ from_words-zero k
from_words-set (suc m) (suc i) v h =
    ap (λ l. l ++ cpu_set_from_words (set (replicate m 0) i v)) (bits-ones 64 0 false (omega arith))
    ∙ from_words-set m i v (omega (arith, h))

get_elem?-replicate : (m i v : ℕ) → i < m → get_elem? (replicate m v) i ≡ some v
get_elem?-replicate zero i v h = elim h [ ]
get_elem?-replicate (suc m) zero v h = refl
get_elem?-replicate (suc m) (suc i) v h = get_elem?-replicate m i v (omega (arith, h))

-- A processor below 1024 that is written alone is read back as its remainder by 64, so one from 64 on
-- is read back as another.
pub cpu_set_from_words-cpu_set_to_words :
    (cpu : ℕ)
    → cpu < 1024
    → (words : List ℕ) × (cpu_set_to_words (cpu ∷ []) ≡ some words)
      × (cpu_set_from_words words ≡ (cpu % 64) ∷ [])
unfolding cpu_set_to_words to_words
cpu_set_from_words-cpu_set_to_words cpu h =
    let idx = cpu / 64 in
    let word = or_bit 0 (cpu % 64) in
    (
      set (replicate 16 0) idx word,
      ap (λ o. and_then (or_into o (replicate 16 0) idx (cpu % 64)) (to_words 64 []))
          (get_elem?-replicate 16 idx 0 (omega (arith, h))),
      from_words-set 16 idx word (omega (arith, h))
          ∙ ap (bits 64 false) (bit_or-bitwise 0 (2 ^ (cpu % 64)))
          ∙ bits-ones 64 (2 ^ (cpu % 64)) false (pow_bound (cpu % 64) 64 (omega arith))
          ∙ ones-pow 64 (cpu % 64) (omega arith),
    )
