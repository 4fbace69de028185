-- ===== src/Bits/Sets.antt =====
-- signal.py: a set of signals in a word.
use Prim.Native.Nat.{bit_or, bit_or-bitwise}
use rsyscall.Base.{
  ℕ, zero, suc, ◌-◌, ◌/◌, ◌^◌, ◌≤◌, ◌<◌, ◌≡◌, refl, ap, ◌∙◌, true, false, ◌&&◌, List, [], ◌∷◌, map,
  arith, ◌==◌, if◌then◌else◌, ltb, has,
}
use rsyscall.Bits.{or_bit, bits, sigset_to_cffi}
use rsyscall.Bits.Digits.{bit_or-digit, two_pow, two_pow_pos, bit}
use rsyscall.Bits.Listed.{ones, bits-ones}

or_zero : (m a : ℕ) → a ≤ m → bit_or a 0 ≡ a
or_zero m zero h = bit_or-bitwise 0 0
or_zero zero (suc a) h = elim h [ ]
or_zero (suc m) (suc a) h =
    omega (arith, bit_or-digit (suc a) 0, or_zero m (suc a / 2) (omega (arith, h)))

pub or_bound : (w a b : ℕ) → a < 2 ^ w → b < 2 ^ w → bit_or a b < 2 ^ w
or_bound zero zero zero h k = omega (arith, bit_or-bitwise 0 0)
or_bound zero (suc a) b h k = absurd (omega (arith, h))
or_bound zero zero (suc b) h k = absurd (omega (arith, k))
or_bound (suc w) a b h k = omega (
  arith,
  bit_or-digit a b,
  two_pow w,
  or_bound w (a / 2) (b / 2) (omega (arith, two_pow w, h)) (omega (arith, two_pow w, k)),
)

pub pow_bound : (k w : ℕ) → k < w → 2 ^ k < 2 ^ w
pow_bound k zero h = elim h [ ]
pow_bound zero (suc w) h = omega (arith, two_pow w, two_pow_pos w)
pow_bound (suc k) (suc w) h = omega (arith, two_pow w, two_pow k, pow_bound k w (omega (arith, h)))

pub bit-or_bit : (j k n : ℕ) → bit j (or_bit n k) ≡ (if k == j then 1 else bit j n)
bit-or_bit zero zero n = omega (arith, bit_or-digit n 1)
bit-or_bit (suc j) zero n =
    let half : or_bit n 0 / 2 ≡ n / 2 =
      omega (arith, bit_or-digit n 1, or_zero (n / 2) (n / 2) (omega arith)) in
    ap (bit j) half ∙ ground arith
bit-or_bit zero (suc k) n = ground (arith, bit_or-digit n (2 ^ suc k), two_pow k)
bit-or_bit (suc j) (suc k) n =
    let half : (2 ^ suc k) / 2 ≡ 2 ^ k = omega (arith, two_pow k) in
    let rest : or_bit n (suc k) / 2 ≡ bit_or (n / 2) ((2 ^ suc k) / 2) =
      omega (arith, bit_or-digit n (2 ^ suc k), two_pow k) in
    ap (bit j) (rest ∙ ap (bit_or (n / 2)) half) ∙ bit-or_bit j k (n / 2) ∙ ground arith

pub bit_of_zero : (j : ℕ) → bit j 0 ≡ 0
bit_of_zero zero = refl
bit_of_zero (suc j) = bit_of_zero j

pub has-map : (j : ℕ) (l : List ℕ) → has (suc j) (map suc l) ≡ has j l
has-map j [] = refl
has-map j (a ∷ l) = ground (arith, has-map j l)

pub has-map_none : (l : List ℕ) → has 0 (map suc l) ≡ false
has-map_none [] = refl
has-map_none (a ∷ l) = ground (arith, has-map_none l)

pub has-ones : (w j n : ℕ) → has j (ones w n) ≡ (ltb j w && (bit j n == 1))
has-ones zero j n = ground arith
has-ones (suc w) zero n = ground (arith, has-map_none (ones w (n / 2)))
has-ones (suc w) (suc j) n = ground (arith, has-map j (ones w (n / 2)), has-ones w j (n / 2))

-- Every member is a signal, from 1 to 64.
abbrev pub AreSignals : List ℕ → Type 0
AreSignals [] = Unit {0}
AreSignals (sig ∷ l) = (1 ≤ sig) × (sig ≤ 64) × AreSignals l

pub sigset_bound : (l : List ℕ) → AreSignals l → sigset_to_cffi l < 2 ^ 64
unfolding sigset_to_cffi
sigset_bound [] w = omega arith
sigset_bound (sig ∷ l) (p, q, w) =
    or_bound 64 (sigset_to_cffi l) (2 ^ (sig - 1)) (sigset_bound l w)
      (pow_bound (sig - 1) 64 (omega (arith, p, q)))

pub sigset_bit :
    (l : List ℕ) (j : ℕ) → AreSignals l → (bit j (sigset_to_cffi l) == 1) ≡ has (suc j) l
unfolding sigset_to_cffi
sigset_bit [] j w = rw (bit_of_zero j) refl
sigset_bit (sig ∷ l) j (p, q, w) =
    rw (bit-or_bit j (sig - 1) (sigset_to_cffi l)) (ground (arith, sigset_bit l j w, p))

signals_bound : (l : List ℕ) (g : ℕ) → AreSignals l → has g l ≡ true → (1 ≤ g) × (g ≤ 64)
signals_bound [] g w h = cc
signals_bound (sig ∷ l) g (p, q, w) h = ground (arith, p, q, h, signals_bound l g w)

-- The bits of the word of a set of signals are its members.
pub bits-sigset_to_cffi :
    (l : List ℕ) (g : ℕ) → AreSignals l → has g (bits 64 true (sigset_to_cffi l)) ≡ has g l
bits-sigset_to_cffi l g w =
    ap (has g) (bits-ones 64 (sigset_to_cffi l) true (sigset_bound l w)) ∙ by_number g
  where
    by_number : (n : ℕ) → has n (map suc (ones 64 (sigset_to_cffi l))) ≡ has n l
    by_number zero = has-map_none (ones 64 (sigset_to_cffi l)) ∙ ground (arith, signals_bound l 0 w)
    by_number (suc j) =
        has-map j (ones 64 (sigset_to_cffi l))
        ∙ has-ones 64 j (sigset_to_cffi l)
        ∙ ground (arith, sigset_bit l j w, signals_bound l (suc j) w)
