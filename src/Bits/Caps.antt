-- ===== src/Bits/Caps.antt =====
-- sys/capability.py: a set of capabilities in two words.
use rsyscall.Base.{
  ℕ, ◌+◌, ◌-◌, ◌/◌, ◌%◌, ◌^◌, ◌≤◌, ◌<◌, ◌≡◌, refl, ap, ◌∙◌, true, false, ◌&&◌, ◌||◌, List, [], ◌∷◌,
  ◌++◌, map, arith, ◌==◌, if◌then◌else◌, ltb, leb, some, Bool-cases, inl, inr, has,
}
use rsyscall.Bits.{bits, or_bit, and_then, to_words, or_word, to_uint32s, from_uint32s}
use rsyscall.Bits.Digits.{bit}
use rsyscall.Bits.Listed.{ones, bits-ones}
use rsyscall.Bits.Sets.{or_bound, pow_bound, bit-or_bit, bit_of_zero, has-ones}

-- The capabilities, each below 64, are in one of the two words.
abbrev pub AreCaps : List ℕ → Type 0
AreCaps [] = Unit {0}
AreCaps (cap ∷ l) = (cap < 64) × AreCaps l

-- The two words, each by itself.
abbrev low_word : List ℕ → ℕ → ℕ
low_word [] one = one
low_word (c ∷ l) one = low_word l (if ltb c 32 then or_bit one c else one)

abbrev high_word : List ℕ → ℕ → ℕ
high_word [] two = two
high_word (c ∷ l) two = high_word l (if ltb c 32 then two else or_bit two (c - 32))

or_word-low :
    (c one two : ℕ)
    → c < 32
    → or_word (one ∷ two ∷ []) (c / 32) (c % 32) ≡ some (or_bit one c ∷ two ∷ [])
or_word-low c one two h =
    let idx : c / 32 ≡ 0 = omega (arith, h) in
    let rem : c % 32 ≡ c = omega (arith, h) in
    ap (λ i. or_word (one ∷ two ∷ []) i (c % 32)) idx ∙ ap (or_word (one ∷ two ∷ []) 0) rem

or_word-high :
    (c one two : ℕ)
    → 32 ≤ c
    → c < 64
    → or_word (one ∷ two ∷ []) (c / 32) (c % 32) ≡ some (one ∷ or_bit two (c - 32) ∷ [])
or_word-high c one two h k =
    let idx : c / 32 ≡ 1 = omega (arith, h, k) in
    let rem : c % 32 ≡ c - 32 = omega (arith, h, k) in
    ap (λ i. or_word (one ∷ two ∷ []) i (c % 32)) idx ∙ ap (or_word (one ∷ two ∷ []) 1) rem

to_words-two :
    (l : List ℕ) (one two : ℕ)
    → AreCaps l
    → to_words 32 l (one ∷ two ∷ []) ≡ some (low_word l one ∷ high_word l two ∷ [])
unfolding to_words
to_words-two [] one two w = refl
to_words-two (c ∷ l) one two (b, w) = elim (Bool-cases (ltb c 32)) [
  | inl low ↦
      ap (λ o. and_then o (to_words 32 l)) (or_word-low c one two (ground (arith, low)))
      ∙ to_words-two l (or_bit one c) two w
      ∙ ground (arith, low)
  | inr high ↦
      ap (λ o. and_then o (to_words 32 l)) (or_word-high c one two (ground (arith, high)) b)
      ∙ to_words-two l one (or_bit two (c - 32)) w
      ∙ ground (arith, high)
]

low_bound : (l : List ℕ) (one : ℕ) → one < 2 ^ 32 → low_word l one < 2 ^ 32
low_bound [] one h = h
low_bound (c ∷ l) one h = elim (Bool-cases (ltb c 32)) [
  | inl e ↦
      rw e (
        low_bound l (or_bit one c) (or_bound 32 one (2 ^ c) h (pow_bound c 32 (ground (arith, e)))))
  | inr e ↦ rw e (low_bound l one h)
]

high_bound : (l : List ℕ) (two : ℕ) → AreCaps l → two < 2 ^ 32 → high_word l two < 2 ^ 32
high_bound [] two w h = h
high_bound (c ∷ l) two (b, w) h = elim (Bool-cases (ltb c 32)) [
  | inl e ↦ rw e (high_bound l two w h)
  | inr e ↦ rw e (
      high_bound l (or_bit two (c - 32)) w
        (or_bound 32 two (2 ^ (c - 32)) h (pow_bound (c - 32) 32 (ground (arith, e, b)))))
]

low_bit :
    (l : List ℕ) (one j : ℕ)
    → j < 32
    → (bit j (low_word l one) == 1) ≡ (has j l || (bit j one == 1))
low_bit [] one j lt = refl
low_bit (c ∷ l) one j lt = elim (Bool-cases (ltb c 32)) [
  | inl e ↦ rw e (low_bit l (or_bit one c) j lt ∙ rw (bit-or_bit j c one) (ground (arith, e)))
  | inr e ↦ rw e (low_bit l one j lt ∙ ground (arith, e))
]

high_bit :
    (l : List ℕ) (two j : ℕ) → (bit j (high_word l two) == 1) ≡ (has (j + 32) l || (bit j two == 1))
high_bit [] two j = refl
high_bit (c ∷ l) two j = elim (Bool-cases (ltb c 32)) [
  | inl e ↦ rw e (high_bit l two j ∙ ground (arith, e))
  | inr e ↦
      rw e (high_bit l (or_bit two (c - 32)) j ∙ rw (bit-or_bit j (c - 32) two) (ground (arith, e)))
]

has-append : (g : ℕ) (l m : List ℕ) → has g (l ++ m) ≡ (has g l || has g m)
has-append g [] m = refl
has-append g (a ∷ l) m = ground (arith, has-append g l m)

has-map_moved : (g k : ℕ) (l : List ℕ) → has g (map (λ b. b + k) l) ≡ (leb k g && has (g - k) l)
has-map_moved g k [] = ground arith
has-map_moved g k (a ∷ l) = ground (arith, has-map_moved g k l)

caps_bound : (l : List ℕ) (g : ℕ) → AreCaps l → has g l ≡ true → g < 64
caps_bound [] g w h = cc
caps_bound (c ∷ l) g (b, w) h = ground (arith, b, h, caps_bound l g w)

-- Capabilities below 64 go into two words, and are read back from them.
pub to_uint32s-from_uint32s :
    (l : List ℕ) (g : ℕ)
    → AreCaps l
    → (one : ℕ) × (two : ℕ) × (to_uint32s l ≡ some (one ∷ two ∷ []))
      × (has g (from_uint32s one two) ≡ has g l)
unfolding to_uint32s from_uint32s
to_uint32s-from_uint32s l g w =
    let one = low_word l 0 in
    let two = high_word l 0 in
    (
      one,
      two,
      to_words-two l 0 0 w,
      ap (λ m. has g (m ++ map (λ b. b + 32) (bits 32 false two)))
            (bits-ones 32 one false (low_bound l 0 (omega arith)))
          ∙ ap (λ m. has g (ones 32 one ++ map (λ b. b + 32) m))
              (bits-ones 32 two false (high_bound l 0 w (omega arith)))
          ∙ has-append g (ones 32 one) (map (λ b. b + 32) (ones 32 two))
          ∙ rw (has-ones 32 g one, has-map_moved g 32 (ones 32 two), has-ones 32 (g - 32) two)
              (in_words g),
    )
  where
    in_words :
        (n : ℕ)
        → ((ltb n 32 && (bit n (low_word l 0) == 1))
            || (leb 32 n && (ltb (n - 32) 32 && (bit (n - 32) (high_word l 0) == 1))))
          ≡ has n l
    in_words n = elim (Bool-cases (ltb n 32)) [
      | inl e ↦ rw (low_bit l 0 n (ground (arith, e)), bit_of_zero n) (ground (arith, e))
      | inr e ↦
          let sum : n - 32 + 32 ≡ n = ground (arith, e) in
          rw (high_bit l 0 (n - 32), bit_of_zero (n - 32), sum)
            (ground (arith, e, caps_bound l n w))
    ]
