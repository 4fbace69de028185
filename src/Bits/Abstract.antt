-- ===== src/Bits/Abstract.antt =====
-- signal.py: a Sigset without the order and the repetitions of a list, and the kernel's word for it.
use mathlib.Core.Equiv.{IsEquiv, iso_to_equiv}
use mathlib.Core.HLevel.{Σ_prop_path}
use mathlib.Core.Quot
use mathlib.Core.Quot.{Quot, Quot-set}
use native.Mathlib.Bridge.{le_prop}
use native.Mathlib.Nat.{ℕ_set}
use std.Sets.{Bool-set}
use rsyscall.Base.{
  ℕ, zero, suc, ◌/◌, ◌%◌, ◌^◌, ◌≤◌, ◌<◌, ◌≡◌, refl, sym, ap, ◌∙◌, Bool, true, false, ◌&&◌, List, [],
  ◌∷◌, arith, ◌==◌, ltb, has, some,
}
use rsyscall.Bits.{bits, sigset_to_cffi, sigs_of, sigset_from_cffi}
use rsyscall.Bits.Digits.{two_pow, bit}
use rsyscall.Bits.Listed.{ones, bits-ones}
use rsyscall.Bits.Sets.{
  AreSignals, has-map, has-map_none, has-ones, sigset_bound, sigset_bit, bits-sigset_to_cffi,
}

bit_lt : (j n : ℕ) → bit j n < 2
bit_lt zero n = omega arith
bit_lt (suc j) n = bit_lt j (n / 2)

-- A number below 2 ^ w is known by its w lowest digits.
digit_ext :
    (w a b : ℕ)
    → a < 2 ^ w
    → b < 2 ^ w
    → ((j : ℕ) → j < w → (bit j a == 1) ≡ (bit j b == 1))
    → a ≡ b
digit_ext zero a b g h same = omega (arith, g, h)
digit_ext (suc w) a b g h same =
    let e : (a % 2 == 1) ≡ (b % 2 == 1) = same 0 (omega arith) in
    let low : a % 2 ≡ b % 2 = ground (arith, e) in
    omega (
      arith,
      low,
      digit_ext w (a / 2) (b / 2) (omega (arith, two_pow w, g)) (omega (arith, two_pow w, h))
          (λ j p. same (suc j) (omega (arith, p))),
    )

has-bits : (n j : ℕ) → n < 2 ^ 64 → has (suc j) (bits 64 true n) ≡ (ltb j 64 && (bit j n == 1))
has-bits n j h = ap (has (suc j)) (bits-ones 64 n true h) ∙ has-map j (ones 64 n) ∙ has-ones 64 j n

right : (p q : Bool) → (p && q) ≡ true → q ≡ true
right true q e = e
right false q e = cc

-- `is_sig` are the numbers of the members of SIG: 0 for NONE, which is in no set here since its shift
-- raises, and others up to 64.
module _ (is_sig : ℕ → Bool) (in_range : (g : ℕ) → is_sig g ≡ true → g ≤ 64) where
  abbrev pub AreSigs : List ℕ → Type 0
  AreSigs [] = Unit {0}
  AreSigs (g ∷ l) = (1 ≤ g) × (is_sig g ≡ true) × AreSigs l

  -- A set of signals, as a list of them.
  abbrev pub SignalList : Type 0
  SignalList = (l : List ℕ) × AreSigs l

  abbrev pub SameSignals : SignalList → SignalList → Type 0
  SameSignals a b = (sig : ℕ) → has sig a.0 ≡ has sig b.0

  -- `Sigset`
  abbrev pub Sigset : Type 0
  Sigset = Quot SameSignals

  -- `struct kernel_sigset`, a word of 64 bits, with no bit set but those of members of SIG.
  abbrev pub IsWord : ℕ → Type 0
  IsWord n = (n < 2 ^ 64) × ((j : ℕ) → (bit j n == 1) ≡ true → is_sig (suc j) ≡ true)

  abbrev pub Word : Type 0
  Word = (n : ℕ) × IsWord n

  IsWord-prop : (n : ℕ) → IsProp (IsWord n)
  IsWord-prop n = hlevel (le_prop, Bool-set)

  Word-path : (a b : Word) → a.0 ≡ b.0 → a ≡ b
  Word-path a b e = Σ_prop_path IsWord-prop e

  pub Word-set : IsSet Word
  Word-set = hlevel (ℕ_set, le_prop, Bool-set)

  pub AreSigs-AreSignals : (l : List ℕ) → AreSigs l → AreSignals l
  AreSigs-AreSignals [] w = tt
  AreSigs-AreSignals (g ∷ l) (low, p, w) = (low, in_range g p, AreSigs-AreSignals l w)

  pub has-AreSigs : (l : List ℕ) (g : ℕ) → AreSigs l → has g l ≡ true → is_sig g ≡ true
  has-AreSigs [] g w h = cc
  has-AreSigs (a ∷ l) g (low, p, w) h = ground (arith, has-AreSigs l g w)

  listed-AreSigs :
      (l : List ℕ) → ((g : ℕ) → has g l ≡ true → (1 ≤ g) × (is_sig g ≡ true)) → AreSigs l
  listed-AreSigs [] f = tt
  listed-AreSigs (a ∷ l) f =
      let (low, p) = f a (ground arith) in
      (low, p, listed-AreSigs l (λ g e. f g (ground (arith, e))))

  unfoldable pub word_of : SignalList → Word
  word_of (l, w) = (
    sigset_to_cffi l,
    (
      sigset_bound l (AreSigs-AreSignals l w),
      λ j e. has-AreSigs l (suc j) w (sym (sigset_bit l j (AreSigs-AreSignals l w)) ∙ e),
    ),
  )

  pub word_of-same : (a b : SignalList) → SameSignals a b → word_of a ≡ word_of b
  unfolding word_of
  word_of-same (l, w) (m, v) same =
      let p = AreSigs-AreSignals l w in
      let q = AreSigs-AreSignals m v in
      Word-path (word_of (l, w)) (word_of (m, v)) (
        digit_ext 64 (sigset_to_cffi l) (sigset_to_cffi m) (sigset_bound l p) (sigset_bound m q)
          (λ j k. sigset_bit l j p ∙ same (suc j) ∙ sym (sigset_bit m j q)))

  -- `Sigset.to_cffi`
  unfoldable pub to_word : Sigset → Word
  to_word = Quot.lift Word-set word_of word_of-same

  bits-is_sig : (a : Word) (g : ℕ) → has g (bits 64 true a.0) ≡ true → (1 ≤ g) × (is_sig g ≡ true)
  bits-is_sig (n, (h, m)) zero e =
      let none_there = ap (has 0) (bits-ones 64 n true h) ∙ has-map_none (ones 64 n) in
      absurd (ground (arith, e, none_there))
  bits-is_sig (n, (h, m)) (suc j) e =
      (omega arith, m j (right (ltb j 64) (bit j n == 1) (sym (has-bits n j h) ∙ e)))

  -- The members that the bits of a word tell.
  listed : Word → SignalList
  listed a = (bits 64 true a.0, listed-AreSigs (bits 64 true a.0) (bits-is_sig a))

  sigs_of-AreSigs : (l : List ℕ) → AreSigs l → sigs_of is_sig l ≡ some l
  unfolding sigs_of
  sigs_of-AreSigs [] w = refl
  sigs_of-AreSigs (g ∷ l) (low, p, w) = rw (p, sigs_of-AreSigs l w) refl

  to_word-listed : (a : Word) → to_word (Quot.mk (listed a)) ≡ a
  unfolding to_word word_of listed
  to_word-listed (n, (h, m)) =
      let l = bits 64 true n in
      let w = AreSigs-AreSignals l ((listed (n, (h, m))).1) in
      Word-path (word_of (listed (n, (h, m)))) (n, (h, m))
        (digit_ext 64 (sigset_to_cffi l) n (sigset_bound l w) h
          (λ j p. sigset_bit l j w ∙ has-bits n j h ∙ ground (arith, p)))

  listed-to_word : (s : Sigset) → Quot.mk (listed (to_word s)) ≡ s
  unfolding to_word word_of listed
  listed-to_word =
      Quot.ind (λ s. Quot-set _ _)
        (λ (l, w). Quot.sound (λ sig. bits-sigset_to_cffi l sig (AreSigs-AreSignals l w)))

  -- If the members of SIG have numbers up to 64, the sets of them without NONE and the words of 64
  -- bits whose ones are all members are equivalent by `to_cffi`, which does not depend on the order or the
  -- repetitions of a list of the signals. On such a word `from_cffi` does not raise: it returns a list
  -- of members, and the word of that set is the word that was read.
  pub to_word-IsEquiv :
      IsEquiv to_word
      × ((a : Word)
          → (s : SignalList) × (sigset_from_cffi is_sig a.0 ≡ some s.0) × (to_word (Quot.mk s) ≡ a))
  unfolding sigset_from_cffi listed
  to_word-IsEquiv = (
    (iso_to_equiv record {
      fun = to_word;
      inv = λ a. Quot.mk (listed a);
      rinv = to_word-listed;
      linv = listed-to_word;
    }).1,
    λ a. (listed a, sigs_of-AreSigs (listed a).0 (listed a).1, to_word-listed a),
  )
