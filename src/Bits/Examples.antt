-- ===== src/Bits/Examples.antt =====
-- Sets at concrete values.
use rsyscall.Base.{ℕ, ◌≡◌, refl, ◌≤◌, ◌^◌, none, leb, arith, Bool, true, List, [], ◌∷◌, some}
use mathlib.Core.Equiv.{IsEquiv}
use mathlib.Core.Quot.{Quot}
use rsyscall.Bits.{bits, sigset_from_cffi, cpu_set_to_words, cpu_set_from_words}
use rsyscall.Bits.Listed.{bits-ones}
use rsyscall.Bits.Abstract.{SignalList, Word, to_word, to_word-IsEquiv}
use rsyscall.Bits.Cpus.{cpu_set_from_words-cpu_set_to_words}

bits-ones_example : bits 8 true 0x92 ≡ 2 ∷ 5 ∷ 8 ∷ []
bits-ones_example = bits-ones 8 0x92 true (omega arith)

cpu_set_from_words-cpu_set_to_words_example :
    (words : List ℕ) × (cpu_set_to_words (70 ∷ []) ≡ some words)
    × (cpu_set_from_words words ≡ 6 ∷ [])
cpu_set_from_words-cpu_set_to_words_example = cpu_set_from_words-cpu_set_to_words 70 (omega arith)

-- NONE and the signals that are not real-time ones.
abbrev standard : ℕ → Bool
standard g = leb g 31

standard_range : (g : ℕ) → standard g ≡ true → g ≤ 64
standard_range g h = ground arith

to_word-IsEquiv_example :
    IsEquiv (to_word standard standard_range)
    × ((a : Word standard standard_range)
        → (s : SignalList standard standard_range) × (sigset_from_cffi standard a.0 ≡ some s.0)
          × (to_word standard standard_range (Quot.mk s) ≡ a))
to_word-IsEquiv_example = to_word-IsEquiv standard standard_range

-- The word of SIGUSR1, and the one of a real-time signal, which raises.
one_signal : sigset_from_cffi standard 512 ≡ some (10 ∷ [])
unfolding sigset_from_cffi
one_signal = refl

real_time : sigset_from_cffi standard (2 ^ 33) ≡ none
unfolding sigset_from_cffi
real_time = refl
