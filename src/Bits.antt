-- ===== src/Bits.antt =====
-- python/rsyscall/struct.py: `bits`, and the sets of numbers that signal.py, sys/capability.py and
-- sched.py keep in words.
pub mod Digits
pub mod Listed
pub mod Sets
pub mod Abstract
pub mod Caps
pub mod Cpus
mod Examples
use Prim.Native.Nat.{bit_and, bit_or, bit_xor}
use rsyscall.Base.{
  ℕ, zero, suc, ◌+◌, ◌-◌, ◌/◌, ◌%◌, ◌*◌, ◌^◌, Bool, true, false, List, [], ◌∷◌, ◌++◌, Option, none,
  some, map, ltb, ◌==◌, if◌then◌else◌, set, get_or, get_elem?, length, replicate,
}

-- `n & (~n+1)` for a number below 2 ^ w, whose bits from w on are zero.
unfoldable pub lowest_bit : ℕ → ℕ → ℕ
lowest_bit w n = bit_and n (2 ^ w - n)

-- `b.bit_length()` for a number below 2 ^ w.
unfoldable pub bit_length : ℕ → ℕ → ℕ
bit_length zero b = 0
bit_length (suc w) b = let rest = bit_length w (b / 2) in if b == 0 then 0 else suc rest

-- The loop of `bits` with fuel, where `shift` is 0 for `one_indexed` and 1 without.
unfoldable pub bits_loop : ℕ → ℕ → ℕ → ℕ → List ℕ
unfolding lowest_bit bit_length
bits_loop zero w shift n = []
bits_loop (suc fuel) w shift n =
    let b = lowest_bit w n in
    let rest = bits_loop fuel w shift (bit_xor n b) in
    if n == 0 then [] else (bit_length w b - shift) ∷ rest

-- `bits` of a word of w bits.
unfoldable pub bits : ℕ → Bool → ℕ → List ℕ
unfolding bits_loop
bits w one_indexed n = bits_loop w w (if one_indexed then 0 else 1) n

-- `word |= 1 << bit`
abbrev pub or_bit : ℕ → ℕ → ℕ
or_bit word bit = bit_or word (2 ^ bit)

-- `Sigset.to_cffi`: the word of the kernel's sigset. NONE, whose shift by -1 raises, is not among the
-- numbers of the list.
unfoldable pub sigset_to_cffi : List ℕ → ℕ
sigset_to_cffi [] = 0
sigset_to_cffi (sig ∷ l) = or_bit (sigset_to_cffi l) (sig - 1)

abbrev pub prepend : ℕ → Option (List ℕ) → Option (List ℕ)
prepend n none = none
prepend n (some l) = some (n ∷ l)

-- `SIG(bit)` of each number: a number that is not one of a member of SIG, `is_sig`, raises.
unfoldable pub sigs_of : (ℕ → Bool) → List ℕ → Option (List ℕ)
sigs_of is_sig [] = some []
sigs_of is_sig (bit ∷ l) =
    let rest = sigs_of is_sig l in if is_sig bit then prepend bit rest else none

-- `Sigset.from_cffi`
unfoldable pub sigset_from_cffi : (ℕ → Bool) → ℕ → Option (List ℕ)
unfolding bits sigs_of
sigset_from_cffi is_sig val = sigs_of is_sig (bits 64 true val)

-- `to_uint32s` and `from_uint32s` of capabilities; `none` is an IndexError.
abbrev pub or_into : Option ℕ → List ℕ → ℕ → ℕ → Option (List ℕ)
or_into none words idx bit = none
or_into (some word) words idx bit = some (set words idx (or_bit word bit))

abbrev pub or_word : List ℕ → ℕ → ℕ → Option (List ℕ)
or_word words idx bit = or_into (get_elem? words idx) words idx bit

abbrev pub and_then : Option (List ℕ) → (List ℕ → Option (List ℕ)) → Option (List ℕ)
and_then none f = none
and_then (some words) f = f words

unfoldable pub to_words : ℕ → List ℕ → List ℕ → Option (List ℕ)
to_words width [] words = some words
to_words width (val ∷ l) words =
    and_then (or_word words (val / width) (val % width)) (to_words width l)

unfoldable pub to_uint32s : List ℕ → Option (List ℕ)
unfolding to_words
to_uint32s caps = to_words 32 caps (0 ∷ 0 ∷ [])

unfoldable pub from_uint32s : ℕ → ℕ → List ℕ
unfolding bits
from_uint32s one two = bits 32 false one ++ map (λ bit. bit + 32) (bits 32 false two)

-- `CpuSet.to_bytes` and `from_bytes`, as the words of `cpu_set_t`.
unfoldable pub cpu_set_to_words : List ℕ → Option (List ℕ)
unfolding to_words
cpu_set_to_words cpus = to_words 64 cpus (replicate 16 0)

-- The index of the word is not used.
unfoldable pub cpu_set_from_words : List ℕ → List ℕ
unfolding bits
cpu_set_from_words [] = []
cpu_set_from_words (val ∷ words) = bits 64 false val ++ cpu_set_from_words words
