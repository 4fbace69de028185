-- ===== src/Iovec/Examples.antt =====
-- Pointers that are an address and a size.
use rsyscall.Base.{
  ℕ, ◌+◌, ◌-◌, ◌≤◌, ◌≡◌, refl, arith, List, [], ◌∷◌, Option, none, some, leb, if◌then◌else◌, take,
  drop, length,
}
use rsyscall.Iovec.{
  Buffers, Parts, split, to_bytes, first_count, split_iovec, split_memory, split_with_middle,
  split_turns, turn, set_middle, join_parts, join_middle,
}
use rsyscall.Iovec.Covered.{IsBuffers, covers, fits, split_lem}
use rsyscall.Iovec.Spans.{range, length-range, take-range, drop-range}
use rsyscall.Iovec.Entries.{empty, next, split_iovec_lem}

abbrev Span : Type 0
Span = ℕ × ℕ

abbrev split_span : Span → ℕ → Option (Span × Span)
split_span (start, size) n = if leb n size then some ((start, n), (start + n, size - n)) else none

abbrev spans : Buffers Span
spans = record { size = λ p. p.1; split = split_span; entry = λ p. p.0 ∷ p.1 ∷ []; entry_size = 2 }

split-within : (p : Span) (n : ℕ) → n ≤ p.1 → split_span p n ≡ some ((p.0, n), (p.0 + n, p.1 - n))
split-within (start, size) n h = rw (fits n size h) refl

abbrev spans-IsBuffers : IsBuffers spans
spans-IsBuffers = record {
  cover = λ p. range p.0 p.1;
  length-cover = λ p. length-range p.0 p.1;
  cover-split = λ p n h. (
    (p.0, n),
    (p.0 + n, p.1 - n),
    split-within p n h,
    take-range p.0 n p.1 h,
    drop-range p.0 n p.1 h,
  );
}

abbrev three : List Span
three = (100, 4) ∷ (200, 3) ∷ (300, 2) ∷ []

split_three : split spans three 5 ≡ some ((100, 4) ∷ (200, 1) ∷ [], (201, 2) ∷ (300, 2) ∷ [])
unfolding split split_with_middle split_turns turn set_middle join_parts join_middle
split_three = refl

-- An empty pointer behind the place of the split is counted as one before it. The second piece of the
-- memory is then not what its value, the pointer with the address 300, is written as.
zero_split :
    split_iovec spans ((100, 4) ∷ (300, 2) ∷ (200, 0) ∷ []) 3
    ≡ some (
      100 ∷ 4 ∷ 300 ∷ 2 ∷ [],
      record {
        valid = (200, 0) ∷ [];
        middle = some ((100, 3), (103, 1));
        invalid = (300, 2) ∷ [];
        n = 0;
      },
      200 ∷ 0 ∷ [],
    )
unfolding split_iovec split_memory first_count to_bytes split_with_middle split_turns turn
    set_middle
zero_split = refl

split_lem_example :
    (first : List Span) × (second : List Span) × (split spans three 5 ≡ some (first, second))
    × (covers spans spans-IsBuffers first ≡ take 5 (covers spans spans-IsBuffers three))
    × (covers spans spans-IsBuffers second ≡ drop 5 (covers spans spans-IsBuffers three))
split_lem_example = split_lem spans spans-IsBuffers three 5

split_iovec_lem_example :
    (s : Parts Span) × (split_iovec spans three 5
      ≡ some (to_bytes spans (take (first_count spans s) three), s, to_bytes spans s.invalid))
    × (take (length s.valid) three ≡ s.valid)
    × (drop (first_count spans s) three ≡ s.invalid)
split_iovec_lem_example =
    split_iovec_lem spans spans-IsBuffers three 5
      (next (omega arith) (next (omega arith) (next (omega arith) empty))) (λ p. refl)
