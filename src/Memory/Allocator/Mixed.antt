-- ===== src/Memory/Allocator/Mixed.antt =====
-- `UnlimitedAllocator._bulk_malloc` (allocator.py) with requests of different alignments.
use native.Mathlib.Nat.{mod-one}
use rsyscall.Base.{ℕ, ◌+◌, ◌≤◌, ◌<◌, ◌≡◌, Bool, List, [], ◌∷◌, arith}
use rsyscall.Memory.Arena.{
  Arena, Allocation, Result, ok, err, internal_error, align, round_up, place, allocate,
}
use rsyscall.Memory.Allocator.{
  Request, remaining_size, fill, new_arena, grow, grow_end, pass, bulk_malloc,
}

-- One byte, an aligned kilobyte and `n` bytes.
abbrev pub mixed : ℕ → List Request
mixed n = (1, 1) ∷ (1024, 1024) ∷ (n, 1) ∷ []

align_one : (n : ℕ) → align n 1 ≡ ok n
unfolding align round_up
align_one n = rw (mod-one n)

mixed_sum : (n : ℕ) → remaining_size (mixed n) ≡ ok (1 + (1024 + (n + 0)))
unfolding remaining_size align round_up
mixed_sum n = rw (mod-one n)

one_page : (n : ℕ) → n ≤ 3071 → align (1 + (1024 + (n + 0))) 4096 ≡ ok 4096
unfolding align round_up
one_page n h = ground arith

mixed-fill :
    (n : ℕ) (foreign : ℕ → ℕ → Bool)
    → 2048 < n
    → (fill (mixed n) (new_arena 0 4096 foreign)).0 ≡ err internal_error
unfolding fill allocate place align round_up
mixed-fill n foreign h = ground arith

filled :
    (r : Result (List Allocation) × Arena)
    → r.0 ≡ err internal_error
    → (grow_end [] [] r).0 ≡ err internal_error
unfolding grow_end
filled (err x, t) e = ground arith
filled (ok l, t) e = cc

module _ (mmap : ℕ → Result (Unit {0})) (foreign : ℕ → ℕ → Bool) where
  -- Without arenas and with an `mmap` that maps one page, the requests of one byte, of an aligned
  -- kilobyte and of `n` bytes, `n` from 2049 to 3071, raise the exception that the source calls an
  -- internal error.
  pub bulk_malloc-mixed :
      (n : ℕ)
      → 2048 < n
      → n ≤ 3071
      → mmap 4096 ≡ ok tt
      → (bulk_malloc mmap foreign (mixed n) []).0 ≡ err internal_error
  unfolding bulk_malloc pass
  bulk_malloc-mixed n pos small m =
      rw (mixed_sum n, one_page n small)
        (rw (m, grow)
          (filled (fill (mixed n) (new_arena 0 4096 foreign)) (mixed-fill n foreign pos)))
