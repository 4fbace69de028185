-- ===== src/Memory/Allocator/Fill.antt =====
-- The second loop of `_bulk_malloc` (allocator.py) in an arena that has room.
use native.Mathlib.Nat.{add-mod, zero-mod}
use rsyscall.Base.{
  ℕ, ◌+◌, ◌%◌, ◌≤◌, ◌<◌, ◌≡◌, refl, inr, List, [], ◌∷◌, arith, ltb, true, false, zero, suc, ◌∙◌,
}
use rsyscall.Memory.Arena.{Arena, Allocation, ok, round_up, allocate, insert_at, make}
use rsyscall.Memory.Arena.Align.{le-round_up, round_up-mod, align_pos}
use rsyscall.Memory.Arena.Layout.{AllApart, place_lowest}
use rsyscall.Memory.Allocator.{Request, fill, remaining_size}

-- All requests have the alignment `a` and a positive size.
abbrev pub Uniform : ℕ → List Request → Type 0
Uniform a [] = Unit
Uniform a ((size, alignment) ∷ rest) = (alignment ≡ a) × (0 < size) × Uniform a rest

-- The sum of the sizes, each rounded up.
abbrev pub total : ℕ → List Request → ℕ
total a [] = 0
total a ((size, alignment) ∷ rest) = round_up size a + total a rest

-- Every range ends at `used` or before.
abbrev pub Below : ℕ → List Allocation → Type 0
Below used [] = Unit
Below used (a ∷ l) = (a.stop ≤ used) × Below used l

Below-mono : (m n : ℕ) (l : List Allocation) → m ≤ n → Below m l → Below n l
Below-mono m n [] le b = tt
Below-mono m n (a ∷ l) le b = (omega arith, Below-mono m n l le b.1)

Below-insert_at :
    (n i : ℕ) (new : Allocation) (l : List Allocation)
    → new.stop ≤ n
    → Below n l
    → Below n (insert_at i (new ∷ []) l)
Below-insert_at n zero new l le b = (le, b)
Below-insert_at n (suc i) new [] le b = (le, tt)
Below-insert_at n (suc i) new (a ∷ l) le b = (b.0, Below-insert_at n i new l le b.1)

Below-AllApart : (used stop : ℕ) (l : List Allocation) → Below used l → AllApart used stop l
Below-AllApart used stop [] b = tt
Below-AllApart used stop (a ∷ l) b = (inr b.0, Below-AllApart used stop l b.1)

pub remaining_size-total :
    (a : ℕ) (sizes : List Request)
    → 0 < a
    → Uniform a sizes
    → remaining_size sizes ≡ ok (total a sizes)
unfolding remaining_size
remaining_size-total a [] pos u = refl
remaining_size-total a ((size, alignment) ∷ rest) pos u =
    rw (u.0, align_pos size a pos, remaining_size-total a rest pos u.2)

module _ (a : ℕ) (pos : 0 < a) (small : a ≤ 4096) where
  -- One allocation behind everything that is there.
  allocate_behind :
      (size used : ℕ) (s : Arena)
      → Below used s.allocations
      → used % a ≡ 0
      → used + round_up size a ≤ s.mapping_length
      → (new : Allocation) × (t : Arena) × (allocate size a s ≡ (ok new, t))
        × Below (used + round_up size a) t.allocations
        × (t.mapping_length ≡ s.mapping_length)
  unfolding allocate
  allocate_behind size used s b m fits =
      let up = le-round_up size a in
      let (i, start, e, low) =
        place_lowest s.mapping_length size a pos 0 used s.allocations (omega arith) m (omega arith)
          (Below-AllApart used (used + size) s.allocations b) in
      let (new, t) = make start (start + size) true s in
      (
        new,
        record t { allocations = insert_at i (new ∷ []) s.allocations },
        rw (e, allocate),
        Below-insert_at (used + round_up size a) i new s.allocations (omega arith)
            (Below-mono used (used + round_up size a) s.allocations (omega arith) b),
        refl,
      )

  pub allowed : ltb 4096 a ≡ false
  allowed = ground arith

  multiple : (used size : ℕ) → used % a ≡ 0 → (used + round_up size a) % a ≡ 0
  multiple used size m =
      add-mod used (round_up size a) a ∙ (rw (m, round_up-mod size a pos) (zero-mod a))

  -- Requests of one alignment all succeed in an arena with room for their rounded sizes.
  pub fill-Uniform :
      (sizes : List Request) (used : ℕ) (s : Arena)
      → Uniform a sizes
      → Below used s.allocations
      → used % a ≡ 0
      → used + total a sizes ≤ s.mapping_length
      → (l : List Allocation) × (t : Arena) × (fill sizes s ≡ (ok l, t))
  unfolding fill
  fill-Uniform [] used s u b m fits = ([], s, refl)
  fill-Uniform ((size, alignment) ∷ rest) used s u b m fits =
      let (new, t, e, b', len) = allocate_behind size used s b m (omega arith) in
      let (l, t', f) =
        fill-Uniform rest (used + round_up size a) t u.2 b' (multiple used size m) (omega arith) in
      (new ∷ l, t', rw (u.0, e, f, allowed))
