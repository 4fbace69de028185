-- ===== src/Memory/Allocator.antt =====
-- python/rsyscall/memory/allocator.py: `UnlimitedAllocator`.
pub mod Fill
pub mod Success
pub mod Invariant
pub mod Answers
pub mod Mixed
mod Examples
use rsyscall.Base.{ℕ, ◌+◌, Bool, false, List, [], ◌∷◌, ◌++◌, ltb, if◌then◌else◌, length}
use rsyscall.Memory.Arena.{
  Arena, Allocation, Error, Result, Exec, ok, err, ◌>>=◌, out_of_space, index_error,
  alignment_too_big, internal_error, align, allocate,
}

-- A request: a size and an alignment.
abbrev pub Request : Type 0
Request = ℕ × ℕ

-- What a method of the allocator returns: its result, and `self.arenas`. The mapping that the source
-- returns beside an allocation is that of the arena which the allocation names.
abbrev pub Outcome : Type 0 → Type 0
Outcome A = Result A × List Arena

unfoldable pub add :
    Allocation
    → Arena
    → Outcome (List Allocation × List Request)
    → Outcome (List Allocation × List Request)
add a arena (err e, arenas) = (err e, arena ∷ arenas)
add a arena (ok (found, rest), arenas) = (ok (a ∷ found, rest), arena ∷ arenas)

unfoldable pub skip :
    Arena → Outcome (List Allocation × List Request) → Outcome (List Allocation × List Request)
skip arena (r, arenas) = (r, arena ∷ arenas)

-- The `try` statement of the first loop: the result of `arena.allocate` for the request `q`, the
-- requests behind `q`, the arenas behind this one, and the rest of the loop.
unfoldable pub pass_try :
    Result Allocation × Arena
    → Request
    → List Request
    → List Arena
    → (List Request → Outcome (List Allocation × List Request))
    → Outcome (List Allocation × List Request)
unfolding add skip
pass_try (ok a, arena) q [] more loop = (ok (a ∷ [], []), arena ∷ more)
pass_try (ok a, arena) q (r ∷ rest) more loop = add a arena (loop (r ∷ rest))
pass_try (err out_of_space, arena) q rest more loop = skip arena (loop (q ∷ rest))
pass_try (err e, arena) q rest more loop = (err e, arena ∷ more)

-- The first loop: one request is tried in each arena. The list holds `sizes[size_index:]`; the loop
-- returns what was allocated and the requests that are left.
unfoldable pub pass : List Request → List Arena → Outcome (List Allocation × List Request)
unfolding pass_try
pass sizes [] = (ok ([], sizes), [])
pass [] (arena ∷ more) = (err index_error, arena ∷ more)
pass ((size, alignment) ∷ rest) (arena ∷ more) =
    if ltb 4096 alignment
    then (err alignment_too_big, arena ∷ more)
    else pass_try (allocate size alignment arena) (size, alignment) rest more
        (λ sizes. pass sizes more)

-- `sum([align(size, alignment) for size, alignment in rest_sizes])`
unfoldable pub remaining_size : List Request → Result ℕ
remaining_size [] = ok 0
remaining_size ((size, alignment) ∷ rest) = do
  n ← align size alignment
  m ← remaining_size rest
  ok (n + m)

unfoldable pub fill_cons :
    Allocation → Result (List Allocation) × Arena → Result (List Allocation) × Arena
fill_cons a (err e, s) = (err e, s)
fill_cons a (ok l, s) = (ok (a ∷ l), s)

-- The `try` statement of the second loop.
unfoldable pub fill_try :
    Result Allocation × Arena → Exec (List Allocation) → Result (List Allocation) × Arena
unfolding fill_cons
fill_try (ok a, s) loop = fill_cons a (loop s)
fill_try (err out_of_space, s) loop = (err internal_error, s)
fill_try (err e, s) loop = (err e, s)

-- The second loop: all requests that are left go to the new arena.
unfoldable pub fill : List Request → Exec (List Allocation)
unfolding fill_try
fill [] s = (ok [], s)
fill ((size, alignment) ∷ rest) s =
    if ltb 4096 alignment
    then (err alignment_too_big, s)
    else fill_try (allocate size alignment s) (fill rest)

-- `Arena(mapping)`
abbrev pub new_arena : ℕ → ℕ → (ℕ → ℕ → Bool) → Arena
new_arena ident len foreign = record {
  ident = ident;
  mapping_length = len;
  allocations = [];
  valid = λ i. false;
  next = 0;
  foreign = foreign;
}

unfoldable pub grow_end :
    List Allocation → List Arena → Result (List Allocation) × Arena → Outcome (List Allocation)
grow_end found arenas (err e, arena) = (err e, arenas ++ (arena ∷ []))
grow_end found arenas (ok l, arena) = (ok (found ++ l), arenas ++ (arena ∷ []))

-- `mmap` is the system call: for a length it succeeds or raises. `foreign` are the flags of the
-- objects of the other arenas.
module _ (mmap : ℕ → Result (Unit {0})) (foreign : ℕ → ℕ → Bool) where
  -- The body of `if size_index != len(sizes)`, once the length of the new mapping is known.
  unfoldable pub grow :
      Result ℕ → List Allocation → List Request → List Arena → Outcome (List Allocation)
  unfolding grow_end
  grow (err e) found rest arenas = (err e, arenas)
  grow (ok len) found rest arenas = elim (mmap len) [
    | err e ↦ (err e, arenas)
    | ok _ ↦ grow_end found arenas (fill rest (new_arena (length arenas) len foreign))
  ]

  unfoldable pub bulk_rest : Outcome (List Allocation × List Request) → Outcome (List Allocation)
  unfolding grow
  bulk_rest (err e, arenas) = (err e, arenas)
  bulk_rest (ok (found, []), arenas) = (ok found, arenas)
  bulk_rest (ok (found, r ∷ rest), arenas) =
      grow (do total ← remaining_size (r ∷ rest); align total 4096) found (r ∷ rest) arenas

  unfoldable pub bulk_malloc : List Request → List Arena → Outcome (List Allocation)
  unfolding bulk_rest
  bulk_malloc sizes arenas = bulk_rest (pass sizes arenas)
