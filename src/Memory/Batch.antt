-- ===== src/Memory/Batch.antt =====
-- python/rsyscall/memory/ram.py: `perform_batch`, its allocators, and `NullAllocation`.
pub mod Runs
pub mod Served
mod Examples
use rsyscall.Base.{ℕ, Bool, List, [], ◌∷◌, ◌++◌, ◌==◌, if◌then◌else◌, false, length, map}
use rsyscall.Base.Int.{ℤ, pos, negsuc, ◌-ℤ◌}
use rsyscall.Memory.Arena as Arena
use rsyscall.Memory.Arena.{Allocation}
use rsyscall.Memory.Allocator.{Request}

-- `batch_raised` stands for whatever exception the callable raises itself, and `allocator_error` for
-- one of the allocator, and `transport_error` for one of the writes.
pub data Error : Type 0 where
  index_error nondeterministic batch_raised cannot_merge allocator_error transport_error : Error

pub data Result {ℓ} (A : Type ℓ) : Type ℓ where
  ok : A → Result A
  err : Error → Result A

-- The allocations that a batch sees: those of an arena, and `NullAllocation(n)`.
pub data AnyAllocation : Type 0 where
  allocation : Allocation → AnyAllocation
  null_allocation : ℤ → AnyAllocation

unfoldable pub size : AnyAllocation → ℤ
size (allocation a) = Arena.size a
size (null_allocation n) = n

-- The methods of `NullAllocation(n)`.
unfoldable pub null_offset : ℤ → ℕ
null_offset n = 0

unfoldable pub null_split : ℤ → ℤ → AnyAllocation × AnyAllocation
null_split n size = (null_allocation (n -ℤ size), null_allocation size)

unfoldable pub null_merge : ℤ → AnyAllocation → Result AnyAllocation
null_merge n other = err cannot_merge

-- The callable: what it does with the RAM that it is passed. `malloc` asks for a size, `ptr` for a
-- pointer to bytes; both go on with the allocation behind the pointer that they get.
pub data Batch (T : Type 0) : Type 0 where
  return : T → Batch T
  raise : Batch T
  malloc : ℕ → (AnyAllocation → Batch T) → Batch T
  ptr : List ℕ → (AnyAllocation → Batch T) → Batch T

module _ {T : Type 0} where
  -- The first run, with `LaterAllocator` and `NoopTransport`: the requests are stored, the allocations
  -- are null, and the writes do nothing.
  unfoldable pub run_later : Batch T → List Request → Result T × List Request
  run_later (return a) allocations = (ok a, allocations)
  run_later raise allocations = (err batch_raised, allocations)
  run_later (malloc n rest) allocations =
      run_later (rest (null_allocation (pos n))) (allocations ++ ((n, 1) ∷ []))
  run_later (ptr bytes rest) allocations =
      run_later (rest (null_allocation (pos (length bytes))))
        (allocations ++ ((length bytes, 1) ∷ []))

-- `allocation.size() == size`
abbrev pub same_size : ℤ → ℕ → Bool
same_size (pos m) n = m == n
same_size (negsuc m) n = false

-- `PrefilledAllocator.malloc`
unfoldable pub prefilled_malloc : ℕ → List AnyAllocation → Result AnyAllocation × List AnyAllocation
prefilled_malloc n [] = (err index_error, [])
prefilled_malloc n (a ∷ allocations) =
    if same_size (size a) n then (ok a, allocations) else (err nondeterministic, allocations)

-- A write that was put off: where, and what.
abbrev pub Write : Type 0
Write = AnyAllocation × List ℕ

module _ {T : Type 0} where
  abbrev pub then_run :
      Result AnyAllocation × List AnyAllocation
      → (AnyAllocation → List AnyAllocation → Result T × List AnyAllocation × List Write)
      → List Write
      → Result T × List AnyAllocation × List Write
  then_run (err e, allocations) f writes = (err e, allocations, writes)
  then_run (ok a, allocations) f writes = f a allocations

  -- The second run, with `PrefilledAllocator` and `BatchWriteSemantics`: it returns the result, the
  -- allocations that are left, and `writes`.
  unfoldable pub run_prefilled :
      Batch T → List AnyAllocation → List Write → Result T × List AnyAllocation × List Write
  run_prefilled (return a) allocations writes = (ok a, allocations, writes)
  run_prefilled raise allocations writes = (err batch_raised, allocations, writes)
  run_prefilled (malloc n rest) allocations writes =
      then_run (prefilled_malloc n allocations) (λ a left. run_prefilled (rest a) left writes)
        writes
  run_prefilled (ptr bytes rest) allocations writes =
      then_run (prefilled_malloc (length bytes) allocations)
        (λ a left. run_prefilled (rest a) left (writes ++ ((a, bytes) ∷ []))) writes

  -- `run_all` of `transport.write` on the writes is `run_writes`: it returns (`true`) or raises.
  unfoldable pub perform_end :
      (List Write → Bool) → Result T × List AnyAllocation × List Write → Result T × List Write
  perform_end run_writes (err e, left, writes) = (err e, [])
  perform_end run_writes (ok a, left, writes) =
      (if run_writes writes then ok a else err transport_error, writes)

  unfoldable pub perform_second :
      (List Write → Bool) → Batch T → Arena.Result (List Allocation) → Result T × List Write
  perform_second run_writes batch (Arena.err e) = (err allocator_error, [])
  perform_second run_writes batch (Arena.ok l) =
      perform_end run_writes (run_prefilled batch (map allocation l) [])

  unfoldable pub perform_first :
      (List Request → Arena.Result (List Allocation))
      → (List Write → Bool)
      → Batch T
      → Result T × List Request
      → Result T × List Write
  perform_first bulk_malloc run_writes batch (err e, requests) = (err e, [])
  perform_first bulk_malloc run_writes batch (ok a, requests) =
      perform_second run_writes batch (bulk_malloc requests)

  -- The result, and the writes that the transport is given. `bulk_malloc` is that of the allocator.
  unfoldable pub perform_batch :
      (List Request → Arena.Result (List Allocation))
      → (List Write → Bool)
      → Batch T
      → Result T × List Write
  perform_batch bulk_malloc run_writes batch =
      perform_first bulk_malloc run_writes batch (run_later batch [])
