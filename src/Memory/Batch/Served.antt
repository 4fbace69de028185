-- ===== src/Memory/Batch/Served.antt =====
-- `perform_batch` (ram.py) on an allocator that serves it, and `NullAllocation` beside `Allocation`.
use rsyscall.Base.{
  ℕ, ◌+◌, ◌≤◌, ◌<◌, ◌≡◌, ◌≢◌, refl, Bool, List, [], ◌∷◌, map, arith, ap, if◌then◌else◌,
}
use rsyscall.Base.Int.{pos, ◌-ℤ◌}
use rsyscall.Memory.Arena as Arena
use rsyscall.Memory.Arena.{Allocation}
use rsyscall.Memory.Arena.Split.{first_part, second_part}
use rsyscall.Memory.Allocator.{Request, bulk_malloc, bulk_rest, pass}
use rsyscall.Memory.Allocator.Fill.{Uniform}
use rsyscall.Memory.Allocator.Success.{bulk_malloc-Uniform}
use rsyscall.Memory.Allocator.Answers.{Answers, bulk_malloc-Answers}
use rsyscall.Memory.Batch.{
  ok, err, allocator_error, transport_error, allocation, size, null_split, Batch, return, Write,
  perform_batch, perform_first, perform_second, perform_end, run_later,
}
use rsyscall.Memory.Batch.Runs.{
  Demand, amount, Asks, requests, Sized, Fills, targets, written_to, run_later-Asks,
  run_prefilled-Asks,
}

-- If a callable makes the same demands whatever allocations it is given, and the allocator answers
-- the requests with allocations of their sizes, then `perform_batch` gives the transport writes that
-- go, in order, to the allocations of those demands that store bytes, and each fills its allocation. It
-- returns if the transport writes them all without an exception, and raises otherwise.
pub perform_batch-Fills :
    {T : Type 0} (bulk : List Request → Arena.Result (List Allocation))
    (run_writes : List Write → Bool) (batch : Batch T) (demands : List Demand) (l : List Allocation)
    → Asks batch demands
    → bulk (requests demands) ≡ Arena.ok l
    → Sized demands (map allocation l)
    → (a : T) × (w : List Write) × (perform_batch bulk run_writes batch
        ≡ (if run_writes w then ok a else err transport_error, w))
      × (written_to w ≡ targets demands (map allocation l))
      × Fills w
unfolding perform_batch perform_first perform_second perform_end
perform_batch-Fills bulk run_writes batch demands l f e s =
    let (b, later) = run_later-Asks batch demands [] f in
    let (a, w, second, to, fills) = run_prefilled-Asks batch demands (map allocation l) [] f s tt in
    (a, w, rw (later, e, second) refl, to, fills)

size-eq : (a : Allocation) (n : ℕ) → a.stop ≡ a.start + n → size (allocation a) ≡ pos n
unfolding size Arena.size
size-eq a n e = ground (arith, e)

Answers-Sized :
    (demands : List Demand) (l : List Allocation)
    → Answers (requests demands) l
    → Sized demands (map allocation l)
Answers-Sized [] [] h = tt
Answers-Sized [] (a ∷ l) h = elim h [ ]
Answers-Sized (d ∷ demands) [] h = elim h [ ]
Answers-Sized (d ∷ demands) (a ∷ l) (e, h) = (size-eq a (amount d) e, Answers-Sized demands l h)

abbrev pub Positive : List Demand → Type 0
Positive [] = Unit
Positive (d ∷ demands) = (0 < amount d) × Positive demands

Positive-Uniform : (demands : List Demand) → Positive demands → Uniform 1 (requests demands)
Positive-Uniform [] p = tt
Positive-Uniform (d ∷ demands) (h, p) = (refl, h, Positive-Uniform demands p)

requests-nonempty : (demands : List Demand) → demands ≢ [] → requests demands ≢ []
requests-nonempty [] ne e = ne refl
requests-nonempty (d ∷ demands) ne e = cc

module _ (mmap : ℕ → Arena.Result (Unit {0})) (foreign : ℕ → ℕ → Bool)
    (arenas : List Arena.Arena) where
  -- The allocator of a batch.
  abbrev pub allocator : List Request → Arena.Result (List Allocation)
  allocator sizes = (bulk_malloc mmap foreign sizes arenas).0

  -- Over `UnlimitedAllocator`, with an `mmap` that succeeds for every positive length, a callable
  -- that makes at least one demand and only positive ones, the same whatever allocations it is given,
  -- is served: the allocator answers its requests, and `perform_batch` returns if the transport writes
  -- what it is given. The writes go, in order, to the allocations of those demands that store bytes,
  -- and each fills its allocation.
  pub perform_batch_served :
      ((n : ℕ) → 0 < n → mmap n ≡ Arena.ok tt)
      → {T : Type 0} (run_writes : List Write → Bool) (batch : Batch T) (demands : List Demand)
      → Asks batch demands
      → Positive demands
      → demands ≢ []
      → (l : List Allocation) × (a : T) × (w : List Write) × (allocator (requests demands)
          ≡ Arena.ok l)
        × (perform_batch allocator run_writes batch
            ≡ (if run_writes w then ok a else err transport_error, w))
        × (written_to w ≡ targets demands (map allocation l))
        × Fills w
  perform_batch_served maps run_writes batch demands f p ne =
      let (l, after, e) =
        bulk_malloc-Uniform 1 (omega arith) (omega arith) mmap foreign maps (requests demands)
          arenas (Positive-Uniform demands p) (requests-nonempty demands ne) in
      let answered = ap (λ r. r.0) e in
      let (a, w, done, to, fills) =
        perform_batch-Fills allocator run_writes batch demands l f answered (
          Answers-Sized demands l
            (bulk_malloc-Answers mmap foreign (requests demands) arenas l answered)) in
      (l, a, w, answered, done, to, fills)

-- Over an `UnlimitedAllocator` that has an arena, `perform_batch` of a callable that returns without
-- asking for memory raises the exception of the allocator.
pub perform_batch_idle :
    (mmap : ℕ → Arena.Result (Unit {0})) (foreign : ℕ → ℕ → Bool) (arena : Arena.Arena)
    (arenas : List Arena.Arena) (run_writes : List Write → Bool) {T : Type 0} (a : T)
    → perform_batch (allocator mmap foreign (arena ∷ arenas)) run_writes (return a)
      ≡ (err allocator_error, [])
unfolding perform_batch perform_first perform_second run_later bulk_malloc bulk_rest pass
perform_batch_idle mmap foreign arena arenas run_writes a = refl

-- For an allocation that is at least `n` bytes long, `split` at `n` returns a part of that size first, while
-- `NullAllocation.split` returns it second: the two answer the sizes in opposite orders.
pub null_split_swaps :
    (a : Allocation) (n : ℕ) (s : Arena.Arena)
    → a.start + n ≤ a.stop
    → (size (allocation (first_part a n s)) ≡ pos n)
      × (size (allocation (second_part a n s)) ≡ size (allocation a) -ℤ pos n)
      × (size (null_split (size (allocation a)) (pos n)).0 ≡ size (allocation a) -ℤ pos n)
      × (size (null_split (size (allocation a)) (pos n)).1 ≡ pos n)
unfolding size null_split Arena.size ◌-ℤ◌
null_split_swaps a n s fits = (ground arith, ground arith, refl, refl)
