-- ===== src/Memory/Batch/Examples.antt =====
-- A batch that writes the start of its first allocation into its second one.
use rsyscall.Base.{ℕ, ◌≡◌, refl, Bool, true, false, List, [], ◌∷◌}
use rsyscall.Base.Int.{pos}
use rsyscall.Memory.Arena as Arena
use rsyscall.Memory.Arena.{Allocation}
use rsyscall.Memory.Allocator.{Request}
use rsyscall.Memory.Batch.{
  ok, err, transport_error, AnyAllocation, allocation, null_allocation, size, Batch, return, malloc,
  ptr, Write, perform_batch, perform_first, perform_second, perform_end, run_later, run_prefilled,
  prefilled_malloc,
}
use rsyscall.Memory.Batch.Runs.{Demand, space, stored, Asks, Fills, written_to}
use rsyscall.Memory.Batch.Served.{perform_batch-Fills}

abbrev start_of : AnyAllocation → ℕ
start_of (allocation a) = a.start
start_of (null_allocation n) = 0

abbrev table : Batch ℕ
table = malloc 16 (λ a. ptr (start_of a ∷ 0 ∷ []) (λ b. return 1))

abbrev demands : List Demand
demands = space 16 ∷ stored 2 ∷ []

table-Asks : Asks table demands
table-Asks = (refl, λ a. (refl, λ b. tt))

abbrev large : Allocation
large = record { ident = 0; arena = 0; start = 32; stop = 48 }

abbrev small : Allocation
small = record { ident = 1; arena = 0; start = 48; stop = 50 }

abbrev two : List Request → Arena.Result (List Allocation)
two sizes = Arena.ok (large ∷ small ∷ [])

-- A transport that writes whatever it is given, and one that fails.
abbrev writes_all : List Write → Bool
writes_all w = true

table_run : perform_batch two writes_all table ≡ (ok 1, (allocation small, 32 ∷ 0 ∷ []) ∷ [])
unfolding perform_batch perform_first perform_second perform_end run_later run_prefilled
    prefilled_malloc size Arena.size
table_run = refl

table_fails :
    perform_batch two (λ w. false) table
    ≡ (err transport_error, (allocation small, 32 ∷ 0 ∷ []) ∷ [])
unfolding perform_batch perform_first perform_second perform_end run_later run_prefilled
    prefilled_malloc size Arena.size
table_fails = refl

sized : (size (allocation large) ≡ pos 16) × (size (allocation small) ≡ pos 2)
unfolding size Arena.size
sized = (refl, refl)

abbrev mmap_works : ℕ → Arena.Result (Unit {0})
mmap_works n = Arena.ok tt

abbrev no_foreign : ℕ → ℕ → Bool
no_foreign a i = false

abbrev page : Arena.Arena
page = record {
  ident = 0;
  mapping_length = 4096;
  allocations = large ∷ [];
  valid = λ i. false;
  next = 2;
  foreign = no_foreign;
}

perform_batch-Fills_example :
    (a : ℕ) × (w : List Write) × (perform_batch two writes_all table ≡ (ok a, w))
    × (written_to w ≡ allocation small ∷ [])
    × Fills w
perform_batch-Fills_example =
    perform_batch-Fills two writes_all table demands (large ∷ small ∷ []) table-Asks refl
      (sized.0, (sized.1, tt))
