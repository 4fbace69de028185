-- ===== src/Memory/Allocator/Examples.antt =====
-- Bulk allocations at concrete requests.
use rsyscall.Base.{ℕ, ◌≡◌, Bool, false, List, [], ◌∷◌, refl, arith}
use rsyscall.Memory.Arena.{
  Allocation, Result, ok, err, internal_error, allocate, place, align, round_up,
}
use rsyscall.Memory.Allocator.{Request, bulk_malloc, pass, fill, remaining_size}
use rsyscall.Memory.Allocator.Success.{Succeeds, bulk_malloc-Uniform}
use rsyscall.Memory.Allocator.Mixed.{mixed, bulk_malloc-mixed}

abbrev mmap_works : ℕ → Result (Unit {0})
mmap_works n = ok tt

abbrev no_foreign : ℕ → ℕ → Bool
no_foreign a i = false

abbrev three : List Request
three = (16, 1) ∷ (5000, 1) ∷ (8, 1) ∷ []

abbrev answer : List Allocation
answer =
    record { ident = 0; arena = 0; start = 0; stop = 16 }
    ∷ record { ident = 1; arena = 0; start = 16; stop = 5016 }
    ∷ record { ident = 2; arena = 0; start = 5016; stop = 5024 }
    ∷ []

three_allocated : (bulk_malloc mmap_works no_foreign three []).0 ≡ ok answer
unfolding bulk_malloc pass fill remaining_size allocate place align round_up
three_allocated = refl

bulk_malloc-Uniform_example : Succeeds (bulk_malloc mmap_works no_foreign three [])
bulk_malloc-Uniform_example =
    bulk_malloc-Uniform 1 (omega arith) (omega arith) mmap_works no_foreign (λ n pos. refl) three []
      (refl, omega arith, (refl, omega arith, (refl, omega arith, tt))) (λ e. cc)

bulk_malloc-mixed_example :
    (bulk_malloc mmap_works no_foreign (mixed 3000) []).0 ≡ err internal_error
bulk_malloc-mixed_example =
    bulk_malloc-mixed mmap_works no_foreign 3000 (omega arith) (omega arith) refl
