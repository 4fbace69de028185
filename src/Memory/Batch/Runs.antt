-- ===== src/Memory/Batch/Runs.antt =====
-- The two runs of `perform_batch` (ram.py) on a callable whose requests do not depend on its pointers.
use mathlib.Core.List.{append-nil}
use rsyscall.Base.{ℕ, ◌≡◌, refl, List, [], ◌∷◌, ◌++◌, length, map, arith, ap, sym, ◌∙◌}
use rsyscall.Base.Int.{pos}
use rsyscall.Memory.Allocator.{Request}
use rsyscall.Memory.Batch.{
  ok, AnyAllocation, null_allocation, size, Batch, return, raise, malloc, ptr, Write, run_later,
  run_prefilled, prefilled_malloc,
}

-- What a callable asks for: memory of a size, or a pointer to so many bytes.
pub data Demand : Type 0 where
  space stored : ℕ → Demand

abbrev pub amount : Demand → ℕ
amount (space n) = n
amount (stored n) = n

-- Whatever allocations it is given, the callable makes these demands and returns. What it writes may
-- depend on the allocations, as long as its length does not.
abbrev pub Asks : {T : Type 0} → Batch T → List Demand → Type 0
Asks (return a) [] = Unit
Asks (return a) (d ∷ demands) = ⊥
Asks raise demands = ⊥
Asks (malloc n rest) [] = ⊥
Asks (malloc n rest) (space m ∷ demands) = (n ≡ m) × ((a : AnyAllocation) → Asks (rest a) demands)
Asks (malloc n rest) (stored m ∷ demands) = ⊥
Asks (ptr bytes rest) [] = ⊥
Asks (ptr bytes rest) (space m ∷ demands) = ⊥
Asks (ptr bytes rest) (stored m ∷ demands) =
    (length bytes ≡ m) × ((a : AnyAllocation) → Asks (rest a) demands)

abbrev pub requests : List Demand → List Request
requests = map λ d. (amount d, 1)

-- The allocations have these sizes.
abbrev pub Sized : List Demand → List AnyAllocation → Type 0
Sized [] [] = Unit
Sized [] (a ∷ l) = ⊥
Sized (d ∷ demands) [] = ⊥
Sized (d ∷ demands) (a ∷ l) = (size a ≡ pos (amount d)) × Sized demands l

-- The allocations that are written.
abbrev pub targets : List Demand → List AnyAllocation → List AnyAllocation
targets [] l = []
targets (d ∷ demands) [] = []
targets (space n ∷ demands) (a ∷ l) = targets demands l
targets (stored n ∷ demands) (a ∷ l) = a ∷ targets demands l

abbrev pub written_to : List Write → List AnyAllocation
written_to = map λ w. w.0

-- Every write fills the allocation that it goes to.
abbrev pub Fills : List Write → Type 0
Fills [] = Unit
Fills ((a, bytes) ∷ writes) = (size a ≡ pos (length bytes)) × Fills writes

Fills-append : (l m : List Write) → Fills l → Fills m → Fills (l ++ m)
Fills-append [] m f g = g
Fills-append (w ∷ l) m f g = (f.0, Fills-append l m f.1 g)

written_to-append : (l m : List Write) → written_to (l ++ m) ≡ written_to l ++ written_to m
written_to-append [] m = refl
written_to-append (w ∷ l) m = ap (λ x. w.0 ∷ x) (written_to-append l m)

append_assoc : {A : Type 0} (x : List A) (a : A) (y : List A) → (x ++ (a ∷ [])) ++ y ≡ x ++ (a ∷ y)
append_assoc [] a y = refl
append_assoc (b ∷ x) a y = ap (λ l. b ∷ l) (append_assoc x a y)

prefilled_malloc-eq :
    (n : ℕ) (a : AnyAllocation) (l : List AnyAllocation)
    → size a ≡ pos n
    → prefilled_malloc n (a ∷ l) ≡ (ok a, l)
unfolding prefilled_malloc
prefilled_malloc-eq n a l e = rw e (ground arith)

module _ {T : Type 0} where
  pub run_later-Asks :
      (batch : Batch T) (demands : List Demand) (l : List Request)
      → Asks batch demands
      → (a : T) × (run_later batch l ≡ (ok a, l ++ requests demands))
  unfolding run_later
  run_later-Asks (return a) [] l f = (a, ap (λ x. (ok a, x)) (sym (append-nil l)))
  run_later-Asks (return a) (d ∷ demands) l f = elim f [ ]
  run_later-Asks raise demands l f = elim f [ ]
  run_later-Asks (malloc n rest) [] l f = elim f [ ]
  run_later-Asks (malloc n rest) (stored m ∷ demands) l f = elim f [ ]
  run_later-Asks (malloc n rest) (space m ∷ demands) l (e, f) =
      let (a, g) =
        run_later-Asks (rest (null_allocation (pos n))) demands (l ++ ((n, 1) ∷ []))
          (f (null_allocation (pos n))) in
      (a, g ∙ ap (λ x. (ok a, x)) (append_assoc l (n, 1) (requests demands) ∙ rw e refl))
  run_later-Asks (ptr bytes rest) [] l f = elim f [ ]
  run_later-Asks (ptr bytes rest) (space m ∷ demands) l f = elim f [ ]
  run_later-Asks (ptr bytes rest) (stored m ∷ demands) l (e, f) =
      let (a, g) =
        run_later-Asks (rest (null_allocation (pos (length bytes)))) demands
          (l ++ ((length bytes, 1) ∷ [])) (f (null_allocation (pos (length bytes)))) in
      (a, g ∙ ap (λ x. (ok a, x)) (append_assoc l (length bytes, 1) (requests demands) ∙ rw e refl))

  -- What the second run returns: all allocations are used, and the new writes go to the targets.
  abbrev pub Served : Batch T → List Demand → List AnyAllocation → List Write → Type 0
  Served batch demands l writes =
      (a : T) × (w : List Write) × (run_prefilled batch l writes ≡ (ok a, [], w))
      × (written_to w ≡ written_to writes ++ targets demands l)
      × Fills w

  pub run_prefilled-Asks :
      (batch : Batch T) (demands : List Demand) (l : List AnyAllocation) (writes : List Write)
      → Asks batch demands
      → Sized demands l
      → Fills writes
      → Served batch demands l writes
  unfolding run_prefilled
  run_prefilled-Asks (return a) [] [] writes f s g =
      (a, writes, refl, sym (append-nil (written_to writes)), g)
  run_prefilled-Asks (return a) [] (b ∷ l) writes f s g = elim s [ ]
  run_prefilled-Asks (return a) (d ∷ demands) l writes f s g = elim f [ ]
  run_prefilled-Asks raise demands l writes f s g = elim f [ ]
  run_prefilled-Asks (malloc n rest) [] l writes f s g = elim f [ ]
  run_prefilled-Asks (malloc n rest) (stored m ∷ demands) l writes f s g = elim f [ ]
  run_prefilled-Asks (malloc n rest) (space m ∷ demands) [] writes f s g = elim s [ ]
  run_prefilled-Asks (ptr bytes rest) [] l writes f s g = elim f [ ]
  run_prefilled-Asks (ptr bytes rest) (space m ∷ demands) l writes f s g = elim f [ ]
  run_prefilled-Asks (ptr bytes rest) (stored m ∷ demands) [] writes f s g = elim s [ ]
  run_prefilled-Asks (malloc n rest) (space m ∷ demands) (a ∷ l) writes (e, f) (x, s) g =
      let (r, w, h, to, k) = run_prefilled-Asks (rest a) demands l writes (f a) s g in
      (r, w, rw (prefilled_malloc-eq n a l (x ∙ ap pos (sym e))) h, to, k)
  run_prefilled-Asks (ptr bytes rest) (stored m ∷ demands) (a ∷ l) writes (e, f) (x, s) g =
      let filled : size a ≡ pos (length bytes) = x ∙ ap pos (sym e) in
      let (r, w, h, to, k) =
        run_prefilled-Asks (rest a) demands l (writes ++ ((a, bytes) ∷ [])) (f a) s
          (Fills-append writes ((a, bytes) ∷ []) g (filled, tt)) in
      (
        r,
        w,
        rw (prefilled_malloc-eq (length bytes) a l filled) h,
        to
            ∙ (ap (λ y. y ++ targets demands l) (written_to-append writes ((a, bytes) ∷ []))
                ∙ append_assoc (written_to writes) a (targets demands l)),
        k,
      )
