-- ===== src/Memory/Allocator/Success.antt =====
-- `UnlimitedAllocator._bulk_malloc` (allocator.py): when it cannot fail.
use native.Mathlib.Nat.{zero-mod}
use rsyscall.Base.{
  ℕ, ◌+◌, ◌≤◌, ◌<◌, ◌≡◌, ◌≢◌, refl, Bool, true, false, List, [], ◌∷◌, ◌++◌, arith, ltb, length, ◌⊎◌,
  inl, inr,
}
use rsyscall.Memory.Arena.{
  Arena, Allocation, Error, Result, ok, err, out_of_space, round_up, allocate, place, make,
  insert_at,
}
use rsyscall.Memory.Arena.Align.{le-round_up, align_pos}
use rsyscall.Memory.Arena.Layout.{Result-cases}
use rsyscall.Memory.Allocator.{Request, Outcome, pass, new_arena, grow, bulk_rest, bulk_malloc}
use rsyscall.Memory.Allocator.Fill.{Uniform, total, remaining_size-total, fill-Uniform}

-- With a positive alignment the loop of `allocate` raises nothing but `OutOfSpaceError`.
place_err :
    (len size alignment newstart : ℕ) (l : List Allocation) (x : Error)
    → 0 < alignment
    → place len size alignment newstart l ≡ err x
    → x ≡ out_of_space
unfolding place
place_err len size alignment newstart [] x pos e = ground arith
place_err len size alignment newstart (a ∷ l) x pos e = ground (
  arith,
  align_pos a.stop alignment pos,
  place_err len size alignment (round_up a.stop alignment) l x pos,
)

-- What `allocate` can do to an arena.
allocate-cases :
    (size alignment : ℕ) (s : Arena)
    → 0 < alignment
    → (allocate size alignment s ≡ (err out_of_space, s))
      ⊎ ((a : Allocation) × (t : Arena) × (allocate size alignment s ≡ (ok a, t)))
unfolding allocate
allocate-cases size alignment s pos =
    elim (Result-cases (place s.mapping_length size alignment 0 s.allocations)) [
      | inl (x, e) ↦ inl (
          rw (e, allocate)
            (rw (place_err s.mapping_length size alignment 0 s.allocations x pos e) refl))
      | inr ((i, start), e) ↦
          let (new, t) = make start (start + size) true s in
          inr
            (new, record t { allocations = insert_at i (new ∷ []) s.allocations }, rw (e, allocate))
    ]

-- The call returns allocations.
abbrev pub Succeeds : Outcome (List Allocation) → Type 0
Succeeds r = (l : List Allocation) × (arenas : List Arena) × (r ≡ (ok l, arenas))

module _ (a : ℕ) (pos : 0 < a) (small : a ≤ 4096) where
  -- What the first loop gives back when it raises nothing.
  abbrev Passed : List Request → List Arena → Type 0
  Passed sizes arenas =
      (found : List Allocation) × (rest : List Request) × (arenas' : List Arena) × (pass sizes
          arenas
        ≡ (ok (found, rest), arenas'))
      × Uniform a rest

  permitted : (alignment : ℕ) → alignment ≡ a → ltb 4096 alignment ≡ false
  permitted alignment e = ground arith

  positive : (alignment : ℕ) → alignment ≡ a → 0 < alignment
  positive alignment e = omega arith

  pass-Uniform :
      (sizes : List Request) (arenas : List Arena)
      → Uniform a sizes
      → sizes ≢ []
      → Passed sizes arenas
  unfolding pass
  pass-Uniform sizes [] u ne = ([], sizes, [], refl, u)
  pass-Uniform [] (arena ∷ more) u ne = absurd (ne refl)
  pass-Uniform ((size, alignment) ∷ []) (arena ∷ more) u ne =
      elim (allocate-cases size alignment arena (positive alignment u.0)) [
        | inl e ↦
            let (found, rest, arenas, f, u') = pass-Uniform ((size, alignment) ∷ []) more u ne in
            (found, rest, arena ∷ arenas, rw (permitted alignment u.0, e, f), u')
        | inr (new, t, e) ↦ (new ∷ [], [], t ∷ more, rw (permitted alignment u.0, e), tt)
      ]
  pass-Uniform ((size, alignment) ∷ q ∷ rest) (arena ∷ more) u ne =
      elim (allocate-cases size alignment arena (positive alignment u.0)) [
        | inl e ↦
            let (found, rest', arenas, f, u') =
              pass-Uniform ((size, alignment) ∷ q ∷ rest) more u ne in
            (found, rest', arena ∷ arenas, rw (permitted alignment u.0, e, f), u')
        | inr (new, t, e) ↦
            let (found, rest', arenas, f, u') = pass-Uniform (q ∷ rest) more u.2 (λ x. cc) in
            (new ∷ found, rest', t ∷ arenas, rw (permitted alignment u.0, e, f), u')
      ]

  module _ (mmap : ℕ → Result (Unit {0})) (foreign : ℕ → ℕ → Bool)
      (maps : (n : ℕ) → 0 < n → mmap n ≡ ok tt) where
    grow-Uniform :
        (found : List Allocation) (rest : List Request) (arenas : List Arena)
        → Uniform a rest
        → Succeeds (bulk_rest mmap foreign (ok (found, rest), arenas))
    unfolding bulk_rest
    grow-Uniform found [] arenas u = (found, arenas, refl)
    grow-Uniform found ((size, alignment) ∷ rest) arenas u =
        let len = round_up (total a ((size, alignment) ∷ rest)) 4096 in
        let (l, t, f) =
          fill-Uniform a pos small ((size, alignment) ∷ rest) 0
            (new_arena (length arenas) len foreign) u tt (zero-mod a)
            (omega (arith, le-round_up (total a ((size, alignment) ∷ rest)) 4096)) in
        (
          found ++ l,
          arenas ++ (t ∷ []),
          rw
              (
                remaining_size-total a ((size, alignment) ∷ rest) pos u,
                align_pos _ 4096 (omega arith),
              )
              (rw
                (
                  maps len (
                      omega (
                        arith,
                        le-round_up size a,
                        le-round_up (total a ((size, alignment) ∷ rest)) 4096,
                      )),
                  grow,
                )
                (rw f)),
        )

    -- When there is a request, every request has the same alignment, positive and at most a page,
    -- and a positive size, and `mmap` succeeds for every positive length, a bulk allocation
    -- returns, whatever the arenas hold.
    pub bulk_malloc-Uniform :
        (sizes : List Request) (arenas : List Arena)
        → Uniform a sizes
        → sizes ≢ []
        → Succeeds (bulk_malloc mmap foreign sizes arenas)
    unfolding bulk_malloc
    bulk_malloc-Uniform sizes arenas u ne =
        let (found, rest, arenas', e, u') = pass-Uniform sizes arenas u ne in
        rw e (grow-Uniform found rest arenas' u')
