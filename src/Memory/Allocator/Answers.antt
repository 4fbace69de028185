-- ===== src/Memory/Allocator/Answers.antt =====
-- The allocations that `UnlimitedAllocator._bulk_malloc` (allocator.py) returns.
use mathlib.Core.List.{append-nil}
use rsyscall.Base.{
  ℕ, ◌+◌, ◌≡◌, refl, subst, Bool, List, [], ◌∷◌, ◌++◌, ltb, length, inl, inr, Bool-cases,
}
use rsyscall.Memory.Arena.{
  Arena, Allocation, Result, ok, err, out_of_space, ◌>>=◌, align, allocate, place,
}
use rsyscall.Memory.Arena.Layout.{Result-cases}
use rsyscall.Memory.Allocator.{
  Request, Outcome, add, skip, pass_try, pass, fill_cons, fill_try, fill, remaining_size, new_arena,
  grow_end, grow, bulk_rest, bulk_malloc,
}

-- The allocations have the sizes asked for, in the order of the requests.
abbrev pub Answers : List Request → List Allocation → Type 0
Answers [] [] = Unit
Answers [] (a ∷ l) = ⊥
Answers (q ∷ rest) [] = ⊥
Answers (q ∷ rest) (a ∷ l) = (a.stop ≡ a.start + q.0) × Answers rest l

abbrev HasSize : ℕ → Result Allocation → Type 0
HasSize size (ok a) = a.stop ≡ a.start + size
HasSize size (err e) = Unit

abbrev IsAnswer : List Request → Result (List Allocation) → Type 0
IsAnswer sizes (ok l) = Answers sizes l
IsAnswer sizes (err e) = Unit

-- What the first loop found, with an answer to what it left, is an answer.
abbrev IsPartial : List Request → Result (List Allocation × List Request) → Type 0
IsPartial sizes (ok (found, rest)) =
    (l : List Allocation) → Answers rest l → Answers sizes (found ++ l)
IsPartial sizes (err e) = Unit

allocate-HasSize : (size alignment : ℕ) (s : Arena) → HasSize size (allocate size alignment s).0
unfolding allocate
allocate-HasSize size alignment s =
    elim (Result-cases (place s.mapping_length size alignment 0 s.allocations)) [
      | inl (x, e) ↦ rw (e, allocate) tt
      | inr ((i, start), e) ↦ rw (e, allocate) refl
    ]

fill_cons-IsAnswer :
    (a : Allocation) (q : Request) (rest : List Request) (r : Result (List Allocation) × Arena)
    → a.stop ≡ a.start + q.0
    → IsAnswer rest r.0
    → IsAnswer (q ∷ rest) (fill_cons a r).0
unfolding fill_cons
fill_cons-IsAnswer a q rest (ok l, t) e h = (e, h)
fill_cons-IsAnswer a q rest (err x, t) e h = tt

fill_try-IsAnswer :
    (r : Result Allocation × Arena) (q : Request) (rest : List Request)
    (loop : Arena → Result (List Allocation) × Arena)
    → HasSize q.0 r.0
    → ((t : Arena) → IsAnswer rest (loop t).0)
    → IsAnswer (q ∷ rest) (fill_try r loop).0
unfolding fill_try
fill_try-IsAnswer (ok a, t) q rest loop e ih = fill_cons-IsAnswer a q rest (loop t) e (ih t)
fill_try-IsAnswer (err out_of_space, t) q rest loop e ih = tt
fill_try-IsAnswer (err x, t) q rest loop e ih = tt

fill-IsAnswer : (sizes : List Request) (s : Arena) → IsAnswer sizes (fill sizes s).0
unfolding fill
fill-IsAnswer [] s = tt
fill-IsAnswer ((size, alignment) ∷ rest) s = elim (Bool-cases (ltb 4096 alignment)) [
  | inl large ↦ rw large tt
  | inr small ↦ rw small (
      fill_try-IsAnswer (allocate size alignment s) (size, alignment) rest (fill rest)
        (allocate-HasSize size alignment s) (fill-IsAnswer rest))
]

add-IsPartial :
    (a : Allocation) (arena : Arena) (q : Request) (rest : List Request)
    (o : Outcome (List Allocation × List Request))
    → a.stop ≡ a.start + q.0
    → IsPartial rest o.0
    → IsPartial (q ∷ rest) (add a arena o).0
unfolding add
add-IsPartial a arena q rest (ok (found, left), t) e h = λ l h'. (e, h l h')
add-IsPartial a arena q rest (err x, t) e h = tt

skip-IsPartial :
    (arena : Arena) (sizes : List Request) (o : Outcome (List Allocation × List Request))
    → IsPartial sizes o.0
    → IsPartial sizes (skip arena o).0
unfolding skip
skip-IsPartial arena sizes (r, t) h = h

pass_try-IsPartial :
    (r : Result Allocation × Arena) (q : Request) (rest : List Request) (more : List Arena)
    (loop : List Request → Outcome (List Allocation × List Request))
    → HasSize q.0 r.0
    → ((sizes : List Request) → IsPartial sizes (loop sizes).0)
    → IsPartial (q ∷ rest) (pass_try r q rest more loop).0
unfolding pass_try
pass_try-IsPartial (ok a, t) q [] more loop e ih = λ l h. (e, h)
pass_try-IsPartial (ok a, t) q (x ∷ rest) more loop e ih =
    add-IsPartial a t q (x ∷ rest) (loop (x ∷ rest)) e (ih (x ∷ rest))
pass_try-IsPartial (err out_of_space, t) q rest more loop e ih =
    skip-IsPartial t (q ∷ rest) (loop (q ∷ rest)) (ih (q ∷ rest))
pass_try-IsPartial (err x, t) q rest more loop e ih = tt

pass-IsPartial :
    (sizes : List Request) (arenas : List Arena) → IsPartial sizes (pass sizes arenas).0
unfolding pass
pass-IsPartial sizes [] = λ l h. h
pass-IsPartial [] (arena ∷ more) = tt
pass-IsPartial ((size, alignment) ∷ rest) (arena ∷ more) = elim (Bool-cases (ltb 4096 alignment)) [
  | inl large ↦ rw large tt
  | inr small ↦ rw small (
      pass_try-IsPartial (allocate size alignment arena) (size, alignment) rest more
        (λ sizes. pass sizes more) (allocate-HasSize size alignment arena)
        (λ sizes. pass-IsPartial sizes more))
]

grow_end-IsAnswer :
    (sizes rest : List Request) (found : List Allocation) (arenas : List Arena)
    (r : Result (List Allocation) × Arena)
    → ((l : List Allocation) → Answers rest l → Answers sizes (found ++ l))
    → IsAnswer rest r.0
    → IsAnswer sizes (grow_end found arenas r).0
unfolding grow_end
grow_end-IsAnswer sizes rest found arenas (ok l, t) f h = f l h
grow_end-IsAnswer sizes rest found arenas (err e, t) f h = tt

module _ (mmap : ℕ → Result (Unit {0})) (foreign : ℕ → ℕ → Bool) where
  grow-IsAnswer :
      (sizes rest : List Request) (n : Result ℕ) (found : List Allocation) (arenas : List Arena)
      → ((l : List Allocation) → Answers rest l → Answers sizes (found ++ l))
      → IsAnswer sizes (grow mmap foreign n found rest arenas).0
  unfolding grow
  grow-IsAnswer sizes rest (err e) found arenas f = tt
  grow-IsAnswer sizes rest (ok len) found arenas f = elim (Result-cases (mmap len)) [
    | inl (e, x) ↦ rw (x, grow) tt
    | inr (u, x) ↦
        rw (x, grow)
          (grow_end-IsAnswer sizes rest found arenas
            (fill rest (new_arena (length arenas) len foreign)) f
            (fill-IsAnswer rest (new_arena (length arenas) len foreign)))
  ]

  bulk_rest-IsAnswer :
      (sizes : List Request) (o : Outcome (List Allocation × List Request))
      → IsPartial sizes o.0
      → IsAnswer sizes (bulk_rest mmap foreign o).0
  unfolding bulk_rest
  bulk_rest-IsAnswer sizes (err e, arenas) h = tt
  bulk_rest-IsAnswer sizes (ok (found, []), arenas) h =
      subst (Answers sizes) (append-nil found) (h [] tt)
  bulk_rest-IsAnswer sizes (ok (found, q ∷ rest), arenas) h =
      grow-IsAnswer sizes (q ∷ rest) (do total ← remaining_size (q ∷ rest); align total 4096) found
        arenas h

  -- A bulk allocation that returns gives one allocation for each request, in the order of the
  -- requests, each of the size asked for.
  pub bulk_malloc-Answers :
      (sizes : List Request) (arenas : List Arena) (l : List Allocation)
      → (bulk_malloc mmap foreign sizes arenas).0 ≡ ok l
      → Answers sizes l
  unfolding bulk_malloc
  bulk_malloc-Answers sizes arenas l e =
      subst (IsAnswer sizes) e
        (bulk_rest-IsAnswer sizes (pass sizes arenas) (pass-IsPartial sizes arenas))
