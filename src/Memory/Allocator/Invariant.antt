-- ===== src/Memory/Allocator/Invariant.antt =====
-- What `UnlimitedAllocator._bulk_malloc` (allocator.py) returns, and the arenas that it leaves.
use rsyscall.Base.{
  ℕ, ◌<◌, ◌≡◌, refl, Bool, List, [], ◌∷◌, ◌++◌, arith, ltb, length, inl, inr, Bool-cases,
}
use rsyscall.Memory.Arena.{Arena, Allocation, Result, ok, err, out_of_space, ◌>>=◌, align, allocate}
use rsyscall.Memory.Arena.Layout.{Result-cases}
use rsyscall.Memory.Arena.Invariant.{WellFormed, allocate-WellFormed}
use rsyscall.Memory.Allocator.{
  Request, Outcome, add, skip, pass_try, pass, fill_cons, fill_try, fill, remaining_size, new_arena,
  grow_end, grow, bulk_rest, bulk_malloc,
}

abbrev pub AllWellFormed : List Arena → Type 0
AllWellFormed [] = Unit
AllWellFormed (s ∷ more) = WellFormed s × AllWellFormed more

abbrev pub Positive : List Request → Type 0
Positive [] = Unit
Positive ((size, alignment) ∷ rest) = (0 < alignment) × Positive rest

-- After the first loop: the arenas are well formed, and the requests left are some of those given.
abbrev Kept : Outcome (List Allocation × List Request) → Type 0
Kept (ok (found, rest), arenas) = Positive rest × AllWellFormed arenas
Kept (err e, arenas) = AllWellFormed arenas

-- Both loops keep every arena well formed.
add-Kept :
    (a : Allocation) (arena : Arena) (o : Outcome (List Allocation × List Request))
    → WellFormed arena
    → Kept o
    → Kept (add a arena o)
unfolding add
add-Kept a arena (ok (found, rest), arenas) w h = (h.0, (w, h.1))
add-Kept a arena (err e, arenas) w h = (w, h)

skip-Kept :
    (arena : Arena) (o : Outcome (List Allocation × List Request))
    → WellFormed arena
    → Kept o
    → Kept (skip arena o)
unfolding skip
skip-Kept arena (ok (found, rest), arenas) w h = (h.0, (w, h.1))
skip-Kept arena (err e, arenas) w h = (w, h)

pass_try-Kept :
    (r : Result Allocation × Arena) (q : Request) (rest : List Request) (more : List Arena)
    (loop : List Request → Outcome (List Allocation × List Request))
    → WellFormed r.1
    → AllWellFormed more
    → Positive (q ∷ rest)
    → ((sizes : List Request) → Positive sizes → Kept (loop sizes))
    → Kept (pass_try r q rest more loop)
unfolding pass_try
pass_try-Kept (ok a, arena) q [] more loop w ws p ih = (tt, (w, ws))
pass_try-Kept (ok a, arena) q (x ∷ rest) more loop w ws p ih =
    add-Kept a arena (loop (x ∷ rest)) w (ih (x ∷ rest) p.1)
pass_try-Kept (err out_of_space, arena) q rest more loop w ws p ih =
    skip-Kept arena (loop (q ∷ rest)) w (ih (q ∷ rest) p)
pass_try-Kept (err e, arena) q rest more loop w ws p ih = (w, ws)

pass-Kept :
    (sizes : List Request) (arenas : List Arena)
    → Positive sizes
    → AllWellFormed arenas
    → Kept (pass sizes arenas)
unfolding pass
pass-Kept sizes [] p w = (p, tt)
pass-Kept [] (arena ∷ more) p w = w
pass-Kept ((size, alignment) ∷ rest) (arena ∷ more) p w = elim (Bool-cases (ltb 4096 alignment)) [
  | inl large ↦ rw large w
  | inr small ↦ rw small (
      pass_try-Kept (allocate size alignment arena) (size, alignment) rest more
        (λ sizes. pass sizes more) (allocate-WellFormed size alignment arena p.0 w.0) w.1 p
        (λ sizes p'. pass-Kept sizes more p' w.1))
]

fill_cons-arena : (a : Allocation) (r : Result (List Allocation) × Arena) → (fill_cons a r).1 ≡ r.1
unfolding fill_cons
fill_cons-arena a (ok l, t) = refl
fill_cons-arena a (err e, t) = refl

fill_try-WellFormed :
    (r : Result Allocation × Arena) (loop : Arena → Result (List Allocation) × Arena)
    → WellFormed r.1
    → ((t : Arena) → WellFormed t → WellFormed (loop t).1)
    → WellFormed (fill_try r loop).1
unfolding fill_try
fill_try-WellFormed (ok a, t) loop w ih = rw (fill_cons-arena a (loop t)) (ih t w)
fill_try-WellFormed (err out_of_space, t) loop w ih = w
fill_try-WellFormed (err e, t) loop w ih = w

fill-WellFormed :
    (sizes : List Request) (s : Arena) → Positive sizes → WellFormed s → WellFormed (fill sizes s).1
unfolding fill
fill-WellFormed [] s p w = w
fill-WellFormed ((size, alignment) ∷ rest) s p w = elim (Bool-cases (ltb 4096 alignment)) [
  | inl large ↦ rw large w
  | inr small ↦ rw small (
      fill_try-WellFormed (allocate size alignment s) (fill rest)
        (allocate-WellFormed size alignment s p.0 w) (λ t w'. fill-WellFormed rest t p.1 w'))
]

new_arena-WellFormed :
    (ident len : ℕ) (foreign : ℕ → ℕ → Bool) → WellFormed (new_arena ident len foreign)
new_arena-WellFormed ident len foreign = record {
  tracks = record { distinct = tt; live = tt; tracked = λ i h. cc };
  layout = omega arith;
}

AllWellFormed-snoc :
    (arenas : List Arena) (s : Arena)
    → AllWellFormed arenas
    → WellFormed s
    → AllWellFormed (arenas ++ (s ∷ []))
AllWellFormed-snoc [] s ws w = (w, tt)
AllWellFormed-snoc (t ∷ arenas) s ws w = (ws.0, AllWellFormed-snoc arenas s ws.1 w)

grow_end-AllWellFormed :
    (found : List Allocation) (arenas : List Arena) (r : Result (List Allocation) × Arena)
    → AllWellFormed arenas
    → WellFormed r.1
    → AllWellFormed (grow_end found arenas r).1
unfolding grow_end
grow_end-AllWellFormed found arenas (ok l, t) ws w = AllWellFormed-snoc arenas t ws w
grow_end-AllWellFormed found arenas (err e, t) ws w = AllWellFormed-snoc arenas t ws w

module _ (mmap : ℕ → Result (Unit {0})) (foreign : ℕ → ℕ → Bool) where
  grow-AllWellFormed :
      (n : Result ℕ) (found : List Allocation) (rest : List Request) (arenas : List Arena)
      → Positive rest
      → AllWellFormed arenas
      → AllWellFormed (grow mmap foreign n found rest arenas).1
  unfolding grow
  grow-AllWellFormed (err e) found rest arenas p w = w
  grow-AllWellFormed (ok len) found rest arenas p w = elim (Result-cases (mmap len)) [
    | inl (e, x) ↦ rw (x, grow) w
    | inr (u, x) ↦
        rw (x, grow)
          (grow_end-AllWellFormed found arenas (fill rest (new_arena (length arenas) len foreign)) w
            (fill-WellFormed rest (new_arena (length arenas) len foreign) p
              (new_arena-WellFormed (length arenas) len foreign)))
  ]

  bulk_rest-AllWellFormed :
      (found : List Allocation) (rest : List Request) (arenas : List Arena)
      → Positive rest
      → AllWellFormed arenas
      → AllWellFormed (bulk_rest mmap foreign (ok (found, rest), arenas)).1
  unfolding bulk_rest
  bulk_rest-AllWellFormed found [] arenas p w = w
  bulk_rest-AllWellFormed found (q ∷ rest) arenas p w =
      grow-AllWellFormed (do total ← remaining_size (q ∷ rest); align total 4096) found (q ∷ rest)
        arenas p w

  after_pass-AllWellFormed :
      (o : Outcome (List Allocation × List Request))
      → Kept o
      → AllWellFormed (bulk_rest mmap foreign o).1
  unfolding bulk_rest
  after_pass-AllWellFormed (ok (found, rest), arenas) k =
      bulk_rest-AllWellFormed found rest arenas k.0 k.1
  after_pass-AllWellFormed (err e, arenas) k = k

  -- For requests of positive alignments, a bulk allocation keeps every arena well formed, the one
  -- that it adds included, whether it returns or raises.
  pub bulk_malloc-AllWellFormed :
      (sizes : List Request) (arenas : List Arena)
      → Positive sizes
      → AllWellFormed arenas
      → AllWellFormed (bulk_malloc mmap foreign sizes arenas).1
  unfolding bulk_malloc
  bulk_malloc-AllWellFormed sizes arenas p w =
      after_pass-AllWellFormed (pass sizes arenas) (pass-Kept sizes arenas p w)
