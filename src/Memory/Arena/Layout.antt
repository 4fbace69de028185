-- ===== src/Memory/Arena/Layout.antt =====
-- The ranges of the allocations of an arena of allocator.py.
use rsyscall.Base.{
  ℕ, suc, ◌+◌, ◌%◌, ◌≤◌, ◌<◌, ◌≡◌, refl, ◌⊎◌, inl, inr, List, [], ◌∷◌, ◌++◌, arith, leb, Bool-cases,
}
use rsyscall.Memory.Arena.{Allocation, Result, Error, ok, err, insert_at, place, round_up}
use rsyscall.Memory.Arena.Align.{le-round_up, round_up-mod, round_up-le, align_pos}

pub Result-cases {ℓ} :
    {A : Type ℓ} (r : Result A) → ((e : Error) × (r ≡ err e)) ⊎ ((a : A) × (r ≡ ok a))
Result-cases (ok a) = inr (a, refl)
Result-cases (err e) = inl (e, refl)

-- The ranges follow one another from `lo` to `hi`, in the order of the list.
abbrev pub Chain : ℕ → List Allocation → ℕ → Type 0
Chain lo [] hi = lo ≤ hi
Chain lo (a ∷ l) hi = (lo ≤ a.start) × (a.start ≤ a.stop) × Chain a.stop l hi

-- Two ranges have no byte in common.
abbrev pub Apart : ℕ → ℕ → Allocation → Type 0
Apart start stop a = (stop ≤ a.start) ⊎ (a.stop ≤ start)

abbrev pub AllApart : ℕ → ℕ → List Allocation → Type 0
AllApart start stop [] = Unit
AllApart start stop (a ∷ l) = Apart start stop a × AllApart start stop l

pub Chain-le : (lo hi : ℕ) (l : List Allocation) → Chain lo l hi → lo ≤ hi
Chain-le lo hi [] c = c
Chain-le lo hi (a ∷ l) c = omega (arith, Chain-le a.stop hi l c.2)

Chain-AllApart :
    (lo hi start stop : ℕ) (l : List Allocation) → stop ≤ lo → Chain lo l hi → AllApart start stop l
Chain-AllApart lo hi start stop [] le c = tt
Chain-AllApart lo hi start stop (a ∷ l) le c =
    (inl (omega arith), Chain-AllApart a.stop hi start stop l (omega arith) c.2)

pub Chain-lower : (lo lo' hi : ℕ) (l : List Allocation) → lo' ≤ lo → Chain lo l hi → Chain lo' l hi
Chain-lower lo lo' hi [] le c = omega arith
Chain-lower lo lo' hi (a ∷ l) le c = (omega arith, c.1, c.2)

-- What stands after `pre` is exchanged.
pub Chain-swap :
    (lo hi : ℕ) (pre post post' : List Allocation)
    → ((m : ℕ) → Chain m post hi → Chain m post' hi)
    → Chain lo (pre ++ post) hi
    → Chain lo (pre ++ post') hi
Chain-swap lo hi [] post post' f c = f lo c
Chain-swap lo hi (a ∷ pre) post post' f c = (c.0, c.1, Chain-swap a.stop hi pre post post' f c.2)

module _ (len size alignment : ℕ) (pos : 0 < alignment) where
  place-cons :
      (newstart i start : ℕ) (a : Allocation) (l : List Allocation)
      → place len size alignment newstart (a ∷ l) ≡ ok (i, start)
      → ((newstart + size ≤ a.start) × (i ≡ 0) × (start ≡ newstart))
        ⊎ ((k : ℕ) × (i ≡ suc k)
            × (place len size alignment (round_up a.stop alignment) l ≡ ok (k, start)))
  unfolding place
  place-cons newstart i start a l e = elim (Bool-cases (leb (newstart + size) a.start)) [
    | inl fits ↦ inl (ground arith)
    | inr full ↦ elim (Result-cases (place len size alignment (round_up a.stop alignment) l)) [
      | inl (bad, x) ↦ ground (arith, align_pos a.stop alignment pos)
      | inr ((k, st), x) ↦ inr (
        k,
        ground (arith, align_pos a.stop alignment pos),
        ground (arith, align_pos a.stop alignment pos),
      )
    ]
  ]

  -- The place found is aligned, takes no byte of a listed range, and keeps the order.
  pub place_sound :
      (lo newstart i start : ℕ) (l : List Allocation) (new : Allocation)
      → lo ≤ newstart
      → newstart % alignment ≡ 0
      → Chain lo l len
      → place len size alignment newstart l ≡ ok (i, start)
      → new.start ≡ start
      → new.stop ≡ start + size
      → (start % alignment ≡ 0)
        × (lo ≤ start)
        × AllApart start (start + size) l
        × Chain lo (insert_at i (new ∷ []) l) len
  unfolding place
  place_sound lo newstart i start [] new le m c e f g = ground arith
  place_sound lo newstart i start (a ∷ l) new le m c e f g =
      elim (place-cons newstart i start a l e) [
        | inl (fits, first, same) ↦ rw first (
          rw same m,
          omega arith,
          (inl (omega arith), Chain-AllApart a.stop len start (start + size) l (omega arith) c.2),
          (omega arith, omega arith, (omega arith, c.1, c.2)),
        )
        | inr (k, later, found) ↦
            let up = le-round_up a.stop alignment in
            let rest =
              place_sound a.stop (round_up a.stop alignment) k start l new up
                (round_up-mod a.stop alignment pos) c.2 found f g in
            rw later (rest.0, omega arith, (inr rest.1, rest.2), (c.0, c.1, rest.3))
      ]

  -- No aligned place below the one found is free, and none is missed.
  pub place_lowest :
      (newstart start : ℕ) (l : List Allocation)
      → newstart ≤ start
      → start % alignment ≡ 0
      → start + size ≤ len
      → AllApart start (start + size) l
      → (i found : ℕ) × (place len size alignment newstart l ≡ ok (i, found)) × (found ≤ start)
  unfolding place
  place_lowest newstart start [] le m fits apart = (0, newstart, ground arith, le)
  place_lowest newstart start (a ∷ l) le m fits apart =
      elim (Bool-cases (leb (newstart + size) a.start)) [
        | inl fits ↦ (0, newstart, ground arith, le)
        | inr full ↦
            let (k, found, e, low) =
              place_lowest (round_up a.stop alignment) start l
                (round_up-le a.stop alignment start pos m (ground arith)) m fits apart.1 in
            (suc k, found, ground (arith, align_pos a.stop alignment pos), low)
      ]
