-- ===== src/Memory/Arena/Fit.antt =====
-- Where `Arena.allocate` of allocator.py puts an allocation.
use native.Mathlib.Nat.{zero-mod}
use rsyscall.Base.{
  ℕ, ◌+◌, ◌%◌, ◌≤◌, ◌<◌, ◌≡◌, ◌≢◌, refl, sym, ap, ◌∙◌, subst, inl, inr, true, List, [], ◌∷◌, arith,
  take, drop, some,
}
use rsyscall.Memory.Arena.{Arena, Allocation, ok, place, allocate, insert_at, set_valid}
use rsyscall.Memory.Arena.Tracking.{find, find-Distinct, ℕ-cases}
use rsyscall.Memory.Arena.Layout.{
  Chain, Chain-le, Apart, AllApart, Result-cases, place_sound, place_lowest,
}
use rsyscall.Memory.Arena.Invariant.{WellFormed, Owned, allocate-WellFormed, allocate-err}

ok-injective : {a b : Allocation} → ok a ≡ ok b → a ≡ b
ok-injective e = cc

Chain-find :
    (i lo hi : ℕ) (l : List Allocation) (a : Allocation)
    → Chain lo l hi
    → find i l ≡ some a
    → (lo ≤ a.start) × (a.start ≤ a.stop) × (a.stop ≤ hi)
unfolding find
Chain-find i lo hi [] a c e = cc
Chain-find i lo hi (b ∷ l) a c e = elim (ℕ-cases b.ident i) [
  | inl same ↦ ground (arith, Chain-le b.stop hi l c.2)
  | inr ne ↦
      let rest = Chain-find i b.stop hi l a c.2 (ground arith) in (omega arith, rest.1, rest.2)
]

Chain-Apart :
    (i j lo hi : ℕ) (l : List Allocation) (a b : Allocation)
    → Chain lo l hi
    → i ≢ j
    → find i l ≡ some a
    → find j l ≡ some b
    → Apart a.start a.stop b
unfolding find
Chain-Apart i j lo hi [] a b c ne e f = cc
Chain-Apart i j lo hi (x ∷ l) a b c ne e f = elim (ℕ-cases x.ident i) [
  | inl here ↦
      let rest = Chain-find j x.stop hi l b c.2 (ground arith) in
      let same : x ≡ a = ground arith in inl (ground arith)
  | inr there ↦ elim (ℕ-cases x.ident j) [
    | inl here ↦
        let rest = Chain-find i x.stop hi l a c.2 (ground arith) in
        let same : x ≡ b = ground arith in inr (ground arith)
    | inr away ↦ Chain-Apart i j x.stop hi l a b c.2 ne (ground arith) (ground arith)
  ]
]

-- Two valid allocations of a well-formed arena lie in its mapping and have no byte in common.
pub Owned-Apart :
    (s : Arena) (a b : Allocation)
    → WellFormed s
    → Owned a s
    → Owned b s
    → a.ident ≢ b.ident
    → (a.start ≤ a.stop) × (a.stop ≤ s.mapping_length) × Apart a.start a.stop b
Owned-Apart s a b w o o' ne =
    let r = Chain-find a.ident 0 s.mapping_length s.allocations a w.layout o in
    (r.1, r.2, Chain-Apart a.ident b.ident 0 s.mapping_length s.allocations a b w.layout ne o o')

module _ (size alignment : ℕ) (s : Arena) (pos : 0 < alignment) where
  abbrev new : ℕ → Allocation
  new start = record { ident = s.next; arena = s.ident; start = start; stop = start + size }

  allocate-eq :
      (i start : ℕ)
      → place s.mapping_length size alignment 0 s.allocations ≡ ok (i, start)
      → allocate size alignment s ≡ (
        ok (new start),
        record s {
          allocations = insert_at i (new start ∷ []) s.allocations;
          valid = set_valid s.next true s.valid;
          next = s.next + 1;
        },
      )
  unfolding allocate
  allocate-eq i start e = rw (e, allocate)

  abbrev Sound : Allocation → Type 0
  Sound a =
      (a.start % alignment ≡ 0)
      × (a.stop ≡ a.start + size)
      × (a.stop ≤ s.mapping_length)
      × AllApart a.start a.stop s.allocations
      × Owned a (allocate size alignment s).1

  Sound-new :
      (i start : ℕ)
      → WellFormed s
      → place s.mapping_length size alignment 0 s.allocations ≡ ok (i, start)
      → Sound (new start)
  Sound-new i start w e =
      let after = allocate-WellFormed size alignment s pos w in
      let good =
        place_sound s.mapping_length size alignment pos 0 0 i start s.allocations (new start)
          (omega arith) (zero-mod alignment) w.layout e refl refl in
      let l = s.allocations in
      let after' = subst WellFormed (ap (λ r. r.1) (allocate-eq i start e)) after in
      let found = find-Distinct (take i l) (new start) (drop i l) after'.tracks.distinct in
      let inside =
        Chain-find s.next 0 s.mapping_length (insert_at i (new start ∷ []) l) (new start) good.3
          found in
      (good.0, refl, inside.2, good.2, rw (allocate-eq i start e) found)

  -- For a positive alignment, an allocation that succeeds in a well-formed arena is aligned, has the
  -- size asked for, lies in the mapping, is valid, and has no byte in common with those that were
  -- there.
  pub allocate_sound :
      (a : Allocation)
      → WellFormed s
      → (allocate size alignment s).0 ≡ ok a
      → (a.start % alignment ≡ 0)
        × (a.stop ≡ a.start + size)
        × (a.stop ≤ s.mapping_length)
        × AllApart a.start a.stop s.allocations
        × Owned a (allocate size alignment s).1
  allocate_sound a w e =
      elim (Result-cases (place s.mapping_length size alignment 0 s.allocations)) [
        | inl (x, bad) ↦ ground (arith, allocate-err size alignment s x bad)
        | inr ((i, start), good) ↦
            subst Sound (ok-injective (sym (ap (λ r. r.0) (allocate-eq i start good)) ∙ e))
              (Sound-new i start w good)
      ]

  -- For a positive alignment, if an aligned range of the size is free and inside the mapping,
  -- `allocate` succeeds, at this range or below it.
  pub allocate_lowest :
      (start : ℕ)
      → start % alignment ≡ 0
      → start + size ≤ s.mapping_length
      → AllApart start (start + size) s.allocations
      → (a : Allocation) × ((allocate size alignment s).0 ≡ ok a) × (a.start ≤ start)
  unfolding allocate
  allocate_lowest start m fits free =
      let (i, found, e, low) =
        place_lowest s.mapping_length size alignment pos 0 start s.allocations (omega arith) m fits
          free in
      (new found, rw (e, allocate), low)
