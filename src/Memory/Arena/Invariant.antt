-- ===== src/Memory/Arena/Invariant.antt =====
-- The methods of `Arena` and `Allocation` (allocator.py) on a well-formed arena.
use native.Mathlib.Nat.{zero-mod}
use rsyscall.Base.{
  ℕ, ◌+◌, ◌<◌, ◌≡◌, refl, subst, inl, inr, Bool, true, false, List, [], ◌∷◌, ◌++◌, some, arith,
  take, drop, take-append-drop, Bool-cases,
}
use rsyscall.Memory.Arena.{
  Arena, Allocation, Error, ok, err, insert_at, remove, set_valid, place, allocate, free,
}
use rsyscall.Memory.Arena.Tracking.{
  Tracks, At, find, Absent-fresh, Tracks-remove, Tracks-insert, Listed-At,
}
use rsyscall.Memory.Arena.Layout.{Chain, Chain-swap, Chain-lower, Result-cases, place_sound}

-- Exactly the valid objects are listed, once, and their ranges lie in order inside the mapping.
pub record WellFormed (s : Arena) : Type 0 where
  pub tracks : Tracks s.ident s.valid s.next s.allocations
  pub layout : Chain 0 s.allocations s.mapping_length

-- `a` is a reference to a valid object of the arena.
abbrev pub Owned : Allocation → Arena → Type 0
Owned a s = find a.ident s.allocations ≡ some a

-- The arena after a new object was put in at a place of the list.
insert-Tracks :
    (valid : ℕ → Bool) (next i : ℕ) (new : Allocation) (l : List Allocation)
    → new.ident ≡ next
    → Tracks new.arena valid next l
    → Tracks new.arena (set_valid new.ident true valid) (next + 1) (insert_at i (new ∷ []) l)
insert-Tracks valid next i new l e t =
    Tracks-insert {next = next} (next + 1) (take i l) new (drop i l) (omega arith)
      (rw (take-append-drop i l)
        (Absent-fresh new.arena new.ident valid next l (omega arith) t.live))
      (omega arith) refl (rw (take-append-drop i l) t)

module _ (size alignment : ℕ) (s : Arena) where
  allocate-ok :
      (i start : ℕ)
      → place s.mapping_length size alignment 0 s.allocations ≡ ok (i, start)
      → 0 < alignment
      → WellFormed s
      → WellFormed (allocate size alignment s).1
  unfolding allocate
  allocate-ok i start e pos w =
      rw (e, allocate)
        (record {
          tracks = insert-Tracks s.valid s.next i _ s.allocations refl w.tracks;
          layout =
              (place_sound s.mapping_length size alignment pos 0 0 i start s.allocations _
                (omega arith) (zero-mod alignment) w.layout e refl refl).3;
        })

  pub allocate-err :
      (x : Error)
      → place s.mapping_length size alignment 0 s.allocations ≡ err x
      → allocate size alignment s ≡ (err x, s)
  unfolding allocate
  allocate-err x e = rw (e, allocate)

  -- For a positive alignment, `allocate` keeps a well-formed arena well formed, whether it succeeds or
  -- raises.
  pub allocate-WellFormed : 0 < alignment → WellFormed s → WellFormed (allocate size alignment s).1
  allocate-WellFormed pos w =
      elim (Result-cases (place s.mapping_length size alignment 0 s.allocations)) [
        | inl (x, e) ↦ rw (allocate-err x e) w
        | inr ((i, start), e) ↦ allocate-ok i start e pos w
      ]

module _ (self : Allocation) (s : Arena) where
  -- A valid object stands in the list of its arena.
  pub valid-At : WellFormed s → s.valid self.ident ≡ true → At self.ident s.allocations
  valid-At w v = Listed-At self.ident s.allocations (w.tracks.tracked self.ident v)

  pub free-eq :
      (rest : List Allocation)
      → remove self.ident s.allocations ≡ some rest
      → s.valid self.ident ≡ true
      → free self s
        ≡ (ok tt, record s { valid = set_valid self.ident false s.valid; allocations = rest })
  unfolding free
  free-eq rest e v = rw (v, e, free)

  free_invalid : s.valid self.ident ≡ false → free self s ≡ (ok tt, s)
  unfolding free
  free_invalid v = rw v

  removed-WellFormed :
      (at : At self.ident s.allocations)
      → WellFormed s
      → WellFormed (record s {
        valid = set_valid self.ident false s.valid;
        allocations = at.before ++ at.after;
      })
  removed-WellFormed at w = record {
    tracks =
        subst (λ i. Tracks s.ident (set_valid i false s.valid) s.next (at.before ++ at.after))
          at.named
          (Tracks-remove at.before at.here at.after
            (subst (Tracks s.ident s.valid s.next) at.list w.tracks));
    layout =
        Chain-swap 0 s.mapping_length at.before (at.here ∷ at.after) at.after
          (λ m c. Chain-lower at.here.stop m s.mapping_length at.after (omega arith) c.2)
          (subst (λ l. Chain 0 l s.mapping_length) at.list w.layout);
  }

  -- `free` keeps a well-formed arena well formed, for every reference, freed before or not.
  pub free-WellFormed : WellFormed s → WellFormed (free self s).1
  free-WellFormed w = elim (Bool-cases (s.valid self.ident)) [
    | inr v ↦ rw (free_invalid v) w
    | inl v ↦
        let at = valid-At w v in
        rw (free-eq (at.before ++ at.after) at.removed v) (removed-WellFormed at w)
  ]
