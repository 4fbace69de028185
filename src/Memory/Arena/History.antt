-- ===== src/Memory/Arena/History.antt =====
-- allocator.py: an arena after any sequence of operations.
use rsyscall.Base.{ℕ, Bool, ◌≤◌, ◌<◌, ◌+◌, ◌≢◌, false, [], inl, inr, arith, ap, subst, sym}
use rsyscall.Memory.Arena.{Allocation, Arena, allocate, free, split, merge}
use rsyscall.Memory.Arena.Layout.{Apart}
use rsyscall.Memory.Arena.Invariant.{WellFormed, Owned, allocate-WellFormed, free-WellFormed}
use rsyscall.Memory.Arena.Split.{split_lem}
use rsyscall.Memory.Arena.Merge.{merge_lem}
use rsyscall.Memory.Arena.Fit.{Owned-Apart}

-- A mapping without allocations.
abbrev pub empty_arena : ℕ → ℕ → (ℕ → ℕ → Bool) → Arena
empty_arena ident len foreign = record {
  ident = ident;
  mapping_length = len;
  allocations = [];
  valid = λ i. false;
  next = 0;
  foreign = foreign;
}

-- An allocation for a positive alignment; the free of any object, freed before or not; the split of a
-- valid object at a size up to its own, which `split` itself does not test; the merge of two valid objects, side by side or not.
pub data ArenaStep : Arena → Arena → Type 0 where
  allocates :
      (size alignment : ℕ) (s : Arena) → 0 < alignment → ArenaStep s (allocate size alignment s).1
  frees : (self : Allocation) (s : Arena) → ArenaStep s (free self s).1
  splits :
      (self : Allocation) (n : ℕ) (s : Arena)
      → Owned self s
      → self.start + n ≤ self.stop
      → ArenaStep s (split self n s).1
  merges :
      (self other : Allocation) (s : Arena)
      → Owned self s
      → Owned other s
      → ArenaStep s (merge self other s).1

pub data ArenaReach (s : Arena) : Arena → Type 0 where
  here : ArenaReach s s
  next : {t u : Arena} → ArenaReach s t → ArenaStep t u → ArenaReach s u

ArenaStep-WellFormed : {s t : Arena} → ArenaStep s t → WellFormed s → WellFormed t
ArenaStep-WellFormed (allocates size alignment s pos) w = allocate-WellFormed size alignment s pos w
ArenaStep-WellFormed (frees self s) w = free-WellFormed self s w
ArenaStep-WellFormed (splits self n s o fits) w = (split_lem self n s w o fits).1
ArenaStep-WellFormed (merges self other s o o') w = elim (merge_lem self other s w o o') [
  | inl (inl (_, e)) ↦ subst (λ t. WellFormed t) (sym (ap (λ r. r.1) e)) w
  | inl (inr (_, _, _, _, _, e)) ↦ subst (λ t. WellFormed t) (sym (ap (λ r. r.1) e)) w
  | inr m ↦ m.2
]

ArenaReach-WellFormed : {s t : Arena} → ArenaReach s t → WellFormed s → WellFormed t
ArenaReach-WellFormed here w = w
ArenaReach-WellFormed (next r a) w = ArenaStep-WellFormed a (ArenaReach-WellFormed r w)

empty_arena-WellFormed :
    (ident len : ℕ) (foreign : ℕ → ℕ → Bool) → WellFormed (empty_arena ident len foreign)
empty_arena-WellFormed ident len foreign = record {
  tracks = record { distinct = tt; live = tt; tracked = λ i h. cc };
  layout = omega arith;
}

-- From an empty mapping on, after any sequence of allocations for positive alignments, frees, splits of
-- valid allocations at sizes up to their own, and merges of valid allocations: the arena is well
-- formed, and two different valid allocations lie in the mapping and have no byte in common.
pub ArenaReach-Apart :
    (ident len : ℕ) (foreign : ℕ → ℕ → Bool) (s : Arena) (a b : Allocation)
    → ArenaReach (empty_arena ident len foreign) s
    → Owned a s
    → Owned b s
    → a.ident ≢ b.ident
    → WellFormed s × (a.start ≤ a.stop) × (a.stop ≤ s.mapping_length) × Apart a.start a.stop b
ArenaReach-Apart ident len foreign s a b r o o' ne =
    let w = ArenaReach-WellFormed r (empty_arena-WellFormed ident len foreign) in
    let d = Owned-Apart s a b w o o' ne in (w, d.0, d.1, d.2)
