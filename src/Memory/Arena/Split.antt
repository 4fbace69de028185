-- ===== src/Memory/Arena/Split.antt =====
-- `Allocation.split` of allocator.py on a well-formed arena.
use mathlib.Core.List.{append_assoc}
use rsyscall.Base.{
  ℕ, ◌+◌, ◌≤◌, ◌<◌, ◌≡◌, refl, subst, Bool, true, false, List, [], ◌∷◌, ◌++◌, arith,
}
use rsyscall.Memory.Arena.{Arena, Allocation, ok, err, split_freed, set_valid, split}
use rsyscall.Memory.Arena.Tracking.{
  Tracks, At, find-At, find-valid, find-Distinct, find-Distinct_next, insert_at-length, Absent,
  Absent-fresh, Absent-remove, Absent-insert, Tracks-make, Tracks-remove, Tracks-insert,
}
use rsyscall.Memory.Arena.Layout.{Chain, Chain-swap}
use rsyscall.Memory.Arena.Invariant.{WellFormed, Owned, free-eq}

module _ (self : Allocation) (n : ℕ) (s : Arena) where
  -- The two objects that `split` makes.
  abbrev pub first_part : Allocation
  first_part = record { ident = s.next; arena = s.ident; start = self.start; stop = self.start + n }

  abbrev pub second_part : Allocation
  second_part = record {
    ident = s.next + 1;
    arena = s.ident;
    start = self.start + n;
    stop = self.stop;
  }

  abbrev made : ℕ → Bool
  made = set_valid (s.next + 1) false (set_valid s.next false s.valid)

  abbrev pub split_state : List Allocation → List Allocation → Arena
  split_state before after = record s {
    next = s.next + 1 + 1;
    valid = set_valid (s.next + 1) true (set_valid s.next true (set_valid self.ident false made));
    allocations = before ++ (first_part ∷ second_part ∷ after);
  }

  pub split-eq :
      (at : At self.ident s.allocations)
      → s.valid self.ident ≡ true
      → self.ident < s.next
      → split self n s ≡ (ok (first_part, second_part), split_state at.before at.after)
  unfolding split
  split-eq at v lt =
      rw (v, at.position, split)
        (rw
          (free-eq self (record s { valid = made; next = s.next + 1 + 1 }) (at.before ++ at.after)
            at.removed (ground arith))
          (rw insert_at-length refl))

  split-Tracks :
      (at : At self.ident s.allocations)
      → Tracks s.ident s.valid s.next s.allocations
      → let t = split_state at.before at.after in Tracks t.ident t.valid t.next t.allocations
  split-Tracks at t =
      let made_two = Tracks-make (Tracks-make t) in
      let freed =
        Tracks-remove at.before at.here at.after
          (subst (Tracks s.ident made (s.next + 1 + 1)) at.list made_two) in
      let fresh = Absent-fresh s.ident s.next s.valid s.next s.allocations (omega arith) t.live in
      let fresh2 =
        Absent-fresh s.ident (s.next + 1) s.valid s.next s.allocations (omega arith) t.live in
      let absent =
        (Absent-remove s.next at.before at.here at.after (subst (Absent s.next) at.list fresh)).0 in
      let absent2 =
        (Absent-remove (s.next + 1) at.before at.here at.after
          (subst (Absent (s.next + 1)) at.list fresh2)).0 in
      let one =
        Tracks-insert {next = s.next + 1 + 1} (s.next + 1 + 1) at.before first_part at.after
          (omega arith) absent (omega arith) refl
          (subst
            (λ i. Tracks s.ident (set_valid i false made) (s.next + 1 + 1) (at.before ++ at.after))
            at.named freed) in
      let shift : at.before ++ (first_part ∷ []) ++ at.after
          ≡ at.before ++ (first_part ∷ at.after) =
        append_assoc at.before (first_part ∷ []) at.after in
      let shift2 : at.before ++ (first_part ∷ []) ++ (second_part ∷ at.after)
          ≡ at.before ++ (first_part ∷ second_part ∷ at.after) =
        append_assoc at.before (first_part ∷ []) (second_part ∷ at.after) in
      rw (← shift2) (
        Tracks-insert {next = s.next + 1 + 1} (s.next + 1 + 1) (at.before ++ (first_part ∷ []))
          second_part at.after (omega arith)
          (rw shift
            (Absent-insert (s.next + 1) at.before first_part at.after absent2 (omega arith)))
          (omega arith) refl (rw shift one))

  pub split_state-WellFormed :
      (at : At self.ident s.allocations)
      → at.here ≡ self
      → self.start + n ≤ self.stop
      → WellFormed s
      → WellFormed (split_state at.before at.after)
  split_state-WellFormed at e fits w = record {
    tracks = split-Tracks at w.tracks;
    layout =
        Chain-swap 0 s.mapping_length at.before (at.here ∷ at.after)
          (first_part ∷ second_part ∷ at.after)
          (λ m c.
            let d : Chain m (self ∷ at.after) s.mapping_length =
              subst (λ a. Chain m (a ∷ at.after) s.mapping_length) e c in
            (d.0, omega arith, (omega arith, omega arith, d.2)))
          (subst (λ l. Chain 0 l s.mapping_length) at.list w.layout);
  }

  -- In a well-formed arena, splitting a valid allocation at a size that it has succeeds and keeps the
  -- arena well formed.
  -- The parts lie where it lay, one behind the other, both are valid and it is not.
  pub split_lem :
      WellFormed s
      → Owned self s
      → self.start + n ≤ self.stop
      → let t = (split self n s).1 in
        ((split self n s).0 ≡ ok (first_part, second_part))
        × WellFormed t
        × Owned first_part t
        × Owned second_part t
        × (t.valid self.ident ≡ false)
  split_lem w o fits =
      let (at, here) = find-At self.ident self s.allocations o in
      let known = find-valid s.ident self.ident s.valid s.next s.allocations self w.tracks.live o in
      let t = split-Tracks at w.tracks in
      rw (split-eq at known.0 known.1) (
        refl,
        split_state-WellFormed at here fits w,
        find-Distinct at.before first_part (second_part ∷ at.after) t.distinct,
        find-Distinct_next at.before first_part second_part at.after t.distinct,
        ground arith,
      )

  -- Splitting an object that was freed raises, and changes nothing.
  pub split_invalid : s.valid self.ident ≡ false → split self n s ≡ (err split_freed, s)
  unfolding split
  split_invalid v = rw v
