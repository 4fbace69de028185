-- ===== src/Memory/Arena/Merge.antt =====
-- `Allocation.merge` of allocator.py on a well-formed arena.
use rsyscall.Base.{
  ℕ, ◌+◌, ◌<◌, ◌≡◌, ◌≢◌, refl, subst, Bool, true, false, List, ◌∷◌, ◌++◌, some, arith, length, ◌∙◌,
  ap, ◌==◌, ◌&&◌, Bool-cases, ◌⊎◌, inl, inr,
}
use rsyscall.Memory.Arena.{
  Arena, Allocation, ok, err, not_contiguous, not_adjacent, index, set_valid, remove, merge_at,
  merge,
}
use rsyscall.Memory.Arena.Tracking.{
  Tracks, Distinct, find, find-At, find-valid, find-Distinct, find-Distinct_next, index-Distinct,
  index-Distinct_next, index_next, insert_at-length, Absent, Absent-fresh, Absent-remove,
  Distinct-remove, Absent-append_left, remove-middle, Tracks-make, Tracks-remove, Tracks-insert,
}
use rsyscall.Memory.Arena.Layout.{Chain, Chain-swap}
use rsyscall.Memory.Arena.Invariant.{WellFormed, Owned, free-eq}

-- The object that `merge` makes.
abbrev pub merged : Allocation → Allocation → Arena → Allocation
merged self other s = record {
  ident = s.next;
  arena = s.ident;
  start = self.start;
  stop = other.stop;
}

-- `self` and `other` stand side by side in the list of the arena `s`.
module _ (self other : Allocation) (s : Arena) (before after : List Allocation) where
  abbrev made : ℕ → Bool
  made = set_valid s.next false s.valid

  abbrev pub merge_state : Arena
  merge_state = record s {
    next = s.next + 1;
    valid = set_valid s.next true (set_valid other.ident false (set_valid self.ident false made));
    allocations = before ++ ((merged self other s) ∷ after);
  }

  module _ (w : WellFormed s) (adjacent : s.allocations ≡ before ++ (self ∷ other ∷ after)) where
    tracks : Tracks s.ident s.valid s.next (before ++ (self ∷ other ∷ after))
    tracks = subst (Tracks s.ident s.valid s.next) adjacent w.tracks

    freed_self :
        Tracks s.ident (set_valid self.ident false made) (s.next + 1) (before ++ (other ∷ after))
    freed_self = Tracks-remove before self (other ∷ after) (Tracks-make tracks)

    freed_both :
        Tracks s.ident
          (set_valid other.ident false (set_valid self.ident false made))
          (s.next + 1)
          (before ++ after)
    freed_both = Tracks-remove before other after freed_self

    known_self :
        (s.valid self.ident ≡ true)
        × (self.ident < s.next)
        × (self.arena ≡ s.ident)
        × (self.ident ≡ self.ident)
    known_self =
        find-valid s.ident self.ident s.valid s.next (before ++ (self ∷ other ∷ after)) self
          tracks.live (find-Distinct before self (other ∷ after) tracks.distinct)

    known_other :
        (set_valid self.ident false made other.ident ≡ true)
        × (other.ident < s.next + 1)
        × (other.arena ≡ s.ident)
        × (other.ident ≡ other.ident)
    known_other =
        find-valid s.ident other.ident (set_valid self.ident false made) (s.next + 1)
          (before ++ (other ∷ after)) other freed_self.live
          (find-Distinct before other after freed_self.distinct)

    remove_self : remove self.ident s.allocations ≡ some (before ++ (other ∷ after))
    remove_self = rw adjacent (
        remove-middle self.ident self (other ∷ after) refl before (
          Absent-append_left self.ident before (other ∷ after)
            (Distinct-remove before self (other ∷ after) tracks.distinct).1))

    remove_other : remove other.ident (before ++ (other ∷ after)) ≡ some (before ++ after)
    remove_other = remove-middle other.ident other after refl before (
        Absent-append_left other.ident before after
          (Distinct-remove before other after freed_self.distinct).1)

    pub merge_at-eq :
        merge_at self other (length before) s ≡ (ok (merged self other s), merge_state)
    unfolding merge_at
    merge_at-eq =
        rw
          (free-eq self (record s { valid = made; next = s.next + 1 }) (before ++ (other ∷ after))
            remove_self (ground (arith, known_self)))
          (rw
            (free-eq other
              (record s {
                valid = set_valid self.ident false made;
                next = s.next + 1;
                allocations = before ++ (other ∷ after);
              })
              (before ++ after) remove_other known_other.0)
            (rw insert_at-length refl))

    fresh : Absent s.next (before ++ after)
    fresh =
        let all =
          Absent-fresh s.ident s.next s.valid s.next (before ++ (self ∷ other ∷ after))
            (omega arith) tracks.live in
        (Absent-remove s.next before other after
          (Absent-remove s.next before self (other ∷ after) all).0).0

    pub merge_state-WellFormed : self.stop ≡ other.start → WellFormed merge_state
    merge_state-WellFormed e = record {
      tracks =
          Tracks-insert {next = s.next + 1} (s.next + 1) before (merged self other s) after
            (omega arith) fresh (omega arith) refl freed_both;
      layout =
          Chain-swap 0 s.mapping_length before (self ∷ other ∷ after)
            ((merged self other s) ∷ after) (λ m c. (c.0, omega arith, c.2.2))
            (subst (λ l. Chain 0 l s.mapping_length) adjacent w.layout);
    }

module _ (self other : Allocation) (s : Arena) where
  -- A merge that raises left the arena as it was; one that succeeds made one object of the two.
  abbrev pub Merges : Type 0
  Merges =
      let t = (merge self other s).1 in
      ((merge self other s).0 ≡ ok (merged self other s))
      × (self.stop ≡ other.start)
      × WellFormed t
      × Owned (merged self other s) t
      × (t.valid self.ident ≡ false)
      × (t.valid other.ident ≡ false)

  -- The checks of `merge` pass.
  checked :
      (k : ℕ)
      → s.valid self.ident ≡ true
      → s.valid other.ident ≡ true
      → self.arena ≡ s.ident
      → other.arena ≡ s.ident
      → self.stop ≡ other.start
      → index self.ident s.allocations ≡ some k
      → index other.ident s.allocations ≡ some (k + 1)
      → merge self other s ≡ merge_at self other k s
  unfolding merge
  checked k v v' a a' e at at' = ground arith

  -- Two objects side by side are merged.
  pub merge_adjacent :
      (before after : List Allocation)
      → WellFormed s
      → s.allocations ≡ before ++ (self ∷ other ∷ after)
      → self.stop ≡ other.start
      → merge self other s ≡ (ok (merged self other s), merge_state self other s before after)
  unfolding merge
  merge_adjacent before after w adjacent e =
      let tracks = subst (Tracks s.ident s.valid s.next) adjacent w.tracks in
      let first =
        find-valid s.ident self.ident s.valid s.next (before ++ (self ∷ other ∷ after)) self
          tracks.live (find-Distinct before self (other ∷ after) tracks.distinct) in
      let second =
        find-valid s.ident other.ident s.valid s.next (before ++ (self ∷ other ∷ after)) other
          tracks.live (find-Distinct_next before self other after tracks.distinct) in
      let at = index-Distinct before self (other ∷ after) tracks.distinct in
      let at_next = index-Distinct_next before self other after tracks.distinct in
      checked (length before) first.0 second.0 (first.2) (second.2) e (rw adjacent at)
        (rw adjacent at_next)
      ∙ merge_at-eq self other s before after w adjacent

  merged-Merges :
      (before after : List Allocation)
      → WellFormed s
      → s.allocations ≡ before ++ (self ∷ other ∷ after)
      → self.stop ≡ other.start
      → Merges
  merged-Merges before after w adjacent e =
      let t = merge_state-WellFormed self other s before after w adjacent e in
      rw (merge_adjacent before after w adjacent e) (
        refl,
        e,
        t,
        find-Distinct before (merged self other s) after t.tracks.distinct,
        ground (arith, known_self self other s before after w adjacent),
        ground (arith, known_other self other s before after w adjacent),
      )

  -- The ranges do not touch, or the objects are not neighbours in the list.
  abbrev pub Refuses : Type 0
  Refuses =
      ((self.stop ≢ other.start) × (merge self other s ≡ (err not_contiguous, s)))
      ⊎ ((k : ℕ) × (j : ℕ) × (index self.ident s.allocations ≡ some k)
          × (index other.ident s.allocations ≡ some j)
          × (k + 1 ≢ j)
          × (merge self other s ≡ (err not_adjacent, s)))

  -- One of the last two checks of `merge` fails.
  refused :
      (k j : ℕ)
      → s.valid self.ident ≡ true
      → s.valid other.ident ≡ true
      → self.arena ≡ s.ident
      → other.arena ≡ s.ident
      → index self.ident s.allocations ≡ some k
      → index other.ident s.allocations ≡ some j
      → (((self.stop == other.start) && (k + 1 == j)) ≡ false)
      → Refuses
  unfolding merge
  refused k j v v' a a' at at' miss = elim (Bool-cases (self.stop == other.start)) [
    | inr gap ↦ inl (ground arith, ground arith)
    | inl touch ↦ inr (k, j, at, at', ground arith, ground arith)
  ]

  same_object :
      (b : Allocation) (l : List Allocation)
      → s.allocations ≡ l
      → b.ident ≡ other.ident
      → find b.ident l ≡ some b
      → Owned other s
      → b ≡ other
  same_object b l full named found o = ground (arith, full, named, found, o)

  side_by_side :
      (before rest : List Allocation)
      → s.allocations ≡ before ++ (self ∷ rest)
      → Distinct s.allocations
      → index other.ident s.allocations ≡ some (length before + 1)
      → Owned other s
      → (after : List Allocation) × (s.allocations ≡ before ++ (self ∷ other ∷ after))
  side_by_side before rest list d at o =
      let (b, after, next, named) = index_next other.ident before self rest (rw list at at) in
      let full : s.allocations ≡ before ++ (self ∷ b ∷ after) =
        list ∙ ap (λ r. before ++ (self ∷ r)) next in
      let found = find-Distinct_next before self b after (subst Distinct full d) in
      let same : b ≡ other = same_object b (before ++ (self ∷ b ∷ after)) full named found o in
      (after, subst (λ x. s.allocations ≡ before ++ (self ∷ x ∷ after)) same full)

  -- In a well-formed arena, merging two valid allocations raises and changes nothing, if their ranges
  -- do not touch or they are not neighbours in the list; otherwise it succeeds, and one valid
  -- allocation takes the place of both.
  pub merge_lem : WellFormed s → Owned self s → Owned other s → Refuses ⊎ Merges
  merge_lem w o o' =
      let (at, here) = find-At self.ident self s.allocations o in
      let (at', _) = find-At other.ident other s.allocations o' in
      let v = find-valid s.ident self.ident s.valid s.next s.allocations self w.tracks.live o in
      let v' = find-valid s.ident other.ident s.valid s.next s.allocations other w.tracks.live o' in
      (elim (Bool-cases
        ((self.stop == other.start) && (length at.before + 1 == length at'.before))) [
          | inr miss ↦ inl (
              refused (length at.before) (length at'.before) v.0 v'.0 v.2 v'.2 at.position
                at'.position miss)
          | inl both ↦
              let list : s.allocations ≡ at.before ++ (self ∷ at.after) =
                subst (λ a. s.allocations ≡ at.before ++ (a ∷ at.after)) here at.list in
              let (after, full) =
                side_by_side at.before at.after list w.tracks.distinct
                  (ground (arith, at'.position)) o' in
              inr (merged-Merges at.before after w full (ground arith))
        ])
