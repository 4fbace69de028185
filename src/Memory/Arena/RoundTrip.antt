-- ===== src/Memory/Arena/RoundTrip.antt =====
-- `split` then `merge`, and what `free` leaves (allocator.py).
use rsyscall.Base.{ℕ, ◌+◌, ◌≤◌, ◌≡◌, refl, false, List, [], ◌∷◌, ◌++◌, map, arith, ap}
use rsyscall.Memory.Arena.{
  Arena, Allocation, ok, err, use_after_free, split_freed, merge_self_freed, offset, free, split,
  merge,
}
use rsyscall.Memory.Arena.Tracking.{find-At, find-valid}
use rsyscall.Memory.Arena.Invariant.{WellFormed, Owned}
use rsyscall.Memory.Arena.Split.{
  first_part, second_part, split-eq, split_state, split_state-WellFormed,
}
use rsyscall.Memory.Arena.Merge.{merged, merge_adjacent, merge_state-WellFormed}

abbrev pub ranges : List Allocation → List (ℕ × ℕ)
ranges = map λ a. (a.start, a.stop)

ranges_middle :
    (pre : List Allocation) (a b : Allocation) (post : List Allocation)
    → a.start ≡ b.start
    → a.stop ≡ b.stop
    → ranges (pre ++ (a ∷ post)) ≡ ranges (pre ++ (b ∷ post))
ranges_middle [] a b post e f = ground arith
ranges_middle (c ∷ pre) a b post e f =
    ap (λ t. (c.start, c.stop) ∷ t) (ranges_middle pre a b post e f)

module _ (self : Allocation) (n : ℕ) (s : Arena) where
  -- In a well-formed arena, merging the two parts of a split of a valid allocation, at a size that it
  -- has, gives one allocation of the range that was split, in its place
  -- in the list; all other ranges of the arena are as before.
  pub merge-split :
      WellFormed s
      → Owned self s
      → self.start + n ≤ self.stop
      → let a = first_part self n s in
        let b = second_part self n s in
        let t = (split self n s).1 in
        let u = (merge a b t).1 in
        ((merge a b t).0 ≡ ok (merged a b t))
        × ((merged a b t).start ≡ self.start)
        × ((merged a b t).stop ≡ self.stop)
        × WellFormed u
        × (ranges u.allocations ≡ ranges s.allocations)
  merge-split w o fits =
      let (at, here) = find-At self.ident self s.allocations o in
      let known = find-valid s.ident self.ident s.valid s.next s.allocations self w.tracks.live o in
      let t = split_state self n s at.before at.after in
      let a = first_part self n s in
      let b = second_part self n s in
      let good = split_state-WellFormed self n s at here fits w in
      rw
        (
          split-eq self n s at known.0 known.1,
          merge_adjacent a b t at.before at.after good refl refl,
        )
        (
          refl,
          refl,
          refl,
          merge_state-WellFormed a b t at.before at.after good refl refl,
          rw at.list (
              ranges_middle at.before (merged a b t) at.here at.after (ground (arith, here))
                (ground (arith, here))),
        )

module _ (self : Allocation) (s : Arena) where
  free-valid : (free self s).1.valid self.ident ≡ false
  unfolding free
  free-valid = ground arith

  -- After `free` the object is dead: its offset is refused, so are `split` and `merge`, and a
  -- second `free` does nothing.
  pub free_dead :
      (n : ℕ) (other : Allocation)
      → let t = (free self s).1 in
        (offset self t ≡ (err use_after_free, t))
        × (split self n t ≡ (err split_freed, t))
        × (merge self other t ≡ (err merge_self_freed, t))
        × (free self t ≡ (ok tt, t))
  free_dead n other = dead (free self s).1 free-valid
    where
      dead :
          (t : Arena)
          → t.valid self.ident ≡ false
          → (offset self t ≡ (err use_after_free, t))
            × (split self n t ≡ (err split_freed, t))
            × (merge self other t ≡ (err merge_self_freed, t))
            × (free self t ≡ (ok tt, t))
      dead t v =
          (unfold offset in rw v, unfold split in rw v, unfold merge in rw v, unfold free in rw v)
