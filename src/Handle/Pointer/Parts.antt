-- ===== src/Handle/Pointer/Parts.antt =====
-- pointer.py: `split`, `merge` and `split_from_end` on a pointer that owns its allocation.
use native.Mathlib.Nat.{div-add-mod, mul-add-mod_self_left}
use rsyscall.Base.{
  ℕ, ◌/◌, subst, sym, ◌+◌, ◌-◌, ◌%◌, ◌*◌, ◌≤◌, ◌<◌, ◌≡◌, refl, true, false, arith, ltb, ◌==◌,
}
use rsyscall.Memory.Arena as Arena
use rsyscall.Memory.Arena.{Allocation, set_valid}
use rsyscall.Memory.Arena.Tracking.{find-valid}
use rsyscall.Memory.Arena.Invariant.{WellFormed, Owned}
use rsyscall.Memory.Arena.Split as Split
use rsyscall.Memory.Arena.Split.{first_part, second_part}
use rsyscall.Memory.Arena.Merge.{merged}
use rsyscall.Memory.Arena.RoundTrip as RoundTrip
use rsyscall.Handle.Pointer.{
  Pointer, Heap, ok, pointer, invalidated, new_pointer, validate, on_arena, split, split_pair,
  with_alloc, merge, near, near_end, split_from_end, split_behind,
}

on_arena-ok :
    {W A : Type 0} (s : Heap W) (r : Arena.Result A × Arena.Arena) (a : A)
    → r.0 ≡ Arena.ok a
    → on_arena s r ≡ (ok a, record s { arena = r.1 })
unfolding on_arena
on_arena-ok s (Arena.ok b, t) a e = ground arith
on_arena-ok s (Arena.err x, t) a e = cc

module _ {V : Type 0} (p : Pointer V) where
  -- A pointer object made from `p` for another allocation.
  abbrev pub part : ℕ → Allocation → Pointer V
  part ident allocation = record {
    ident = ident;
    mapping = p.mapping;
    serializer = p.serializer;
    allocation = allocation;
    class = pointer;
  }

module _ {V W : Type 0} (p : Pointer V) where
  split-eq :
      (n : ℕ) (s : Heap W) (a b : Allocation)
      → s.valid p.ident ≡ true
      → (Arena.split p.allocation n s.arena).0 ≡ Arena.ok (a, b)
      → split p n s ≡ (
        ok (part p s.next a, part p (s.next + 1) b),
        record s {
          arena = (Arena.split p.allocation n s.arena).1;
          valid =
              set_valid (s.next + 1) true (set_valid s.next true (set_valid p.ident false s.valid));
          been_read = set_valid (s.next + 1) false (set_valid s.next false s.been_read);
          next = s.next + 1 + 1;
        },
      )
  unfolding split validate split_pair with_alloc new_pointer
  split-eq n s a b v e =
      rw (v, on_arena-ok (invalidated p s) (Arena.split p.allocation n s.arena) (a, b) e) refl

  merge-eq :
      (q : Pointer V) (s : Heap W) (a : Allocation)
      → s.valid p.ident ≡ true
      → s.valid q.ident ≡ true
      → (Arena.merge p.allocation q.allocation s.arena).0 ≡ Arena.ok a
      → merge p q s ≡ (
        ok (part p s.next a),
        record s {
          arena = (Arena.merge p.allocation q.allocation s.arena).1;
          valid = set_valid s.next true (set_valid q.ident false (set_valid p.ident false s.valid));
          been_read = set_valid s.next false s.been_read;
          next = s.next + 1;
        },
      )
  unfolding merge validate with_alloc new_pointer
  merge-eq q s a v u e =
      rw
        (
          v,
          u,
          on_arena-ok (invalidated q (invalidated p s))
              (Arena.merge p.allocation q.allocation s.arena) a e,
        )
        refl

  -- The pointer was made, is valid, and owns a valid allocation of a well-formed arena.
  pub record Owns (s : Heap W) : Type 0 where
    pub known : p.ident < s.next
    pub usable : s.valid p.ident ≡ true
    pub well_formed : WellFormed s.arena
    pub owned : Owned p.allocation s.arena

module _ {V W : Type 0} (p : Pointer V) (n : ℕ) (s : Heap W) where
  -- The two parts of a split.
  abbrev pub first : Pointer V
  first = part p s.next (first_part p.allocation n s.arena)

  abbrev pub second : Pointer V
  second = part p (s.next + 1) (second_part p.allocation n s.arena)

  -- Splitting a pointer that owns its allocation, at a size that it has, returns two pointers that
  -- own the two parts of the allocation, and makes it invalid.
  pub split-Owns :
      Owns p s
      → p.allocation.start + n ≤ p.allocation.stop
      → let t = (split p n s).1 in
        ((split p n s).0 ≡ ok (first, second))
        × Owns first t
        × Owns second t
        × (t.valid p.ident ≡ false)
  split-Owns w fits =
      let (e, good, one, two, dead) =
        Split.split_lem p.allocation n s.arena w.well_formed w.owned fits in
      let a = first_part p.allocation n s.arena in
      let b = second_part p.allocation n s.arena in
      let k = w.known in
      rw (split-eq p n s a b w.usable e) (
        refl,
        record { known = omega arith; usable = ground arith; well_formed = good; owned = one },
        record { known = omega arith; usable = ground arith; well_formed = good; owned = two },
        ground (arith, k),
      )

  -- The pointer that merging the two parts makes.
  abbrev pub whole : Pointer V
  whole = part p (s.next + 1 + 1) (
      merged (first_part p.allocation n s.arena) (second_part p.allocation n s.arena)
        (Arena.split p.allocation n s.arena).1)

  -- After splitting a pointer that owns its allocation, at a size that it has, merging the two parts
  -- returns a valid pointer with the range that was split, the parts are invalid, and the arena has
  -- the ranges that it had before.
  pub merge-split-whole :
      Owns p s
      → p.allocation.start + n ≤ p.allocation.stop
      → let t = (split p n s).1 in
        let u = (merge first second t).1 in
        ((merge first second t).0 ≡ ok whole)
        × (whole.allocation.start ≡ p.allocation.start)
        × (whole.allocation.stop ≡ p.allocation.stop)
        × (u.valid first.ident ≡ false)
        × (u.valid second.ident ≡ false)
        × (u.valid whole.ident ≡ true)
        × (RoundTrip.ranges u.arena.allocations ≡ RoundTrip.ranges s.arena.allocations)
  merge-split-whole w fits =
      let (e, good, one, two, dead) =
        Split.split_lem p.allocation n s.arena w.well_formed w.owned fits in
      let (m, x, y, good', same) =
        RoundTrip.merge-split p.allocation n s.arena w.well_formed w.owned fits in
      let a = first_part p.allocation n s.arena in
      let b = second_part p.allocation n s.arena in
      let t = (split p n s).1 in
      rw (split-eq p n s a b w.usable e) (
        rw
          (merge-eq first second
            (record s {
              arena = (Arena.split p.allocation n s.arena).1;
              valid =
                  set_valid (s.next + 1) true
                    (set_valid s.next true (set_valid p.ident false s.valid));
              been_read = set_valid (s.next + 1) false (set_valid s.next false s.been_read);
              next = s.next + 1 + 1;
            })
            (merged a b (Arena.split p.allocation n s.arena).1) (ground arith) (ground arith) m)
          (refl, x, y, ground arith, ground arith, ground arith, same))

-- `near` of a pointer that owns its allocation is the address of its allocation.
near-eq :
    {V W : Type 0} (p : Pointer V) (s : Heap W)
    → Owns p s
    → near p s ≡ (ok (p.mapping.address + p.allocation.start), s)
unfolding near near_end validate Arena.offset
near-eq p s w =
    let known =
      find-valid s.arena.ident p.allocation.ident s.arena.valid s.arena.next s.arena.allocations
        p.allocation w.well_formed.tracks.live w.owned in
    rw (w.usable, known.0) refl

rest_mod :
    (r size extra start stop address a q : ℕ)
    → r + (size + extra) ≡ stop
    → start ≤ r
    → address + start + size ≡ a * q + extra
    → (address + r + (size + size)) % a ≡ (stop - start) % a
rest_mod r size extra start stop address a q e le d =
    subst (λ x. x % a ≡ (stop - start) % a) (omega arith) (mul-add-mod_self_left a q (stop - start))

behind-eq :
    {V W : Type 0} (p : Pointer V) (size alignment address : ℕ) (s : Heap W)
    → 0 < alignment
    → p.allocation.start + size + (address + size) % alignment ≤ p.allocation.stop
    → split_behind p size alignment address s
      ≡ split p (p.allocation.stop - p.allocation.start - size - (address + size) % alignment) s
unfolding split_behind
behind-eq p size alignment address s pos fits = rw (zero_test, room) refl
  where
    zero_test : (alignment == 0) ≡ false
    zero_test = ground (arith, pos)

    room : ltb p.allocation.stop (p.allocation.start + size + (address + size) % alignment) ≡ false
    room = ground (arith, fits)

module _ {V W : Type 0} (p : Pointer V) (size alignment : ℕ) (s : Heap W) where
  -- What `split_from_end` leaves behind the value.
  abbrev pub extra : ℕ
  extra = (p.mapping.address + p.allocation.start + size) % alignment

  abbrev pub cut : ℕ
  cut = p.allocation.stop - p.allocation.start - size - extra

  -- For a positive alignment and a pointer that owns its allocation and has room for the size and
  -- the extra bytes, `split_from_end` returns two pointers, and the right one ends where the pointer
  -- ended. Its address plus twice the size is congruent to the length of the pointer, modulo the
  -- alignment, wherever the pointer lies.
  pub split_from_end_lem :
      0 < alignment
      → Owns p s
      → p.allocation.start + size + extra ≤ p.allocation.stop
      → let right = second p cut s in
        ((split_from_end p size alignment s).0 ≡ ok (first p cut s, right))
        × (right.allocation.start + (size + extra) ≡ p.allocation.stop)
        × (right.allocation.stop ≡ p.allocation.stop)
        × ((p.mapping.address + right.allocation.start + (size + size)) % alignment
            ≡ (p.allocation.stop - p.allocation.start) % alignment)
  unfolding split_from_end
  split_from_end_lem pos w fits =
      let address = p.mapping.address + p.allocation.start in
      rw (near-eq p s w, behind-eq p size alignment address s pos fits)
        (
          (split-Owns p cut s w (omega (arith, fits))).0,
          omega (arith, fits),
          refl,
          rest_mod (p.allocation.start + cut) size extra p.allocation.start p.allocation.stop
              p.mapping.address alignment ((address + size) / alignment) (omega (arith, fits))
              (omega arith) (sym (div-add-mod (address + size) alignment)),
        )
