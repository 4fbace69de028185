-- ===== src/Handle/Pointer/Values.antt =====
-- pointer.py: values written and read through pointers.
use rsyscall.Base.{ℕ, ◌+◌, ◌<◌, ◌≡◌, refl, true, List, arith, ltb, length}
use rsyscall.Handle.Pointer.{Pointer, Heap, Transport, err, too_long, validate, write}

module _ {V W : Type 0} (transport : Transport V W) where
  module _ (p : Pointer V) (value : V) (s : Heap W) where
    abbrev bytes : List ℕ
    bytes = p.serializer.to_bytes value

    -- A value whose bytes do not fit in a valid pointer is refused before anything is written, and
    -- nothing changes.
    pub write_too_long :
        s.valid p.ident ≡ true
        → p.allocation.stop < p.allocation.start + length bytes
        → write transport p value s ≡ (err too_long, s)
    unfolding write validate
    write_too_long v long = rw (v, room) refl
      where
        room : ltb p.allocation.stop (p.allocation.start + length bytes) ≡ true
        room = ground (arith, long)
