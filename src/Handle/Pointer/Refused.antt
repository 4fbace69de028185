-- ===== src/Handle/Pointer/Refused.antt =====
-- pointer.py: what an invalid pointer is good for.
use rsyscall.Base.{ℕ, ◌≡◌, true, false}
use rsyscall.Handle.Pointer.{
  Class, Serializer, Mapping, Pointer, Heap, Transport, ok, err, invalid_pointer, validate, split,
  merge, near, borrow, free, as_class, pointer, readable_pointer, linear_pointer, written_pointer,
  reinterpret, readable, linearize, wrote, split_from_end, write, read_any,
}

module _ {V W : Type 0} (p : Pointer V) (s : Heap W) where
  as_class-invalid :
      {U : Type 0} (class : Class U) (mapping : Mapping) (serializer : Serializer U)
      → s.valid p.ident ≡ false
      → as_class p class mapping serializer s ≡ (err invalid_pointer, s)
  unfolding as_class validate
  as_class-invalid class mapping serializer v = rw v

  -- An invalid pointer is refused by `split`, `split_from_end`, `merge`, `near`, `borrow`, `write`,
  -- `Pointer.read`, `_reinterpret`, `_readable`, `_linearize` and `_wrote`, also as the argument of
  -- the `merge` of a valid pointer, and nothing changes; `free` does nothing.
  pub refused_lem :
      (transport : Transport V W) (q : Pointer V) (value : V) (n a : ℕ) (serializer : Serializer V)
      → s.valid p.ident ≡ false
      → s.valid q.ident ≡ true
      → (split p n s ≡ (err invalid_pointer, s))
        × (split_from_end p n a s ≡ (err invalid_pointer, s))
        × (merge p q s ≡ (err invalid_pointer, s))
        × (merge q p s ≡ (err invalid_pointer, s))
        × (near p s ≡ (err invalid_pointer, s))
        × (borrow p n s ≡ (err invalid_pointer, s))
        × (write transport p value s ≡ (err invalid_pointer, s))
        × (read_any transport p s ≡ (err invalid_pointer, s))
        × (reinterpret p serializer s ≡ (err invalid_pointer, s))
        × (readable p s ≡ (err invalid_pointer, s))
        × (linearize p s ≡ (err invalid_pointer, s))
        × (wrote p value s ≡ (err invalid_pointer, s))
        × (free p s ≡ (ok tt, s))
  refused_lem transport q value n a serializer v u = (
    unfold split validate in rw v,
    unfold split_from_end near validate in rw v,
    unfold merge validate in rw v,
    unfold merge validate in rw (u, v),
    unfold near validate in rw v,
    unfold borrow validate in rw v,
    unfold write validate in rw v,
    unfold read_any validate in rw v,
    unfold reinterpret in as_class-invalid pointer p.mapping serializer v,
    unfold readable in as_class-invalid readable_pointer p.mapping p.serializer v,
    unfold linearize in as_class-invalid linear_pointer p.mapping p.serializer v,
    unfold wrote in as_class-invalid (written_pointer value) p.mapping p.serializer v,
    unfold free in rw v,
  )
