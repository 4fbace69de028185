-- ===== src/Fuse/Packets.antt =====
-- fuse.py: packets are read back as they were written.
use rsyscall.Base.{
  ℕ, zero, suc, ◌+◌, ◌≤◌, ◌≡◌, refl, sym, ap, ◌∙◌, false, List, [], ◌∷◌, ◌++◌, some, ltb, arith,
  length, length-append, take, drop, take-length, drop-length,
}
use mathlib.Core.List.{append_assoc}
use rsyscall.Struct.{Bytes}
use rsyscall.Fuse.{
  ok, ◌>>=◌, ReleaseIn, Op, init_op, lookup_op, open_op, opendir_op, read_op, readdir_op,
  readdirplus_op, readlink_op, getattr_op, getxattr_op, flush_op, release_op, releasedir_op, FuseIn,
  opcode, Bindings, drop_last, or_value_error, msg_to_bytes, as_op, from_header, packet_to_bytes,
  variable_part, fuse_in_parse_split, packets_to_bytes, packets_turns, packets_from_bytes,
  release_to_bytes,
}
use rsyscall.Fuse.Fits.{ReleaseFits, IsBindings, IsWhole, PacketFits, AllFit}

drop_last-append : (x : Bytes) (b : ℕ) → drop_last 1 (x ++ (b ∷ [])) ≡ x
drop_last-append x b =
    ap (λ n. take n (x ++ (b ∷ []))) (omega (arith, length-append x (b ∷ [])))
    ∙ take-length x (b ∷ [])

not_short : (x rest : Bytes) → ltb (length (x ++ rest)) (length x) ≡ false
not_short x rest = ground (arith, length-append x rest)

module _ (c : Bindings) (w : IsBindings c) where
  released :
      (f : ReleaseIn → Op) (m : ReleaseIn)
      → m.lock_owner ≡ 0
      → ReleaseFits m
      → as_op c f (or_value_error (c.release_in.from_bytes (release_to_bytes c m))) ≡ ok (f m)
  unfolding release_to_bytes
  released f m e (p, q, g, o) =
      ap (λ o. as_op c f (or_value_error o))
        (w.release_in (record m { lock_owner = 0 }) (p, q, g, omega arith))
      ∙ ap (λ n. ok (f (record m { lock_owner = n }))) (sym e)

  from_header-msg_to_bytes :
      (op : Op) → IsWhole op → from_header c (opcode op) (msg_to_bytes c op) ≡ ok op
  unfolding from_header msg_to_bytes
  from_header-msg_to_bytes (init_op m) h = rw (w.init_in m h) refl
  from_header-msg_to_bytes (lookup_op name) h =
      rw (drop_last-append (c.encode name) 0, w.decode name h) refl
  from_header-msg_to_bytes (open_op m) h = rw (w.open_in m h) refl
  from_header-msg_to_bytes (opendir_op m) h = rw (w.open_in m h) refl
  from_header-msg_to_bytes (read_op m) h = rw (w.read_in m h) refl
  from_header-msg_to_bytes (readdir_op m) h = rw (w.read_in m h) refl
  from_header-msg_to_bytes (readdirplus_op m) h = rw (w.read_in m h) refl
  from_header-msg_to_bytes readlink_op h = refl
  from_header-msg_to_bytes (getattr_op m) h = rw (w.getattr_in m h) refl
  from_header-msg_to_bytes (getxattr_op name) h = elim h [ ]
  from_header-msg_to_bytes (flush_op m) h = rw (w.flush_in m h) refl
  from_header-msg_to_bytes (release_op m) h = released release_op m h.0 h.1
  from_header-msg_to_bytes (releasedir_op m) h = released releasedir_op m h.0 h.1

  length-packet_to_bytes :
      (m : FuseIn)
      → PacketFits c m
      → length (packet_to_bytes c m) ≡ c.header_size + length (msg_to_bytes c m.op)
  unfolding packet_to_bytes
  length-packet_to_bytes m (whole, f, k) =
      let msg = msg_to_bytes c m.op in
      omega (
        arith,
        length-append (c.header_bytes (c.header_size + length msg) (c.number (opcode m.op)) m.hdr)
            msg,
        w.length_header (c.header_size + length msg) (c.number (opcode m.op)) m.hdr k
            (w.number_fits m.op) f,
      )

  -- The fields that are read from the front of a packet.
  packet_len :
      (m : FuseIn) (rest : Bytes)
      → PacketFits c m
      → c.header_len (packet_to_bytes c m ++ rest) ≡ length (packet_to_bytes c m)
  unfolding packet_to_bytes
  packet_len m rest (whole, f, k) =
      let msg = msg_to_bytes c m.op in
      let n = c.header_size + length msg in
      ap c.header_len (append_assoc (c.header_bytes n (c.number (opcode m.op)) m.hdr) msg rest)
      ∙ w.header_len n (c.number (opcode m.op)) m.hdr (msg ++ rest) k (w.number_fits m.op) f
      ∙ sym (length-packet_to_bytes m (whole, f, k))

  packet_opcode :
      (m : FuseIn) (rest : Bytes)
      → PacketFits c m
      → c.from_number (c.header_opcode (packet_to_bytes c m ++ rest)) ≡ some (opcode m.op)
  unfolding packet_to_bytes
  packet_opcode m rest (whole, f, k) =
      let msg = msg_to_bytes c m.op in
      let n = c.header_size + length msg in
      ap (λ x. c.from_number (c.header_opcode x))
        (append_assoc (c.header_bytes n (c.number (opcode m.op)) m.hdr) msg rest)
      ∙ ap c.from_number
          (w.header_opcode n (c.number (opcode m.op)) m.hdr (msg ++ rest) k (w.number_fits m.op) f)
      ∙ w.from_number m.op

  packet_fields :
      (m : FuseIn) (rest : Bytes)
      → PacketFits c m
      → c.header_fields (packet_to_bytes c m ++ rest) ≡ m.hdr
  unfolding packet_to_bytes
  packet_fields m rest (whole, f, k) =
      let msg = msg_to_bytes c m.op in
      let n = c.header_size + length msg in
      ap c.header_fields (append_assoc (c.header_bytes n (c.number (opcode m.op)) m.hdr) msg rest)
      ∙ w.header_fields n (c.number (opcode m.op)) m.hdr (msg ++ rest) k (w.number_fits m.op) f

  packet_message :
      (m : FuseIn) (rest : Bytes)
      → PacketFits c m
      → variable_part c (packet_to_bytes c m ++ rest) ≡ msg_to_bytes c m.op
  unfolding packet_to_bytes
  packet_message m rest (whole, f, k) =
      let msg = msg_to_bytes c m.op in
      let header = c.header_bytes (c.header_size + length msg) (c.number (opcode m.op)) m.hdr in
      ap (λ n. drop c.header_size (take n (packet_to_bytes c m ++ rest)))
        (packet_len m rest (whole, f, k))
      ∙ ap (drop c.header_size) (take-length (packet_to_bytes c m) rest)
      ∙ ap (λ n. drop n (header ++ msg))
          (sym (
            w.length_header (c.header_size + length msg) (c.number (opcode m.op)) m.hdr k
              (w.number_fits m.op) f))
      ∙ drop-length header msg

  fuse_in_parse_split-packet_to_bytes :
      (m : FuseIn) (rest : Bytes)
      → PacketFits c m
      → fuse_in_parse_split c (packet_to_bytes c m ++ rest) ≡ ok (m, rest)
  unfolding fuse_in_parse_split
  fuse_in_parse_split-packet_to_bytes m rest h =
      rw
        (
          packet_message m rest h,
          packet_len m rest h,
          not_short (packet_to_bytes c m) rest,
          packet_opcode m rest h,
          from_header-msg_to_bytes m.op h.0,
          packet_fields m rest h,
          drop-length (packet_to_bytes c m) rest,
        )
        refl

  turn :
      (fuel : ℕ) (bytes : Bytes)
      → 1 ≤ length bytes
      → packets_turns c (suc fuel) bytes ≡ (
          fuse_in_parse_split c bytes >>= λ r.
          packets_turns c fuel r.1 >>= λ entries. ok (r.0 ∷ entries))
  unfolding packets_turns
  turn fuel [] le = elim le [ ]
  turn fuel (b ∷ bytes) le = refl

  packets_turns-packets_to_bytes :
      (l : List FuseIn) (fuel : ℕ)
      → AllFit c l
      → length (packets_to_bytes c l) ≤ fuel
      → packets_turns c fuel (packets_to_bytes c l) ≡ ok l
  unfolding packets_to_bytes packets_turns
  packets_turns-packets_to_bytes [] fuel a le = refl
  packets_turns-packets_to_bytes (m ∷ l) zero (h, a) le = absurd (
      omega (
        arith,
        le,
        length-append (packet_to_bytes c m) (packets_to_bytes c l),
        length-packet_to_bytes m h,
        w.header_nonempty,
      ))
  packets_turns-packets_to_bytes (m ∷ l) (suc fuel) (h, a) le =
      let rest = packets_to_bytes c l in
      let len : length (packet_to_bytes c m ++ rest)
          ≡ c.header_size + length (msg_to_bytes c m.op) + length rest =
        omega (arith, length-append (packet_to_bytes c m) rest, length-packet_to_bytes m h) in
      turn fuel (packet_to_bytes c m ++ rest) (omega (arith, len, w.header_nonempty))
      ∙ ap (λ r. r >>= λ p. packets_turns c fuel p.1 >>= λ entries. ok (p.0 ∷ entries))
          (fuse_in_parse_split-packet_to_bytes m rest h)
      ∙ ap (λ r. r >>= λ entries. ok (m ∷ entries))
          (packets_turns-packets_to_bytes l fuel a (omega (arith, le, len, w.header_nonempty)))

  -- A list of messages is read back as it was written, and the loop ends, when the bindings read back
  -- what fits into their fields. Each message has fields that fit and a packet shorter than 2 ^ 32
  -- bytes, its name can be encoded, and none is a getxattr message or a release message with a lock
  -- owner.
  pub packets_from_bytes-packets_to_bytes :
      (l : List FuseIn) → AllFit c l → packets_from_bytes c (packets_to_bytes c l) ≡ ok l
  unfolding packets_from_bytes
  packets_from_bytes-packets_to_bytes l a =
      packets_turns-packets_to_bytes l (length (packets_to_bytes c l)) a (omega arith)
