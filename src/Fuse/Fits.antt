-- ===== src/Fuse/Fits.antt =====
-- python/rsyscall/linux/fuse.py: the messages that fit into the structs of the kernel, and what the
-- bindings promise of them.
use rsyscall.Base.{ℕ, ◌+◌, ◌≤◌, ◌<◌, ◌^◌, ◌&&◌, leb, ◌≡◌, false, List, [], ◌∷◌, ◌++◌, some, length}
use rsyscall.Struct.{Bytes, Serializer}
use rsyscall.Fuse.{
  InHeader, InitIn, ReadIn, GetattrIn, FlushIn, ReleaseIn, Op, init_op, lookup_op, open_op,
  opendir_op, read_op, readdir_op, readdirplus_op, readlink_op, getattr_op, getxattr_op, flush_op,
  release_op, releasedir_op, FuseIn, opcode, Bindings, Str, msg_to_bytes,
}

-- The numbers fit into the fields of the kernel's structs.
abbrev pub HeaderFits : InHeader → Type 0
HeaderFits h =
    (h.unique < 2 ^ 64)
    × (h.nodeid < 2 ^ 64)
    × (h.uid < 2 ^ 32)
    × (h.gid < 2 ^ 32)
    × (h.pid < 2 ^ 32)

abbrev pub InitFits : InitIn → Type 0
InitFits m =
    (m.major < 2 ^ 32) × (m.minor < 2 ^ 32) × (m.max_readahead < 2 ^ 32) × (m.flags < 2 ^ 32)

abbrev pub OpenFits : ℕ → Type 0
OpenFits flags = flags < 2 ^ 32

abbrev pub ReadFits : ReadIn → Type 0
ReadFits m =
    (m.fh < 2 ^ 64)
    × (m.offset < 2 ^ 64)
    × (m.size < 2 ^ 32)
    × (m.read_flags < 2 ^ 32)
    × (m.flags < 2 ^ 32)

abbrev pub GetattrFits : GetattrIn → Type 0
GetattrFits m = (m.getattr_flags < 2 ^ 32) × (m.fh < 2 ^ 64)

abbrev pub FlushFits : FlushIn → Type 0
FlushFits m = (m.fh < 2 ^ 64) × (m.lock_owner < 2 ^ 64)

abbrev pub ReleaseFits : ReleaseIn → Type 0
ReleaseFits m =
    (m.fh < 2 ^ 64) × (m.flags < 2 ^ 32) × (m.release_flags < 2 ^ 32) × (m.lock_owner < 2 ^ 64)

-- A str that UTF-8 can encode: no character is a surrogate.
abbrev pub IsText : Str → Type 0
IsText [] = Unit {0}
IsText (ch ∷ name) = (ch < 0x110000) × ((leb 0xD800 ch && leb ch 0xDFFF) ≡ false) × IsText name

-- The bytes of a struct whose fields fit are read back.
abbrev pub ReadsBack {ℓ} : {A : Type ℓ} → (A → Type 0) → Serializer A → Type ℓ
ReadsBack {A = A} Fits ser = (a : A) → Fits a → ser.from_bytes (ser.to_bytes a) ≡ some a

-- What the bindings promise, for numbers that fit into their fields: a struct that was written is read
-- back, and so is the header from the front of a buffer; FUSE_OPCODE finds the opcodes of the classes
-- by their numbers, which fit; a str that can be encoded is decoded again.
pub record IsBindings (c : Bindings) : Type 0 where
  pub from_number : (op : Op) → c.from_number (c.number (opcode op)) ≡ some (opcode op)
  pub number_fits : (op : Op) → c.number (opcode op) < 2 ^ 32
  pub header_nonempty : 1 ≤ c.header_size
  pub length_header :
      (n o : ℕ) (h : InHeader)
      → n < 2 ^ 32
      → o < 2 ^ 32
      → HeaderFits h
      → length (c.header_bytes n o h) ≡ c.header_size
  pub header_len :
      (n o : ℕ) (h : InHeader) (rest : Bytes)
      → n < 2 ^ 32
      → o < 2 ^ 32
      → HeaderFits h
      → c.header_len (c.header_bytes n o h ++ rest) ≡ n
  pub header_opcode :
      (n o : ℕ) (h : InHeader) (rest : Bytes)
      → n < 2 ^ 32
      → o < 2 ^ 32
      → HeaderFits h
      → c.header_opcode (c.header_bytes n o h ++ rest) ≡ o
  pub header_fields :
      (n o : ℕ) (h : InHeader) (rest : Bytes)
      → n < 2 ^ 32
      → o < 2 ^ 32
      → HeaderFits h
      → c.header_fields (c.header_bytes n o h ++ rest) ≡ h
  pub init_in : ReadsBack InitFits c.init_in
  pub open_in : ReadsBack OpenFits c.open_in
  pub read_in : ReadsBack ReadFits c.read_in
  pub getattr_in : ReadsBack GetattrFits c.getattr_in
  pub flush_in : ReadsBack FlushFits c.flush_in
  pub release_in : ReadsBack ReleaseFits c.release_in
  pub decode : (name : Str) → IsText name → c.decode (c.encode name) ≡ some name

-- The messages that are written whole: their fields fit; FuseGetxattrIn leaves its name out, and
-- FuseReleaseIn the lock owner.
abbrev pub IsWhole : Op → Type 0
IsWhole (init_op m) = InitFits m
IsWhole (lookup_op name) = IsText name
IsWhole (open_op m) = OpenFits m
IsWhole (opendir_op m) = OpenFits m
IsWhole (read_op m) = ReadFits m
IsWhole (readdir_op m) = ReadFits m
IsWhole (readdirplus_op m) = ReadFits m
IsWhole readlink_op = Unit {0}
IsWhole (getattr_op m) = GetattrFits m
IsWhole (getxattr_op name) = ⊥
IsWhole (flush_op m) = FlushFits m
IsWhole (release_op m) = (m.lock_owner ≡ 0) × ReleaseFits m
IsWhole (releasedir_op m) = (m.lock_owner ≡ 0) × ReleaseFits m

-- A message that is whole, whose header fits, and whose length fits into the header.
abbrev pub PacketFits : Bindings → FuseIn → Type 0
PacketFits c m =
    IsWhole m.op × HeaderFits m.hdr × (c.header_size + length (msg_to_bytes c m.op) < 2 ^ 32)

abbrev pub AllFit : Bindings → List FuseIn → Type 0
AllFit c [] = Unit {0}
AllFit c (m ∷ l) = PacketFits c m × AllFit c l
