-- ===== src/Fuse.antt =====
-- python/rsyscall/linux/fuse.py: the messages of FUSE as bytes.
pub mod Fits
pub mod Packets
pub mod Xattr
mod Examples
use rsyscall.Base.{
  ℕ, zero, suc, ◌+◌, ◌-◌, Bool, true, false, List, [], ◌∷◌, ◌++◌, Option, none, some, ◌==◌, ltb,
  leb, if◌then◌else◌, drop, take, length,
}
use rsyscall.Struct.{Bytes, Serializer}

pub data Error : Type 0 where
  partial_packet mismatch value_error key_error : Error

-- `running` is a loop that is not done.
pub data Result {ℓ} (A : Type ℓ) : Type ℓ where
  ok : A → Result A
  err : Error → Result A
  running : Result A

infixl 5 ◌>>=◌
abbrev pub ◌>>=◌ {ℓ κ} : {A : Type ℓ} {B : Type κ} → Result A → (A → Result B) → Result B
ok a >>= f = f a
err e >>= f = err e
running >>= f = running

-- `FUSE_OPCODE`: the members that have a class, and the others.
pub data Opcode : Type 0 where
  init lookup open_file opendir read readdir readdirplus readlink : Opcode
  getattr getxattr flush release releasedir : Opcode
  unhandled : ℕ → Opcode

pub record InHeader : Type 0 where
  pub unique : ℕ
  pub nodeid : ℕ
  pub uid : ℕ
  pub gid : ℕ
  pub pid : ℕ

pub record InitIn : Type 0 where
  pub major : ℕ
  pub minor : ℕ
  pub max_readahead : ℕ
  pub flags : ℕ

pub record ReadIn : Type 0 where
  pub fh : ℕ
  pub offset : ℕ
  pub size : ℕ
  pub read_flags : ℕ
  pub flags : ℕ

pub record GetattrIn : Type 0 where
  pub getattr_flags : ℕ
  pub fh : ℕ

pub record FlushIn : Type 0 where
  pub fh : ℕ
  pub lock_owner : ℕ

pub record ReleaseIn : Type 0 where
  pub fh : ℕ
  pub flags : ℕ
  pub release_flags : ℕ
  pub lock_owner : ℕ

-- A str, as the list of its characters.
abbrev pub Str : Type 0
Str = List ℕ

-- The classes of the messages. `FuseOpenIn` is its flags.
pub data Op : Type 0 where
  init_op : InitIn → Op
  lookup_op : Str → Op
  open_op opendir_op : ℕ → Op
  read_op readdir_op readdirplus_op : ReadIn → Op
  readlink_op : Op
  getattr_op : GetattrIn → Op
  getxattr_op : Str → Op
  flush_op : FlushIn → Op
  release_op releasedir_op : ReleaseIn → Op

pub record FuseIn : Type 0 where
  pub hdr : InHeader
  pub op : Op

-- `opcode` of each class.
abbrev pub opcode : Op → Opcode
opcode (init_op m) = init
opcode (lookup_op m) = lookup
opcode (open_op m) = open_file
opcode (opendir_op m) = opendir
opcode (read_op m) = read
opcode (readdir_op m) = readdir
opcode (readdirplus_op m) = readdirplus
opcode readlink_op = readlink
opcode (getattr_op m) = getattr
opcode (getxattr_op m) = getxattr
opcode (flush_op m) = flush
opcode (release_op m) = release
opcode (releasedir_op m) = releasedir

-- What the generated bindings and Python give: the numbers of FUSE_OPCODE, `struct fuse_in_header` and
-- its reading, the structs of the messages, `struct fuse_getxattr_in`, and the encodings of a str.
pub record Bindings : Type 0 where
  pub number : Opcode → ℕ
  pub from_number : ℕ → Option Opcode
  pub header_size : ℕ
  pub header_bytes : ℕ → ℕ → InHeader → Bytes
  pub header_len : Bytes → ℕ
  pub header_opcode : Bytes → ℕ
  pub header_fields : Bytes → InHeader
  pub init_in : Serializer InitIn
  pub open_in : Serializer ℕ
  pub read_in : Serializer ReadIn
  pub getattr_in : Serializer GetattrIn
  pub flush_in : Serializer FlushIn
  pub release_in : Serializer ReleaseIn
  pub getxattr_sizeof : ℕ
  pub getxattr_bytes : ℕ → Bytes
  pub getxattr_size : Bytes → ℕ
  pub encode : Str → Bytes
  pub decode : Bytes → Option Str
  pub fsdecode : Bytes → Str

-- `data[:-k]`
abbrev pub drop_last : ℕ → Bytes → Bytes
drop_last k x = take (length x - k) x

abbrev pub or_value_error {ℓ} : {A : Type ℓ} → Option A → Result A
or_value_error none = err value_error
or_value_error (some a) = ok a

abbrev same_or_mismatch {ℓ} : {A : Type ℓ} → Bool → Result A → Result A
same_or_mismatch true r = r
same_or_mismatch false r = err mismatch

module _ (c : Bindings) where
  -- `FuseGetxattrIn.to_bytes`
  unfoldable pub getxattr_to_bytes : Str → Bytes
  getxattr_to_bytes name = c.getxattr_bytes (length name + 1)

  -- `variable[:varsize-1]` for the `varsize` that is `size - 4`, which may be negative.
  abbrev pub before_end : ℕ → Bytes → Bytes
  before_end size variable =
      if ltb 4 size then take (size - 5) variable else drop_last (5 - size) variable

  -- `FuseGetxattrIn.from_bytes`
  unfoldable pub getxattr_from_bytes : Bytes → Result Str
  getxattr_from_bytes bytes =
      let size = c.getxattr_size bytes in
      let variable = drop c.getxattr_sizeof bytes in
      if ltb (length variable + 4) size
      then err partial_packet
      else ok (c.fsdecode (before_end size variable))

  -- `FuseReleaseIn.to_bytes` does not write the lock owner, so the struct has 0 there.
  unfoldable pub release_to_bytes : ReleaseIn → Bytes
  release_to_bytes m = c.release_in.to_bytes (record m { lock_owner = 0 })

  -- `msg_to_bytes` of each class.
  unfoldable pub msg_to_bytes : Op → Bytes
  unfolding getxattr_to_bytes release_to_bytes
  msg_to_bytes (init_op m) = c.init_in.to_bytes m
  msg_to_bytes (lookup_op name) = c.encode name ++ (0 ∷ [])
  msg_to_bytes (open_op m) = c.open_in.to_bytes m
  msg_to_bytes (opendir_op m) = c.open_in.to_bytes m
  msg_to_bytes (read_op m) = c.read_in.to_bytes m
  msg_to_bytes (readdir_op m) = c.read_in.to_bytes m
  msg_to_bytes (readdirplus_op m) = c.read_in.to_bytes m
  msg_to_bytes readlink_op = []
  msg_to_bytes (getattr_op m) = c.getattr_in.to_bytes m
  msg_to_bytes (getxattr_op name) = getxattr_to_bytes name
  msg_to_bytes (flush_op m) = c.flush_in.to_bytes m
  msg_to_bytes (release_op m) = release_to_bytes m
  msg_to_bytes (releasedir_op m) = release_to_bytes m

  abbrev pub as_op {ℓ} : {A : Type ℓ} → (A → Op) → Result A → Result Op
  as_op f (ok m) = ok (f m)
  as_op f (err e) = err e
  as_op f running = running

  -- `from_header` of each class, less the header, which it keeps.
  unfoldable pub init_from_header : Bytes → Result Op
  init_from_header bytes = as_op init_op (or_value_error (c.init_in.from_bytes bytes))

  unfoldable pub lookup_from_header : Bytes → Result Op
  lookup_from_header bytes = as_op lookup_op (or_value_error (c.decode (drop_last 1 bytes)))

  unfoldable pub open_file_from_header : Bytes → Result Op
  open_file_from_header bytes = as_op open_op (or_value_error (c.open_in.from_bytes bytes))

  unfoldable pub opendir_from_header : Bytes → Result Op
  opendir_from_header bytes = as_op opendir_op (or_value_error (c.open_in.from_bytes bytes))

  unfoldable pub read_from_header : Bytes → Result Op
  read_from_header bytes = as_op read_op (or_value_error (c.read_in.from_bytes bytes))

  unfoldable pub readdir_from_header : Bytes → Result Op
  readdir_from_header bytes = as_op readdir_op (or_value_error (c.read_in.from_bytes bytes))

  unfoldable pub readdirplus_from_header : Bytes → Result Op
  readdirplus_from_header bytes = as_op readdirplus_op (or_value_error (c.read_in.from_bytes bytes))

  unfoldable pub readlink_from_header : Bytes → Result Op
  readlink_from_header bytes = ok readlink_op

  unfoldable pub getattr_from_header : Bytes → Result Op
  getattr_from_header bytes = as_op getattr_op (or_value_error (c.getattr_in.from_bytes bytes))

  unfoldable pub getxattr_from_header : Bytes → Result Op
  unfolding getxattr_from_bytes
  getxattr_from_header bytes = as_op getxattr_op (getxattr_from_bytes bytes)

  unfoldable pub flush_from_header : Bytes → Result Op
  flush_from_header bytes = as_op flush_op (or_value_error (c.flush_in.from_bytes bytes))

  unfoldable pub release_from_header : Bytes → Result Op
  release_from_header bytes = as_op release_op (or_value_error (c.release_in.from_bytes bytes))

  unfoldable pub releasedir_from_header : Bytes → Result Op
  releasedir_from_header bytes =
      as_op releasedir_op (or_value_error (c.release_in.from_bytes bytes))

  -- `opcode_classes[opcode].from_header`
  unfoldable pub from_header : Opcode → Bytes → Result Op
  unfolding init_from_header lookup_from_header open_file_from_header opendir_from_header
      read_from_header readdir_from_header readdirplus_from_header readlink_from_header
      getattr_from_header getxattr_from_header flush_from_header release_from_header
      releasedir_from_header
  from_header init bytes = init_from_header bytes
  from_header lookup bytes = lookup_from_header bytes
  from_header open_file bytes = open_file_from_header bytes
  from_header opendir bytes = opendir_from_header bytes
  from_header read bytes = read_from_header bytes
  from_header readdir bytes = readdir_from_header bytes
  from_header readdirplus bytes = readdirplus_from_header bytes
  from_header readlink bytes = readlink_from_header bytes
  from_header getattr bytes = getattr_from_header bytes
  from_header getxattr bytes = getxattr_from_header bytes
  from_header flush bytes = flush_from_header bytes
  from_header release bytes = release_from_header bytes
  from_header releasedir bytes = releasedir_from_header bytes
  from_header (unhandled n) bytes = err key_error

  -- `FuseIn.to_bytes`
  unfoldable pub packet_to_bytes : FuseIn → Bytes
  unfolding msg_to_bytes
  packet_to_bytes m =
      let msg = msg_to_bytes m.op in
      c.header_bytes (c.header_size + length msg) (c.number (opcode m.op)) m.hdr ++ msg

  -- `data[FuseInHeader.sizeof():struct.len]`
  abbrev pub variable_part : Bytes → Bytes
  variable_part bytes = drop c.header_size (take (c.header_len bytes) bytes)

  -- `fuse_in_parse_split`
  unfoldable pub fuse_in_parse_split : Bytes → Result (FuseIn × Bytes)
  unfolding from_header
  fuse_in_parse_split bytes =
      if ltb (length bytes) (c.header_len bytes)
      then err partial_packet
      else or_value_error (c.from_number (c.header_opcode bytes)) >>= λ code.
          from_header code (variable_part bytes) >>= λ op.
          ok (record { hdr = c.header_fields bytes; op = op }, drop (c.header_len bytes) bytes)

  -- `FuseIn.from_bytes` of the class whose opcode is `code`; `same` compares two opcodes.
  unfoldable pub packet_from_bytes : (Opcode → Bool) → Opcode → Bytes → Result FuseIn
  unfolding from_header
  packet_from_bytes same code bytes =
      if ltb (length bytes) (c.header_len bytes)
      then err partial_packet
      else or_value_error (c.from_number (c.header_opcode bytes)) >>= λ found.
          same_or_mismatch (same found) (
            from_header code (variable_part bytes) >>= λ op.
            ok (record { hdr = c.header_fields bytes; op = op }))

  -- `FuseInList.to_bytes`
  unfoldable pub packets_to_bytes : List FuseIn → Bytes
  unfolding packet_to_bytes
  packets_to_bytes [] = []
  packets_to_bytes (m ∷ l) = packet_to_bytes m ++ packets_to_bytes l

  -- `FuseInList.from_bytes`, for at most `fuel` turns of its loop.
  unfoldable pub packets_turns : ℕ → Bytes → Result (List FuseIn)
  unfolding fuse_in_parse_split
  packets_turns fuel [] = ok []
  packets_turns zero (b ∷ bytes) = running
  packets_turns (suc fuel) (b ∷ bytes) = fuse_in_parse_split (b ∷ bytes) >>= λ r.
      packets_turns fuel r.1 >>= λ entries. ok (r.0 ∷ entries)

  -- A packet has at least the bytes of its header, so a turn for each byte is enough.
  unfoldable pub packets_from_bytes : Bytes → Result (List FuseIn)
  unfolding packets_turns
  packets_from_bytes bytes = packets_turns (length bytes) bytes
