-- ===== src/Fuse/Examples.antt =====
-- Bindings whose structs have a field to a byte.
use rsyscall.Base.{
  ℕ, zero, suc, ◌<◌, ◌^◌, ◌≡◌, refl, arith, List, [], ◌∷◌, Option, none, some, get_elem?,
}
use rsyscall.Struct.{Bytes, Serializer}
use rsyscall.Fuse.{
  ok, err, partial_packet, key_error, Opcode, init, lookup, open_file, opendir, read, readdir,
  readdirplus, readlink, getattr, getxattr, flush, release, releasedir, unhandled, InHeader, InitIn,
  ReadIn, GetattrIn, FlushIn, ReleaseIn, FuseIn, Op, init_op, lookup_op, open_op, opendir_op,
  read_op, readdir_op, readdirplus_op, readlink_op, getattr_op, getxattr_op, flush_op, release_op,
  releasedir_op, opcode, msg_to_bytes, Bindings, packets_to_bytes, packets_from_bytes,
  getxattr_to_bytes, getxattr_from_bytes,
}
use rsyscall.Fuse.Fits.{IsBindings, HeaderFits, AllFit}
use rsyscall.Fuse.Packets.{packets_from_bytes-packets_to_bytes}
use rsyscall.Fuse.Xattr.{getxattr_from_bytes-getxattr_to_bytes}

abbrev members : List Opcode
members =
    init
    ∷ lookup
    ∷ open_file
    ∷ opendir
    ∷ read
    ∷ readdir
    ∷ readdirplus
    ∷ readlink
    ∷ getattr
    ∷ getxattr
    ∷ flush
    ∷ release
    ∷ releasedir
    ∷ unhandled 13
    ∷ []

abbrev number : Opcode → ℕ
number init = 0
number lookup = 1
number open_file = 2
number opendir = 3
number read = 4
number readdir = 5
number readdirplus = 6
number readlink = 7
number getattr = 8
number getxattr = 9
number flush = 10
number release = 11
number releasedir = 12
number (unhandled n) = n

-- The members are those that have a class, and one more.
abbrev from_number : ℕ → Option Opcode
from_number n = get_elem? members n

from_number-number : (op : Op) → from_number (number (opcode op)) ≡ some (opcode op)
from_number-number (init_op m) = refl
from_number-number (lookup_op name) = refl
from_number-number (open_op m) = refl
from_number-number (opendir_op m) = refl
from_number-number (read_op m) = refl
from_number-number (readdir_op m) = refl
from_number-number (readdirplus_op m) = refl
from_number-number readlink_op = refl
from_number-number (getattr_op m) = refl
from_number-number (getxattr_op name) = refl
from_number-number (flush_op m) = refl
from_number-number (release_op m) = refl
from_number-number (releasedir_op m) = refl

number-fits : (op : Op) → number (opcode op) < 2 ^ 32
number-fits (init_op m) = omega arith
number-fits (lookup_op name) = omega arith
number-fits (open_op m) = omega arith
number-fits (opendir_op m) = omega arith
number-fits (read_op m) = omega arith
number-fits (readdir_op m) = omega arith
number-fits (readdirplus_op m) = omega arith
number-fits readlink_op = omega arith
number-fits (getattr_op m) = omega arith
number-fits (getxattr_op name) = omega arith
number-fits (flush_op m) = omega arith
number-fits (release_op m) = omega arith
number-fits (releasedir_op m) = omega arith

abbrev field : ℕ → Bytes → ℕ
field n [] = 0
field zero (b ∷ x) = b
field (suc n) (b ∷ x) = field n x

abbrev init_from_bytes : Bytes → Option InitIn
init_from_bytes (a0 ∷ a1 ∷ a2 ∷ a3 ∷ rest) =
    some (record { major = a0; minor = a1; max_readahead = a2; flags = a3 })
init_from_bytes x = none

abbrev init_struct : Serializer InitIn
init_struct = record {
  to_bytes = λ m. m.major ∷ m.minor ∷ m.max_readahead ∷ m.flags ∷ [];
  from_bytes = init_from_bytes;
  sizeof = 4;
}

abbrev read_from_bytes : Bytes → Option ReadIn
read_from_bytes (a0 ∷ a1 ∷ a2 ∷ a3 ∷ a4 ∷ rest) =
    some (record { fh = a0; offset = a1; size = a2; read_flags = a3; flags = a4 })
read_from_bytes x = none

abbrev read_struct : Serializer ReadIn
read_struct = record {
  to_bytes = λ m. m.fh ∷ m.offset ∷ m.size ∷ m.read_flags ∷ m.flags ∷ [];
  from_bytes = read_from_bytes;
  sizeof = 5;
}

abbrev getattr_from_bytes : Bytes → Option GetattrIn
getattr_from_bytes (a0 ∷ a1 ∷ rest) = some (record { getattr_flags = a0; fh = a1 })
getattr_from_bytes x = none

abbrev getattr_struct : Serializer GetattrIn
getattr_struct = record {
  to_bytes = λ m. m.getattr_flags ∷ m.fh ∷ [];
  from_bytes = getattr_from_bytes;
  sizeof = 2;
}

abbrev flush_from_bytes : Bytes → Option FlushIn
flush_from_bytes (a0 ∷ a1 ∷ rest) = some (record { fh = a0; lock_owner = a1 })
flush_from_bytes x = none

abbrev flush_struct : Serializer FlushIn
flush_struct = record {
  to_bytes = λ m. m.fh ∷ m.lock_owner ∷ [];
  from_bytes = flush_from_bytes;
  sizeof = 2;
}

abbrev release_from_bytes : Bytes → Option ReleaseIn
release_from_bytes (a0 ∷ a1 ∷ a2 ∷ a3 ∷ rest) =
    some (record { fh = a0; flags = a1; release_flags = a2; lock_owner = a3 })
release_from_bytes x = none

abbrev release_struct : Serializer ReleaseIn
release_struct = record {
  to_bytes = λ m. m.fh ∷ m.flags ∷ m.release_flags ∷ m.lock_owner ∷ [];
  from_bytes = release_from_bytes;
  sizeof = 4;
}

abbrev open_from_bytes : Bytes → Option ℕ
open_from_bytes [] = none
open_from_bytes (b ∷ x) = some b

abbrev bindings : Bindings
bindings = record {
  number = number;
  from_number = from_number;
  header_size = 7;
  header_bytes = λ n o h. n ∷ o ∷ h.unique ∷ h.nodeid ∷ h.uid ∷ h.gid ∷ h.pid ∷ [];
  header_len = field 0;
  header_opcode = field 1;
  header_fields = λ x. record {
    unique = field 2 x;
    nodeid = field 3 x;
    uid = field 4 x;
    gid = field 5 x;
    pid = field 6 x;
  };
  init_in = init_struct;
  open_in = record { to_bytes = λ m. m ∷ []; from_bytes = open_from_bytes; sizeof = 1 };
  read_in = read_struct;
  getattr_in = getattr_struct;
  flush_in = flush_struct;
  release_in = release_struct;
  getxattr_sizeof = 2;
  getxattr_bytes = λ n. n ∷ 0 ∷ [];
  getxattr_size = field 0;
  encode = λ name. name;
  decode = some;
  fsdecode = λ x. x;
}

bindings-IsBindings : IsBindings bindings
bindings-IsBindings = record {
  from_number = from_number-number;
  number_fits = number-fits;
  header_nonempty = omega arith;
  length_header = λ n o h p q f. refl;
  header_len = λ n o h rest p q f. refl;
  header_opcode = λ n o h rest p q f. refl;
  header_fields = λ n o h rest p q f. refl;
  init_in = λ m f. refl;
  open_in = λ m f. refl;
  read_in = λ m f. refl;
  getattr_in = λ m f. refl;
  flush_in = λ m f. refl;
  release_in = λ m f. refl;
  decode = λ name f. refl;
}

abbrev root : InHeader
root = record { unique = 2; nodeid = 1; uid = 4; gid = 5; pid = 6 }

abbrev messages : List FuseIn
messages =
    record { hdr = root; op = lookup_op (8 ∷ 9 ∷ []) }
    ∷ record { hdr = root; op = readlink_op }
    ∷ record {
      hdr = root;
      op = release_op (record { fh = 3; flags = 1; release_flags = 0; lock_owner = 0 });
    }
    ∷ []

root-fits : HeaderFits root
root-fits = (omega arith, omega arith, omega arith, omega arith, omega arith)

messages-fit : AllFit bindings messages
unfolding msg_to_bytes
messages-fit = (
  ((omega arith, refl, (omega arith, refl, tt)), root-fits, omega arith),
  (
    (tt, root-fits, omega arith),
    (((refl, (omega arith, omega arith, omega arith, omega arith)), root-fits, omega arith), tt),
  ),
)

packets_from_bytes-packets_to_bytes_example :
    packets_from_bytes bindings (packets_to_bytes bindings messages) ≡ ok messages
packets_from_bytes-packets_to_bytes_example =
    packets_from_bytes-packets_to_bytes bindings bindings-IsBindings messages messages-fit

-- A message with no class, and one that is cut off.
no_class : packets_from_bytes bindings (7 ∷ 13 ∷ 2 ∷ 1 ∷ 4 ∷ 5 ∷ 6 ∷ []) ≡ err key_error
unfolding packets_from_bytes
no_class = refl

cut_off_packet :
    packets_from_bytes bindings (9 ∷ 1 ∷ 2 ∷ 1 ∷ 4 ∷ 5 ∷ 6 ∷ 8 ∷ []) ≡ err partial_packet
unfolding packets_from_bytes
cut_off_packet = refl

getxattr_from_bytes-getxattr_to_bytes_example :
    getxattr_from_bytes bindings (getxattr_to_bytes bindings (1 ∷ 2 ∷ 3 ∷ 4 ∷ []))
    ≡ err partial_packet
getxattr_from_bytes-getxattr_to_bytes_example =
    getxattr_from_bytes-getxattr_to_bytes bindings (1 ∷ 2 ∷ 3 ∷ 4 ∷ [])
      (record { length_of = λ n f. refl; size_of = λ n f. refl }) (omega arith)
