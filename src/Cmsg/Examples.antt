-- ===== src/Cmsg/Examples.antt =====
-- Messages with a byte to a field.
use rsyscall.Base.{
  ℕ, zero, suc, ◌≡◌, refl, arith, false, if◌then◌else◌, ◌==◌, ◌&&◌, List, [], ◌∷◌, Option, none,
  some, ◌<◌, ◌≤◌, ◌+◌, ◌^◌, length,
}
use rsyscall.Handle.Fd.{Fds}
use rsyscall.Cmsg.Handles.{EntriesDenote}
use rsyscall.Struct.{Bytes, Serializer, returned, raised, list_to_bytes}
use rsyscall.Cmsg.{Bindings, rights_to_bytes, cmsgs_to_bytes, cmsgs_from_bytes}
use rsyscall.Cmsg.Written.{IsBindings, next_fits, none_left}
use rsyscall.Cmsg.RoundTrip.{cmsgs_from_bytes-cmsgs_to_bytes, cmsgs_from_bytes-known}

abbrev field : ℕ → Bytes → ℕ
field n [] = 0
field zero (b ∷ bytes) = b
field (suc n) (b ∷ bytes) = field n bytes

abbrev fd_from_bytes : Bytes → Option ℕ
fd_from_bytes [] = none
fd_from_bytes (b ∷ bytes) = some b

abbrev fd_struct : Serializer ℕ
fd_struct = record { to_bytes = λ n. n ∷ []; from_bytes = fd_from_bytes; sizeof = 1 }

abbrev bindings : Bindings ℕ
bindings = record {
  header_size = 3;
  header_bytes = λ n level type. n ∷ level ∷ type ∷ [];
  cmsg_len = field 0;
  cmsg_level = field 1;
  cmsg_type = field 2;
  sol_socket = 1;
  scm_rights = 1;
  int_struct = fd_struct;
  number = λ n. n;
}

abbrev bindings-IsBindings : IsBindings bindings
bindings-IsBindings = record {
  int_serializer = record {
    nonempty = omega arith;
    length_of = λ n. refl;
    reads_back = λ n rest. refl;
  };
  nonempty = omega arith;
  socket_fits = omega arith;
  rights_fits = omega arith;
  length-header_bytes = λ n level type h p q. refl;
  cmsg_len-header_bytes = λ n level type rest h p q. refl;
  cmsg_level-header_bytes = λ n level type rest h p q. refl;
  cmsg_type-header_bytes = λ n level type rest h p q. refl;
}

abbrev messages : List (List ℕ)
messages = (7 ∷ 8 ∷ []) ∷ (9 ∷ []) ∷ []

two_fit : bindings.header_size + length (list_to_bytes fd_struct (7 ∷ 8 ∷ [])) < 2 ^ 64
unfolding rights_to_bytes list_to_bytes
two_fit = omega arith

one_fits : bindings.header_size + length (list_to_bytes fd_struct (9 ∷ [])) < 2 ^ 64
unfolding rights_to_bytes list_to_bytes
one_fits = omega arith

in_nine : length (cmsgs_to_bytes bindings messages) ≤ 9
unfolding cmsgs_to_bytes rights_to_bytes list_to_bytes
in_nine = omega arith

-- A process that knows no file descriptor, and one that knows the number 7.
abbrev empty : Fds
empty = record {
  task = λ h. 0;
  near = λ h. 0;
  valid = λ h. false;
  next = 4;
  fd_table = λ k. 0;
  manipulating_fd_table = λ k. false;
  fd_handles = λ k. [];
  near_to_handles = λ t n. none;
  inherited = λ t. [];
  closes = [];
}

abbrev knows_seven : Fds
knows_seven = record empty {
  near = λ h. 7;
  valid = λ h. h == 3;
  fd_handles = λ k. if k == 0 then 3 ∷ [] else [];
  near_to_handles = λ t n. if (t == 0) && (n == 7) then some (3 ∷ []) else none;
}

cmsgs_from_bytes-cmsgs_to_bytes_example :
    (handles : List (List ℕ)) × (after : Fds) × (cmsgs_from_bytes bindings 0 9
        (cmsgs_to_bytes bindings messages)
        empty
      ≡ (returned handles, after))
    × EntriesDenote after 0 handles messages
cmsgs_from_bytes-cmsgs_to_bytes_example =
    cmsgs_from_bytes-cmsgs_to_bytes bindings bindings-IsBindings 0 messages 9 empty
      (next_fits two_fit (next_fits one_fits none_left)) in_nine refl
      (refl, refl, (refl, refl, (refl, refl, tt)))

-- What the task writes from its own handles, it cannot read.
own_handle :
    cmsgs_from_bytes bindings 0 9 (cmsgs_to_bytes bindings messages) knows_seven
    ≡ (raised, knows_seven)
own_handle =
    cmsgs_from_bytes-known bindings bindings-IsBindings 0 7 (8 ∷ []) ((9 ∷ []) ∷ []) 8 knows_seven
      (3 ∷ []) two_fit refl
