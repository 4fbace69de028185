-- ===== src/Sockaddr.antt =====
-- python/rsyscall/sys/socket.py, sys/un.py and netinet/in_.py: socket addresses as bytes.
pub mod Unix
pub mod Parsed
mod Examples
use rsyscall.Base.{
  ℕ, zero, suc, ◌+◌, ◌-◌, Bool, true, false, List, [], ◌∷◌, ◌++◌, Option, none, some, ◌==◌, ltb,
  if◌then◌else◌, drop, take, replicate, length,
}
use rsyscall.Struct.{Bytes, before_null}

-- `value_error` is what AF raises, and `key_error` what `family_to_class` does.
pub data Error : Type 0 where
  too_small wrong_family path_too_long value_error key_error : Error

pub data Result {ℓ} (A : Type ℓ) : Type ℓ where
  ok : A → Result A
  err : Error → Result A

-- `AF`
pub data Af : Type 0 where
  unix netlink inet inet6 : Af

pub record SockaddrIn : Type 0 where
  pub port : ℕ
  pub addr : ℕ

-- The address is `addr.packed`.
pub record SockaddrIn6 : Type 0 where
  pub port : ℕ
  pub addr : Bytes
  pub flowinfo : ℕ
  pub scope_id : ℕ

-- `SockaddrUn`, which is its path, `SockaddrIn` and `SockaddrIn6`.
pub data Sockaddr : Type 0 where
  sockaddr_un : Bytes → Sockaddr
  sockaddr_in : SockaddrIn → Sockaddr
  sockaddr_in6 : SockaddrIn6 → Sockaddr

pub record SockaddrStorage : Type 0 where
  pub family : Af
  pub bytes : Bytes

-- What the generated bindings and Python give: the numbers of AF as `sa_family_t`, the structs and
-- their sizes, and the changes of the byte order.
pub record Bindings : Type 0 where
  pub header : ℕ
  pub family_bytes : Af → Bytes
  pub family : Bytes → Option Af
  pub in_size : ℕ
  pub in_bytes : SockaddrIn → Bytes
  pub in_fields : Bytes → SockaddrIn
  pub in6_size : ℕ
  pub in6_bytes : SockaddrIn6 → Bytes
  pub in6_fields : Bytes → SockaddrIn6
  pub htons : ℕ → ℕ
  pub ntohs : ℕ → ℕ
  pub htonl : ℕ → ℕ
  pub ntohl : ℕ → ℕ

-- The classes are compared by their family.
abbrev same_family : Af → Af → Bool
same_family unix unix = true
same_family netlink netlink = true
same_family inet inet = true
same_family inet6 inet6 = true
same_family f g = false

-- `Sockaddr.check_family`, for the class of a family.
unfoldable pub check_family {ℓ} : {A : Type ℓ} → Af → Option Af → Result A → Result A
check_family cls none rest = err value_error
check_family cls (some f) rest = if same_family cls f then rest else err wrong_family

-- `SockaddrUn.__post_init__`
unfoldable pub new_un : Bytes → Result Bytes
new_un path = if ltb 108 (length path) then err path_too_long else ok path

-- The path of a `SockaddrUn`: the bytes behind the family, and the memory that follows them, where
-- `strlen` looks for a null byte.
unfoldable pub un_path : Bytes → Bytes → Result Bytes
un_path [] beyond = new_un []
un_path (b ∷ path) beyond =
    if b == 0 then new_un (b ∷ path) else new_un (before_null (b ∷ path ++ beyond))

abbrev map_result {ℓ κ} : {A : Type ℓ} {B : Type κ} → (A → B) → Result A → Result B
map_result f (ok a) = ok (f a)
map_result f (err e) = err e

abbrev storage_of : Option Af → Bytes → Result SockaddrStorage
storage_of none rest = err value_error
storage_of (some f) rest = ok record { family = f; bytes = rest }

module _ (c : Bindings) where
  unfoldable pub un_to_bytes : Bytes → Bytes
  un_to_bytes path =
      take (c.header + length path + 1)
        (c.family_bytes unix ++ (path ++ replicate (108 - length path) 0))

  unfoldable pub un_from_bytes : Bytes → Bytes → Result Bytes
  un_from_bytes beyond bytes =
      if ltb (length bytes) c.header
      then err too_small
      else check_family unix (c.family bytes) (un_path (drop c.header bytes) beyond)

  unfoldable pub in_to_bytes : SockaddrIn → Bytes
  in_to_bytes a =
      c.family_bytes inet ++ c.in_bytes (record { port = c.htons a.port; addr = c.htonl a.addr })

  unfoldable pub in_from_bytes : Bytes → Result SockaddrIn
  in_from_bytes bytes =
      let fields = c.in_fields bytes in
      if ltb (length bytes) c.in_size
      then err too_small
      else check_family inet (c.family bytes)
          (ok record { port = c.ntohs fields.port; addr = c.ntohl fields.addr })

  unfoldable pub in6_to_bytes : SockaddrIn6 → Bytes
  in6_to_bytes a = c.family_bytes inet6 ++ c.in6_bytes (record a { port = c.htons a.port })

  unfoldable pub in6_from_bytes : Bytes → Result SockaddrIn6
  in6_from_bytes bytes =
      let fields = c.in6_fields bytes in
      if ltb (length bytes) c.in6_size
      then err too_small
      else check_family inet6 (c.family bytes) (ok (record fields { port = c.ntohs fields.port }))

  unfoldable pub to_bytes : Sockaddr → Bytes
  to_bytes (sockaddr_un path) = un_to_bytes path
  to_bytes (sockaddr_in a) = in_to_bytes a
  to_bytes (sockaddr_in6 a) = in6_to_bytes a

  unfoldable pub storage_to_bytes : SockaddrStorage → Bytes
  storage_to_bytes s = c.family_bytes s.family ++ s.bytes

  unfoldable pub storage_from_bytes : Bytes → Result SockaddrStorage
  storage_from_bytes bytes = storage_of (c.family bytes) (drop c.header bytes)

  -- `family_to_class`, with the three classes that are registered, and `from_bytes`.
  unfoldable pub class_from_bytes : Af → Bytes → Bytes → Result Sockaddr
  class_from_bytes unix beyond bytes = map_result sockaddr_un (un_from_bytes beyond bytes)
  class_from_bytes inet beyond bytes = map_result sockaddr_in (in_from_bytes bytes)
  class_from_bytes inet6 beyond bytes = map_result sockaddr_in6 (in6_from_bytes bytes)
  class_from_bytes netlink beyond bytes = err key_error

  unfoldable pub parse : Bytes → SockaddrStorage → Result Sockaddr
  parse beyond s = class_from_bytes s.family beyond (storage_to_bytes s)
