-- ===== src/Sockaddr/Parsed.antt =====
-- sys/socket.py: `SockaddrStorage.parse` reads an address as it was written.
use rsyscall.Base.{
  ℕ, ◌+◌, ◌<◌, ◌≡◌, refl, sym, ap, ◌∙◌, false, ◌++◌, ltb, ◌^◌, length, arith, length-append,
}
use rsyscall.Struct.{Bytes}
use rsyscall.Sockaddr.{
  ok, Af, unix, inet, inet6, SockaddrIn, SockaddrIn6, Sockaddr, sockaddr_un, sockaddr_in,
  sockaddr_in6, SockaddrStorage, Bindings, check_family, in_to_bytes, in_from_bytes, in6_to_bytes,
  in6_from_bytes, to_bytes, storage_to_bytes, storage_from_bytes, class_from_bytes, parse,
  map_result,
}
use rsyscall.Sockaddr.Unix.{
  IsPath, IsFamily, after_path, un_to_bytes_lem, drop-family_bytes, un_from_bytes-un_to_bytes,
}

-- `family` of each class.
abbrev pub family_of : Sockaddr → Af
family_of (sockaddr_un path) = unix
family_of (sockaddr_in a) = inet
family_of (sockaddr_in6 a) = inet6

-- The fields fit into the structs.
abbrev pub Fits : Sockaddr → Type 0
Fits (sockaddr_un path) = IsPath path
Fits (sockaddr_in a) = (a.port < 2 ^ 16) × (a.addr < 2 ^ 32)
Fits (sockaddr_in6 a) =
    (a.port < 2 ^ 16) × (length a.addr ≡ 16) × (a.flowinfo < 2 ^ 32) × (a.scope_id < 2 ^ 32)

-- What the bindings promise: the structs of the addresses have one size and are read back, and the
-- changes of the byte order undo each other.
pub record IsBindings (c : Bindings) : Type 0 where
  pub is_family : IsFamily c
  pub length-in_bytes :
      (a : SockaddrIn)
      → a.port < 2 ^ 16
      → a.addr < 2 ^ 32
      → c.header + length (c.in_bytes a) ≡ c.in_size
  pub in_fields-in_bytes :
      (a : SockaddrIn)
      → a.port < 2 ^ 16
      → a.addr < 2 ^ 32
      → c.in_fields (c.family_bytes inet ++ c.in_bytes a) ≡ a
  pub length-in6_bytes :
      (a : SockaddrIn6) → Fits (sockaddr_in6 a) → c.header + length (c.in6_bytes a) ≡ c.in6_size
  pub in6_fields-in6_bytes :
      (a : SockaddrIn6)
      → Fits (sockaddr_in6 a)
      → c.in6_fields (c.family_bytes inet6 ++ c.in6_bytes a) ≡ a
  pub htons-short : (n : ℕ) → n < 2 ^ 16 → c.htons n < 2 ^ 16
  pub ntohs-htons : (n : ℕ) → n < 2 ^ 16 → c.ntohs (c.htons n) ≡ n
  pub htonl-long : (n : ℕ) → n < 2 ^ 32 → c.htonl n < 2 ^ 32
  pub ntohl-htonl : (n : ℕ) → n < 2 ^ 32 → c.ntohl (c.htonl n) ≡ n

module _ (c : Bindings) (w : IsBindings c) where
  long_enough :
      (f : Af) (rest : Bytes) (size : ℕ)
      → c.header + length rest ≡ size
      → ltb (length (c.family_bytes f ++ rest)) size ≡ false
  long_enough f rest size e =
      ground (arith, length-append (c.family_bytes f) rest, w.is_family.length-family_bytes f, e)

  in_from_bytes-in_to_bytes :
      (a : SockaddrIn)
      → a.port < 2 ^ 16
      → a.addr < 2 ^ 32
      → in_from_bytes c (in_to_bytes c a) ≡ ok a
  unfolding in_from_bytes in_to_bytes check_family
  in_from_bytes-in_to_bytes a g h =
      let b : SockaddrIn = record { port = c.htons a.port; addr = c.htonl a.addr } in
      rw
        (
          long_enough inet (c.in_bytes b) c.in_size
              (w.length-in_bytes b (w.htons-short a.port g) (w.htonl-long a.addr h)),
          w.is_family.family-family_bytes inet (c.in_bytes b),
          w.in_fields-in_bytes b (w.htons-short a.port g) (w.htonl-long a.addr h),
          w.ntohs-htons a.port g,
          w.ntohl-htonl a.addr h,
        )
        refl

  in6_from_bytes-in6_to_bytes :
      (a : SockaddrIn6) → Fits (sockaddr_in6 a) → in6_from_bytes c (in6_to_bytes c a) ≡ ok a
  unfolding in6_from_bytes in6_to_bytes check_family
  in6_from_bytes-in6_to_bytes a (g, l, h, k) =
      let b : SockaddrIn6 = record a { port = c.htons a.port } in
      rw
        (
          long_enough inet6 (c.in6_bytes b) c.in6_size
              (w.length-in6_bytes b (w.htons-short a.port g, l, h, k)),
          w.is_family.family-family_bytes inet6 (c.in6_bytes b),
          w.in6_fields-in6_bytes b (w.htons-short a.port g, l, h, k),
          w.ntohs-htons a.port g,
        )
        refl

  class_from_bytes-to_bytes :
      (beyond : Bytes) (a : Sockaddr)
      → Fits a
      → class_from_bytes c (family_of a) beyond (to_bytes c a) ≡ ok a
  unfolding class_from_bytes to_bytes
  class_from_bytes-to_bytes beyond (sockaddr_un path) h =
      ap (map_result sockaddr_un) (un_from_bytes-un_to_bytes c w.is_family beyond path h)
  class_from_bytes-to_bytes beyond (sockaddr_in a) (g, h) =
      ap (map_result sockaddr_in) (in_from_bytes-in_to_bytes a g h)
  class_from_bytes-to_bytes beyond (sockaddr_in6 a) h =
      ap (map_result sockaddr_in6) (in6_from_bytes-in6_to_bytes a h)

  -- The bytes behind the family.
  abbrev Behind : Sockaddr → Type 0
  Behind a = (rest : Bytes) × (to_bytes c a ≡ c.family_bytes (family_of a) ++ rest)

  to_bytes-Behind : (a : Sockaddr) → Behind a
  unfolding to_bytes in_to_bytes in6_to_bytes
  to_bytes-Behind (sockaddr_un path) = (path ++ after_path path, un_to_bytes_lem c w.is_family path)
  to_bytes-Behind (sockaddr_in a) =
      (c.in_bytes (record { port = c.htons a.port; addr = c.htonl a.addr }), refl)
  to_bytes-Behind (sockaddr_in6 a) = (c.in6_bytes (record a { port = c.htons a.port }), refl)

  stored :
      (f : Af) (rest : Bytes)
      → storage_from_bytes c (c.family_bytes f ++ rest) ≡ ok record { family = f; bytes = rest }
  unfolding storage_from_bytes
  stored f rest =
      rw (w.is_family.family-family_bytes f rest, drop-family_bytes c w.is_family f rest) refl

  -- The bytes of an address of any of the three classes whose fields fit, are read as a
  -- SockaddrStorage with its family. It is written as the same bytes, and `parse` gives the address.
  -- The path of a unix address is not empty, has no null byte and is shorter than 108 bytes.
  pub parse-storage_from_bytes :
      (beyond : Bytes) (a : Sockaddr)
      → Fits a
      → (s : SockaddrStorage) × (storage_from_bytes c (to_bytes c a) ≡ ok s)
        × (s.family ≡ family_of a)
        × (storage_to_bytes c s ≡ to_bytes c a)
        × (parse c beyond s ≡ ok a)
  unfolding storage_to_bytes parse
  parse-storage_from_bytes beyond a h =
      let (rest, e) = to_bytes-Behind a in
      (
        record { family = family_of a; bytes = rest },
        ap (storage_from_bytes c) e ∙ stored (family_of a) rest,
        refl,
        sym e,
        ap (class_from_bytes c (family_of a) beyond) (sym e) ∙ class_from_bytes-to_bytes beyond a h,
      )
