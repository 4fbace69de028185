-- ===== src/Sockaddr/Examples.antt =====
-- Bindings whose structs have a field to a byte, on a machine with the byte order of the network.
use rsyscall.Base.{
  ℕ, zero, suc, ◌≡◌, refl, arith, [], ◌∷◌, ◌++◌, Option, none, some, ◌==◌, if◌then◌else◌, replicate,
}
use rsyscall.Struct.{Bytes}
use rsyscall.Struct.Whole.{NoNull}
use rsyscall.Sockaddr.{
  err, path_too_long, ok, Af, unix, netlink, inet, inet6, SockaddrIn, SockaddrIn6, Sockaddr,
  sockaddr_in, SockaddrStorage, Bindings, un_to_bytes, un_from_bytes, to_bytes, storage_to_bytes,
  storage_from_bytes, parse,
}
use rsyscall.Sockaddr.Unix.{IsFamily, un_from_bytes-un_to_bytes, un_from_bytes-misread}
use rsyscall.Sockaddr.Parsed.{IsBindings, family_of, parse-storage_from_bytes}

abbrev family_byte : Af → ℕ
family_byte unix = 1
family_byte netlink = 16
family_byte inet = 2
family_byte inet6 = 10

abbrev member : ℕ → Option Af
member n =
    if n == 1
    then some unix
    else (if n == 16
        then some netlink
        else (if n == 2 then some inet else (if n == 10 then some inet6 else none)))

abbrev family : Bytes → Option Af
family [] = none
family (b ∷ rest) = member b

family-family_byte : (f : Af) (rest : Bytes) → family (family_byte f ∷ rest) ≡ some f
family-family_byte unix rest = refl
family-family_byte netlink rest = refl
family-family_byte inet rest = refl
family-family_byte inet6 rest = refl

abbrev in_fields : Bytes → SockaddrIn
in_fields (f ∷ port ∷ addr ∷ rest) = record { port = port; addr = addr }
in_fields bytes = record { port = 0; addr = 0 }

abbrev in6_fields : Bytes → SockaddrIn6
in6_fields (f ∷ port ∷ flowinfo ∷ scope ∷ addr) = record {
  port = port;
  addr = addr;
  flowinfo = flowinfo;
  scope_id = scope;
}
in6_fields bytes = record { port = 0; addr = []; flowinfo = 0; scope_id = 0 }

abbrev bindings : Bindings
bindings = record {
  header = 1;
  family_bytes = λ f. family_byte f ∷ [];
  family = family;
  in_size = 3;
  in_bytes = λ a. a.port ∷ a.addr ∷ [];
  in_fields = in_fields;
  in6_size = 20;
  in6_bytes = λ a. a.port ∷ a.flowinfo ∷ a.scope_id ∷ a.addr;
  in6_fields = in6_fields;
  htons = λ n. n;
  ntohs = λ n. n;
  htonl = λ n. n;
  ntohl = λ n. n;
}

abbrev bindings-IsFamily : IsFamily bindings
bindings-IsFamily = record {
  length-family_bytes = λ f. refl;
  family-family_bytes = family-family_byte;
}

abbrev bindings-IsBindings : IsBindings bindings
bindings-IsBindings = record {
  is_family = bindings-IsFamily;
  length-in_bytes = λ a g h. refl;
  in_fields-in_bytes = λ a g h. refl;
  length-in6_bytes = λ a (g, l, h, k). omega (arith, l);
  in6_fields-in6_bytes = λ a h. refl;
  htons-short = λ n h. h;
  ntohs-htons = λ n h. refl;
  htonl-long = λ n h. h;
  ntohl-htonl = λ n h. refl;
}

-- "ab"
abbrev name : Bytes
name = 97 ∷ 98 ∷ []

name-NoNull : NoNull name
name-NoNull = (refl, (refl, tt))

un_from_bytes-un_to_bytes_example :
    un_from_bytes bindings (7 ∷ []) (un_to_bytes bindings name) ≡ ok name
un_from_bytes-un_to_bytes_example =
    un_from_bytes-un_to_bytes bindings bindings-IsFamily (7 ∷ []) name
      (name-NoNull, omega arith, omega arith)

replicate-NoNull : (n : ℕ) → NoNull (replicate n 97)
replicate-NoNull zero = tt
replicate-NoNull (suc n) = (refl, replicate-NoNull n)

abbrev full : Bytes
full = replicate 108 97

un_from_bytes-misread_example :
    (un_from_bytes bindings (7 ∷ 0 ∷ []) (un_to_bytes bindings (0 ∷ name))
      ≡ ok (0 ∷ name ++ (0 ∷ [])))
    × (un_from_bytes bindings (7 ∷ 0 ∷ []) (un_to_bytes bindings []) ≡ ok (0 ∷ []))
    × (un_from_bytes bindings (7 ∷ 0 ∷ []) (un_to_bytes bindings full) ≡ err path_too_long)
un_from_bytes-misread_example =
    un_from_bytes-misread bindings bindings-IsFamily (7 ∷ 0 ∷ []) name full (omega arith)
      (replicate-NoNull 108) refl

-- 127.0.0.1, as a number of this size.
abbrev local : Sockaddr
local = sockaddr_in record { port = 42; addr = 2130706433 }

parse-storage_from_bytes_example :
    (s : SockaddrStorage) × (storage_from_bytes bindings (to_bytes bindings local) ≡ ok s)
    × (s.family ≡ family_of local)
    × (storage_to_bytes bindings s ≡ to_bytes bindings local)
    × (parse bindings [] s ≡ ok local)
parse-storage_from_bytes_example =
    parse-storage_from_bytes bindings bindings-IsBindings [] local (omega arith, omega arith)
