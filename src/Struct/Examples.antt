-- ===== src/Struct/Examples.antt =====
-- Structs of two bytes.
use rsyscall.Base.{ℕ, ◌≡◌, refl, arith, [], ◌∷◌, Option, none, some}
use rsyscall.Struct.{
  Bytes, Serializer, returned, raised, list_to_bytes, list_from_bytes, from_null_terminated,
}
use rsyscall.Struct.Whole.{IsSerializer, list_from_bytes-list_to_bytes}

abbrev pair_to_bytes : ℕ × ℕ → Bytes
pair_to_bytes (a, b) = a ∷ b ∷ []

abbrev pair_from_bytes : Bytes → Option (ℕ × ℕ)
pair_from_bytes (a ∷ b ∷ rest) = some (a, b)
pair_from_bytes (a ∷ []) = none
pair_from_bytes [] = none

abbrev pair_serializer : Serializer (ℕ × ℕ)
pair_serializer = record { to_bytes = pair_to_bytes; from_bytes = pair_from_bytes; sizeof = 2 }

pair_serializer-IsSerializer : IsSerializer pair_serializer
pair_serializer-IsSerializer = record {
  nonempty = omega arith;
  length_of = λ p. refl;
  reads_back = λ p rest. refl;
}

-- A struct that is cut off raises.
cut_off : list_from_bytes pair_serializer (1 ∷ 2 ∷ 3 ∷ []) ≡ raised
unfolding list_from_bytes
cut_off = refl

two_strings : from_null_terminated (λ l. l) (7 ∷ 8 ∷ 0 ∷ 9 ∷ []) ≡ 7 ∷ 8 ∷ []
unfolding from_null_terminated
two_strings = refl

list_from_bytes-list_to_bytes_example :
    list_from_bytes pair_serializer (list_to_bytes pair_serializer ((1, 2) ∷ (0, 4) ∷ []))
    ≡ returned ((1, 2) ∷ (0, 4) ∷ [])
list_from_bytes-list_to_bytes_example =
    list_from_bytes-list_to_bytes pair_serializer pair_serializer-IsSerializer
      ((1, 2) ∷ (0, 4) ∷ [])
