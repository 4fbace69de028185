-- ===== src/Connection/Examples.antt =====
-- System calls over a connection, each of two bytes, at concrete values.
use rsyscall.Base.{ℕ, ◌*◌, ap, ◌≡◌, refl, true, List, [], ◌∷◌, ◌++◌, none, some}
use rsyscall.Connection.{
  Connection, new_connection, ConnectionTurn, batch, result, encode_all, turns_connection,
  turn_connection, write_all,
}
use rsyscall.Connection.Wire.{requests_of, syscalls, all_requests, AllServed, sound_turns}
use rsyscall.Connection.Order.{ServerTurns, turns_connection-order}

abbrev two_bytes : ℕ → List ℕ
two_bytes s = s ∷ 0 ∷ []

abbrev fresh : Connection ℕ ℕ
fresh = new_connection

-- The first batch is written in two parts.
abbrev two_batches : List (ConnectionTurn ℕ ℕ)
two_batches =
    batch ((5, 1) ∷ (6, 2) ∷ []) (some 3 ∷ some 1 ∷ [])
    ∷ result 50
    ∷ batch ((7, 3) ∷ []) (some 2 ∷ [])
    ∷ result 60
    ∷ []

two_batches_sound : sound_turns two_bytes two_batches fresh ≡ true
unfolding write_all turn_connection
two_batches_sound = refl

-- The server reads two bytes at a time.
abbrev decode_two : List ℕ → List ℕ
decode_two [] = []
decode_two (s ∷ []) = []
decode_two (s ∷ b ∷ l) = s ∷ decode_two l

decode_two-encode_all : (l : List (ℕ × ℕ)) → decode_two (encode_all two_bytes l) ≡ syscalls l
decode_two-encode_all [] = refl
decode_two-encode_all ((s, cb) ∷ l) = ap (λ x. s ∷ x) (decode_two-encode_all l)

abbrev tenfold : ℕ → ℕ
tenfold s = s * 10

two_batches_served : ServerTurns two_bytes decode_two tenfold two_batches fresh
unfolding write_all turn_connection
two_batches_served = (tt, ((5, refl, refl), (tt, ((6, refl, refl), tt))))

turns_connection-order_example :
    let c : Connection ℕ ℕ = turns_connection two_bytes two_batches fresh in
    (c.wire ≡ encode_all two_bytes (requests_of c.answered ++ c.response_queue))
    × (requests_of c.answered ++ c.response_queue ≡ all_requests two_batches)
    × AllServed tenfold c.answered
turns_connection-order_example =
    turns_connection-order two_bytes decode_two tenfold two_batches two_batches_sound
      decode_two-encode_all two_batches_served

abbrev cut_off : Connection ℕ ℕ
cut_off =
    turns_connection two_bytes
      (batch ((5, 1) ∷ (6, 2) ∷ []) (some 2 ∷ none ∷ [])
        ∷ batch ((7, 3) ∷ []) (some 2 ∷ [])
        ∷ result 50
        ∷ [])
      fresh
