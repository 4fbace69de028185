-- ===== src/ReadBuffer/Examples.antt =====
-- Streams at concrete values.
use rsyscall.Base.{ℕ, ◌-◌, ◌≡◌, refl, true, [], ◌∷◌, ◌++◌, Option, none, some}
use rsyscall.Struct.{Bytes}
use rsyscall.ReadBuffer.{
  done, arrived, failed, interrupted, ReadBuffer, Native, read_length, read_line,
  read_until_delimiter, read_netstring, make_environ,
}
use rsyscall.ReadBuffer.Kept.{content, held, itself, read_length-content}
use rsyscall.ReadBuffer.Reads.{IsFlowing, flowing}
use rsyscall.ReadBuffer.Formats.{read_netstring_lem, IsNative}

-- Two bytes, a failure, an interrupted read, and the end of the file.
abbrev troubled : ReadBuffer
troubled = flowing [] (arrived (7 ∷ 8 ∷ []) ∷ failed ∷ interrupted 9 [] ∷ arrived [] ∷ [])

read_length-content_example :
    held itself (read_length 3 true troubled).0 ++ content (read_length 3 true troubled).1
    ≡ content troubled
read_length-content_example = read_length-content 3 troubled

interrupted_then_read :
    (read_length 3 true (read_length 3 true (read_length 3 true troubled).1).1).0
    ≡ done (7 ∷ 8 ∷ 9 ∷ [])
unfolding read_length
interrupted_then_read = refl

abbrev lines : ReadBuffer
lines = flowing [] (arrived (7 ∷ []) ∷ arrived (b'\n' ∷ 8 ∷ []) ∷ [])

a_line : read_line lines ≡ (done (7 ∷ []), flowing (8 ∷ []) [])
unfolding read_line
a_line = refl

-- Of a delimiter of two bytes, the second is left in the buffer.
two_bytes :
    read_until_delimiter (1 ∷ 2 ∷ []) (flowing (7 ∷ 1 ∷ 2 ∷ 8 ∷ []) [])
    ≡ (done (7 ∷ []), flowing (2 ∷ 8 ∷ []) [])
unfolding read_until_delimiter
two_bytes = refl

-- The digit of a number below ten.
abbrev digit : Bytes → Option ℕ
digit (d ∷ []) = some (d - b'0')
digit x = none

abbrev sent : ReadBuffer
sent = flowing (b'2' ∷ []) (arrived (b':' ∷ 7 ∷ []) ∷ arrived (8 ∷ b',' ∷ 9 ∷ []) ∷ [])

sent-IsFlowing : IsFlowing sent
sent-IsFlowing = record { no_unread = refl; data_only = tt }

read_netstring_lem_example :
    (u : ReadBuffer) × (read_netstring digit sent ≡ (done (7 ∷ 8 ∷ []), u))
    × IsFlowing u
    × (content u ≡ 9 ∷ [])
read_netstring_lem_example =
    read_netstring_lem digit (b'2' ∷ []) (7 ∷ 8 ∷ []) sent (9 ∷ []) refl (refl, tt) sent-IsFlowing
      refl

-- Sizes of one byte.
abbrev byte_number : Bytes → ℕ
byte_number [] = 0
byte_number (b ∷ x) = b

abbrev byte_size : Native
byte_size = record { sizeof = 1; number = byte_number }

byte_size-IsNative : IsNative byte_size (λ n. n ∷ [])
byte_size-IsNative = record { size_of = λ n. refl; reads_back = λ n. refl }

abbrev strings : ReadBuffer
strings = flowing [] (arrived (1 ∷ []) ∷ arrived (7 ∷ 2 ∷ 8 ∷ []) ∷ arrived (9 ∷ 3 ∷ []) ∷ [])

environ_of :
    make_environ ((b'a' ∷ b'=' ∷ 1 ∷ []) ∷ (b'a' ∷ b'=' ∷ 2 ∷ b'=' ∷ []) ∷ []) []
    ≡ some ((b'a' ∷ [], 2 ∷ b'=' ∷ []) ∷ [])
unfolding make_environ
environ_of = refl
