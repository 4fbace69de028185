-- ===== src/ReadBuffer.antt =====
-- python/rsyscall/epoller.py: `AsyncReadBuffer`, which parses a stream of bytes.
pub mod Kept
pub mod Reads
pub mod Formats
mod Examples
use rsyscall.Base.{
  ℕ, zero, suc, Bool, true, false, List, [], ◌∷◌, ◌++◌, Option, none, some, ◌==◌, ltb,
  if◌then◌else◌, ◌&&◌, drop, take, length,
}
use rsyscall.Struct.{Bytes}

pub data Error : Type 0 where
  eof os_error cancelled value_error unbound_local bad_delimiter : Error

-- What a method returns; `waiting` is a read of the file that does not return.
pub data Answer {ℓ} (A : Type ℓ) : Type ℓ where
  done : A → Answer A
  raised : Error → Answer A
  waiting : Answer A

-- How a read of the file ends: with bytes, of which there are none at the end of the file; with an
-- OSError; or with bytes whose transfer out of the memory is then cancelled.
pub data Arrival : Type 0 where
  arrived : Bytes → Arrival
  failed : Arrival
  interrupted : ℕ → Bytes → Arrival

-- `buf`, the bytes behind `unread_ptr`, and the reads of the file that are still to come.
pub record ReadBuffer : Type 0 where
  pub buf : Bytes
  pub unread_ptr : Option Bytes
  pub arrivals : List Arrival

abbrev pub Exec {ℓ} : Type ℓ → Type ℓ
Exec A = ReadBuffer → Answer A × ReadBuffer

abbrev pub then_do {ℓ κ} :
    {A : Type ℓ} {B : Type κ}
    → Answer A × ReadBuffer
    → (A → ReadBuffer → Answer B × ReadBuffer)
    → Answer B × ReadBuffer
then_do (done a, s) f = f a s
then_do (raised e, s) f = (raised e, s)
then_do (waiting, s) f = (waiting, s)

infixl 5 ◌>>=◌
abbrev pub ◌>>=◌ {ℓ κ} : {A : Type ℓ} {B : Type κ} → Exec A → (A → Exec B) → Exec B
◌>>=◌ m f s = then_do (m s) f

-- The end of `_read`: no bytes are the end of the file.
abbrev pub finish : Bytes → Exec Bytes
finish [] s = (raised eof, record s { unread_ptr = none })
finish (b ∷ x) s = (done (b ∷ x), record s { unread_ptr = none })

abbrev pub fetch : List Arrival → Exec Bytes
fetch [] s = (waiting, s)
fetch (arrived x ∷ l) s = finish x (record s { arrivals = l })
fetch (failed ∷ l) s = (raised os_error, record s { arrivals = l })
fetch (interrupted b x ∷ l) s =
    (raised cancelled, record s { arrivals = l; unread_ptr = some (b ∷ x) })

-- `_read`. Bytes that an earlier call left behind are read first.
abbrev pub read_unread : Option Bytes → Exec Bytes
read_unread none s = fetch s.arrivals s
read_unread (some x) s = finish x s

unfoldable pub read_some : Exec Bytes
read_some s = read_unread s.unread_ptr s

-- The loop of `read_length` and of `read_until_delimiter`: unless something can be taken off the
-- buffer, more bytes are read and appended.
unfoldable pub read_until {ℓ} : {A : Type ℓ} → ℕ → (Bytes → Option (A × Bytes)) → Exec A
unfolding read_some
read_until zero f s = (waiting, s)
read_until (suc fuel) f s = elim (f s.buf) [
  | some r ↦ (done r.0, record s { buf = r.1 })
  | none ↦ then_do (read_some s) (λ x s'. read_until fuel f (record s' { buf = s'.buf ++ x }))
]

-- Each turn but the last two takes one of the reads that are to come.
abbrev pub turns : ReadBuffer → ℕ
turns s = suc (suc (length s.arrivals))

unfoldable pub take_length : ℕ → Bool → Bytes → Option (Bytes × Bytes)
take_length n remove buf =
    if ltb (length buf) n then none else some (take n buf, if remove then drop n buf else buf)

-- `read_length`
unfoldable pub read_length : ℕ → Bool → Exec Bytes
unfolding read_until take_length
read_length n remove s = read_until (turns s) (take_length n remove) s

abbrev pub starts_with : Bytes → Bytes → Bool
starts_with [] x = true
starts_with (d ∷ delim) [] = false
starts_with (d ∷ delim) (b ∷ x) = let rest = starts_with delim x in if d == b then rest else false

abbrev pub cons_before : ℕ → Option (Bytes × Bytes) → Option (Bytes × Bytes)
cons_before b none = none
cons_before b (some (y, z)) = some (b ∷ y, z)

-- The bytes before `buf.index(delim)`, and those from there on.
abbrev pub split_index : Bytes → Bytes → Option (Bytes × Bytes)
split_index delim [] = if starts_with delim [] then some ([], []) else none
split_index delim (b ∷ x) =
    let rest = split_index delim x in
    if starts_with delim (b ∷ x) then some ([], b ∷ x) else cons_before b rest

-- One byte is skipped, however long the delimiter is.
abbrev pub skip_one : Option (Bytes × Bytes) → Option (Bytes × Bytes)
skip_one none = none
skip_one (some (y, z)) = some (y, drop 1 z)

unfoldable pub take_section : Bytes → Bytes → Option (Bytes × Bytes)
take_section delim buf = skip_one (split_index delim buf)

-- `read_until_delimiter`; `_read` never returns None.
unfoldable pub read_until_delimiter : Bytes → Exec Bytes
unfolding read_until take_section
read_until_delimiter delim s = read_until (turns s) (take_section delim) s

unfoldable pub read_line : Exec Bytes
unfolding read_until_delimiter
read_line = read_until_delimiter (b'\n' ∷ [])

abbrev pub or_value_error {ℓ} : {A : Type ℓ} → Option A → Exec A
or_value_error none s = (raised value_error, s)
or_value_error (some a) s = (done a, s)

-- `read_struct`, and `read_cffi` with `remove`: the size of the type, and how its bytes are read.
unfoldable pub read_struct {ℓ} : {A : Type ℓ} → ℕ → (Bytes → Option A) → Exec A
unfolding read_length
read_struct size from_bytes = do x ← read_length size true; or_value_error (from_bytes x)

-- `size_t`: its size, and its number in native byte order.
pub record Native : Type 0 where
  pub sizeof : ℕ
  pub number : Bytes → ℕ

-- The EOFError that is caught is not raised again, so `elem` has no value.
abbrev pub elem_or_unbound : Answer Bytes × ReadBuffer → Answer Bytes × ReadBuffer
elem_or_unbound (done x, s) = (done x, s)
elem_or_unbound (raised eof, s) = (raised unbound_local, s)
elem_or_unbound (raised e, s) = (raised e, s)
elem_or_unbound (waiting, s) = (waiting, s)

unfoldable pub read_length_prefixed_string : Native → Exec Bytes
unfolding read_length
read_length_prefixed_string size_t = do
  x ← read_length size_t.sizeof true
  λ s. elem_or_unbound (read_length (size_t.number x) true s)

unfoldable pub read_length_prefixed_array : Native → ℕ → Exec (List Bytes)
unfolding read_length_prefixed_string
read_length_prefixed_array size_t zero s = (done [], s)
read_length_prefixed_array size_t (suc length) s =
    then_do (read_length_prefixed_string size_t s)
      (λ x s'. then_do (read_length_prefixed_array size_t length s') (λ l s''. (done (x ∷ l), s'')))

-- `environ[key] = val`
abbrev pub set_key : Bytes → Bytes → List (Bytes × Bytes) → List (Bytes × Bytes)
set_key key val [] = (key, val) ∷ []
set_key key val ((k, v) ∷ l) =
    let rest = set_key key val l in
    if starts_with k key && starts_with key k then (k, val) ∷ l else (k, v) ∷ rest

-- `elem.split(b"=", 1)` for each element; a key without a value is a ValueError.
unfoldable pub make_environ : List Bytes → List (Bytes × Bytes) → Option (List (Bytes × Bytes))
unfolding take_section
make_environ [] environ = some environ
make_environ (x ∷ l) environ = elim (take_section (b'=' ∷ []) x) [
  | none ↦ none
  | some r ↦ make_environ l (set_key r.0 r.1 environ)
]

-- `read_envp`, less the `os.fsdecode` of keys and values.
unfoldable pub read_envp : Native → ℕ → Exec (List (Bytes × Bytes))
unfolding read_length_prefixed_array make_environ
read_envp size_t length = do
  raw ← read_length_prefixed_array size_t length
  or_value_error (make_environ raw [])

-- `read_netstring`; `int` is Python's, where `none` is a ValueError.
unfoldable pub read_netstring : (Bytes → Option ℕ) → Exec Bytes
unfolding read_until_delimiter read_length
read_netstring int = do
  length_bytes ← read_until_delimiter (b':' ∷ [])
  length ← or_value_error (int length_bytes)
  x ← read_length length true
  comma ← read_length 1 true
  λ s. if starts_with (b',' ∷ []) comma then (done x, s) else (raised bad_delimiter, s)
