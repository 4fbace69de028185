-- ===== src/Struct.antt =====
-- python/rsyscall/struct.py: lists of structs and null-terminated strings as bytes.
pub mod Whole
mod Examples
use rsyscall.Base.{
  ℕ, zero, suc, Bool, List, [], ◌∷◌, ◌++◌, Option, none, some, ◌==◌, if◌then◌else◌, drop, length,
}

abbrev pub Bytes : Type 0
Bytes = List ℕ

-- The serializer of an element: its two methods, where `none` is an exception, and the `sizeof` of
-- the element's class.
pub record Serializer {ℓ} (A : Type ℓ) : Type ℓ where
  pub to_bytes : A → Bytes
  pub from_bytes : Bytes → Option A
  pub sizeof : ℕ

-- How far the loop of `from_bytes` came: it returned a list, an exception was raised, or it still
-- runs.
pub data Loop {ℓ} (A : Type ℓ) : Type ℓ where
  returned : List A → Loop A
  raised running : Loop A

abbrev pub join : List Bytes → Bytes
join [] = []
join (x ∷ l) = x ++ join l

abbrev pub map_bytes {ℓ} : {A : Type ℓ} → (A → Bytes) → List A → List Bytes
map_bytes f [] = []
map_bytes f (a ∷ l) = f a ∷ map_bytes f l

-- `StructListSerializer.to_bytes`
unfoldable pub list_to_bytes {ℓ} : {A : Type ℓ} → Serializer A → List A → Bytes
list_to_bytes ser elems = join (map_bytes ser.to_bytes elems)

abbrev pub append_entry {ℓ} : {A : Type ℓ} → Option A → Loop A → Loop A
append_entry none r = raised
append_entry (some ent) (returned entries) = returned (ent ∷ entries)
append_entry (some ent) raised = raised
append_entry (some ent) running = running

-- The loop of `StructListSerializer.from_bytes`, for at most `fuel` turns.
unfoldable pub turns_from_bytes {ℓ} : {A : Type ℓ} → ℕ → Serializer A → Bytes → Loop A
turns_from_bytes fuel ser [] = returned []
turns_from_bytes zero ser (b ∷ bytes) = running
turns_from_bytes (suc fuel) ser (b ∷ bytes) =
    append_entry (ser.from_bytes (b ∷ bytes))
      (turns_from_bytes fuel ser (drop ser.sizeof (b ∷ bytes)))

-- A struct has at least one byte, so a turn for each byte is enough.
unfoldable pub list_from_bytes {ℓ} : {A : Type ℓ} → Serializer A → Bytes → Loop A
unfolding turns_from_bytes
list_from_bytes ser bytes = turns_from_bytes (length bytes) ser bytes

-- `strpath_to_null_terminated_bytes`, with `os.fsencode`.
unfoldable pub to_null_terminated {ℓ} : {S : Type ℓ} → (S → Bytes) → S → Bytes
to_null_terminated fsencode val = fsencode val ++ (0 ∷ [])

-- `data[0:data.index(b'\0')]`, or all of the data.
abbrev pub before_null : Bytes → Bytes
before_null [] = []
before_null (b ∷ bytes) = let rest = before_null bytes in if b == 0 then [] else b ∷ rest

-- `string_from_null_terminated_bytes`, with `os.fsdecode`.
unfoldable pub from_null_terminated {ℓ} : {S : Type ℓ} → (Bytes → S) → Bytes → S
from_null_terminated fsdecode bytes = fsdecode (before_null bytes)
