-- ===== src/Iovec.antt =====
-- python/rsyscall/sys/uio.py: a list of buffers, split behind a number of bytes.
pub mod Covered
pub mod Entries
pub mod Spans
mod Examples
use rsyscall.Base.{
  ℕ, zero, suc, ◌+◌, ◌-◌, ◌*◌, Bool, true, false, List, [], ◌∷◌, ◌++◌, Option, none, some, leb, ltb,
  if◌then◌else◌, take, drop, length,
}
use rsyscall.Struct.{Bytes, join, map_bytes}

-- What the list asks of a pointer: `size`, `split`, which may raise, and `struct iovec` for it.
pub record Buffers {ℓ} (P : Type ℓ) : Type ℓ where
  pub size : P → ℕ
  pub split : P → ℕ → Option (P × P)
  pub entry : P → Bytes
  pub entry_size : ℕ

-- The variables of the loop of `split_with_middle`, and the rest of `n`.
pub record Parts {ℓ} (P : Type ℓ) : Type ℓ where
  pub valid : List P
  pub middle : Option (P × P)
  pub invalid : List P
  pub n : ℕ

module _ {ℓ} {P : Type ℓ} (buf : Buffers P) where
  unfoldable pub set_middle : Parts P → Option (P × P) → Option (Parts P)
  set_middle s none = none
  set_middle s (some both) = some (record s { middle = some both; n = 0 })

  unfoldable pub turn : P → Parts P → Option (Parts P)
  turn ptr s =
      if leb (buf.size ptr) s.n
      then some (record s { valid = s.valid ++ (ptr ∷ []); n = s.n - buf.size ptr })
      else (if ltb 0 s.n
          then set_middle s (buf.split ptr s.n)
          else some (record s { invalid = s.invalid ++ (ptr ∷ []) }))

  unfoldable pub split_turns : List P → Option (Parts P) → Option (Parts P)
  split_turns [] s = s
  split_turns (ptr ∷ iov) none = none
  split_turns (ptr ∷ iov) (some s) = split_turns iov (turn ptr s)

  -- `IovecList.split_with_middle`
  unfoldable pub split_with_middle : List P → ℕ → Option (Parts P)
  split_with_middle iov n =
      split_turns iov (some record { valid = []; middle = none; invalid = []; n = n })

  unfoldable pub join_middle : Option (P × P) → List P → List P → List P × List P
  join_middle none first second = (first, second)
  join_middle (some (first_mid, second_mid)) first second =
      (first ++ (first_mid ∷ []), second_mid ∷ second)

  unfoldable pub join_parts : Option (Parts P) → Option (List P × List P)
  join_parts none = none
  join_parts (some s) = some (join_middle s.middle s.valid s.invalid)

  -- `IovecList.split`
  unfoldable pub split : List P → ℕ → Option (List P × List P)
  split iov n = join_parts (split_with_middle iov n)

  unfoldable pub to_bytes : List P → Bytes
  to_bytes iov = join (map_bytes buf.entry iov)

  unfoldable pub first_count : Parts P → ℕ
  first_count s = elim s.middle [ none ↦ length s.valid | some _ ↦ length s.valid + 1 ]

  -- `split_iovec`: the memory of the two pointers that it returns, beside their values.
  unfoldable pub split_memory : Bytes → Option (Parts P) → Option (Bytes × Parts P × Bytes)
  split_memory memory none = none
  split_memory memory (some s) =
      let k = first_count s * buf.entry_size in some (take k memory, s, drop k memory)

  unfoldable pub split_iovec : List P → ℕ → Option (Bytes × Parts P × Bytes)
  split_iovec iov ret = split_memory (to_bytes iov) (split_with_middle iov ret)
