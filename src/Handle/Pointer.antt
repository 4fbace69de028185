-- ===== src/Handle/Pointer.antt =====
-- python/rsyscall/handle/pointer.py: the pointers that own an allocation, and are used up.
pub mod Refused
pub mod Parts
pub mod Values
mod Examples
use rsyscall.Base.{
  ℕ, ◌+◌, ◌-◌, ◌%◌, Bool, true, false, List, Option, none, some, ltb, ◌==◌, if◌then◌else◌, length,
}
use rsyscall.Base.Int.{ℤ}
use rsyscall.Memory.Arena as Arena
use rsyscall.Memory.Arena.{Allocation, set_valid}

-- `invalid_pointer` is what `_validate` raises, `freed_allocation` what `near` does when the
-- allocation raises, and `allocation_error` an exception of the allocation. `negative_size` stands
-- for a negative argument of `split`, which the arena of this library does not take.
pub data Error : Type 0 where
  invalid_pointer freed_allocation too_long already_read wrong_file address_space : Error
  decode_error transport_error zero_division negative_size : Error
  allocation_error : Arena.Error → Error

pub data Result {ℓ} (A : Type ℓ) : Type ℓ where
  ok : A → Result A
  err : Error → Result A

-- The class of a pointer; a `WrittenPointer` has its value.
pub data Class (V : Type 0) : Type 0 where
  pointer readable_pointer linear_pointer : Class V
  written_pointer : V → Class V

-- struct.py: `from_bytes` may raise.
pub record Serializer (V : Type 0) : Type 0 where
  pub to_bytes : V → List ℕ
  pub from_bytes : List ℕ → Option V

-- A memory mapping: its address, its file and its address space.
pub record Mapping : Type 0 where
  pub address : ℕ
  pub file : ℕ
  pub address_space : ℕ

-- A pointer: its identity, and the fields that never change.
pub record Pointer (V : Type 0) : Type 0 where
  pub ident : ℕ
  pub mapping : Mapping
  pub serializer : Serializer V
  pub allocation : Allocation
  pub class : Class V

-- The objects: the arena, the fields `valid` and `been_read` of the pointers, the next pointer, and
-- the memory `world` behind the transport.
pub record Heap (W : Type 0) : Type 0 where
  pub arena : Arena.Arena
  pub valid : ℕ → Bool
  pub been_read : ℕ → Bool
  pub next : ℕ
  pub world : W

-- memory/transport.py: reads and writes the memory of a pointer.
pub record Transport (V W : Type 0) : Type 0 where
  pub read : Pointer V → W → Result (List ℕ) × W
  pub write : Pointer V → List ℕ → W → Result (Unit {0}) × W

abbrev pub Exec : Type 0 → Type 0 → Type 0
Exec W A = Heap W → Result A × Heap W

infixl 5 ◌>>=◌
abbrev pub then_do : {W A B : Type 0} → Result A × Heap W → (A → Exec W B) → Result B × Heap W
then_do (ok a, s) f = f a s
then_do (err e, s) f = (err e, s)

abbrev pub ◌>>=◌ : {W A B : Type 0} → Exec W A → (A → Exec W B) → Exec W B
◌>>=◌ m f s = then_do (m s) f

-- A call of the arena.
unfoldable pub on_arena : {W A : Type 0} → Heap W → Arena.Result A × Arena.Arena → Result A × Heap W
on_arena s (Arena.ok a, arena) = (ok a, record s { arena = arena })
on_arena s (Arena.err e, arena) = (err (allocation_error e), record s { arena = arena })

unfoldable pub size : {V : Type 0} → Pointer V → ℤ
size p = Arena.size p.allocation

unfoldable pub near_end :
    {W : Type 0} → ℕ → Arena.Result ℕ × Arena.Arena → Heap W → Result ℕ × Heap W
near_end address (Arena.ok offset, arena) s = (ok (address + offset), s)
near_end address (Arena.err e, arena) s = (err freed_allocation, s)

-- A new object of a class; a new `LinearPointer` was not read.
unfoldable pub new_pointer :
    {V W : Type 0} → Class V → Mapping → Serializer V → Allocation → Exec W (Pointer V)
new_pointer class mapping serializer allocation s = (
  ok record {
    ident = s.next;
    mapping = mapping;
    serializer = serializer;
    allocation = allocation;
    class = class;
  },
  record s {
    valid = set_valid s.next true s.valid;
    been_read = set_valid s.next false s.been_read;
    next = s.next + 1;
  },
)

module _ {V W : Type 0} where
  abbrev pub invalidated : Pointer V → Heap W → Heap W
  invalidated p s = record s { valid = set_valid p.ident false s.valid }

  unfoldable pub validate : Pointer V → Exec W (Unit {0})
  validate p s = if s.valid p.ident then (ok tt, s) else (err invalid_pointer, s)

  unfoldable pub with_alloc : Pointer V → Allocation → Exec W (Pointer V)
  unfolding new_pointer
  with_alloc p allocation = new_pointer pointer p.mapping p.serializer allocation

  -- `split` behind the call of the allocation's `split`.
  unfoldable pub split_pair : Pointer V → Allocation × Allocation → Exec W (Pointer V × Pointer V)
  unfolding with_alloc
  split_pair p (alloc1, alloc2) = do
    first ← with_alloc p alloc1
    second ← with_alloc p alloc2
    λ s. (ok (first, second), s)

  unfoldable pub split : Pointer V → ℕ → Exec W (Pointer V × Pointer V)
  unfolding validate on_arena
  split p size = do
    _ ← validate p
    λ s. then_do (on_arena (invalidated p s) (Arena.split p.allocation size s.arena)) (split_pair p)

  unfoldable pub merge : Pointer V → Pointer V → Exec W (Pointer V)
  unfolding validate on_arena
  merge p q = do
    _ ← validate p
    _ ← validate q
    λ s.
        then_do
          (on_arena (invalidated q (invalidated p s))
            (Arena.merge p.allocation q.allocation s.arena))
          (with_alloc p)

  -- The property `near`: the raw address.
  unfoldable pub near : Pointer V → Exec W ℕ
  unfolding validate near_end
  near p = do _ ← validate p; λ s. near_end p.mapping.address (Arena.offset p.allocation s.arena) s

  unfoldable pub check_address_space : Pointer V → ℕ → Exec W (Unit {0})
  check_address_space p space s =
      if space == p.mapping.address_space then (ok tt, s) else (err address_space, s)

  -- `borrow` before its `yield`; nothing happens after it.
  unfoldable pub borrow : Pointer V → ℕ → Exec W ℕ
  unfolding validate check_address_space near
  borrow p space = do _ ← validate p; _ ← check_address_space p space; near p

  unfoldable pub free : Pointer V → Exec W (Unit {0})
  unfolding on_arena
  free p s =
      if s.valid p.ident
      then on_arena (invalidated p s) (Arena.free p.allocation s.arena)
      else (ok tt, s)

  -- Validate the pointer, make it invalid, and make a new one of the class for its allocation.
  unfoldable pub as_class :
      {U : Type 0} → Pointer V → Class U → Mapping → Serializer U → Exec W (Pointer U)
  unfolding validate new_pointer
  as_class p class mapping serializer = do
    _ ← validate p
    λ s. new_pointer class mapping serializer p.allocation (invalidated p s)

  -- `_with_mapping` of the four classes.
  unfoldable pub with_mapping : Pointer V → Mapping → Exec W (Pointer V)
  unfolding as_class
  with_mapping p mapping s =
      if mapping.file == p.mapping.file
      then as_class p p.class mapping p.serializer s
      else (err wrong_file, s)

  unfoldable pub reinterpret : {U : Type 0} → Pointer V → Serializer U → Exec W (Pointer U)
  unfolding as_class
  reinterpret p serializer = as_class p pointer p.mapping serializer

  unfoldable pub readable : Pointer V → Exec W (Pointer V)
  unfolding as_class
  readable p = as_class p readable_pointer p.mapping p.serializer

  unfoldable pub linearize : Pointer V → Exec W (Pointer V)
  unfolding as_class
  linearize p = as_class p linear_pointer p.mapping p.serializer

  unfoldable pub wrote : Pointer V → V → Exec W (Pointer V)
  unfolding as_class
  wrote p value = as_class p (written_pointer value) p.mapping p.serializer

  unfoldable pub readable_split : Pointer V → ℕ → Exec W (Pointer V × Pointer V)
  unfolding split readable
  readable_split p size = do
    both ← split p size
    left ← readable both.0
    λ s. (ok (left, both.1), s)

  -- `split_from_end` behind the access to `near`.
  unfoldable pub split_behind : Pointer V → ℕ → ℕ → ℕ → Exec W (Pointer V × Pointer V)
  split_behind p size alignment address s =
      if alignment == 0
      then (err zero_division, s)
      else let extra_to_remove = (address + size) % alignment in
        if ltb p.allocation.stop (p.allocation.start + size + extra_to_remove)
        then (err negative_size, s)
        else split p (p.allocation.stop - p.allocation.start - size - extra_to_remove) s

  unfoldable pub split_from_end : Pointer V → ℕ → ℕ → Exec W (Pointer V × Pointer V)
  unfolding split_behind
  split_from_end p size alignment = do address ← near p; split_behind p size alignment address

-- The choice between the method of `LinearPointer` and that of `Pointer`.
abbrev pub by_class : {V A : Type 0} → Class V → A → A → A
by_class pointer linear other = other
by_class readable_pointer linear other = other
by_class linear_pointer linear other = linear
by_class (written_pointer v) linear other = other

module _ {V W : Type 0} (transport : Transport V W) where
  unfoldable pub send : Pointer V → List ℕ → Exec W (Unit {0})
  send p bytes s =
      let (r, world) = transport.write p bytes s.world in (r, record s { world = world })

  unfoldable pub receive : Pointer V → Exec W (List ℕ)
  receive p s = let (r, world) = transport.read p s.world in (r, record s { world = world })

  unfoldable pub write : Pointer V → V → Exec W (Pointer V)
  unfolding send
  write p value = do
    _ ← validate p
    let value_bytes = p.serializer.to_bytes value
    λ s.
        if ltb p.allocation.stop (p.allocation.start + length value_bytes)
        then (err too_long, s)
        else then_do (send p value_bytes s) (λ _. wrote p value)

  unfoldable pub decode : Pointer V → List ℕ → Exec W V
  decode p bytes s = elim (p.serializer.from_bytes bytes) [
    | none ↦ (err decode_error, s)
    | some v ↦ (ok v, s)
  ]

  -- `Pointer.read`
  unfoldable pub read_any : Pointer V → Exec W V
  unfolding receive
  read_any p = do _ ← validate p; bytes ← receive p; decode p bytes

  -- `LinearPointer.read`
  unfoldable pub read_once : Pointer V → Exec W V
  read_once p s =
      if s.been_read p.ident
      then (err already_read, s)
      else then_do (read_any p s)
          (λ ret s'. (ok ret, record s' { been_read = set_valid p.ident true s'.been_read }))

  -- `read` of the four classes: only `LinearPointer` has its own.
  unfoldable pub read : Pointer V → Exec W V
  read p = by_class p.class (read_once p) (read_any p)

  -- `LinearPointer.linear_read`
  unfoldable pub linear_read : Pointer V → Exec W (V × Pointer V)
  linear_read p = do
    ret ← read_once p
    new_ptr ← λ s. new_pointer pointer p.mapping p.serializer p.allocation (invalidated p s)
    λ s. (ok (ret, new_ptr), s)

  unfoldable pub write_to_end : Pointer V → V → ℕ → Exec W (Pointer V × Pointer V)
  unfolding write
  write_to_end p value alignment = do
    let value_bytes = p.serializer.to_bytes value
    both ← split_from_end p (length value_bytes) alignment
    written ← write both.1 value
    λ s. (ok (both.0, written), s)
