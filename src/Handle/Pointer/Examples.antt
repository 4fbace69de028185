-- ===== src/Handle/Pointer/Examples.antt =====
-- A pointer to 96 bytes of an arena at the address 4096, and a memory of byte lists.
use rsyscall.Base.{
  ℕ, refl, false, List, [], ◌∷◌, ◌++◌, Option, none, some, arith, ◌==◌, if◌then◌else◌,
}
use rsyscall.Memory.Arena as Arena
use rsyscall.Memory.Arena.{Allocation}
use rsyscall.Memory.Arena.Tracking.{find}
use rsyscall.Memory.Arena.Invariant.{WellFormed}
use rsyscall.Handle.Pointer.{
  Serializer, Mapping, Pointer, Heap, Transport, ok, pointer, linear_pointer, read,
}
use rsyscall.Handle.Pointer.Parts.{Owns}

abbrev stack : Allocation
stack = record { ident = 0; arena = 0; start = 0; stop = 96 }

abbrev page : Arena.Arena
page = record {
  ident = 0;
  mapping_length = 4096;
  allocations = stack ∷ [];
  valid = λ i. i == 0;
  next = 1;
  foreign = λ a i. false;
}

page-WellFormed : WellFormed page
page-WellFormed = record {
  tracks = record {
    distinct = (tt, tt);
    live = (refl, omega arith, refl, tt);
    tracked = λ i h. ground arith;
  };
  layout = omega arith;
}

abbrev memory : Mapping
memory = record { address = 4096; file = 0; address_space = 0 }

abbrev first_byte : List ℕ → Option ℕ
first_byte [] = none
first_byte (b ∷ l) = some b

abbrev byte : Serializer ℕ
byte = record { to_bytes = λ v. v ∷ []; from_bytes = first_byte }

abbrev World : Type 0
World = ℕ → List ℕ

abbrev by_start : Transport ℕ World
by_start = record {
  read = λ p w. (ok (w p.allocation.start ++ []), w);
  write = λ p bytes w. (ok tt, λ a. if a == p.allocation.start then bytes else w a);
}

abbrev fresh : Pointer ℕ
fresh = record {
  ident = 0;
  mapping = memory;
  serializer = byte;
  allocation = stack;
  class = pointer;
}

abbrev used_up : Pointer ℕ
used_up = record fresh { ident = 1 }

abbrev linear : Pointer ℕ
linear = record fresh { class = linear_pointer }

-- The pointer 0 is valid and the pointer 1 is not.
abbrev heap : Heap World
heap = record {
  arena = page;
  valid = λ i. i == 0;
  been_read = λ i. false;
  next = 2;
  world = λ a. 7 ∷ [];
}

fresh-Owns : Owns fresh heap
unfolding find
fresh-Owns = record {
  known = omega arith;
  usable = refl;
  well_formed = page-WellFormed;
  owned = refl;
}
