-- ===== src/Memory/Arena.antt =====
-- python/rsyscall/memory/allocator.py: `Allocation`, `Arena` and `align`.
pub mod Tracking
pub mod Align
pub mod Layout
pub mod Invariant
pub mod Split
pub mod Merge
pub mod RoundTrip
pub mod Fit
pub mod History
mod Examples
use rsyscall.Base.{
  ℕ, suc, ◌+◌, ◌-◌, ◌%◌, Bool, true, false, List, [], ◌∷◌, ◌++◌, Option, none, some, ltb, leb, ◌==◌,
  if◌then◌else◌, take, drop,
}
use rsyscall.Base.Int.{ℤ, sub_ℕ}

-- The exceptions of allocator.py, and those of Python that its statements can raise.
pub data Error : Type 0 where
  out_of_space use_after_free zero_division value_error index_error : Error
  split_freed merge_self_freed merge_other_freed other_arena not_contiguous not_adjacent : Error
  alignment_too_big internal_error : Error

pub data Result {ℓ} (A : Type ℓ) : Type ℓ where
  ok : A → Result A
  err : Error → Result A

infixl 5 ◌>>=◌
abbrev pub ◌>>=◌ {ℓ κ} : {A : Type ℓ} {B : Type κ} → Result A → (A → Result B) → Result B
ok a >>= f = f a
err e >>= f = err e

-- An `Allocation` object: its identity, the identity of its arena, and the fields that never change.
pub record Allocation : Type 0 where
  pub ident : ℕ
  pub arena : ℕ
  pub start : ℕ
  pub stop : ℕ

-- An `Arena` and the objects made in it: `allocations` holds references, and `valid` is the field of
-- that name of the object with the given identity. `next` is the identity of the next object.
-- `foreign` is the field `valid` of the objects of other arenas, by arena and identity. A method is
-- run on the arena `self.arena`.
pub record Arena : Type 0 where
  pub ident : ℕ
  pub mapping_length : ℕ
  pub allocations : List Allocation
  pub valid : ℕ → Bool
  pub next : ℕ
  pub foreign : ℕ → ℕ → Bool

-- Statements that raise leave what they wrote before.
abbrev pub Exec {ℓ} : Type ℓ → Type ℓ
Exec A = Arena → Result A × Arena

abbrev pub set_valid : ℕ → Bool → (ℕ → Bool) → ℕ → Bool
set_valid i b valid j = if j == i then b else valid j

-- The lowest multiple of `alignment` that is not below `num`.
unfoldable pub round_up : ℕ → ℕ → ℕ
round_up num alignment =
    let overhang = num % alignment in if ltb 0 overhang then num + (alignment - overhang) else num

unfoldable pub align : ℕ → ℕ → Result ℕ
align num alignment = if alignment == 0 then err zero_division else ok (round_up num alignment)

-- `list.index(self)` and `list.remove(self)`, by identity; `none` is ValueError.
unfoldable pub index : ℕ → List Allocation → Option ℕ
index i [] = none
index i (a ∷ l) =
    if a.ident == i then some 0 else (elim (index i l) [ none ↦ none | some k ↦ some (suc k) ])

unfoldable pub remove : ℕ → List Allocation → Option (List Allocation)
remove i [] = none
remove i (a ∷ l) =
    if a.ident == i then some l else (elim (remove i l) [ none ↦ none | some r ↦ some (a ∷ r) ])

-- `list[i:i] = new`
abbrev pub insert_at : ℕ → List Allocation → List Allocation → List Allocation
insert_at i new l = take i l ++ (new ++ drop i l)

-- The loop of `allocate`: where the new allocation goes in the list, and its start.
unfoldable pub place : ℕ → ℕ → ℕ → ℕ → List Allocation → Result (ℕ × ℕ)
place len size alignment newstart [] =
    if leb (newstart + size) len then ok (0, newstart) else err out_of_space
place len size alignment newstart (alloc ∷ rest) =
    if leb (newstart + size) alloc.start then ok (0, newstart) else do
      newstart' ← align alloc.stop alignment
      found ← place len size alignment newstart' rest
      ok (suc found.0, found.1)

-- `Allocation(arena, start, end, valid)`
unfoldable pub make : ℕ → ℕ → Bool → Arena → Allocation × Arena
make start stop valid s = (
  record { ident = s.next; arena = s.ident; start = start; stop = stop },
  record s { valid = set_valid s.next valid s.valid; next = s.next + 1 },
)

unfoldable pub allocate : ℕ → ℕ → Exec Allocation
unfolding place make
allocate size alignment s = elim (place s.mapping_length size alignment 0 s.allocations) [
  | err e ↦ (err e, s)
  | ok (i, newstart) ↦
      let (newalloc, s') = make newstart (newstart + size) true s in
      (ok newalloc, record s' { allocations = insert_at i (newalloc ∷ []) s.allocations })
]

unfoldable pub offset : Allocation → Exec ℕ
offset self s = if s.valid self.ident then (ok self.start, s) else (err use_after_free, s)

unfoldable pub size : Allocation → ℤ
size self = sub_ℕ self.stop self.start

unfoldable pub free : Allocation → Exec (Unit {0})
free self s =
    if s.valid self.ident
    then (elim (remove self.ident s.allocations) [
      | none ↦ (err value_error, record s { valid = set_valid self.ident false s.valid })
      | some l ↦ (ok tt, record s { valid = set_valid self.ident false s.valid; allocations = l })
    ])
    else (ok tt, s)

-- The end of `split`, after `self.free()`.
unfoldable pub split_end :
    Allocation
    → Allocation
    → ℕ
    → Result (Unit {0}) × Arena
    → Result (Allocation × Allocation) × Arena
split_end first second idx (err e, s) = (err e, s)
split_end first second idx (ok _, s) = (
  ok (first, second),
  record s {
    allocations = insert_at idx (first ∷ second ∷ []) s.allocations;
    valid = set_valid second.ident true (set_valid first.ident true s.valid);
  },
)

-- The body of `split` once `idx` is known.
unfoldable pub split_at : Allocation → ℕ → ℕ → Exec (Allocation × Allocation)
unfolding make split_end
split_at self splitpoint idx s =
    let (first, s1) = make self.start splitpoint false s in
    let (second, s2) = make splitpoint self.stop false s1 in
    split_end first second idx (free self s2)

unfoldable pub split : Allocation → ℕ → Exec (Allocation × Allocation)
unfolding split_at
split self size s =
    if s.valid self.ident
    then (elim (index self.ident s.allocations) [
      | none ↦ (err value_error, s)
      | some idx ↦ split_at self (self.start + size) idx s
    ])
    else (err split_freed, s)

-- The end of `merge`, after `other.free()`, and what follows `self.free()`.
unfoldable pub merge_end : Allocation → ℕ → Result (Unit {0}) × Arena → Result Allocation × Arena
merge_end new a_idx (err e, s) = (err e, s)
merge_end new a_idx (ok _, s) = (
  ok new,
  record s {
    allocations = insert_at a_idx (new ∷ []) s.allocations;
    valid = set_valid new.ident true s.valid;
  },
)

unfoldable pub merge_rest :
    Allocation → Allocation → ℕ → Result (Unit {0}) × Arena → Result Allocation × Arena
unfolding merge_end
merge_rest other new a_idx (err e, s) = (err e, s)
merge_rest other new a_idx (ok _, s) = merge_end new a_idx (free other s)

-- The body of `merge` once the checks have passed.
unfoldable pub merge_at : Allocation → Allocation → ℕ → Exec Allocation
unfolding make merge_rest
merge_at self other a_idx s =
    let (new, s1) = make self.start other.stop false s in merge_rest other new a_idx (free self s1)

-- `other.valid`, where `other` may belong to another arena.
abbrev pub is_valid : Allocation → Arena → Bool
is_valid other s =
    if other.arena == s.ident then s.valid other.ident else s.foreign other.arena other.ident

unfoldable pub merge : Allocation → Allocation → Exec Allocation
merge self other s =
    if s.valid self.ident
    then (if is_valid other s
        then (if self.arena == other.arena
            then (if self.stop == other.start
                then (elim (index self.ident s.allocations) [
                  | none ↦ (err value_error, s)
                  | some a_idx ↦ elim (index other.ident s.allocations) [
                    | none ↦ (err value_error, s)
                    | some b_idx ↦
                        if a_idx + 1 == b_idx
                        then merge_at self other a_idx s
                        else (err not_adjacent, s)
                  ]
                ])
                else (err not_contiguous, s))
            else (err other_arena, s))
        else (err merge_other_freed, s))
    else (err merge_self_freed, s)
