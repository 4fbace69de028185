-- ===== src/Struct/Whole.antt =====
-- struct.py: what is written is read back.
use mathlib.Core.List.{append_assoc, append-nil}
use rsyscall.Base.{
  ℕ, zero, suc, ◌+◌, ◌≤◌, ◌≡◌, refl, ap, ◌∙◌, List, [], ◌∷◌, ◌++◌, Option, none, some, ◌==◌, false,
  arith, drop, length, length-append, length-drop,
}
use rsyscall.Struct.{
  Bytes, Serializer, Loop, returned, raised, running, join, map_bytes, list_to_bytes, append_entry,
  turns_from_bytes, list_from_bytes, to_null_terminated, before_null, from_null_terminated,
}

-- What a struct's serializer promises: `sizeof` is the number of bytes that it writes, at least one,
-- and it reads its own bytes back, whatever follows them.
pub record IsSerializer {ℓ} {A : Type ℓ} (ser : Serializer A) : Type ℓ where
  pub nonempty : 1 ≤ ser.sizeof
  pub length_of : (a : A) → length (ser.to_bytes a) ≡ ser.sizeof
  pub reads_back : (a : A) (rest : Bytes) → ser.from_bytes (ser.to_bytes a ++ rest) ≡ some a

drop-append : (n : ℕ) (xs ys : Bytes) → length xs ≡ n → drop n (xs ++ ys) ≡ ys
drop-append zero [] ys e = refl
drop-append zero (x ∷ xs) ys e = ground arith
drop-append (suc n) [] ys e = ground arith
drop-append (suc n) (x ∷ xs) ys e = drop-append n xs ys (omega (arith, e))

module _ {ℓ} {A : Type ℓ} (ser : Serializer A) (w : IsSerializer ser) where
  turn :
      (fuel : ℕ) (bytes : Bytes)
      → 1 ≤ length bytes
      → turns_from_bytes (suc fuel) ser bytes
        ≡ append_entry (ser.from_bytes bytes) (turns_from_bytes fuel ser (drop ser.sizeof bytes))
  unfolding turns_from_bytes
  turn fuel [] le = ground arith
  turn fuel (b ∷ bytes) le = refl

  turns_from_bytes-join :
      (elems : List A) (fuel : ℕ)
      → length (join (map_bytes ser.to_bytes elems)) ≤ fuel
      → turns_from_bytes fuel ser (join (map_bytes ser.to_bytes elems)) ≡ returned elems
  unfolding turns_from_bytes
  turns_from_bytes-join [] fuel le = refl
  turns_from_bytes-join (a ∷ elems) zero le = ground (
    arith,
    length-append (ser.to_bytes a) (join (map_bytes ser.to_bytes elems)),
    w.length_of a,
    w.nonempty,
  )
  turns_from_bytes-join (a ∷ elems) (suc fuel) le =
      let rest = join (map_bytes ser.to_bytes elems) in
      let len : length (ser.to_bytes a ++ rest) ≡ ser.sizeof + length rest =
        length-append (ser.to_bytes a) rest ∙ ap (λ n. n + length rest) (w.length_of a) in
      turn fuel (ser.to_bytes a ++ rest) (omega (arith, len, w.nonempty))
      ∙ ap
          (λ o.
            append_entry o (turns_from_bytes fuel ser (drop ser.sizeof (ser.to_bytes a ++ rest))))
          (w.reads_back a rest)
      ∙ ap (λ d. append_entry (some a) (turns_from_bytes fuel ser d))
          (drop-append ser.sizeof (ser.to_bytes a) rest (w.length_of a))
      ∙ ap (append_entry (some a))
          (turns_from_bytes-join elems fuel (omega (arith, le, len, w.nonempty)))

  -- A list of structs is read back as it was written, and the loop ends, when the serializer of the
  -- elements reads each of them back from the `sizeof` bytes, at least one, that it writes for it.
  pub list_from_bytes-list_to_bytes :
      (elems : List A) → list_from_bytes ser (list_to_bytes ser elems) ≡ returned elems
  unfolding list_from_bytes list_to_bytes
  list_from_bytes-list_to_bytes elems =
      turns_from_bytes-join elems (length (join (map_bytes ser.to_bytes elems))) (omega arith)

  append_entry-running : (o : Option A) (r : Loop A) → append_entry o r ≡ running → r ≡ running
  append_entry-running none r e = cc
  append_entry-running (some a) (returned l) e = cc
  append_entry-running (some a) raised e = cc
  append_entry-running (some a) running e = refl

  turns_from_bytes-ends :
      (fuel : ℕ) (bytes : Bytes)
      → length bytes ≤ fuel
      → turns_from_bytes fuel ser bytes ≡ running
      → ⊥
  unfolding turns_from_bytes
  turns_from_bytes-ends fuel [] le e = cc
  turns_from_bytes-ends zero (b ∷ bytes) le e = omega (arith, le)
  turns_from_bytes-ends (suc fuel) (b ∷ bytes) le e =
      turns_from_bytes-ends fuel (drop ser.sizeof (b ∷ bytes))
        (omega (arith, le, length-drop ser.sizeof (b ∷ bytes), w.nonempty))
        (append_entry-running (ser.from_bytes (b ∷ bytes))
          (turns_from_bytes fuel ser (drop ser.sizeof (b ∷ bytes))) e)

  -- Whatever bytes it is given, the loop ends.
  pub list_from_bytes-ends : (bytes : Bytes) → ¬ (list_from_bytes ser bytes ≡ running)
  unfolding list_from_bytes
  list_from_bytes-ends bytes = turns_from_bytes-ends (length bytes) bytes (omega arith)

-- No byte of the list is zero.
abbrev pub NoNull : Bytes → Type 0
NoNull [] = Unit {0}
NoNull (b ∷ bytes) = ((b == 0) ≡ false) × NoNull bytes

pub before_null-append :
    (xs rest : Bytes) → NoNull xs → before_null (xs ++ rest) ≡ xs ++ before_null rest
before_null-append [] rest w = refl
before_null-append (x ∷ xs) rest (e, w) = rw (e, before_null-append xs rest w) refl

before_null-terminated : (xs rest : Bytes) → NoNull xs → before_null ((xs ++ (0 ∷ [])) ++ rest) ≡ xs
before_null-terminated xs rest w =
    rw (append_assoc xs (0 ∷ []) rest, before_null-append xs (0 ∷ rest) w, append-nil xs) refl

-- A string whose encoding has no zero byte is read back, whatever follows its terminator.
pub from_null_terminated-append {ℓ} :
    {S : Type ℓ} (fsencode : S → Bytes) (fsdecode : Bytes → S)
    → ((v : S) → fsdecode (fsencode v) ≡ v)
    → (val : S) (rest : Bytes) → NoNull (fsencode val)
    → from_null_terminated fsdecode (to_null_terminated fsencode val ++ rest) ≡ val
unfolding from_null_terminated to_null_terminated
from_null_terminated-append fsencode fsdecode inverse val rest w =
    ap fsdecode (before_null-terminated (fsencode val) rest w) ∙ inverse val
