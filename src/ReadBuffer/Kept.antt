-- ===== src/ReadBuffer/Kept.antt =====
-- AsyncReadBuffer: no byte of the stream is lost or duplicated.
use rsyscall.Base.{
  ℕ, zero, suc, ◌≡◌, refl, subst, ==_iff, sym, ap, ◌∙◌, true, List, [], ◌∷◌, ◌++◌, Option, none,
  some, take-append-drop, ltb, length, ◌==◌, if◌then◌else◌, Bool-cases, Option-cases, inl, inr,
}
use mathlib.Core.List.{append_assoc}
use rsyscall.Struct.{Bytes}
use rsyscall.ReadBuffer.{
  Answer, done, raised, waiting, Arrival, arrived, failed, interrupted, ReadBuffer, Exec, then_do,
  finish, fetch, read_unread, read_some, read_until, turns, take_length, read_length, cons_before,
  split_index, skip_one, take_section, read_until_delimiter,
}

-- The bytes that are still to come, those that the buffer does not hold, and all that will be read.
abbrev pub coming : List Arrival → Bytes
coming [] = []
coming (arrived x ∷ l) = x ++ coming l
coming (failed ∷ l) = coming l
coming (interrupted b x ∷ l) = b ∷ (x ++ coming l)

abbrev pub unread : Option Bytes → Bytes
unread none = []
unread (some x) = x

abbrev pub pending : ReadBuffer → Bytes
pending s = unread s.unread_ptr ++ coming s.arrivals

abbrev pub content : ReadBuffer → Bytes
content s = s.buf ++ pending s

-- The bytes that an answer holds.
abbrev pub held {ℓ} : {A : Type ℓ} → (A → Bytes) → Answer A → Bytes
held bytes_of (done a) = bytes_of a
held bytes_of (raised e) = []
held bytes_of waiting = []

abbrev pub itself : Bytes → Bytes
itself x = x

-- What a read leaves: the same buffer, and every byte that it does not return.
abbrev Keeps : ReadBuffer → Answer Bytes × ReadBuffer → Type 0
Keeps s (r, u) = (u.buf ≡ s.buf) × (held itself r ++ pending u ≡ pending s)

finish-Keeps : (x : Bytes) (s : ReadBuffer) → (finish x s).1.buf ≡ s.buf
finish-Keeps [] s = refl
finish-Keeps (b ∷ x) s = refl

finish-held :
    (x : Bytes) (s : ReadBuffer)
    → held itself (finish x s).0 ++ pending (finish x s).1 ≡ x ++ coming s.arrivals
finish-held [] s = refl
finish-held (b ∷ x) s = refl

fetch-Keeps :
    (l : List Arrival) (s : ReadBuffer) → s.unread_ptr ≡ none → s.arrivals ≡ l → Keeps s (fetch l s)
fetch-Keeps [] s e f = (refl, refl)
fetch-Keeps (arrived x ∷ l) s e f = (
  finish-Keeps x (record s { arrivals = l }),
  finish-held x (record s { arrivals = l }) ∙ rw (e, f) refl,
)
fetch-Keeps (failed ∷ l) s e f = (refl, rw (e, f) refl)
fetch-Keeps (interrupted b x ∷ l) s e f = (refl, rw (e, f) refl)

read_unread-Keeps :
    (o : Option Bytes) (s : ReadBuffer) → s.unread_ptr ≡ o → Keeps s (read_unread o s)
read_unread-Keeps none s e = fetch-Keeps s.arrivals s e refl
read_unread-Keeps (some x) s e = (finish-Keeps x s, finish-held x s ∙ rw e refl)

pub read_some-Keeps : (s : ReadBuffer) → Keeps s (read_some s)
unfolding read_some
read_some-Keeps s = read_unread-Keeps s.unread_ptr s refl

-- What is taken off the buffer, and what is left of it, are the buffer.
abbrev pub Divides {ℓ} : {A : Type ℓ} → (A → Bytes) → (Bytes → Option (A × Bytes)) → Type ℓ
Divides {A = A} bytes_of f = (x : Bytes) (r : A × Bytes) → f x ≡ some r → bytes_of r.0 ++ r.1 ≡ x

module _ {ℓ} {A : Type ℓ} (bytes_of : A → Bytes) where
  then_do-content :
      (s : ReadBuffer) (r : Answer Bytes × ReadBuffer) (k : Bytes → Exec A)
      → Keeps s r
      → ((x : Bytes) (u : ReadBuffer)
          → held bytes_of (k x u).0 ++ content (k x u).1 ≡ (u.buf ++ x) ++ pending u)
      → held bytes_of (then_do r k).0 ++ content (then_do r k).1 ≡ content s
  then_do-content s (done x, u) k (e, f) h =
      h x u ∙ append_assoc u.buf x (pending u) ∙ rw (e, f) refl
  then_do-content s (raised x, u) k (e, f) h = rw (e, f) refl
  then_do-content s (waiting, u) k (e, f) h = rw (e, f) refl

  pub read_until-content :
      (f : Bytes → Option (A × Bytes))
      → Divides bytes_of f
      → (fuel : ℕ) (s : ReadBuffer)
      → held bytes_of (read_until fuel f s).0 ++ content (read_until fuel f s).1 ≡ content s
  unfolding read_until
  read_until-content f d zero s = refl
  read_until-content f d (suc fuel) s = elim (Option-cases (f s.buf)) [
    | inl e ↦
        rw (e, read_until)
          (then_do-content s (read_some s)
            (λ x u. read_until fuel f (record u { buf = u.buf ++ x })) (read_some-Keeps s)
            (λ x u. read_until-content f d fuel (record u { buf = u.buf ++ x })))
    | inr (r, e) ↦
        rw (e, read_until)
          (sym (append_assoc (bytes_of r.0) r.1 (pending s))
            ∙ ap (λ x. x ++ pending s) (d s.buf r e))
  ]

take_length-Divides : (n : ℕ) → Divides itself (take_length n true)
unfolding take_length
take_length-Divides n x r e = elim (Bool-cases (ltb (length x) n)) [
  | inl t ↦ absurd (none-ne-some (rw t at e))
  | inr t ↦ ap (λ o. both o) (sym (rw t at e)) ∙ take-append-drop n x
]
  where
    both : Option (Bytes × Bytes) → Bytes
    both none = []
    both (some (y, z)) = y ++ z

    none-ne-some : ◌≡◌ {A = Option (Bytes × Bytes)} none (some r) → ⊥
    none-ne-some h = cc

-- Of a delimiter of one byte, the section ends before its first occurrence, and it is skipped.
pub take_section-cons :
    (d b : ℕ) (x : Bytes)
    → take_section (d ∷ []) (b ∷ x)
      ≡ (if d == b then some ([], x) else cons_before b (take_section (d ∷ []) x))
unfolding take_section
take_section-cons d b x = elim (Bool-cases (d == b)) [
  | inl e ↦ rw e refl
  | inr e ↦ rw e (skip_before (split_index (d ∷ []) x))
]
  where
    skip_before :
        (o : Option (Bytes × Bytes)) → skip_one (cons_before b o) ≡ cons_before b (skip_one o)
    skip_before none = refl
    skip_before (some (y, z)) = refl

abbrev pub with_delimiter : ℕ → Bytes → Bytes
with_delimiter d x = x ++ (d ∷ [])

-- What was found, with the delimiter, is the bytes that were searched.
abbrev Whole : ℕ → Bytes → Option (Bytes × Bytes) → Type 0
Whole d x none = Unit {0}
Whole d x (some (y, z)) = with_delimiter d y ++ z ≡ x

cons_before-Whole :
    (d b : ℕ) (x : Bytes) (o : Option (Bytes × Bytes))
    → Whole d x o
    → Whole d (b ∷ x) (cons_before b o)
cons_before-Whole d b x none h = tt
cons_before-Whole d b x (some (y, z)) h = ap (λ l. b ∷ l) h

take_section-Whole : (d : ℕ) (x : Bytes) → Whole d x (take_section (d ∷ []) x)
unfolding take_section
take_section-Whole d [] = tt
take_section-Whole d (b ∷ x) =
    subst (Whole d (b ∷ x)) (sym (take_section-cons d b x)) (elim (Bool-cases (d == b)) [
      | inl e ↦ rw e (ap (λ k. k ∷ x) ((==_iff d b).0 e))
      | inr e ↦ rw e (cons_before-Whole d b x (take_section (d ∷ []) x) (take_section-Whole d x))
    ])

take_section-Divides : (d : ℕ) → Divides (with_delimiter d) (take_section (d ∷ []))
take_section-Divides d x r e = subst (Whole d x) e (take_section-Whole d x)

-- Whatever the reads of the file bring, the bytes that `read_length` returns, none if it raises or
-- does not return, and the bytes that are then in the buffer or still to come are the stream as it was.
pub read_length-content :
    (n : ℕ) (s : ReadBuffer)
    → held itself (read_length n true s).0 ++ content (read_length n true s).1 ≡ content s
unfolding read_length
read_length-content n s =
    read_until-content itself (take_length n true) (take_length-Divides n) (turns s) s

-- The same of `read_until_delimiter` for a delimiter of one byte, which is dropped.
pub read_until_delimiter-content :
    (d : ℕ) (s : ReadBuffer)
    → held (with_delimiter d) (read_until_delimiter (d ∷ []) s).0
        ++ content (read_until_delimiter (d ∷ []) s).1
      ≡ content s
unfolding read_until_delimiter
read_until_delimiter-content d s =
    read_until-content (with_delimiter d) (take_section (d ∷ [])) (take_section-Divides d) (turns s)
      s
