-- ===== src/ReadBuffer/Reads.antt =====
-- AsyncReadBuffer: however the stream is cut into reads, the same is parsed.
use rsyscall.Base.{
  ℕ, zero, suc, ◌<◌, ◌≡◌, refl, sym, ap, subst, ◌∙◌, true, false, List, [], ◌∷◌, ◌++◌, Option, none,
  some, ltb, arith, Bool-cases, Option-cases, inl, inr, length, length-append, take-append_le,
  drop-append_le, take-length, drop-length, ◌==◌,
}
use mathlib.Core.List.{append_assoc, append-nil}
use rsyscall.Struct.{Bytes}
use rsyscall.ReadBuffer.{
  Answer, done, Arrival, arrived, failed, interrupted, ReadBuffer, Exec, read_some, read_until,
  turns, take_length, read_length, cons_before, take_section, read_until_delimiter,
}
use rsyscall.ReadBuffer.Kept.{coming, content, take_section-cons}

-- Every read to come brings at least one byte, and none is left unread.
abbrev pub AllData : List Arrival → Type 0
AllData [] = Unit {0}
AllData (arrived [] ∷ l) = ⊥
AllData (arrived (b ∷ x) ∷ l) = AllData l
AllData (failed ∷ l) = ⊥
AllData (interrupted b x ∷ l) = ⊥

pub record IsFlowing (s : ReadBuffer) : Type 0 where
  pub no_unread : s.unread_ptr ≡ none
  pub data_only : AllData s.arrivals

-- A parser reads the bytes `x` as the value `a`: from every stream that begins with them it returns
-- that value and leaves what follows them.
abbrev pub Parses {ℓ} : {A : Type ℓ} → Exec A → Bytes → A → Type ℓ
Parses m x a =
    (s : ReadBuffer) (rest : Bytes)
    → IsFlowing s
    → content s ≡ x ++ rest
    → (u : ReadBuffer) × (m s ≡ (done a, u)) × IsFlowing u × (content u ≡ rest)

-- A taking function takes the same if more bytes follow.
abbrev pub Stable {ℓ} : {A : Type ℓ} → (Bytes → Option (A × Bytes)) → Type ℓ
Stable {A = A} f =
    (x : Bytes) (r : A × Bytes) (more : Bytes)
    → f x ≡ some r
    → f (x ++ more) ≡ some (r.0, r.1 ++ more)

some-inj {ℓ} : {A : Type ℓ} (a b : A) → some a ≡ some b → a ≡ b
some-inj a b e = cc

-- A state with nothing unread.
abbrev pub flowing : Bytes → List Arrival → ReadBuffer
flowing buf l = record { buf = buf; unread_ptr = none; arrivals = l }

module _ {ℓ} {A : Type ℓ} (f : Bytes → Option (A × Bytes)) (stable : Stable f) (a : A)
    (rest : Bytes) where
  abbrev Takes : Answer A × ReadBuffer → Type ℓ
  Takes r = (u : ReadBuffer) × (r ≡ (done a, u)) × IsFlowing u × (content u ≡ rest)

  found-Takes :
      (fuel : ℕ) (buf : Bytes) (l : List Arrival) (r : A × Bytes)
      → AllData l
      → f buf ≡ some r
      → f (buf ++ coming l) ≡ some (a, rest)
      → Takes (read_until (suc fuel) f (flowing buf l))
  unfolding read_until
  found-Takes fuel buf l r w n e =
      let same : ◌≡◌ {A = A × Bytes} (r.0, r.1 ++ coming l) (a, rest) =
        some-inj (r.0, r.1 ++ coming l) (a, rest) (sym (stable buf r (coming l) n) ∙ e) in
      (
        flowing r.1 l,
        rw (n, read_until) (ap (λ p. (done p.0, flowing r.1 l)) same),
        record { no_unread = refl; data_only = w },
        ap (λ p. p.1) same,
      )

  flowing-Takes :
      (fuel : ℕ) (buf : Bytes) (l : List Arrival)
      → AllData l
      → length l < fuel
      → f (buf ++ coming l) ≡ some (a, rest)
      → Takes (read_until fuel f (flowing buf l))
  unfolding read_until read_some
  flowing-Takes zero buf l w lt e = elim lt [ ]
  flowing-Takes (suc fuel) buf [] w lt e =
      found-Takes fuel buf [] (a, rest) w (ap f (sym (append-nil buf)) ∙ e) e
  flowing-Takes (suc fuel) buf (arrived [] ∷ l) w lt e = elim w [ ]
  flowing-Takes (suc fuel) buf (failed ∷ l) w lt e = elim w [ ]
  flowing-Takes (suc fuel) buf (interrupted b x ∷ l) w lt e = elim w [ ]
  flowing-Takes (suc fuel) buf (arrived (b ∷ x) ∷ l) w lt e = elim (Option-cases (f buf)) [
    | inl n ↦
        rw (n, read_until)
          (flowing-Takes fuel (buf ++ (b ∷ x)) l w (omega (arith, lt))
            (ap f (append_assoc buf (b ∷ x) (coming l)) ∙ e))
    | inr (r, n) ↦ found-Takes fuel buf (arrived (b ∷ x) ∷ l) r w n e
  ]

  -- With a turn for each read to come, and one more, the loop takes what the stream begins with.
  pub read_until-Takes :
      (fuel : ℕ) (s : ReadBuffer)
      → IsFlowing s
      → length s.arrivals < fuel
      → f (content s) ≡ some (a, rest)
      → Takes (read_until fuel f s)
  read_until-Takes fuel s w lt e =
      subst (λ o. Takes (read_until fuel f (record s { unread_ptr = o }))) (sym w.no_unread)
        (flowing-Takes fuel s.buf s.arrivals w.data_only lt (rw w.no_unread at e))

take_length-Stable : (n : ℕ) → Stable (take_length n true)
unfolding take_length
take_length-Stable n x r more e = elim (Bool-cases (ltb (length x) n)) [
  | inl t ↦ ground (arith, t, e)
  | inr t ↦
      ground (arith, t, e, length-append x more, take-append_le n x more, drop-append_le n x more)
]

pub take_length-exact : (x rest : Bytes) → take_length (length x) true (x ++ rest) ≡ some (x, rest)
unfolding take_length
take_length-exact x rest =
    ground (arith, length-append x rest, take-length x rest, drop-length x rest)

-- What was found is found with more bytes behind it.
abbrev Follows : Bytes → Option (Bytes × Bytes) → Option (Bytes × Bytes) → Type 0
Follows more none o = Unit {0}
Follows more (some (y, z)) o = o ≡ some (y, z ++ more)

cons_before-Follows :
    (b : ℕ) (more : Bytes) (o o' : Option (Bytes × Bytes))
    → Follows more o o'
    → Follows more (cons_before b o) (cons_before b o')
cons_before-Follows b more none o' h = tt
cons_before-Follows b more (some (y, z)) o' h = ap (cons_before b) h

take_section-Follows :
    (d : ℕ) (x more : Bytes)
    → Follows more (take_section (d ∷ []) x) (take_section (d ∷ []) (x ++ more))
unfolding take_section
take_section-Follows d [] more = tt
take_section-Follows d (b ∷ x) more =
    subst (λ o. Follows more o (take_section (d ∷ []) (b ∷ (x ++ more))))
      (sym (take_section-cons d b x))
      (subst (Follows more _) (sym (take_section-cons d b (x ++ more)))
        (elim (Bool-cases (d == b)) [
          | inl e ↦ rw e refl
          | inr e ↦ rw e (
              cons_before-Follows b more (take_section (d ∷ []) x)
                (take_section (d ∷ []) (x ++ more)) (take_section-Follows d x more))
        ]))

take_section-Stable : (d : ℕ) → Stable (take_section (d ∷ []))
take_section-Stable d x r more e =
    subst (λ o. Follows more o (take_section (d ∷ []) (x ++ more))) e
      (take_section-Follows d x more)

-- The byte is not in the list.
abbrev pub Without : ℕ → Bytes → Type 0
Without d [] = Unit {0}
Without d (b ∷ x) = ((d == b) ≡ false) × Without d x

take_section-exact :
    (d : ℕ) (x rest : Bytes)
    → Without d x
    → take_section (d ∷ []) (x ++ (d ∷ rest)) ≡ some (x, rest)
take_section-exact d [] rest w = take_section-cons d d rest ∙ ground arith
take_section-exact d (b ∷ x) rest (e, w) =
    take_section-cons d b (x ++ (d ∷ rest)) ∙ rw (e, take_section-exact d x rest w) refl

pub read_length-Parses : (x : Bytes) → Parses (read_length (length x) true) x x
unfolding read_length
read_length-Parses x s rest w e =
    read_until-Takes (take_length (length x) true) (take_length-Stable (length x)) x rest (turns s)
      s w (omega arith) (ap (take_length (length x) true) e ∙ take_length-exact x rest)

pub read_until_delimiter-Parses :
    (d : ℕ) (x : Bytes) → Without d x → Parses (read_until_delimiter (d ∷ [])) (x ++ (d ∷ [])) x
unfolding read_until_delimiter
read_until_delimiter-Parses d x o s rest w e =
    read_until-Takes (take_section (d ∷ [])) (take_section-Stable d) x rest (turns s) s w
      (omega arith)
      (ap (take_section (d ∷ [])) (e ∙ append_assoc x (d ∷ []) rest)
        ∙ take_section-exact d x rest o)
