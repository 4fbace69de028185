-- ===== src/Iovec/Entries.antt =====
-- python/rsyscall/sys/uio.py: the memory of the two lists that `split_iovec` returns.
use mathlib.Core.List.{append_assoc, append-nil}
use rsyscall.Base.{
  ℕ, zero, suc, ◌-◌, ◌*◌, ◌<◌, ◌≤◌, ◌≡◌, refl, sym, ap, ◌∙◌, List, [], ◌∷◌, ◌++◌, Option, none,
  some, take, drop, length, arith, dec_lt, length-append, take-length, drop-length, take-append_ge,
  drop-append_ge, take-nil, drop-nil,
}
use rsyscall.Struct.{Bytes, join, map_bytes}
use rsyscall.Iovec.{
  Buffers, Parts, set_middle, split_turns, split_with_middle, to_bytes, first_count, split_memory,
  split_iovec,
}
use rsyscall.Iovec.Covered.{IsBuffers, exhausted, turn-fits, turn-splits, turn-past}

module _ {ℓ} {P : Type ℓ} (buf : Buffers P) (ok : IsBuffers buf) where
  -- No pointer of the list is empty.
  pub data Positive : List P → Type ℓ where
    empty : Positive []
    next : {p : P} {iov : List P} → 0 < buf.size p → Positive iov → Positive (p ∷ iov)

  entries-exhausted :
      (iov v i : List P) (m : Option (P × P))
      → Positive iov
      → split_turns buf iov (some (exhausted buf ok v m i)) ≡ some (exhausted buf ok v m (i ++ iov))
  unfolding split_turns
  entries-exhausted [] v i m pos = ap (λ j. some (exhausted buf ok v m j)) (sym (append-nil i))
  entries-exhausted (p ∷ iov) v i m (next h pos) =
      rw (turn-past buf ok p (exhausted buf ok v m i) refl h) (
        entries-exhausted iov v (i ++ (p ∷ [])) m pos
        ∙ ap (λ j. some (exhausted buf ok v m j)) (append_assoc i (p ∷ []) iov))

  -- The list of the split, by the number of pointers before its place.
  abbrev AtEntry : Option (Parts P) → List P → Type ℓ
  AtEntry r iov =
      (s : Parts P) × (r ≡ some s)
      × (take (length s.valid) iov ≡ s.valid)
      × (drop (first_count buf s) iov ≡ s.invalid)

  entries-splits :
      (p : P) (both : P × P) (iov v : List P)
      → AtEntry (some (exhausted buf ok v (some both) iov)) (v ++ (p ∷ iov))
  unfolding first_count
  entries-splits p both iov v = (
    exhausted buf ok v (some both) iov,
    refl,
    take-length v (p ∷ iov),
    ap (λ k. drop k (v ++ (p ∷ iov))) (sym (length-append v (p ∷ [])))
        ∙ ap (drop (length (v ++ (p ∷ [])))) (sym (append_assoc v (p ∷ []) iov))
        ∙ drop-length (v ++ (p ∷ [])) iov,
  )

  turns-entries :
      (iov v : List P) (n : ℕ)
      → Positive iov
      → AtEntry
          (split_turns buf iov (some record { valid = v; middle = none; invalid = []; n = n }))
          (v ++ iov)
  unfolding split_turns set_middle first_count
  turns-entries [] v n pos = (
    record { valid = v; middle = none; invalid = []; n = n },
    refl,
    take-length v [],
    drop-length v [],
  )
  turns-entries (p ∷ iov) v n (next q pos) = elim (dec_lt n (buf.size p)) [
    | no h ↦
        rw
          (
            turn-fits buf ok p (record { valid = v; middle = none; invalid = []; n = n })
                (omega (arith, h)),
            sym (append_assoc v (p ∷ []) iov),
          )
          (turns-entries iov (v ++ (p ∷ [])) (n - buf.size p) pos)
    | yes h ↦ (elim (dec_lt 0 n) [
      | yes g ↦
          let (a, b, e, ca, cb) = ok.cover-split p n (omega (arith, h)) in
          rw
            (
              turn-splits buf ok p (record { valid = v; middle = none; invalid = []; n = n }) g h,
              e,
              entries-exhausted iov v [] (some (a, b)) pos,
            )
            (entries-splits p (a, b) iov v)
      | no g ↦
          let z : n ≡ 0 = omega (arith, g) in
          rw
            (
              z,
              turn-past buf ok p (exhausted buf ok v none []) refl q,
              entries-exhausted iov v (p ∷ []) none pos,
            )
            (
              exhausted buf ok v none (p ∷ iov),
              refl,
              take-length v (p ∷ iov),
              drop-length v (p ∷ iov),
            )
    ])
  ]

-- The entries of a list have one size each.
module _ {ℓ} {P : Type ℓ} (entry : P → Bytes) (es : ℕ)
    (sized : (p : P) → length (entry p) ≡ es) where
  first_entry : (k : ℕ) (p : P) → length (entry p) ≤ suc k * es
  first_entry k p = rw (sized p) (omega arith)

  other_entries : (k : ℕ) (p : P) → suc k * es - length (entry p) ≡ k * es
  other_entries k p = rw (sized p) (omega arith)

  take-entries :
      (k : ℕ) (l : List P)
      → take (k * es) (join (map_bytes entry l)) ≡ join (map_bytes entry (take k l))
  take-entries zero l =
      let e : 0 * es ≡ 0 = omega arith in ap (λ n. take n (join (map_bytes entry l))) e
  take-entries (suc k) [] = take-nil (suc k * es)
  take-entries (suc k) (p ∷ l) =
      take-append_ge (suc k * es) (entry p) (join (map_bytes entry l)) (first_entry k p)
      ∙ ap (λ n. entry p ++ take n (join (map_bytes entry l))) (other_entries k p)
      ∙ ap (λ x. entry p ++ x) (take-entries k l)

  drop-entries :
      (k : ℕ) (l : List P)
      → drop (k * es) (join (map_bytes entry l)) ≡ join (map_bytes entry (drop k l))
  drop-entries zero l =
      let e : 0 * es ≡ 0 = omega arith in ap (λ n. drop n (join (map_bytes entry l))) e
  drop-entries (suc k) [] = drop-nil (suc k * es)
  drop-entries (suc k) (p ∷ l) =
      drop-append_ge (suc k * es) (entry p) (join (map_bytes entry l)) (first_entry k p)
      ∙ ap (λ n. drop n (join (map_bytes entry l))) (other_entries k p)
      ∙ drop-entries k l

module _ {ℓ} {P : Type ℓ} (buf : Buffers P) (ok : IsBuffers buf) where
  memory-entries :
      (iov : List P) (r : Option (Parts P))
      → ((p : P) → length (buf.entry p) ≡ buf.entry_size)
      → AtEntry buf ok r iov
      → (s : Parts P) × (split_memory buf (to_bytes buf iov) r
          ≡ some (to_bytes buf (take (first_count buf s) iov), s, to_bytes buf s.invalid))
        × (take (length s.valid) iov ≡ s.valid)
        × (drop (first_count buf s) iov ≡ s.invalid)
  unfolding split_memory to_bytes
  memory-entries iov r sized (s, e, f, g) = (
    s,
    rw
        (
          e,
          take-entries buf.entry buf.entry_size sized (first_count buf s) iov,
          drop-entries buf.entry buf.entry_size sized (first_count buf s) iov,
          g,
        )
        refl,
    f,
    g,
  )

  -- If no pointer of the list is empty and every entry has the size of `struct iovec`, `split_iovec`
  -- cuts the memory of the list between two entries. The second piece is what its value, the
  -- pointers behind the place of the split, is written as. The first piece has the pointers before
  -- the place, which are its value, and the one that the place is in.
  pub split_iovec_lem :
      (iov : List P) (ret : ℕ)
      → Positive buf ok iov
      → ((p : P) → length (buf.entry p) ≡ buf.entry_size)
      → (s : Parts P) × (split_iovec buf iov ret
          ≡ some (to_bytes buf (take (first_count buf s) iov), s, to_bytes buf s.invalid))
        × (take (length s.valid) iov ≡ s.valid)
        × (drop (first_count buf s) iov ≡ s.invalid)
  unfolding split_iovec split_with_middle
  split_iovec_lem iov ret pos sized =
      memory-entries iov _ sized (turns-entries buf ok iov [] ret pos)
