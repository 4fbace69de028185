-- ===== src/Iovec/Covered.antt =====
-- python/rsyscall/sys/uio.py: the split keeps every byte.
use mathlib.Core.List.{append-nil, append_assoc}
use rsyscall.Base.{
  ℕ, ◌-◌, ◌<◌, ◌≤◌, ◌≡◌, refl, sym, ap, ◌∙◌, true, false, List, [], ◌∷◌, ◌++◌, Option, none, some,
  take, drop, length, arith, dec_lt, leb, ltb, take-append_le, take-append_ge, drop-append_le,
  drop-append_ge, leb, ltb, take-append_le, take-append_ge, drop-append_le, drop-append_ge,
  take-nil, drop-nil,
}
use rsyscall.Iovec.{
  Buffers, Parts, set_middle, turn, split_turns, split_with_middle, join_middle, join_parts, split,
}

-- The addresses that a pointer covers, and what `split` does with them.
pub record IsBuffers {ℓ} {P : Type ℓ} (buf : Buffers P) : Type ℓ where
  pub cover : P → List ℕ
  pub length-cover : (p : P) → length (cover p) ≡ buf.size p
  pub cover-split :
      (p : P) (n : ℕ)
      → n ≤ buf.size p
      → (a : P) × (b : P) × (buf.split p n ≡ some (a, b))
        × (cover a ≡ take n (cover p))
        × (cover b ≡ drop n (cover p))

nil_of_length {ℓ} : {A : Type ℓ} (l : List A) → length l ≡ 0 → l ≡ []
nil_of_length [] e = refl
nil_of_length (a ∷ l) e = absurd (omega (arith, e))

pub fits : (a b : ℕ) → a ≤ b → leb a b ≡ true
fits a b h = ground (arith, h)

exceeds : (a b : ℕ) → b < a → leb a b ≡ false
exceeds a b h = ground (arith, h)

positive : (a : ℕ) → 0 < a → ltb 0 a ≡ true
positive a h = ground (arith, h)

not_positive : (a : ℕ) → a ≡ 0 → ltb 0 a ≡ false
not_positive a h = ground (arith, h)

module _ {ℓ} {P : Type ℓ} (buf : Buffers P) (ok : IsBuffers buf) where
  abbrev pub covers : List P → List ℕ
  covers [] = []
  covers (p ∷ l) = ok.cover p ++ covers l

  covers-append : (l r : List P) → covers (l ++ r) ≡ covers l ++ covers r
  covers-append [] r = refl
  covers-append (p ∷ l) r =
      ap (λ x. ok.cover p ++ x) (covers-append l r)
      ∙ sym (append_assoc (ok.cover p) (covers l) (covers r))

  covers-last : (l : List P) (p : P) → covers (l ++ (p ∷ [])) ≡ covers l ++ ok.cover p
  covers-last l p = covers-append l (p ∷ []) ∙ ap (λ x. covers l ++ x) (append-nil (ok.cover p))

  -- The bytes before the place of the split, and those behind it.
  abbrev before : Parts P → List ℕ
  before s = covers (join_middle buf s.middle s.valid s.invalid).0

  abbrev behind : Parts P → List ℕ
  behind s = covers (join_middle buf s.middle s.valid s.invalid).1

  size-zero : (p : P) → buf.size p ≡ 0 → ok.cover p ≡ []
  size-zero p e = nil_of_length (ok.cover p) (ok.length-cover p ∙ e)

  before-valid :
      (v i : List P) (m : Option (P × P)) (p : P)
      → ok.cover p ≡ []
      → covers (join_middle buf m (v ++ (p ∷ [])) i).0 ≡ covers (join_middle buf m v i).0
  unfolding join_middle
  before-valid v i none p e = covers-last v p ∙ rw e (append-nil (covers v))
  before-valid v i (some (a, b)) p e =
      covers-last (v ++ (p ∷ [])) a
      ∙ ap (λ x. x ++ ok.cover a) (covers-last v p ∙ rw e (append-nil (covers v)))
      ∙ sym (covers-last v a)

  behind-valid :
      (v w i : List P) (m : Option (P × P))
      → covers (join_middle buf m w i).1 ≡ covers (join_middle buf m v i).1
  unfolding join_middle
  behind-valid v w i none = refl
  behind-valid v w i (some both) = refl

  before-invalid :
      (v i j : List P) (m : Option (P × P))
      → covers (join_middle buf m v j).0 ≡ covers (join_middle buf m v i).0
  unfolding join_middle
  before-invalid v i j none = refl
  before-invalid v i j (some both) = refl

  behind-invalid :
      (v i : List P) (m : Option (P × P)) (p : P)
      → covers (join_middle buf m v (i ++ (p ∷ []))).1
        ≡ covers (join_middle buf m v i).1 ++ ok.cover p
  unfolding join_middle
  behind-invalid v i none p = covers-last i p
  behind-invalid v i (some (a, b)) p = covers-last (b ∷ i) p

  -- The parts after the loop, by what they cover.
  abbrev Halves : Option (Parts P) → List ℕ → List ℕ → Type ℓ
  Halves r first second = (s : Parts P) × (r ≡ some s) × (before s ≡ first) × (behind s ≡ second)

  pub turn-fits :
      (p : P) (s : Parts P)
      → buf.size p ≤ s.n
      → turn buf p s ≡ some (record s { valid = s.valid ++ (p ∷ []); n = s.n - buf.size p })
  unfolding turn
  turn-fits p s h = rw (fits (buf.size p) s.n h) refl

  pub turn-splits :
      (p : P) (s : Parts P)
      → 0 < s.n
      → s.n < buf.size p
      → turn buf p s ≡ set_middle buf s (buf.split p s.n)
  unfolding turn
  turn-splits p s g h = rw (exceeds (buf.size p) s.n h, positive s.n g) refl

  pub turn-past :
      (p : P) (s : Parts P)
      → s.n ≡ 0
      → 0 < buf.size p
      → turn buf p s ≡ some (record s { invalid = s.invalid ++ (p ∷ []) })
  unfolding turn
  turn-past p s g h = rw (exceeds (buf.size p) s.n (omega (arith, g, h)), not_positive s.n g) refl

  abbrev pub exhausted : List P → Option (P × P) → List P → Parts P
  exhausted v m i = record { valid = v; middle = m; invalid = i; n = 0 }

  turns-exhausted :
      (iov v i : List P) (m : Option (P × P))
      → Halves
          (split_turns buf iov (some (exhausted v m i)))
          (before (exhausted v m i))
          (behind (exhausted v m i) ++ covers iov)
  unfolding split_turns
  turns-exhausted [] v i m = (exhausted v m i, refl, refl, sym (append-nil _))
  turns-exhausted (p ∷ iov) v i m = elim (dec_lt 0 (buf.size p)) [
    | yes h ↦ rw (turn-past p (exhausted v m i) refl h) (
        let (s, e, f, g) = turns-exhausted iov v (i ++ (p ∷ [])) m in
        (
          s,
          e,
          f ∙ before-invalid v i (i ++ (p ∷ [])) m,
          g
              ∙ ap (λ x. x ++ covers iov) (behind-invalid v i m p)
              ∙ append_assoc (behind (exhausted v m i)) (ok.cover p) (covers iov),
        ))
    | no h ↦
        let z : buf.size p ≡ 0 = omega (arith, h) in
        rw (turn-fits p (exhausted v m i) (omega (arith, z)), z)
          (let (s, e, f, g) = turns-exhausted iov (v ++ (p ∷ [])) i m in
            (
              s,
              e,
              f ∙ before-valid v i m p (size-zero p z),
              g
                  ∙ rw (size-zero p z)
                      (ap (λ x. x ++ covers iov) (behind-valid v (v ++ (p ∷ [])) i m)),
            ))
  ]

  -- The three ends of a turn that has bytes to go.
  split-fits :
      (p : P) (iov v : List P) (n : ℕ) (r : Option (Parts P))
      → buf.size p ≤ n
      → Halves r
          (covers (v ++ (p ∷ [])) ++ take (n - buf.size p) (covers iov))
          (drop (n - buf.size p) (covers iov))
      → Halves r (covers v ++ take n (covers (p ∷ iov))) (drop n (covers (p ∷ iov)))
  split-fits p iov v n r h (s, e, f, g) =
      let k : length (ok.cover p) ≤ n = omega (arith, h, ok.length-cover p) in
      let m : n - length (ok.cover p) ≡ n - buf.size p = omega (arith, ok.length-cover p) in
      (
        s,
        e,
        f
            ∙ ap (λ x. x ++ take (n - buf.size p) (covers iov)) (covers-last v p)
            ∙ append_assoc (covers v) (ok.cover p) (take (n - buf.size p) (covers iov))
            ∙ ap (λ x. covers v ++ x)
                (ap (λ k. ok.cover p ++ take k (covers iov)) (sym m)
                  ∙ sym (take-append_ge n (ok.cover p) (covers iov) k)),
        g
            ∙ ap (λ k. drop k (covers iov)) (sym m)
            ∙ sym (drop-append_ge n (ok.cover p) (covers iov) k),
      )

  split-splits :
      (p a b : P) (iov v : List P) (n : ℕ) (r : Option (Parts P))
      → n < buf.size p
      → ok.cover a ≡ take n (ok.cover p)
      → ok.cover b ≡ drop n (ok.cover p)
      → Halves r (covers (v ++ (a ∷ []))) (covers (b ∷ []) ++ covers iov)
      → Halves r (covers v ++ take n (covers (p ∷ iov))) (drop n (covers (p ∷ iov)))
  split-splits p a b iov v n r h ca cb (s, e, f, g) =
      let k : n ≤ length (ok.cover p) = omega (arith, h, ok.length-cover p) in
      (
        s,
        e,
        f
            ∙ covers-last v a
            ∙ ap (λ x. covers v ++ x) (ca ∙ sym (take-append_le n (ok.cover p) (covers iov) k)),
        g
            ∙ ap (λ x. x ++ covers iov) (append-nil (ok.cover b) ∙ cb)
            ∙ sym (drop-append_le n (ok.cover p) (covers iov) k),
      )

  split-past :
      (p : P) (iov v : List P) (r : Option (Parts P))
      → Halves r (covers v) (covers (p ∷ []) ++ covers iov)
      → Halves r (covers v ++ take 0 (covers (p ∷ iov))) (drop 0 (covers (p ∷ iov)))
  split-past p iov v r (s, e, f, g) = (
    s,
    e,
    f ∙ sym (append-nil (covers v)),
    g ∙ ap (λ x. x ++ covers iov) (append-nil (ok.cover p)),
  )

  turns-split :
      (iov v : List P) (n : ℕ)
      → Halves
          (split_turns buf iov (some record { valid = v; middle = none; invalid = []; n = n }))
          (covers v ++ take n (covers iov))
          (drop n (covers iov))
  unfolding split_turns join_middle set_middle
  turns-split [] v n = (
    record { valid = v; middle = none; invalid = []; n = n },
    refl,
    sym (append-nil (covers v)) ∙ ap (λ x. covers v ++ x) (sym (take-nil n)),
    sym (drop-nil n),
  )
  turns-split (p ∷ iov) v n = elim (dec_lt n (buf.size p)) [
    | no h ↦
        rw
          (turn-fits p (record { valid = v; middle = none; invalid = []; n = n })
            (omega (arith, h)))
          (split-fits p iov v n _ (omega (arith, h))
            (turns-split iov (v ++ (p ∷ [])) (n - buf.size p)))
    | yes h ↦ (elim (dec_lt 0 n) [
      | yes g ↦
          let (a, b, e, ca, cb) = ok.cover-split p n (omega (arith, h)) in
          rw (turn-splits p (record { valid = v; middle = none; invalid = []; n = n }) g h, e)
            (split-splits p a b iov v n _ h ca cb (turns-exhausted iov v [] (some (a, b))))
      | no g ↦
          let z : n ≡ 0 = omega (arith, g) in
          rw (z, turn-past p (exhausted v none []) refl (omega (arith, z, h)))
            (split-past p iov v _ (turns-exhausted iov v (p ∷ []) none))
    ])
  ]

  joined :
      (r : Option (Parts P)) (x y : List ℕ)
      → Halves r x y
      → (first : List P) × (second : List P) × (join_parts buf r ≡ some (first, second))
        × (covers first ≡ x)
        × (covers second ≡ y)
  unfolding join_parts
  joined r x y (s, e, f, g) = (
    (join_middle buf s.middle s.valid s.invalid).0,
    (join_middle buf s.middle s.valid s.invalid).1,
    rw e refl,
    f,
    g,
  )

  -- The split of a list of pointers succeeds for every number of bytes. The first list covers the
  -- first `n` bytes of the list in their order, or all of them if there are fewer, and the second list
  -- covers the others, provided that the split of a pointer keeps its bytes.
  pub split_lem :
      (iov : List P) (n : ℕ)
      → (first : List P) × (second : List P) × (split buf iov n ≡ some (first, second))
        × (covers first ≡ take n (covers iov))
        × (covers second ≡ drop n (covers iov))
  unfolding split split_with_middle
  split_lem iov n = joined _ _ _ (turns-split iov [] n)
