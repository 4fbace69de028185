-- ===== src/Memory/Arena/Tracking.antt =====
-- Which objects an arena lists, against the `valid` fields of allocator.py's `Allocation`.
use mathlib.Core.List.{append_assoc}
use rsyscall.Base.{
  ℕ, ◌+◌, ◌≤◌, ◌<◌, ◌≡◌, refl, sym, ap, subst, ◌≢◌, ◌⊎◌, inl, inr, Bool, true, false, List, [], ◌∷◌,
  ◌++◌, Option, none, some, arith, ◌==◌, if◌then◌else◌, length,
}
use rsyscall.Memory.Arena.{Allocation, index, remove, insert_at, set_valid}

-- The object with identity `i` is in the list.
abbrev pub Listed : ℕ → List Allocation → Type 0
Listed i [] = ⊥
Listed i (a ∷ l) = (a.ident ≡ i) ⊎ Listed i l

abbrev pub Absent : ℕ → List Allocation → Type 0
Absent i [] = Unit
Absent i (a ∷ l) = (a.ident ≢ i) × Absent i l

abbrev pub Distinct : List Allocation → Type 0
Distinct [] = Unit
Distinct (a ∷ l) = Absent a.ident l × Distinct l

-- Every listed object is valid, belongs to the arena and was made before `next`.
abbrev pub Live : ℕ → (ℕ → Bool) → ℕ → List Allocation → Type 0
Live arena valid next [] = Unit
Live arena valid next (a ∷ l) =
    (valid a.ident ≡ true) × (a.ident < next) × (a.arena ≡ arena) × Live arena valid next l

pub record Tracks (arena : ℕ) (valid : ℕ → Bool) (next : ℕ) (l : List Allocation) : Type 0 where
  pub distinct : Distinct l
  pub live : Live arena valid next l
  pub tracked : (i : ℕ) → valid i ≡ true → Listed i l

-- The object that a reference denotes.
unfoldable pub find : ℕ → List Allocation → Option Allocation
find i [] = none
find i (a ∷ l) = if a.ident == i then some a else find i l

-- Where the object with identity `i` stands in the list.
pub record At (i : ℕ) (l : List Allocation) : Type 0 where
  pub before : List Allocation
  pub here : Allocation
  pub after : List Allocation
  pub named : here.ident ≡ i
  pub list : l ≡ before ++ (here ∷ after)
  pub position : index i l ≡ some (length before)
  pub removed : remove i l ≡ some (before ++ after)

At-head : (i : ℕ) (a : Allocation) (l : List Allocation) → a.ident ≡ i → At i (a ∷ l)
unfolding index remove
At-head i a l e = record {
  before = [];
  here = a;
  after = l;
  named = e;
  list = refl;
  position = ground arith;
  removed = ground arith;
}

At-cons : (i : ℕ) (b : Allocation) (l : List Allocation) → b.ident ≢ i → At i l → At i (b ∷ l)
unfolding index remove
At-cons i b l ne w = record {
  before = b ∷ w.before;
  here = w.here;
  after = w.after;
  named = w.named;
  list = ap (λ t. b ∷ t) w.list;
  position = ground (arith, w.position);
  removed = ground (arith, w.removed);
}

pub ℕ-cases : (i j : ℕ) → (i ≡ j) ⊎ (i ≢ j)
ℕ-cases i j = ground arith

find-head :
    (i : ℕ) (a b : Allocation) (l : List Allocation) → find i (b ∷ l) ≡ some a → b.ident ≡ i → b ≡ a
unfolding find
find-head i a b l e same = ground arith

pub find-At :
    (i : ℕ) (a : Allocation) (l : List Allocation) → find i l ≡ some a → (w : At i l) × (w.here ≡ a)
unfolding find At-head At-cons
find-At i a [] e = cc
find-At i a (b ∷ l) e = elim (ℕ-cases b.ident i) [
  | inl same ↦ (At-head i b l same, find-head i a b l e same)
  | inr ne ↦ let (w, here) = find-At i a l (ground arith) in (At-cons i b l ne w, here)
]

-- A listed identity is that of an object of the list.
pub Listed-At : (i : ℕ) (l : List Allocation) → Listed i l → At i l
Listed-At i [] h = elim h [ ]
Listed-At i (b ∷ l) (inl e) = At-head i b l e
Listed-At i (b ∷ l) (inr h) = elim (ℕ-cases b.ident i) [
  | inl e ↦ At-head i b l e
  | inr ne ↦ At-cons i b l ne (Listed-At i l h)
]

pub insert_at-length :
    (pre new post : List Allocation)
    → insert_at (length pre) new (pre ++ post) ≡ pre ++ (new ++ post)
insert_at-length [] new post = refl
insert_at-length (a ∷ pre) new post = ap (λ t. a ∷ t) (insert_at-length pre new post)

-- The identities of a list with one object more or less in the middle.
pub Absent-remove :
    (i : ℕ) (pre : List Allocation) (a : Allocation) (post : List Allocation)
    → Absent i (pre ++ (a ∷ post))
    → Absent i (pre ++ post) × (a.ident ≢ i)
Absent-remove i [] a post h = (h.1, h.0)
Absent-remove i (b ∷ pre) a post h =
    let rest = Absent-remove i pre a post h.1 in ((h.0, rest.0), rest.1)

pub Absent-insert :
    (i : ℕ) (pre : List Allocation) (a : Allocation) (post : List Allocation)
    → Absent i (pre ++ post)
    → a.ident ≢ i
    → Absent i (pre ++ (a ∷ post))
Absent-insert i [] a post h ne = (ne, h)
Absent-insert i (b ∷ pre) a post h ne = (h.0, Absent-insert i pre a post h.1 ne)

pub Distinct-remove :
    (pre : List Allocation) (a : Allocation) (post : List Allocation)
    → Distinct (pre ++ (a ∷ post))
    → Distinct (pre ++ post) × Absent a.ident (pre ++ post)
Distinct-remove [] a post h = (h.1, h.0)
Distinct-remove (b ∷ pre) a post h =
    let rest = Distinct-remove pre a post h.1 in
    let parts = Absent-remove b.ident pre a post h.0 in
    ((parts.0, rest.0), ((λ e. parts.1 (sym e)), rest.1))

Distinct-insert :
    (pre : List Allocation) (a : Allocation) (post : List Allocation)
    → Distinct (pre ++ post)
    → Absent a.ident (pre ++ post)
    → Distinct (pre ++ (a ∷ post))
Distinct-insert [] a post h n = (n, h)
Distinct-insert (b ∷ pre) a post h n =
    (Absent-insert b.ident pre a post h.0 (λ e. n.0 (sym e)), Distinct-insert pre a post h.1 n.1)

Listed-remove :
    (i : ℕ) (pre : List Allocation) (a : Allocation) (post : List Allocation)
    → Listed i (pre ++ (a ∷ post))
    → a.ident ≢ i
    → Listed i (pre ++ post)
Listed-remove i [] a post (inl e) ne = absurd (ne e)
Listed-remove i [] a post (inr h) ne = h
Listed-remove i (b ∷ pre) a post (inl e) ne = inl e
Listed-remove i (b ∷ pre) a post (inr h) ne = inr (Listed-remove i pre a post h ne)

Listed-insert :
    (i : ℕ) (pre : List Allocation) (a : Allocation) (post : List Allocation)
    → (a.ident ≡ i) ⊎ Listed i (pre ++ post)
    → Listed i (pre ++ (a ∷ post))
Listed-insert i [] a post h = h
Listed-insert i (b ∷ pre) a post (inl e) = inr (Listed-insert i pre a post (inl e))
Listed-insert i (b ∷ pre) a post (inr (inl e)) = inl e
Listed-insert i (b ∷ pre) a post (inr (inr h)) = inr (Listed-insert i pre a post (inr h))

-- What the searches find in the middle of a list.
module _ (i : ℕ) (a : Allocation) (post : List Allocation) (named : a.ident ≡ i) where
  pub find-middle : (pre : List Allocation) → Absent i pre → find i (pre ++ (a ∷ post)) ≡ some a
  unfolding find
  find-middle [] n = ground arith
  find-middle (b ∷ pre) n = ground (arith, n.0, find-middle pre n.1)

  pub index-middle :
      (pre : List Allocation) → Absent i pre → index i (pre ++ (a ∷ post)) ≡ some (length pre)
  unfolding index
  index-middle [] n = ground arith
  index-middle (b ∷ pre) n = ground (arith, n.0, index-middle pre n.1)

  pub remove-middle :
      (pre : List Allocation) → Absent i pre → remove i (pre ++ (a ∷ post)) ≡ some (pre ++ post)
  unfolding remove
  remove-middle [] n = ground arith
  remove-middle (b ∷ pre) n = ground (arith, n.0, remove-middle pre n.1)

pub Absent-append_left :
    (i : ℕ) (pre post : List Allocation) → Absent i (pre ++ post) → Absent i pre
Absent-append_left i [] post n = tt
Absent-append_left i (b ∷ pre) post n = (n.0, Absent-append_left i pre post n.1)

pub find-Distinct :
    (pre : List Allocation) (a : Allocation) (post : List Allocation)
    → Distinct (pre ++ (a ∷ post))
    → find a.ident (pre ++ (a ∷ post)) ≡ some a
find-Distinct pre a post d =
    find-middle a.ident a post refl pre
      (Absent-append_left a.ident pre post (Distinct-remove pre a post d).1)

pub find-Distinct_next :
    (pre : List Allocation) (a b : Allocation) (post : List Allocation)
    → Distinct (pre ++ (a ∷ b ∷ post))
    → find b.ident (pre ++ (a ∷ b ∷ post)) ≡ some b
find-Distinct_next pre a b post d =
    let shift = append_assoc pre (a ∷ []) (b ∷ post) in
    subst (λ l. find b.ident l ≡ some b) shift
      (find-Distinct (pre ++ (a ∷ [])) b post (subst Distinct (sym shift) d))

pub index-Distinct :
    (pre : List Allocation) (a : Allocation) (post : List Allocation)
    → Distinct (pre ++ (a ∷ post))
    → index a.ident (pre ++ (a ∷ post)) ≡ some (length pre)
index-Distinct pre a post d =
    index-middle a.ident a post refl pre
      (Absent-append_left a.ident pre post (Distinct-remove pre a post d).1)

length-snoc : (pre : List Allocation) (a : Allocation) → length (pre ++ (a ∷ [])) ≡ length pre + 1
length-snoc [] a = omega arith
length-snoc (b ∷ pre) a = omega (arith, length-snoc pre a)

pub index-Distinct_next :
    (pre : List Allocation) (a b : Allocation) (post : List Allocation)
    → Distinct (pre ++ (a ∷ b ∷ post))
    → index b.ident (pre ++ (a ∷ b ∷ post)) ≡ some (length pre + 1)
index-Distinct_next pre a b post d =
    let shift = append_assoc pre (a ∷ []) (b ∷ post) in
    rw (← length-snoc pre a) (
      subst (λ l. index b.ident l ≡ some (length (pre ++ (a ∷ [])))) shift
        (index-Distinct (pre ++ (a ∷ [])) b post (subst Distinct (sym shift) d)))

-- The object after the one in the middle.
pub index_next :
    (j : ℕ) (pre : List Allocation) (a : Allocation) (post : List Allocation)
    → index j (pre ++ (a ∷ post)) ≡ some (length pre + 1)
    → (b : Allocation) × (post' : List Allocation) × (post ≡ b ∷ post') × (b.ident ≡ j)
unfolding index
index_next j [] a [] e = absurd (ground arith)
index_next j [] a (b ∷ post) e = (b, post, refl, ground arith)
index_next j (c ∷ pre) a post e = index_next j pre a post (ground arith)

pub find-valid :
    (arena i : ℕ) (valid : ℕ → Bool) (next : ℕ) (l : List Allocation) (a : Allocation)
    → Live arena valid next l
    → find i l ≡ some a
    → (valid i ≡ true) × (i < next) × (a.arena ≡ arena) × (a.ident ≡ i)
unfolding find
find-valid arena i valid next [] a h e = cc
find-valid arena i valid next (b ∷ l) a h e = elim (ℕ-cases b.ident i) [
  | inl same ↦
      let d : b ≡ a = ground arith in (rw same at h.0, rw same at h.1, ground arith, ground arith)
  | inr ne ↦ find-valid arena i valid next l a h.3 (ground arith)
]

-- An object made later than all listed ones is not listed.
pub Absent-fresh :
    (arena i : ℕ) (valid : ℕ → Bool) (next : ℕ) (l : List Allocation)
    → next ≤ i
    → Live arena valid next l
    → Absent i l
Absent-fresh arena i valid next [] le h = tt
Absent-fresh arena i valid next (a ∷ l) le h =
    (omega arith, Absent-fresh arena i valid next l le h.3)

-- Writing the flag of an object that is not listed keeps the listed ones alive.
Live-set :
    (arena i : ℕ) (b : Bool) (valid : ℕ → Bool) (next next' : ℕ) (l : List Allocation)
    → next ≤ next'
    → Absent i l
    → Live arena valid next l
    → Live arena (set_valid i b valid) next' l
Live-set arena i b valid next next' [] le n h = tt
Live-set arena i b valid next next' (a ∷ l) le n h =
    (ground (arith, n.0), omega arith, h.2, Live-set arena i b valid next next' l le n.1 h.3)

Live-remove :
    (arena : ℕ) (valid : ℕ → Bool) (next : ℕ) (pre : List Allocation) (a : Allocation)
    (post : List Allocation)
    → Live arena valid next (pre ++ (a ∷ post))
    → Live arena valid next (pre ++ post)
Live-remove arena valid next [] a post h = h.3
Live-remove arena valid next (b ∷ pre) a post h =
    (h.0, h.1, h.2, Live-remove arena valid next pre a post h.3)

Live-insert :
    (arena : ℕ) (valid : ℕ → Bool) (next : ℕ) (pre : List Allocation) (a : Allocation)
    (post : List Allocation)
    → valid a.ident ≡ true
    → a.ident < next
    → a.arena ≡ arena
    → Live arena valid next (pre ++ post)
    → Live arena valid next (pre ++ (a ∷ post))
Live-insert arena valid next [] a post v lt e h = (v, lt, e, h)
Live-insert arena valid next (b ∷ pre) a post v lt e h =
    (h.0, h.1, h.2, Live-insert arena valid next pre a post v lt e h.3)

module _ {arena : ℕ} {valid : ℕ → Bool} {next : ℕ} where
  -- `Allocation(...)` with `valid=False`.
  pub Tracks-make :
      {l : List Allocation}
      → Tracks arena valid next l
      → Tracks arena (set_valid next false valid) (next + 1) l
  Tracks-make {l} t = record {
    distinct = t.distinct;
    live =
        Live-set arena next false valid next (next + 1) l (omega arith)
          (Absent-fresh arena next valid next l (omega arith) t.live) t.live;
    tracked = λ i h. t.tracked i (ground arith);
  }

  -- `self.valid = False; self.arena.allocations.remove(self)`
  pub Tracks-remove :
      (pre : List Allocation) (a : Allocation) (post : List Allocation)
      → Tracks arena valid next (pre ++ (a ∷ post))
      → Tracks arena (set_valid a.ident false valid) next (pre ++ post)
  Tracks-remove pre a post t =
      let parts = Distinct-remove pre a post t.distinct in
      record {
        distinct = parts.0;
        live =
            Live-set arena a.ident false valid next next (pre ++ post) (omega arith) parts.1
              (Live-remove arena valid next pre a post t.live);
        tracked =
            λ i h. Listed-remove i pre a post (t.tracked i (ground arith)) (λ e. ground arith);
      }

  -- `allocations.insert(i, a); a.valid = True` for an object of the arena that is not listed.
  pub Tracks-insert :
      (next' : ℕ) (pre : List Allocation) (a : Allocation) (post : List Allocation)
      → next ≤ next'
      → Absent a.ident (pre ++ post)
      → a.ident < next'
      → a.arena ≡ arena
      → Tracks arena valid next (pre ++ post)
      → Tracks arena (set_valid a.ident true valid) next' (pre ++ (a ∷ post))
  Tracks-insert next' pre a post le n lt e t = record {
    distinct = Distinct-insert pre a post t.distinct n;
    live =
        Live-insert arena (set_valid a.ident true valid) next' pre a post (ground arith) lt e
          (Live-set arena a.ident true valid next next' (pre ++ post) le n t.live);
    tracked = λ i h. Listed-insert i pre a post (known i h);
  }
    where
      known :
          (i : ℕ) → set_valid a.ident true valid i ≡ true → (a.ident ≡ i) ⊎ Listed i (pre ++ post)
      known i h = elim (ℕ-cases a.ident i) [
        | inl same ↦ inl same
        | inr ne ↦ inr (t.tracked i (ground arith))
      ]
