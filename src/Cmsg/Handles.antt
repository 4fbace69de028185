-- ===== src/Cmsg/Handles.antt =====
-- python/rsyscall/handle/fd.py, called by CmsgSCMRights.from_data: the handles of the file descriptors
-- that are received.
use rsyscall.Base.{
  ℕ, ◌+◌, ◌<◌, ◌≡◌, refl, sym, ◌∙◌, subst, true, false, List, [], ◌∷◌, ◌++◌, none, some, arith, has,
  length,
}
use rsyscall.Handle.Fd.{Fds, ok, err, already_known, make_fd_handle, make_from_near}
use rsyscall.Handle.Fd.Tracking.{track}
use rsyscall.Handle.Fd.Lifecycle.{make_from_near-eq}

-- The task `k` knows none of the numbers, and they differ.
abbrev pub Unknown : Fds → ℕ → List ℕ → Type 0
Unknown s k [] = Unit {0}
Unknown s k (n ∷ l) =
    (s.near_to_handles (s.fd_table k) n ≡ none) × (has n l ≡ false) × Unknown s k l

-- `h` is a valid handle of the task `k` for the file descriptor `n`.
abbrev pub Denotes : Fds → ℕ → ℕ → ℕ → Type 0
Denotes s k h n = (s.task h ≡ k) × (s.near h ≡ n) × (s.valid h ≡ true)

abbrev pub AllDenote : Fds → ℕ → List ℕ → List ℕ → Type 0
AllDenote s k [] [] = Unit {0}
AllDenote s k [] (n ∷ l) = ⊥
AllDenote s k (h ∷ handles) [] = ⊥
AllDenote s k (h ∷ handles) (n ∷ l) = Denotes s k h n × AllDenote s k handles l

abbrev pub EntriesDenote : Fds → ℕ → List (List ℕ) → List (List ℕ) → Type 0
EntriesDenote s k [] [] = Unit {0}
EntriesDenote s k [] (n ∷ l) = ⊥
EntriesDenote s k (h ∷ handles) [] = ⊥
EntriesDenote s k (h ∷ handles) (n ∷ l) = AllDenote s k h n × EntriesDenote s k handles l

abbrev pub flat : List (List ℕ) → List ℕ
flat [] = []
flat (x ∷ l) = x ++ flat l

-- The handles that are made for the numbers, and the state then.
abbrev pub handles_from : ℕ → List ℕ → List ℕ
handles_from h [] = []
handles_from h (n ∷ l) = h ∷ handles_from (h + 1) l

abbrev pub entries_from : ℕ → List (List ℕ) → List (List ℕ)
entries_from h [] = []
entries_from h (x ∷ l) = handles_from h x ∷ entries_from (h + length x) l

abbrev pub made : ℕ → List ℕ → Fds → Fds
made k [] s = s
made k (n ∷ l) s = made k l (track k n s)

pub made-append : (k : ℕ) (x y : List ℕ) (s : Fds) → made k (x ++ y) s ≡ made k y (made k x s)
made-append k [] y s = refl
made-append k (n ∷ x) y s = made-append k x y (track k n s)

pub next-made : (k : ℕ) (l : List ℕ) (s : Fds) → (made k l s).next ≡ s.next + length l
next-made k [] s = omega arith
next-made k (n ∷ l) s = next-made k l (track k n s) ∙ omega arith

pub manipulating-made :
    (k : ℕ) (l : List ℕ) (s : Fds) → (made k l s).manipulating_fd_table ≡ s.manipulating_fd_table
manipulating-made k [] s = refl
manipulating-made k (n ∷ l) s = manipulating-made k l (track k n s)

pub make_fd_handle-track :
    (k n : ℕ) (s : Fds)
    → s.manipulating_fd_table k ≡ false
    → s.near_to_handles (s.fd_table k) n ≡ none
    → make_fd_handle k n s ≡ (ok s.next, track k n s)
unfolding make_fd_handle
make_fd_handle-track k n s m e =
    let unknown : make_fd_handle k n s ≡ make_from_near k n s = rw (e, make_fd_handle) refl in
    unknown ∙ make_from_near-eq k n s m

pub make_fd_handle-known :
    (k n : ℕ) (known : List ℕ) (s : Fds)
    → s.near_to_handles (s.fd_table k) n ≡ some known
    → make_fd_handle k n s ≡ (err already_known, s)
unfolding make_fd_handle
make_fd_handle-known k n known s e = rw (e, make_fd_handle) refl

pub track-Unknown :
    (k n : ℕ) (l : List ℕ) (s : Fds) → has n l ≡ false → Unknown s k l → Unknown (track k n s) k l
track-Unknown k n [] s h u = tt
track-Unknown k n (m ∷ l) s h (e, f, u) =
    (ground (arith, e, h), f, track-Unknown k n l s (ground (arith, h)) u)

has-left : (n : ℕ) (x y : List ℕ) → has n (x ++ y) ≡ false → has n x ≡ false
has-left n [] y h = refl
has-left n (m ∷ x) y h = ground (arith, h, has-left n x y)

pub Unknown-left : (k : ℕ) (x y : List ℕ) (s : Fds) → Unknown s k (x ++ y) → Unknown s k x
Unknown-left k [] y s u = tt
Unknown-left k (n ∷ x) y s (e, f, u) = (e, has-left n x y f, Unknown-left k x y s u)

pub Unknown-made :
    (k : ℕ) (x y : List ℕ) (s : Fds) → Unknown s k (x ++ y) → Unknown (made k x s) k y
Unknown-made k [] y s u = u
Unknown-made k (n ∷ x) y s (e, f, u) =
    Unknown-made k x y (track k n s) (track-Unknown k n (x ++ y) s f u)

-- A handle that is there denotes what it did.
Denotes-made :
    (k j h m : ℕ) (l : List ℕ) (s : Fds) → h < s.next → Denotes s j h m → Denotes (made k l s) j h m
Denotes-made k j h m [] s lt d = d
Denotes-made k j h m (n ∷ l) s lt d =
    Denotes-made k j h m l (track k n s) (omega (arith, lt)) (ground (arith, lt, d))

AllDenote-handles_from :
    (k : ℕ) (x y : List ℕ) (s : Fds) → AllDenote (made k (x ++ y) s) k (handles_from s.next x) x
AllDenote-handles_from k [] y s = tt
AllDenote-handles_from k (n ∷ x) y s = (
  Denotes-made k k s.next n (x ++ y) (track k n s) (omega arith) (ground arith),
  AllDenote-handles_from k x y (track k n s),
)

pub EntriesDenote-entries_from :
    (k : ℕ) (l : List (List ℕ)) (s : Fds)
    → EntriesDenote (made k (flat l) s) k (entries_from s.next l) l
EntriesDenote-entries_from k [] s = tt
EntriesDenote-entries_from k (x ∷ l) s = (
  AllDenote-handles_from k x (flat l) s,
  subst (λ t. EntriesDenote t k (entries_from (s.next + length x) l) l)
      (sym (made-append k x (flat l) s))
      (subst (λ n. EntriesDenote (made k (flat l) (made k x s)) k (entries_from n l) l)
        (next-made k x s) (EntriesDenote-entries_from k l (made k x s))),
)
