-- ===== src/Handle/Fd/Unshare/Moved.antt =====
-- fd.py: the handles of a task move from its old table to a fresh one.
use rsyscall.Base.{
  ℕ, ◌≡◌, refl, true, false, ◌&&◌, List, [], ◌∷◌, Option, some, ◌==◌, if◌then◌else◌, arith,
  Bool-cases, inl, inr, has,
}
use rsyscall.Handle.Fd.{Fds, ok, put, without, or_empty}
use rsyscall.Handle.Fd.Tracking.{handles_at, Distinct, has-without, without-Distinct, put-Distinct}
use rsyscall.Handle.Fd.Unshare.{set_add, add_handles, remove_handle, remove_handles}

-- The dicts of the tables, and what the two loops do to them.
abbrev pub Dicts : Type 0
Dicts = ℕ → ℕ → Option (List ℕ)

abbrev pub add_all : List ℕ → ℕ → (ℕ → ℕ) → Dicts → Dicts
add_all [] t near d = d
add_all (h ∷ l) t near d =
    let rest = add_all l t near d in
    put rest t (near h) (some (set_add h (or_empty (rest t (near h)))))

abbrev pub remove_all : List ℕ → ℕ → (ℕ → ℕ) → Dicts → Dicts
remove_all [] t near d = d
remove_all (h ∷ l) t near d =
    remove_all l t near (put d t (near h) (some (without h (or_empty (d t (near h))))))

pub add_handles-eq :
    (l : List ℕ) (t : ℕ) (s : Fds)
    → add_handles l t s ≡ record s { near_to_handles = add_all l t s.near s.near_to_handles }
unfolding add_handles
add_handles-eq [] t s = refl
add_handles-eq (h ∷ l) t s = rw (add_handles-eq l t s) refl

has-set_add : (g h : ℕ) (l : List ℕ) → has g (set_add h l) ≡ (if h == g then true else has g l)
has-set_add g h l = ground arith

set_add-Distinct : (h : ℕ) (l : List ℕ) → Distinct l → Distinct (set_add h l)
set_add-Distinct h l d = elim (Bool-cases (has h l)) [ inl e ↦ rw e d | inr e ↦ rw e (e, d) ]

pub add_all-Distinct :
    (l : List ℕ) (t : ℕ) (near : ℕ → ℕ) (d : Dicts)
    → ((t' n : ℕ) → Distinct (or_empty (d t' n)))
    → (t' n : ℕ) → Distinct (or_empty (add_all l t near d t' n))
add_all-Distinct [] t near d w = w
add_all-Distinct (h ∷ l) t near d w =
    let rest = add_all l t near d in
    put-Distinct rest t (near h) (set_add h (or_empty (rest t (near h))))
      (add_all-Distinct l t near d w)
      (set_add-Distinct h (or_empty (rest t (near h))) (add_all-Distinct l t near d w t (near h)))

pub remove_all-Distinct :
    (l : List ℕ) (t : ℕ) (near : ℕ → ℕ) (d : Dicts)
    → ((t' n : ℕ) → Distinct (or_empty (d t' n)))
    → (t' n : ℕ) → Distinct (or_empty (remove_all l t near d t' n))
remove_all-Distinct [] t near d w = w
remove_all-Distinct (h ∷ l) t near d w =
    remove_all-Distinct l t near (put d t (near h) (some (without h (or_empty (d t (near h)))))) (
      put-Distinct d t (near h) (without h (or_empty (d t (near h)))) w
        (without-Distinct h (or_empty (d t (near h))) (w t (near h))))

-- The handles that a table lists after each loop.
pub has-add_all :
    (g : ℕ) (l : List ℕ) (t : ℕ) (near : ℕ → ℕ) (d : Dicts) (t' n : ℕ)
    → has g (or_empty (add_all l t near d t' n))
      ≡ (if (t' == t) && (n == near g) && has g l then true else has g (or_empty (d t' n)))
has-add_all g [] t near d t' n = ground arith
has-add_all g (h ∷ l) t near d t' n =
    let rest = add_all l t near d in
    ground (arith, has-add_all g l t near d t' n, has-set_add g h (or_empty (rest t (near h))))

pub has-remove_all :
    (g : ℕ) (l : List ℕ) (t : ℕ) (near : ℕ → ℕ) (d : Dicts) (t' n : ℕ)
    → has g (or_empty (remove_all l t near d t' n))
      ≡ (if (t' == t) && (n == near g) && has g l then false else has g (or_empty (d t' n)))
has-remove_all g [] t near d t' n = ground arith
has-remove_all g (h ∷ l) t near d t' n =
    let d' = put d t (near h) (some (without h (or_empty (d t (near h))))) in
    ground (arith, has-remove_all g l t near d' t' n, has-without h g (or_empty (d t (near h))))

-- Each handle that is to be removed is found.
remove_handle-eq :
    (h t : ℕ) (s : Fds)
    → has h (handles_at s t (s.near h)) ≡ true
    → remove_handle h t s ≡ (
      ok tt,
      record s {
        near_to_handles =
            put s.near_to_handles t (s.near h) (some (without h (handles_at s t (s.near h))));
      },
    )
remove_handle-eq h t s e = ground arith

pub remove_handles-eq :
    (l : List ℕ) (t : ℕ) (s : Fds)
    → Distinct l
    → ((h : ℕ) → has h l ≡ true → has h (handles_at s t (s.near h)) ≡ true)
    → remove_handles l t s
      ≡ (ok tt, record s { near_to_handles = remove_all l t s.near s.near_to_handles })
unfolding remove_handles
remove_handles-eq [] t s d e = refl
remove_handles-eq (h ∷ l) t s (f, d) e = rw (remove_handle-eq h t s (e h (ground arith))) (
    remove_handles-eq l t
      (record s {
        near_to_handles =
            put s.near_to_handles t (s.near h) (some (without h (handles_at s t (s.near h))));
      })
      d (λ g i. ground (arith, e g, has-without h g (handles_at s t (s.near h)))))
