-- ===== src/Handle/Fd/Tracking.antt =====
-- The sets in which fd.py tracks its handles.
use rsyscall.Base.{
  ℕ, ◌+◌, ◌≤◌, ◌≡◌, true, false, ◌&&◌, List, [], ◌∷◌, Option, some, arith, ◌==◌, if◌then◌else◌,
  Bool-cases, inl, inr, has,
}
use rsyscall.Handle.Fd.{Fds, ok, update, put, without, or_empty, remove_from_tracking}

-- The handles that the table `t` lists for the number `n`.
abbrev pub handles_at : Fds → ℕ → ℕ → List ℕ
handles_at s t n = or_empty (s.near_to_handles t n)

-- A list without repetitions, as the list of a set's members is.
abbrev pub Distinct : List ℕ → Type 0
Distinct [] = Unit {0}
Distinct (a ∷ l) = (has a l ≡ false) × Distinct l

-- Exactly the valid handles are tracked: by their task, and under their number by the table of their
-- task.
pub record Tracked (s : Fds) : Type 0 where
  pub own : (h : ℕ) → s.valid h ≡ true → has h (s.fd_handles (s.task h)) ≡ true
  pub global :
      (h : ℕ) → s.valid h ≡ true → has h (handles_at s (s.fd_table (s.task h)) (s.near h)) ≡ true
  pub owned : (k h : ℕ) → has h (s.fd_handles k) ≡ true → (s.valid h ≡ true) × (s.task h ≡ k)
  pub listed :
      (t n h : ℕ)
      → has h (handles_at s t n) ≡ true
      → (s.valid h ≡ true) × (s.fd_table (s.task h) ≡ t) × (s.near h ≡ n)
  pub distinct : (t n : ℕ) → Distinct (handles_at s t n)
  pub fresh : (h : ℕ) → s.next ≤ h → s.valid h ≡ false

pub has-without : (h g : ℕ) (l : List ℕ) → has g (without h l) ≡ (if h == g then false else has g l)
has-without h g [] = ground arith
has-without h g (a ∷ l) = ground (arith, has-without h g l)

pub without-Distinct : (h : ℕ) (l : List ℕ) → Distinct l → Distinct (without h l)
without-Distinct h [] d = tt
without-Distinct h (a ∷ l) (f, d) = elim (Bool-cases (a == h)) [
  | inl e ↦ rw e (without-Distinct h l d)
  | inr e ↦ rw e (ground (arith, has-without h a l), without-Distinct h l d)
]

pub put-Distinct :
    (d : ℕ → ℕ → Option (List ℕ)) (t n : ℕ) (l : List ℕ)
    → ((t' n' : ℕ) → Distinct (or_empty (d t' n')))
    → Distinct l
    → (t' n' : ℕ) → Distinct (or_empty (put d t n (some l) t' n'))
put-Distinct d t n l old new t' n' = elim (Bool-cases ((t' == t) && (n' == n))) [
  | inl e ↦ rw e new
  | inr e ↦ rw e (old t' n')
]

-- The state after a handle was made.
abbrev pub track : ℕ → ℕ → Fds → Fds
track k n s = record s {
  task = update s.task s.next k;
  near = update s.near s.next n;
  valid = update s.valid s.next true;
  next = s.next + 1;
  fd_handles = update s.fd_handles k (s.next ∷ s.fd_handles k);
  near_to_handles =
      put s.near_to_handles (s.fd_table k) n (some (s.next ∷ handles_at s (s.fd_table k) n));
}

-- The state after a handle was made invalid and removed from the sets.
abbrev pub untrack : ℕ → Fds → Fds
untrack h s = record s {
  valid = update s.valid h false;
  fd_handles = update s.fd_handles (s.task h) (without h (s.fd_handles (s.task h)));
  near_to_handles =
      put s.near_to_handles (s.fd_table (s.task h)) (s.near h)
        (some (without h (handles_at s (s.fd_table (s.task h)) (s.near h))));
}

module _ (s : Fds) (w : Tracked s) where
  pub track-Tracked : (k n : ℕ) → Tracked (track k n s)
  track-Tracked k n = record {
    own = λ h v. ground (arith, w.own h, w.fresh s.next (omega arith));
    global = λ h v. ground (arith, w.global h);
    owned = λ j h e. ground (arith, w.owned j h, w.fresh s.next (omega arith));
    listed = λ t m h e. ground (arith, w.listed t m h, w.fresh s.next (omega arith));
    distinct =
        put-Distinct s.near_to_handles (s.fd_table k) n (s.next ∷ handles_at s (s.fd_table k) n)
          w.distinct
          (
            ground (arith, w.listed (s.fd_table k) n s.next, w.fresh s.next (omega arith)),
            w.distinct (s.fd_table k) n,
          );
    fresh = λ h le. ground (arith, w.fresh h);
  }

  pub untrack-Tracked : (h : ℕ) → s.valid h ≡ true → Tracked (untrack h s)
  untrack-Tracked h v = record {
    own = λ g e. ground (arith, w.own g, has-without h g (s.fd_handles (s.task h)));
    global = λ g e.
        ground
          (arith, w.global g, has-without h g (handles_at s (s.fd_table (s.task h)) (s.near h)));
    owned = λ k g e. ground (arith, w.owned k g, has-without h g (s.fd_handles (s.task h)));
    listed = λ t n g e.
        ground (
          arith,
          w.listed t n g,
          has-without h g (handles_at s (s.fd_table (s.task h)) (s.near h)),
        );
    distinct =
        put-Distinct s.near_to_handles (s.fd_table (s.task h)) (s.near h)
          (without h (handles_at s (s.fd_table (s.task h)) (s.near h))) w.distinct
          (without-Distinct h (handles_at s (s.fd_table (s.task h)) (s.near h))
            (w.distinct (s.fd_table (s.task h)) (s.near h)));
    fresh = λ g le. ground (arith, w.fresh g le);
  }

  -- A valid handle is found in both sets.
  pub remove_from_tracking-eq :
      (h : ℕ)
      → s.valid h ≡ true
      → remove_from_tracking h (record s { valid = update s.valid h false })
        ≡ (ok (without h (handles_at s (s.fd_table (s.task h)) (s.near h))), untrack h s)
  unfolding remove_from_tracking
  remove_from_tracking-eq h v = ground (arith, w.own h v, w.global h v)
