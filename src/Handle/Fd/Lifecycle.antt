-- ===== src/Handle/Fd/Lifecycle.antt =====
-- fd.py: making handles, and what invalidating one computes.
use rsyscall.Base.{
  ℕ, ◌≡◌, refl, Bool, true, false, ◌&&◌, List, [], ◌∷◌, Option, none, some, arith, ◌==◌,
  if◌then◌else◌, ◌⊎◌, inl, inr, Bool-cases, Option-cases, subst, sym, fun_ext,
}
use rsyscall.Handle.Fd.{
  Fds, Result, ok, err, os_error, put, without, is_empty, or_empty, drop, CloseResult, closed,
  hangup, failed, close_fd, close_last, invalidate, make_from_near, make_fd_handle, for_task,
  inherit_fd,
}
use rsyscall.Handle.Fd.Tracking.{
  Tracked, handles_at, track, untrack, track-Tracked, untrack-Tracked, remove_from_tracking-eq,
}

-- Two handles denote one file descriptor.
abbrev pub SameFd : Fds → ℕ → ℕ → Type 0
SameFd s g h = (s.fd_table (s.task g) ≡ s.fd_table (s.task h)) × (s.near g ≡ s.near h)

pub make_from_near-eq :
    (k n : ℕ) (s : Fds)
    → s.manipulating_fd_table k ≡ false
    → make_from_near k n s ≡ (ok s.next, track k n s)
unfolding make_from_near
make_from_near-eq k n s e = rw e

make_from_near-Tracked : (k n : ℕ) (s : Fds) → Tracked s → Tracked (make_from_near k n s).1
unfolding make_from_near
make_from_near-Tracked k n s w = elim (Bool-cases (s.manipulating_fd_table k)) [
  | inl e ↦ rw e w
  | inr e ↦ rw e (track-Tracked s w k n)
]

-- An operation that makes a handle leaves the state alone or makes a handle.
Making : Fds → Fds → ℕ → ℕ → Type 0
Making s s' k n = (s' ≡ s) ⊎ (s' ≡ (make_from_near k n s).1)

Making-Tracked : (s s' : Fds) (k n : ℕ) → Tracked s → Making s s' k n → Tracked s'
unfolding Making
Making-Tracked s s' k n w (inl e) = subst Tracked (sym e) w
Making-Tracked s s' k n w (inr e) = subst Tracked (sym e) (make_from_near-Tracked k n s w)

make_fd_handle-Making : (k n : ℕ) (s : Fds) → Making s (make_fd_handle k n s).1 k n
unfolding make_fd_handle Making
make_fd_handle-Making k n s = elim (Option-cases (s.near_to_handles (s.fd_table k) n)) [
  | inl e ↦ inr (rw (e, make_fd_handle) refl)
  | inr (l, e) ↦ inl (rw (e, make_fd_handle) refl)
]

for_task-Making : (h k : ℕ) (s : Fds) → Making s (for_task h k s).1 k (s.near h)
unfolding for_task Making
for_task-Making h k s = ground arith

inherit_fd-Making : (k h : ℕ) (s : Fds) → Making s (inherit_fd k h s).1 k (s.near h)
unfolding inherit_fd Making
inherit_fd-Making k h s = ground arith

-- Every way to make a handle keeps the handles tracked, whether it succeeds or raises.
pub making-Tracked :
    (k n h : ℕ) (s : Fds)
    → Tracked s
    → Tracked (make_fd_handle k n s).1 × Tracked (for_task h k s).1 × Tracked (inherit_fd k h s).1
making-Tracked k n h s w = (
  Making-Tracked s (make_fd_handle k n s).1 k n w (make_fd_handle-Making k n s),
  Making-Tracked s (for_task h k s).1 k (s.near h) w (for_task-Making h k s),
  Making-Tracked s (inherit_fd k h s).1 k (s.near h) w (inherit_fd-Making k h s),
)

close_fd_hangup :
    (t n : ℕ) (s : Fds)
    → s.near_to_handles t n ≡ none
    → close_fd hangup t n s ≡ (
      ok tt,
      record s {
        closes = (t, n) ∷ s.closes;
        near_to_handles = put s.near_to_handles t n (some []);
      },
    )
unfolding close_fd
close_fd_hangup t n s e = rw (e, close_fd) refl

pub put_self : (d : ℕ → ℕ → Option (List ℕ)) (t n : ℕ) (o : Option (List ℕ)) → put d t n o t n ≡ o
put_self d t n o = ground arith

put_twice :
    (d : ℕ → ℕ → Option (List ℕ)) (t n : ℕ) (o o' : Option (List ℕ))
    → put (put d t n o) t n o' ≡ put d t n o'
put_twice d t n o o' = fun_ext (λ t'. fun_ext (λ n'. ground arith))

-- A handle without others loses its entry in the table.
forget-Tracked :
    (s : Fds) (t n : ℕ) (v : Option (List ℕ)) (c : List (ℕ × ℕ))
    → handles_at s t n ≡ []
    → or_empty v ≡ []
    → Tracked s
    → Tracked (record s { near_to_handles = put s.near_to_handles t n v; closes = c })
forget-Tracked s t n v c e f w = record {
  own = w.own;
  global = λ h x. ground (arith, w.global h x);
  owned = w.owned;
  listed = λ t' n' h x. ground (arith, w.listed t' n' h);
  distinct = λ t' n'. elim (Bool-cases ((t' == t) && (n' == n))) [
    | inl x ↦ rw (x, f) tt
    | inr x ↦ rw x (w.distinct t' n')
  ];
  fresh = w.fresh;
}

-- What the last handle's close answers, and the entry that it leaves.
abbrev pub answer : CloseResult → Result Bool
answer closed = ok true
answer hangup = ok true
answer failed = err os_error

abbrev pub entry : CloseResult → Option (List ℕ)
entry closed = none
entry hangup = some []
entry failed = none

module _ (h : ℕ) (s : Fds) (w : Tracked s) (v : s.valid h ≡ true) where
  abbrev pub others : List ℕ
  others = without h (handles_at s (s.fd_table (s.task h)) (s.near h))

  pub drop-eq : drop h s ≡ (ok (is_empty others), untrack h s)
  unfolding drop
  drop-eq = rw (v, remove_from_tracking-eq s w h v)

  -- The state after the close system call was made.
  abbrev pub asked : Option (List ℕ) → Fds
  asked o = record (untrack h s) {
    near_to_handles = put (untrack h s).near_to_handles (s.fd_table (s.task h)) (s.near h) o;
    closes = (s.fd_table (s.task h), s.near h) ∷ s.closes;
  }

  close_last_hangup : close_last hangup h (untrack h s) ≡ (ok true, asked (some []))
  unfolding close_last
  close_last_hangup =
      rw
        (
          close_fd_hangup (s.fd_table (s.task h)) (s.near h)
              (record (untrack h s) {
                near_to_handles =
                    put (untrack h s).near_to_handles (s.fd_table (s.task h)) (s.near h) none;
              })
              (put_self (untrack h s).near_to_handles (s.fd_table (s.task h)) (s.near h) none),
          put_twice (untrack h s).near_to_handles (s.fd_table (s.task h)) (s.near h) none (some []),
        )
        refl

  close_last-eq :
      (result : CloseResult)
      → close_last result h (untrack h s) ≡ (answer result, asked (entry result))
  unfolding close_last close_fd
  close_last-eq closed = refl
  close_last-eq hangup = close_last_hangup
  close_last-eq failed = refl

  pub asked-Tracked : (o : Option (List ℕ)) → others ≡ [] → or_empty o ≡ [] → Tracked (asked o)
  asked-Tracked o e f =
      forget-Tracked (untrack h s) (s.fd_table (s.task h)) (s.near h) o
        ((s.fd_table (s.task h), s.near h) ∷ s.closes)
        (rw
          (put_self s.near_to_handles (s.fd_table (s.task h)) (s.near h)
            (some (without h (handles_at s (s.fd_table (s.task h)) (s.near h)))))
          e)
        f (untrack-Tracked s w h v)

  pub invalidate-eq :
      (result : CloseResult)
      → invalidate result h s ≡ (
          if is_empty others
          then (answer result, asked (entry result))
          else (ok false, untrack h s))
  unfolding invalidate
  invalidate-eq result = rw (drop-eq, sym (close_last-eq result)) refl
