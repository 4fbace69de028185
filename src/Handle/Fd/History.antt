-- ===== src/Handle/Fd/History.antt =====
-- fd.py: the handles after any sequence of operations.
use rsyscall.Base.{
  ℕ, ◌≡◌, ◌⊎◌, Bool, Option-cases, refl, true, false, ◌&&◌, List, [], ◌∷◌, Option, none, some,
  arith, ◌==◌, if◌then◌else◌, Bool-cases, inl, inr, length, sym, subst,
}
use rsyscall.Handle.Fd.{
  Fds, Result, not_closed, ok, err, CloseResult, invalidate, close, is_only_handle, validate,
  get_global_handles, make_fd_handle, make_from_near, for_task, inherit_fd, move, borrow_enter,
  borrow_exit, then_do,
}
use rsyscall.Handle.Fd.Tracking.{Tracked}
use rsyscall.Handle.Fd.Lifecycle.{making-Tracked}
use rsyscall.Handle.Fd.Closing.{invalidate-Tracked}
use rsyscall.Handle.Fd.Sharing.{move_lem, borrow_exit_lem}

-- A call of an operation, with its arguments and, where it can close, how the system call ends.
pub data FdCall : Type 0 where
  makes : ℕ → ℕ → FdCall
  for_tasks : ℕ → ℕ → FdCall
  inherits : ℕ → ℕ → FdCall
  moves : ℕ → ℕ → FdCall
  enters : ℕ → ℕ → FdCall
  exits : Option ℕ → FdCall
  invalidates : CloseResult → ℕ → FdCall
  closes_handle : CloseResult → ℕ → FdCall

unfoldable pub call_fd : FdCall → Fds → Fds
call_fd (makes k n) s = (make_fd_handle k n s).1
call_fd (for_tasks h k) s = (for_task h k s).1
call_fd (inherits k h) s = (inherit_fd k h s).1
call_fd (moves h k) s = (move h k s).1
call_fd (enters h k) s = (borrow_enter h k s).1
call_fd (exits b) s = (borrow_exit b s).1
call_fd (invalidates result h) s = (invalidate result h s).1
call_fd (closes_handle result h) s = (close result h s).1

unfoldable pub call_fds : List FdCall → Fds → Fds
call_fds [] s = s
call_fds (c ∷ l) s = call_fds l (call_fd c s)

-- Tasks and tables without any handle.
abbrev pub no_handles : (ℕ → ℕ) → (ℕ → List ℕ) → Fds
no_handles fd_table inherited = record {
  task = λ h. 0;
  near = λ h. 0;
  valid = λ h. false;
  next = 0;
  fd_table = fd_table;
  manipulating_fd_table = λ k. false;
  fd_handles = λ k. [];
  near_to_handles = λ t n. none;
  inherited = inherited;
  closes = [];
}

no_handles-Tracked :
    (fd_table : ℕ → ℕ) (inherited : ℕ → List ℕ) → Tracked (no_handles fd_table inherited)
no_handles-Tracked fd_table inherited = record {
  own = λ h e. ground arith;
  global = λ h e. ground arith;
  owned = λ k h e. ground arith;
  listed = λ t n h e. ground arith;
  distinct = λ t n. tt;
  fresh = λ h e. refl;
}

-- A `move` that is refused leaves the state alone.
move_refused :
    (h k : ℕ) (s : Fds)
    → (s.valid h && (s.fd_table (s.task h) == s.fd_table k)) ≡ false
    → (move h k s).1 ≡ s
unfolding move for_task validate
move_refused h k s e = ground arith

move_manipulating : (h k : ℕ) (s : Fds) → s.manipulating_fd_table k ≡ true → (move h k s).1 ≡ s
unfolding move for_task validate make_from_near
move_manipulating h k s e = ground arith

move-Tracked : (h k : ℕ) (s : Fds) → Tracked s → Tracked (move h k s).1
move-Tracked h k s w = elim (Bool-cases (s.valid h && (s.fd_table (s.task h) == s.fd_table k))) [
  | inr e ↦ subst (λ t. Tracked t) (sym (move_refused h k s e)) w
  | inl e ↦ elim (Bool-cases (s.manipulating_fd_table k)) [
    | inl m ↦ subst (λ t. Tracked t) (sym (move_manipulating h k s m)) w
    | inr m ↦ (move_lem h k s w (ground arith) (ground arith) m).1.0
  ]
]

then_some-state :
    (r : Result ℕ × Fds) → (then_do {B = Option ℕ} r (λ b s. (ok (some b), s))).1 ≡ r.1
then_some-state (ok b, s) = refl
then_some-state (err e, s) = refl

enter-Tracked : (h k : ℕ) (s : Fds) → Tracked s → Tracked (borrow_enter h k s).1
unfolding borrow_enter
enter-Tracked h k s w = elim (Bool-cases (s.task h == k)) [
  | inl e ↦ rw e w
  | inr e ↦
      rw e (
        subst (λ t. Tracked t) (sym (then_some-state (for_task h k s)))
          (making-Tracked k 0 h s w).1)
]

exit_invalid : (b : ℕ) (s : Fds) → s.valid b ≡ false → borrow_exit (some b) s ≡ (ok tt, s)
unfolding borrow_exit
exit_invalid b s e = rw e refl

exit_none : (s : Fds) → borrow_exit none s ≡ (ok tt, s)
unfolding borrow_exit
exit_none s = refl

exit-Tracked : (b : Option ℕ) (s : Fds) → Tracked s → Tracked (borrow_exit b s).1
exit-Tracked none s w = rw (exit_none s) w
exit-Tracked (some b) s w = elim (Bool-cases (s.valid b)) [
  | inl v ↦ (borrow_exit_lem b s w v).3
  | inr v ↦ rw (exit_invalid b s v) w
]

-- The end of `close`, whose state is that of `invalidate`.
then_close-state :
    (r : Result Bool × Fds)
    → (then_do {B = Unit {0}} r (λ done s. if done then (ok tt, s) else (err not_closed, s))).1
      ≡ r.1
then_close-state (ok true, s) = refl
then_close-state (ok false, s) = refl
then_close-state (err e, s) = refl

close-state :
    (result : CloseResult) (h : ℕ) (s : Fds)
    → ((close result h s).1 ≡ s) ⊎ ((close result h s).1 ≡ (invalidate result h s).1)
unfolding close is_only_handle validate get_global_handles
close-state result h s = elim (Bool-cases (s.valid h)) [
  | inr v ↦ inl (rw v refl)
  | inl v ↦ elim (Option-cases (s.near_to_handles (s.fd_table (s.task h)) (s.near h))) [
    | inl e ↦ inl (rw v (rw e refl))
    | inr (l, e) ↦ elim (Bool-cases (length l == 1)) [
      | inl o ↦ inr (rw v (rw (e, o) (rw v (then_close-state (invalidate result h s)))))
      | inr o ↦ inl (rw v (rw (e, o) refl))
    ]
  ]
]

close-Tracked : (result : CloseResult) (h : ℕ) (s : Fds) → Tracked s → Tracked (close result h s).1
close-Tracked result h s w = elim (close-state result h s) [
  | inl e ↦ subst (λ t. Tracked t) (sym e) w
  | inr e ↦ subst (λ t. Tracked t) (sym e) (invalidate-Tracked result h s w)
]

call_fd-Tracked : (c : FdCall) (s : Fds) → Tracked s → Tracked (call_fd c s)
unfolding call_fd
call_fd-Tracked (makes k n) s w = (making-Tracked k n 0 s w).0
call_fd-Tracked (for_tasks h k) s w = (making-Tracked k 0 h s w).1
call_fd-Tracked (inherits k h) s w = (making-Tracked k 0 h s w).2
call_fd-Tracked (moves h k) s w = move-Tracked h k s w
call_fd-Tracked (enters h k) s w = enter-Tracked h k s w
call_fd-Tracked (exits b) s w = exit-Tracked b s w
call_fd-Tracked (invalidates result h) s w = invalidate-Tracked result h s w
call_fd-Tracked (closes_handle result h) s w = close-Tracked result h s w

call_fds-keep : (l : List FdCall) (s : Fds) → Tracked s → Tracked (call_fds l s)
unfolding call_fds
call_fds-keep [] s w = w
call_fds-keep (c ∷ l) s w = call_fds-keep l (call_fd c s) (call_fd-Tracked c s w)

-- From tasks without handles on, after any sequence of calls that make, pass on, move, borrow,
-- invalidate and close handles, refused calls and failing system calls included: the valid handles,
-- and no others, are tracked, by their task, and once under their number by the table of their task.
pub call_fds-Tracked :
    (fd_table : ℕ → ℕ) (inherited : ℕ → List ℕ) (l : List FdCall)
    → Tracked (call_fds l (no_handles fd_table inherited))
call_fds-Tracked fd_table inherited l =
    call_fds-keep l (no_handles fd_table inherited) (no_handles-Tracked fd_table inherited)
