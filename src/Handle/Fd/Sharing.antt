-- ===== src/Handle/Fd/Sharing.antt =====
-- fd.py: `for_task`, `move` and `borrow`, which never close the file descriptor.
use rsyscall.Base.{
  ℕ, ◌≡◌, ◌≢◌, refl, true, false, none, some, arith, ◌==◌, if◌then◌else◌, inl, inr, Bool-cases, sym,
  fun_ext,
}
use rsyscall.Handle.Fd.{
  Fds, ok, err, freed_from_under, update, without, is_empty, remove_from_tracking, validate,
  for_task, move, move_end, borrow_enter, borrow_exit, then_do, ◌>>=◌,
}
use rsyscall.Handle.Fd.Tracking.{
  Tracked, handles_at, track, untrack, track-Tracked, untrack-Tracked, remove_from_tracking-eq,
}
use rsyscall.Handle.Fd.Lifecycle.{SameFd, make_from_near-eq}
use rsyscall.Handle.Fd.Closing.{others-shared}

module _ (h k : ℕ) (s : Fds) (w : Tracked s) (v : s.valid h ≡ true)
    (same : s.fd_table (s.task h) ≡ s.fd_table k) (free : s.manipulating_fd_table k ≡ false) where
  for_task-eq : for_task h k s ≡ (ok s.next, track k (s.near h) s)
  unfolding for_task validate
  for_task-eq = rw v (rw (make_from_near-eq k (s.near h) s free) (ground (arith, same)))

  abbrev made : Fds
  made = track k (s.near h) s

  old-SameFd : SameFd (track k (s.near h) s) s.next h
  old-SameFd = ground (arith, v, w.fresh s.next (omega arith), same)

  new-old : h ≢ s.next
  new-old e = ground (arith, w.fresh s.next (omega arith), v, e)

-- Removing a handle while another one is there.
module _ (h g : ℕ) (s : Fds) (w : Tracked s) (v : s.valid h ≡ true) (e : s.valid g ≡ true)
    (same : SameFd s g h) (ne : g ≢ h) where
  move_end-eq :
      (new : ℕ)
      → then_do
          (remove_from_tracking h (record s { valid = update s.valid h false }))
          (move_end new)
        ≡ (ok new, untrack h s)
  unfolding move_end
  move_end-eq new =
      rw (remove_from_tracking-eq s w h v) (rw (others-shared h s w v g e same ne) refl)

  borrow_exit-eq : borrow_exit (some h) s ≡ (ok tt, untrack h s)
  unfolding borrow_exit
  borrow_exit-eq =
      rw (v, remove_from_tracking-eq s w h v) (rw (others-shared h s w v g e same ne) refl)

module _ (h k : ℕ) (s : Fds) (w : Tracked s) (v : s.valid h ≡ true)
    (same : s.fd_table (s.task h) ≡ s.fd_table k) (free : s.manipulating_fd_table k ≡ false) where
  move-eq : move h k s ≡ (ok s.next, untrack h (track k (s.near h) s))
  unfolding move
  move-eq = rw (for_task-eq h k s w v same free) (
      move_end-eq h s.next (track k (s.near h) s) (track-Tracked s w k (s.near h))
        (ground (arith, v)) (ground arith) (old-SameFd h k s w v same free)
        (λ e. new-old h k s w v same free (sym e)) s.next)

  borrow-eq :
      borrow_exit (some s.next) (track k (s.near h) s)
      ≡ (ok tt, untrack s.next (track k (s.near h) s))
  borrow-eq =
      borrow_exit-eq s.next h (track k (s.near h) s) (track-Tracked s w k (s.near h)) (ground arith)
        (ground (arith, v)) (let (t, n) = old-SameFd h k s w v same free in (sym t, sym n))
        (new-old h k s w v same free)

borrow_exit-none : (s : Fds) → borrow_exit none s ≡ (ok tt, s)
unfolding borrow_exit
borrow_exit-none s = refl

-- The state `s'` holds the new handle `new` of the task `k` in place of `h`, for the same file
-- descriptor, and no close system call was made.
abbrev pub MovedTo : ℕ → ℕ → ℕ → Fds → Fds → Type 0
MovedTo h k new s s' =
    Tracked s'
    × (s'.valid h ≡ false)
    × (s'.valid new ≡ true)
    × (s'.task new ≡ k)
    × SameFd s' new h
    × (s'.closes ≡ s.closes)

-- `move` of a valid handle of tracked handles to a task in the same table, which is not changing its
-- table, succeeds: it answers a new handle of that task for the same file descriptor, makes the old
-- one invalid, makes no close system call, and keeps the handles tracked.
pub move_lem :
    (h k : ℕ) (s : Fds)
    → Tracked s
    → s.valid h ≡ true
    → s.fd_table (s.task h) ≡ s.fd_table k
    → s.manipulating_fd_table k ≡ false
    → ((move h k s).0 ≡ ok s.next) × MovedTo h k s.next s (move h k s).1
move_lem h k s w v same free = rw (move-eq h k s w v same free) (
  refl,
  (
    untrack-Tracked (track k (s.near h) s) (track-Tracked s w k (s.near h)) h (ground (arith, v)),
    ground arith,
    ground (arith, new-old h k s w v same free),
    ground arith,
    old-SameFd h k s w v same free,
    refl,
  ),
)

-- `borrow` of a valid handle of tracked handles for a task in the same table, which is not changing
-- its table, with a body that leaves the handles alone: neither its entry nor its exit raises, and
-- afterwards the same handles are valid as before, no close system call was made, and the handles
-- are tracked.
pub borrow_lem :
    (h k : ℕ) (s : Fds)
    → Tracked s
    → s.valid h ≡ true
    → s.fd_table (s.task h) ≡ s.fd_table k
    → s.manipulating_fd_table k ≡ false
    → (((borrow_enter h k >>= borrow_exit) s).0 ≡ ok tt)
      × (((borrow_enter h k >>= borrow_exit) s).1.valid ≡ s.valid)
      × (((borrow_enter h k >>= borrow_exit) s).1.closes ≡ s.closes)
      × Tracked ((borrow_enter h k >>= borrow_exit) s).1
unfolding borrow_enter
borrow_lem h k s w v same free = elim (Bool-cases (s.task h == k)) [
  | inl e ↦ rw (e, borrow_exit-none s) (refl, refl, refl, w)
  | inr e ↦
      rw (e, for_task-eq h k s w v same free, borrow-eq h k s w v same free)
        (
          refl,
          fun_ext (λ g. ground (arith, w.fresh g)),
          refl,
          untrack-Tracked (track k (s.near h) s) (track-Tracked s w k (s.near h)) s.next
              (ground arith),
        )
]

-- The exit of `borrow` for a valid borrowed handle of tracked handles makes it invalid, makes no
-- close system call, keeps the handles tracked, and raises exactly if its table lists no other
-- handle for its number.
pub borrow_exit_lem :
    (b : ℕ) (s : Fds)
    → Tracked s
    → s.valid b ≡ true
    → ((borrow_exit (some b) s).0 ≡ (
        if is_empty (without b (handles_at s (s.fd_table (s.task b)) (s.near b)))
        then err freed_from_under
        else ok tt))
      × ((borrow_exit (some b) s).1.valid ≡ update s.valid b false)
      × ((borrow_exit (some b) s).1.closes ≡ s.closes)
      × Tracked (borrow_exit (some b) s).1
unfolding borrow_exit
borrow_exit_lem b s w v =
    rw (v, remove_from_tracking-eq s w b v)
      (elim (Bool-cases (is_empty (without b (handles_at s (s.fd_table (s.task b)) (s.near b))))) [
        | inl e ↦ rw e (refl, refl, refl, untrack-Tracked s w b v)
        | inr e ↦ rw e (refl, refl, refl, untrack-Tracked s w b v)
      ])
