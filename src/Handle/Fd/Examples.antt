-- ===== src/Handle/Fd/Examples.antt =====
-- Two tasks, 0 and 1, in one table, and one or two handles of the file descriptor 3.
use rsyscall.Base.{ℕ, ◌≡◌, refl, true, false, [], ◌∷◌, none, arith}
use rsyscall.Handle.Fd.{Fds, ok, update, closed, hangup, invalidate, make_from_near, inherit_fd}
use rsyscall.Handle.Fd.Tracking.{Tracked, track, track-Tracked}
use rsyscall.Handle.Fd.History.{
  makes, for_tasks, moves, invalidates, closes_handle, call_fds, no_handles, call_fds-Tracked,
}
use rsyscall.Handle.Fd.Closing.{invalidate_shared}

abbrev start : Fds
start = record {
  task = λ h. 0;
  near = λ h. 0;
  valid = λ h. false;
  next = 0;
  fd_table = λ k. 0;
  manipulating_fd_table = λ k. false;
  fd_handles = λ k. [];
  near_to_handles = λ t n. none;
  inherited = λ t. [];
  closes = [];
}

start-Tracked : Tracked start
start-Tracked = record {
  own = λ h e. cc;
  global = λ h e. cc;
  owned = λ k h e. cc;
  listed = λ t n h e. cc;
  distinct = λ t n. tt;
  fresh = λ h le. refl;
}

abbrev one : Fds
one = track 0 3 start

one-Tracked : Tracked one
one-Tracked = track-Tracked start start-Tracked 0 3

abbrev two : Fds
two = track 1 3 one

two-Tracked : Tracked two
two-Tracked = track-Tracked one one-Tracked 1 3

only_zero : (g : ℕ) → one.valid g ≡ true → g ≡ 0
only_zero g e = ground arith

inherit_same_table : (inherit_fd 1 0 one).0 ≡ ok 1
unfolding inherit_fd make_from_near
inherit_same_table = refl

invalidate_shared_example :
    ((invalidate closed 0 two).0 ≡ ok false)
    × ((invalidate closed 0 two).1.closes ≡ [])
    × ((invalidate closed 0 two).1.valid ≡ update two.valid 0 false)
invalidate_shared_example =
    invalidate_shared closed 1 0 two two-Tracked refl refl (refl, refl) (omega arith)

call_fds-Tracked_example : Tracked (
    call_fds
      (makes 1 4 ∷ for_tasks 0 2 ∷ moves 1 1 ∷ invalidates closed 0 ∷ closes_handle hangup 2 ∷ [])
      (no_handles (λ k. 0) (λ t. [])))
call_fds-Tracked_example =
    call_fds-Tracked (λ k. 0) (λ t. [])
      (makes 1 4 ∷ for_tasks 0 2 ∷ moves 1 1 ∷ invalidates closed 0 ∷ closes_handle hangup 2 ∷ [])
