-- ===== src/Handle/Fd/Unshare/Examples.antt =====
-- Two tasks, 0 and 1, in the table 0; the task 1 moves to the table 5 with its handle of the file
-- descriptor 3. The file descriptor 4 is garbage.
use rsyscall.Base.{◌≡◌, refl, true, false, [], ◌∷◌, none, some, arith}
use rsyscall.Handle.Fd.{Fds, update, put, closed}
use rsyscall.Handle.Fd.Tracking.{Tracked, track, track-Tracked}
use rsyscall.Handle.Fd.Unshare.{Snapshots, unshare_files}
use rsyscall.Handle.Fd.Unshare.Unshared.{Unshared, unshare_files-Tracked}

abbrev tasks_apart : Fds
tasks_apart = record {
  task = λ h. 0;
  near = λ h. 0;
  valid = λ h. false;
  next = 0;
  fd_table = λ k. 0;
  manipulating_fd_table = λ k. false;
  fd_handles = λ k. [];
  near_to_handles = put (λ t n. none) 0 4 (some []);
  inherited = λ t. [];
  closes = [];
}

tasks_apart-Tracked : Tracked tasks_apart
tasks_apart-Tracked = record {
  own = λ h e. cc;
  global = λ h e. cc;
  owned = λ k h e. cc;
  listed = λ t n h e. ground arith;
  distinct = λ t n. ground arith;
  fresh = λ h le. refl;
}

abbrev lent : Fds
lent = track 1 3 (track 0 3 tasks_apart)

lent-Tracked : Tracked lent
lent-Tracked =
    track-Tracked (track 0 3 tasks_apart) (track-Tracked tasks_apart tasks_apart-Tracked 0 3) 1 3

abbrev snapshots : Snapshots
snapshots = record { before = 3 ∷ 4 ∷ []; tasks = 1 ∷ 0 ∷ []; after = 3 ∷ []; fresh_keys = 3 ∷ [] }

garbage_closed : (unshare_files (λ n. closed) true snapshots 1 5 lent).1.closes ≡ (0, 4) ∷ []
unfolding unshare_files rsyscall.Handle.Fd.close_fd
garbage_closed = refl

unshare_files-Tracked_example :
    Unshared 1 5 lent (unshare_files (λ n. closed) true snapshots 1 5 lent)
unshare_files-Tracked_example =
    unshare_files-Tracked (λ n. closed) snapshots 1 5 lent lent-Tracked (refl, tt)
      (λ n. ground arith) refl refl (λ n. refl)
