-- ===== src/Handle/Fd/Unshare/Unshared.antt =====
-- fd.py: `unshare_files` as a whole.
use rsyscall.Base.{
  ℕ, ◌≡◌, refl, sym, ap, ◌∙◌, subst, true, false, ◌&&◌, List, [], ◌∷◌, ◌==◌, if◌then◌else◌, arith,
  Option-cases, inl, inr, has,
}
use rsyscall.Handle.Fd.{Fds, Exec, Result, ok, then_do, update, CloseResult, closed, close_fd}
use rsyscall.Handle.Fd.Tracking.{Tracked, handles_at, Distinct}
use rsyscall.Handle.Fd.Unshare.{
  close_garbage, take_garbage, get_task_in_table, gc_using_task, run_gc, make_fresh_fd_table,
  remove_handles, Snapshots, unshare_end, unshare_files,
}
use rsyscall.Handle.Fd.Unshare.Collected.{
  SameHandles, same_table, same_own, SameHandles-Tracked, then_do-SameHandles,
  gc_using_task-SameHandles, run_gc-SameHandles,
}
use rsyscall.Handle.Fd.Unshare.Moved.{
  add_all, remove_all, add_handles-eq, remove_handles-eq, has-add_all, has-remove_all,
  add_all-Distinct, remove_all-Distinct,
}

-- The state when the handles of the task `k` have moved to the table `new`.
abbrev pub moved : ℕ → ℕ → Fds → Fds
moved k new s = record s {
  fd_table = update s.fd_table k new;
  manipulating_fd_table = update (update s.manipulating_fd_table k true) k false;
  near_to_handles =
      remove_all (s.fd_handles k) (s.fd_table k) s.near
        (add_all (s.fd_handles k) new s.near s.near_to_handles);
}

-- The state when the new table is made.
abbrev pub fresh : ℕ → ℕ → Fds → Fds
fresh k new s = record s {
  fd_table = update s.fd_table k new;
  manipulating_fd_table = update s.manipulating_fd_table k true;
  near_to_handles = add_all (s.fd_handles k) new s.near s.near_to_handles;
}

make_fresh-eq :
    (k new : ℕ) (s : Fds)
    → make_fresh_fd_table k new
        (record s { manipulating_fd_table = update s.manipulating_fd_table k true })
      ≡ fresh k new s
unfolding make_fresh_fd_table
make_fresh-eq k new s = add_handles-eq (s.fd_handles k) new (record s {
  fd_table = update s.fd_table k new;
  manipulating_fd_table = update s.manipulating_fd_table k true;
})

-- The call has returned, the task is in the new table, and exactly the valid handles, which are as
-- before, are tracked.
abbrev pub Unshared : ℕ → ℕ → Fds → Result (Unit {0}) × Fds → Type 0
Unshared k new s (r, u) =
    (r ≡ ok tt)
    × (u.fd_table ≡ update s.fd_table k new)
    × (u.manipulating_fd_table k ≡ false)
    × Tracked u
    × (u.valid ≡ s.valid)
    × (u.near ≡ s.near)
    × (u.task ≡ s.task)

Unshared-trans :
    (k new : ℕ) (s u : Fds) (r : Result (Unit {0}) × Fds)
    → SameHandles s u
    → Unshared k new u r
    → Unshared k new s r
Unshared-trans k new s u (r, v) p (a, b, c, w, e, f, g) =
    (a, b ∙ ap (λ f. update f k new) p.fd_table, c, w, e ∙ p.valid, f ∙ p.near, g ∙ p.task)

close_garbage-eq :
    (results : ℕ → CloseResult)
    → ((n : ℕ) → results n ≡ closed)
    → (garbage : List ℕ) (t : ℕ) (s : Fds)
    → close_garbage results garbage t s ≡ (ok tt, (close_garbage results garbage t s).1)
unfolding close_garbage close_fd
close_garbage-eq results c [] t s = refl
close_garbage-eq results c (n ∷ garbage) t s =
    rw (c n) (close_garbage-eq results c garbage t (record s { closes = (t, n) ∷ s.closes }))

gc_using_task-eq :
    (results : ℕ → CloseResult)
    → ((n : ℕ) → results n ≡ closed)
    → (keys : List ℕ) (t : ℕ) (s : Fds)
    → gc_using_task results keys t s ≡ (ok tt, (gc_using_task results keys t s).1)
unfolding gc_using_task
gc_using_task-eq results c keys t s =
    let r = take_garbage keys t s in close_garbage-eq results c r.0 t r.1

run_gc-eq :
    (results : ℕ → CloseResult)
    → ((n : ℕ) → results n ≡ closed)
    → (tasks : List ℕ) (keys : List ℕ) (t : ℕ) (s : Fds)
    → run_gc tasks results keys t s ≡ (ok tt, (run_gc tasks results keys t s).1)
unfolding run_gc
run_gc-eq results c tasks keys t s = elim (Option-cases (get_task_in_table tasks t s)) [
  | inl e ↦ rw (e, run_gc) refl
  | inr (k, e) ↦ rw (e, run_gc) (gc_using_task-eq results c keys t s)
]

module _ (s : Fds) (w : Tracked s) (k new : ℕ) (unused : (n : ℕ) → handles_at s new n ≡ [])
    (other : (s.fd_table k == new) ≡ false) where
  has-moved :
      (g t n : ℕ)
      → has g (handles_at (moved k new s) t n) ≡ (
          if (n == s.near g) && has g (s.fd_handles k)
          then (if t == s.fd_table k
              then false
              else (if t == new then true else has g (handles_at s t n)))
          else has g (handles_at s t n))
  has-moved g t n =
      has-remove_all g (s.fd_handles k) (s.fd_table k) s.near
        (add_all (s.fd_handles k) new s.near s.near_to_handles) t n
      ∙ ground (arith, has-add_all g (s.fd_handles k) new s.near s.near_to_handles t n)

  not_new : (h : ℕ) → s.valid h ≡ true → (s.fd_table (s.task h) == new) ≡ false
  not_new h v = ground (arith, w.global h v, unused (s.near h))

  moved-Tracked : Tracked (moved k new s)
  moved-Tracked = record {
    own = λ h v. w.own h v;
    global = λ h v.
        has-moved h (update s.fd_table k new (s.task h)) (s.near h)
        ∙ ground (arith, w.global h v, w.own h v, w.owned k h, not_new h v);
    owned = λ j h e. w.owned j h e;
    listed = λ t n h e.
        ground (arith, has-moved h t n, e, w.listed t n h, w.owned k h, w.own h, unused n);
    distinct =
        remove_all-Distinct (s.fd_handles k) (s.fd_table k) s.near
          (add_all (s.fd_handles k) new s.near s.near_to_handles)
          (add_all-Distinct (s.fd_handles k) new s.near s.near_to_handles w.distinct);
    fresh = λ h le. w.fresh h le;
  }

  move_handles :
      Distinct (s.fd_handles k)
      → remove_handles (s.fd_handles k) (s.fd_table k) (record (fresh k new s) {
        manipulating_fd_table = update (update s.manipulating_fd_table k true) k false;
      })
        ≡ (ok tt, moved k new s)
  move_handles d =
      remove_handles-eq (s.fd_handles k) (s.fd_table k)
        (record (fresh k new s) {
          manipulating_fd_table = update (update s.manipulating_fd_table k true) k false;
        })
        d
        (λ h i.
          let (v, e) = w.owned k h i in
          has-add_all h (s.fd_handles k) new s.near s.near_to_handles (s.fd_table k) (s.near h)
          ∙ ground (arith, other, w.global h v, e))

  unshare_end-SameHandles :
      (results : ℕ → CloseResult) (keys : Snapshots)
      → Distinct (s.fd_handles k)
      → SameHandles
          (moved k new s)
          (unshare_end results keys k (s.fd_table k) new (fresh k new s)).1
  unfolding unshare_end
  unshare_end-SameHandles results keys d =
      let gc_both : Exec (Unit {0}) = λ u.
        then_do (run_gc keys.tasks results keys.after (s.fd_table k) u)
          (λ _ u'. gc_using_task results keys.fresh_keys new u') in
      subst (λ r. SameHandles (moved k new s) (then_do r (λ _ u. gc_both u)).1)
        (sym (move_handles d))
        (then_do-SameHandles (moved k new s)
          (run_gc keys.tasks results keys.after (s.fd_table k) (moved k new s))
          (λ _ u'. gc_using_task results keys.fresh_keys new u')
          (run_gc-SameHandles keys.tasks results keys.after (s.fd_table k) (moved k new s))
          (λ _ u. gc_using_task-SameHandles results keys.fresh_keys new u))

  end-ok :
      (results : ℕ → CloseResult) (keys : Snapshots)
      → Distinct (s.fd_handles k)
      → ((n : ℕ) → results n ≡ closed)
      → (unshare_end results keys k (s.fd_table k) new (fresh k new s)).0 ≡ ok tt
  unfolding unshare_end
  end-ok results keys d c =
      let t = s.fd_table k in
      let u = (run_gc keys.tasks results keys.after t (moved k new s)).1 in
      let gc_new : Unit {0} → Exec (Unit {0}) =
        λ _ u'. gc_using_task results keys.fresh_keys new u' in
      let gc_both : Unit {0} → Exec (Unit {0}) =
        λ _ u'. then_do (run_gc keys.tasks results keys.after t u') gc_new in
      ap (λ r. (then_do r gc_both).0) (move_handles d)
      ∙ ap (λ r. (then_do r gc_new).0) (run_gc-eq results c keys.tasks keys.after t (moved k new s))
      ∙ ap (λ r. r.0) (gc_using_task-eq results c keys.fresh_keys new u)

  pub end-Unshared :
      (results : ℕ → CloseResult) (keys : Snapshots)
      → Distinct (s.fd_handles k)
      → ((n : ℕ) → results n ≡ closed)
      → Unshared k new s (
          unshare_end results keys k (s.fd_table k) new (
            make_fresh_fd_table k new
              (record s { manipulating_fd_table = update s.manipulating_fd_table k true })))
  end-Unshared results keys d c = rw (make_fresh-eq k new s) (
      let u = (unshare_end results keys k (s.fd_table k) new (fresh k new s)).1 in
      let p = unshare_end-SameHandles results keys d in
      (
        end-ok results keys d c,
        p.fd_table,
        ap (λ f. f k) p.manipulating ∙ ground arith,
        SameHandles-Tracked (moved k new s) u p moved-Tracked,
        p.valid,
        p.near,
        p.task,
      ))

-- When exactly the valid handles are tracked, the task is not changing its table, the new table is
-- unused, and every close and the system call return, then `unshare_files` returns, the task is in
-- the new table, and exactly the valid handles, which are as before, are tracked.
pub unshare_files-Tracked :
    (results : ℕ → CloseResult) (keys : Snapshots) (k new : ℕ) (s : Fds)
    → Tracked s
    → Distinct (s.fd_handles k)
    → ((n : ℕ) → handles_at s new n ≡ [])
    → (s.fd_table k == new) ≡ false
    → s.manipulating_fd_table k ≡ false
    → ((n : ℕ) → results n ≡ closed)
    → Unshared k new s (unshare_files results true keys k new s)
unfolding unshare_files
unshare_files-Tracked results keys k new s w d unused other free c =
    let t = s.fd_table k in
    let u = (gc_using_task results keys.before t s).1 in
    let p = gc_using_task-SameHandles results keys.before t s in
    rw (free, unshare_files, gc_using_task-eq results c keys.before t s)
      (Unshared-trans k new s u
        (unshare_end results keys k t new (
          make_fresh_fd_table k new
            (record u { manipulating_fd_table = update u.manipulating_fd_table k true })))
        p
        (subst
          (λ old. Unshared k new u (
            unshare_end results keys k old new (
              make_fresh_fd_table k new
                (record u { manipulating_fd_table = update u.manipulating_fd_table k true }))))
          (same_table s u p w k)
          (end-Unshared u (SameHandles-Tracked s u p w) k new (λ n. p.handles new n ∙ unused n)
            (ap (λ t'. t' == new) (same_table s u p w k) ∙ other) results keys
            (subst Distinct (sym (same_own s u p w k)) d) c)))
