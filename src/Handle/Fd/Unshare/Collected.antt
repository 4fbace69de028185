-- ===== src/Handle/Fd/Unshare/Collected.antt =====
-- fd.py: a garbage collection closes only what has no handle.
use rsyscall.Base.{
  ℕ, ◌≤◌, ◌≡◌, refl, sym, ap, ◌∙◌, subst, true, List, [], ◌∷◌, Option, none, some, arith,
  Option-cases, inl, inr, has,
}
use rsyscall.Handle.Fd.{
  Exec, Fds, Result, ok, err, then_do, put, or_empty, CloseResult, closed, hangup, failed, close_fd,
}
use rsyscall.Handle.Fd.Tracking.{Tracked, handles_at, Distinct}
use rsyscall.Handle.Fd.Unshare.{
  take_entry, take_garbage, close_garbage, gc_using_task, get_task_in_table, run_gc,
}

-- The fields of a handle and of a task are as before, and each table lists the same handles.
pub record SameHandles (s u : Fds) : Type 0 where
  pub task : u.task ≡ s.task
  pub near : u.near ≡ s.near
  pub valid : u.valid ≡ s.valid
  pub next : u.next ≡ s.next
  pub fd_table : u.fd_table ≡ s.fd_table
  pub manipulating : u.manipulating_fd_table ≡ s.manipulating_fd_table
  pub fd_handles : u.fd_handles ≡ s.fd_handles
  pub handles : (t n : ℕ) → handles_at u t n ≡ handles_at s t n

pub SameHandles-refl : (s : Fds) → SameHandles s s
SameHandles-refl s = record {
  task = refl;
  near = refl;
  valid = refl;
  next = refl;
  fd_table = refl;
  manipulating = refl;
  fd_handles = refl;
  handles = λ t n. refl;
}

pub SameHandles-trans : (s u v : Fds) → SameHandles s u → SameHandles u v → SameHandles s v
SameHandles-trans s u v p q = record {
  task = q.task ∙ p.task;
  near = q.near ∙ p.near;
  valid = q.valid ∙ p.valid;
  next = q.next ∙ p.next;
  fd_table = q.fd_table ∙ p.fd_table;
  manipulating = q.manipulating ∙ p.manipulating;
  fd_handles = q.fd_handles ∙ p.fd_handles;
  handles = λ t n. (q.handles t n ∙ p.handles t n);
}

-- An entry without handles may come and go.
forget_entry :
    (s : Fds) (t n : ℕ) (o : Option (List ℕ)) (c : List (ℕ × ℕ))
    → handles_at s t n ≡ []
    → or_empty o ≡ []
    → SameHandles s (record s { near_to_handles = put s.near_to_handles t n o; closes = c })
forget_entry s t n o c e f = record {
  task = refl;
  near = refl;
  valid = refl;
  next = refl;
  fd_table = refl;
  manipulating = refl;
  fd_handles = refl;
  handles = λ t' n'. ground arith;
}

take_entry-SameHandles :
    (o : Option (List ℕ)) (t n : ℕ) (s : Fds) (r : List ℕ × Fds)
    → r.1.near_to_handles t n ≡ o
    → SameHandles s r.1
    → SameHandles s (take_entry o t n r).1
take_entry-SameHandles none t n s r e h = h
take_entry-SameHandles (some []) t n s (g, u) e h =
    SameHandles-trans s u (record u { near_to_handles = put u.near_to_handles t n none }) h
      (forget_entry u t n none u.closes (ap or_empty e) refl)
take_entry-SameHandles (some (a ∷ l)) t n s r e h = h

take_garbage-SameHandles :
    (keys : List ℕ) (t : ℕ) (s : Fds) → SameHandles s (take_garbage keys t s).1
unfolding take_garbage
take_garbage-SameHandles [] t s = SameHandles-refl s
take_garbage-SameHandles (n ∷ keys) t s =
    let r = take_garbage keys t s in
    take_entry-SameHandles (r.1.near_to_handles t n) t n s r refl
      (take_garbage-SameHandles keys t s)

close_fd-SameHandles : (r : CloseResult) (t n : ℕ) (s : Fds) → SameHandles s (close_fd r t n s).1
unfolding close_fd
close_fd-SameHandles closed t n s = record {
  task = refl;
  near = refl;
  valid = refl;
  next = refl;
  fd_table = refl;
  manipulating = refl;
  fd_handles = refl;
  handles = λ t' n'. refl;
}
close_fd-SameHandles failed t n s = record {
  task = refl;
  near = refl;
  valid = refl;
  next = refl;
  fd_table = refl;
  manipulating = refl;
  fd_handles = refl;
  handles = λ t' n'. refl;
}
close_fd-SameHandles hangup t n s = elim (Option-cases (s.near_to_handles t n)) [
  | inl e ↦ rw (e, close_fd) (forget_entry s t n (some []) ((t, n) ∷ s.closes) (ap or_empty e) refl)
  | inr (l, e) ↦
      rw (e, close_fd)
        (record {
          task = refl;
          near = refl;
          valid = refl;
          next = refl;
          fd_table = refl;
          manipulating = refl;
          fd_handles = refl;
          handles = λ t' n'. refl;
        })
]

pub then_do-SameHandles :
    (s : Fds) (r : Result (Unit {0}) × Fds) (f : Unit {0} → Exec (Unit {0}))
    → SameHandles s r.1
    → ((a : Unit {0}) (u : Fds) → SameHandles u (f a u).1)
    → SameHandles s (then_do r f).1
then_do-SameHandles s (ok a, u) f h g = SameHandles-trans s u (f a u).1 h (g a u)
then_do-SameHandles s (err e, u) f h g = h

close_garbage-SameHandles :
    (results : ℕ → CloseResult) (garbage : List ℕ) (t : ℕ) (s : Fds)
    → SameHandles s (close_garbage results garbage t s).1
unfolding close_garbage
close_garbage-SameHandles results [] t s = SameHandles-refl s
close_garbage-SameHandles results (n ∷ garbage) t s =
    then_do-SameHandles s (close_fd (results n) t n s) (λ _ s'. close_garbage results garbage t s')
      (close_fd-SameHandles (results n) t n s)
      (λ _ u. close_garbage-SameHandles results garbage t u)

pub gc_using_task-SameHandles :
    (results : ℕ → CloseResult) (keys : List ℕ) (t : ℕ) (s : Fds)
    → SameHandles s (gc_using_task results keys t s).1
unfolding gc_using_task
gc_using_task-SameHandles results keys t s =
    let r = take_garbage keys t s in
    SameHandles-trans s r.1 (close_garbage results r.0 t r.1).1 (take_garbage-SameHandles keys t s)
      (close_garbage-SameHandles results r.0 t r.1)

pub run_gc-SameHandles :
    (tasks : List ℕ) (results : ℕ → CloseResult) (keys : List ℕ) (t : ℕ) (s : Fds)
    → SameHandles s (run_gc tasks results keys t s).1
unfolding run_gc
run_gc-SameHandles tasks results keys t s = elim (Option-cases (get_task_in_table tasks t s)) [
  | inl e ↦ rw (e, run_gc) (SameHandles-refl s)
  | inr (k, e) ↦ rw (e, run_gc) (gc_using_task-SameHandles results keys t s)
]

module _ (s u : Fds) (p : SameHandles s u) (w : Tracked s) where
  same_task : (h : ℕ) → u.task h ≡ s.task h
  same_task h = ap (λ f. f h) p.task

  same_near : (h : ℕ) → u.near h ≡ s.near h
  same_near h = ap (λ f. f h) p.near

  same_valid : (h : ℕ) → u.valid h ≡ s.valid h
  same_valid h = ap (λ f. f h) p.valid

  pub same_table : (k : ℕ) → u.fd_table k ≡ s.fd_table k
  same_table k = ap (λ f. f k) p.fd_table

  pub same_own : (k : ℕ) → u.fd_handles k ≡ s.fd_handles k
  same_own k = ap (λ f. f k) p.fd_handles

  valid_before : (h : ℕ) → u.valid h ≡ true → s.valid h ≡ true
  valid_before h v = sym (same_valid h) ∙ v

  pub SameHandles-Tracked : Tracked u
  SameHandles-Tracked = record {
    own = λ h v.
        ap (has h) (same_own (u.task h) ∙ ap s.fd_handles (same_task h))
        ∙ w.own h (valid_before h v);
    global = λ h v.
        ap (has h) (
          p.handles (u.fd_table (u.task h)) (u.near h)
          ∙ ap (handles_at s (u.fd_table (u.task h))) (same_near h)
          ∙ ap (λ t. handles_at s t (s.near h))
              (same_table (u.task h) ∙ ap s.fd_table (same_task h)))
        ∙ w.global h (valid_before h v);
    owned = λ k h e.
        let (v, f) = w.owned k h (ap (has h) (sym (same_own k)) ∙ e) in
        (same_valid h ∙ v, same_task h ∙ f);
    listed = λ t n h e.
        let (v, f, g) = w.listed t n h (ap (has h) (sym (p.handles t n)) ∙ e) in
        (
          same_valid h ∙ v,
          same_table (u.task h) ∙ ap s.fd_table (same_task h) ∙ f,
          same_near h ∙ g,
        );
    distinct = λ t n. subst Distinct (sym (p.handles t n)) (w.distinct t n);
    fresh = λ h le. same_valid h ∙ w.fresh h (subst (λ n. n ≤ h) p.next le);
  }
