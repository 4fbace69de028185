-- ===== src/Handle/Fd/Unshare.antt =====
-- fd.py: the garbage collection of a table, and `unshare_files`.
use rsyscall.Base.{
  ℕ, Bool, true, false, ◌&&◌, List, [], ◌∷◌, Option, none, some, ◌==◌, if◌then◌else◌, has,
}
use rsyscall.Handle.Fd.{
  Fds, Result, ok, err, Exec, then_do, update, put, without, or_empty, set_remove, key_error,
  os_error, manipulating, CloseResult, close_fd,
}
pub mod Collected
pub mod Moved
pub mod Unshared
mod Examples

-- `gc_using_task` first takes every entry without handles out of the table; `keys` are the keys of
-- the dict. It returns what it has taken out.
abbrev pub take_entry : Option (List ℕ) → ℕ → ℕ → List ℕ × Fds → List ℕ × Fds
take_entry (some []) t n (garbage, s) =
    (n ∷ garbage, record s { near_to_handles = put s.near_to_handles t n none })
take_entry entry t n r = r

unfoldable pub take_garbage : List ℕ → ℕ → Fds → List ℕ × Fds
take_garbage [] t s = ([], s)
take_garbage (n ∷ keys) t s =
    let rest = take_garbage keys t s in take_entry (rest.1.near_to_handles t n) t n rest

-- Then it closes them, here one after another; the first close that raises ends it.
unfoldable pub close_garbage : (ℕ → CloseResult) → List ℕ → ℕ → Exec (Unit {0})
close_garbage results [] t s = (ok tt, s)
close_garbage results (n ∷ garbage) t s =
    then_do (close_fd (results n) t n s) (λ _ s'. close_garbage results garbage t s')

unfoldable pub gc_using_task : (ℕ → CloseResult) → List ℕ → ℕ → Exec (Unit {0})
unfolding take_garbage close_garbage
gc_using_task results keys t s =
    let (garbage, s') = take_garbage keys t s in close_garbage results garbage t s'

-- `_get_task_in_table`: the first task that is in the table and not changing its table.
unfoldable pub get_task_in_table : List ℕ → ℕ → Fds → Option ℕ
get_task_in_table [] t s = none
get_task_in_table (k ∷ tasks) t s =
    if s.fd_table k == t
    then (if s.manipulating_fd_table k then get_task_in_table tasks t s else some k)
    else get_task_in_table tasks t s

-- `run_gc`
unfoldable pub run_gc : List ℕ → (ℕ → CloseResult) → List ℕ → ℕ → Exec (Unit {0})
unfolding get_task_in_table gc_using_task
run_gc tasks results keys t s = elim (get_task_in_table tasks t s) [
  | none ↦ (ok tt, s)
  | some k ↦ gc_using_task results keys t s
]

-- The loop of `_make_fresh_fd_table`.
abbrev pub set_add : ℕ → List ℕ → List ℕ
set_add h l = if has h l then l else h ∷ l

unfoldable pub add_handles : List ℕ → ℕ → Fds → Fds
add_handles [] t s = s
add_handles (h ∷ handles) t s =
    let rest = add_handles handles t s in
    record rest {
      near_to_handles =
          put rest.near_to_handles t (s.near h)
            (some (set_add h (or_empty (rest.near_to_handles t (s.near h)))));
    }

unfoldable pub make_fresh_fd_table : ℕ → ℕ → Fds → Fds
unfolding add_handles
make_fresh_fd_table k new s =
    add_handles (s.fd_handles k) new (record s { fd_table = update s.fd_table k new })

-- `old_fd_table.near_to_handles[handle.near].remove(handle)` for each handle.
abbrev pub remove_handle : ℕ → ℕ → Fds → Result (Unit {0}) × Fds
remove_handle h t s = elim (s.near_to_handles t (s.near h)) [
  | none ↦ (err key_error, s)
  | some l ↦
      (if has h l
        then (
          ok tt,
          record s { near_to_handles = put s.near_to_handles t (s.near h) (some (without h l)) },
        )
        else (err key_error, s))
]

unfoldable pub remove_handles : List ℕ → ℕ → Exec (Unit {0})
remove_handles [] t s = (ok tt, s)
remove_handles (h ∷ handles) t s =
    then_do (remove_handle h t s) (λ _ s'. remove_handles handles t s')

-- The tasks of the old table and the keys of the dicts, at the three garbage collections.
pub record Snapshots : Type 0 where
  pub before : List ℕ
  pub tasks : List ℕ
  pub after : List ℕ
  pub fresh_keys : List ℕ

-- The end, when the system call has returned.
unfoldable pub unshare_end : (ℕ → CloseResult) → Snapshots → ℕ → ℕ → ℕ → Exec (Unit {0})
unfolding remove_handles run_gc gc_using_task
unshare_end results keys k old new s =
    then_do
      (remove_handles (s.fd_handles k) old
        (record s { manipulating_fd_table = update s.manipulating_fd_table k false }))
      (λ _ s'.
        then_do (run_gc keys.tasks results keys.after old s')
          (λ _ s''. gc_using_task results keys.fresh_keys new s''))

-- `unshare_files` of the task `k`, for which the new table is `new`; `succeeds` says how the system
-- call ends.
unfoldable pub unshare_files : (ℕ → CloseResult) → Bool → Snapshots → ℕ → ℕ → Exec (Unit {0})
unfolding gc_using_task make_fresh_fd_table unshare_end
unshare_files results succeeds keys k new s =
    if s.manipulating_fd_table k
    then (err manipulating, s)
    else let old = s.fd_table k in
      then_do (gc_using_task results keys.before old s) (λ _ s'.
        let s'' : Fds =
          make_fresh_fd_table k new
            (record s' { manipulating_fd_table = update s'.manipulating_fd_table k true }) in
        if succeeds then unshare_end results keys k old new s'' else (err os_error, s''))
