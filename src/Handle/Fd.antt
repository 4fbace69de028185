-- ===== src/Handle/Fd.antt =====
-- python/rsyscall/handle/fd.py: handles of file descriptors, their tasks and their tables.
pub mod Tracking
pub mod Lifecycle
pub mod Closing
pub mod Close
pub mod Sharing
pub mod History
pub mod Unshare
mod Examples
use rsyscall.Base.{
  ℕ, suc, ◌+◌, ◌≡◌, ◌⊎◌, Bool, true, false, ◌&&◌, List, [], ◌∷◌, Option, none, some, ◌==◌,
  if◌then◌else◌, length, has,
}

-- The exceptions that fd.py raises, and KeyError of Python's sets and dicts.
pub data Error : Type 0 where
  invalid_handle key_error table_mismatch manipulating already_known not_inherited : Error
  other_handles not_closed no_handles_left freed_from_under os_error reopened : Error

pub data Result {ℓ} (A : Type ℓ) : Type ℓ where
  ok : A → Result A
  err : Error → Result A

-- Objects are numbers. `task`, `near` and `valid` are the fields of a handle; `fd_table`,
-- `manipulating_fd_table` and `fd_handles` those of a task; `near_to_handles` and `inherited` those
-- of a table. A set is the list of its members. `next` is the next handle, and `closes` the close
-- system calls made so far, each with its table and number.
pub record Fds : Type 0 where
  pub task : ℕ → ℕ
  pub near : ℕ → ℕ
  pub valid : ℕ → Bool
  pub next : ℕ
  pub fd_table : ℕ → ℕ
  pub manipulating_fd_table : ℕ → Bool
  pub fd_handles : ℕ → List ℕ
  pub near_to_handles : ℕ → ℕ → Option (List ℕ)
  pub inherited : ℕ → List ℕ
  pub closes : List (ℕ × ℕ)

abbrev pub Exec {ℓ} : Type ℓ → Type ℓ
Exec A = Fds → Result A × Fds

infixl 5 ◌>>=◌
abbrev pub then_do {ℓ κ} :
    {A : Type ℓ} {B : Type κ} → Result A × Fds → (A → Fds → Result B × Fds) → Result B × Fds
then_do (ok a, s) f = f a s
then_do (err e, s) f = (err e, s)

abbrev pub ◌>>=◌ : {A B : Type 0} → Exec A → (A → Exec B) → Exec B
◌>>=◌ m f s = then_do (m s) f

abbrev pub update {ℓ} : {V : Type ℓ} → (ℕ → V) → ℕ → V → ℕ → V
update f k v j = if j == k then v else f j

-- `d[n] = v` in the dict of the table `t`; `none` deletes the key.
abbrev pub put : (ℕ → ℕ → Option (List ℕ)) → ℕ → ℕ → Option (List ℕ) → ℕ → ℕ → Option (List ℕ)
put d t n v t' n' = if (t' == t) && (n' == n) then v else d t' n'

abbrev pub without : ℕ → List ℕ → List ℕ
without h [] = []
without h (a ∷ l) = let rest = without h l in if a == h then rest else a ∷ rest

-- `set.remove`; `none` is KeyError.
abbrev pub set_remove : ℕ → List ℕ → Option (List ℕ)
set_remove h l = if has h l then some (without h l) else none

unfoldable pub validate : ℕ → Exec (Unit {0})
validate h s = if s.valid h then (ok tt, s) else (err invalid_handle, s)

-- `self.task.fd_table.near_to_handles[self.near]`
unfoldable pub get_global_handles : ℕ → Exec (List ℕ)
get_global_handles h s = elim (s.near_to_handles (s.fd_table (s.task h)) (s.near h)) [
  | none ↦ (err key_error, s)
  | some l ↦ (ok l, s)
]

unfoldable pub remove_global : ℕ → List ℕ → Exec (List ℕ)
remove_global h handles s = elim (set_remove h handles) [
  | none ↦ (err key_error, s)
  | some l ↦ (
    ok l,
    record s {
      near_to_handles = put s.near_to_handles (s.fd_table (s.task h)) (s.near h) (some l);
    },
  )
]

unfoldable pub remove_own : ℕ → Exec (Unit {0})
remove_own h s = elim (set_remove h (s.fd_handles (s.task h))) [
  | none ↦ (err key_error, s)
  | some l ↦ (ok tt, record s { fd_handles = update s.fd_handles (s.task h) l })
]

unfoldable pub remove_from_tracking : ℕ → Exec (List ℕ)
unfolding remove_own get_global_handles remove_global
remove_from_tracking h = do
  _ ← remove_own h
  handles ← get_global_handles h
  remove_global h handles

abbrev pub is_empty : List ℕ → Bool
is_empty [] = true
is_empty (a ∷ l) = false

-- `_invalidate`
unfoldable pub drop : ℕ → Exec Bool
unfolding remove_from_tracking
drop h s =
    if s.valid h
    then ((do handles ← remove_from_tracking h; λ t. (ok (is_empty handles), t))
        (record s { valid = update s.valid h false }))
    else (ok false, s)

-- What the close system call does: it returns, the process hangs up, or it raises OSError.
pub data CloseResult : Type 0 where
  closed hangup failed : CloseResult

-- `FDTable._close_fd`
unfoldable pub close_fd : CloseResult → ℕ → ℕ → Exec (Unit {0})
close_fd closed t n s = (ok tt, record s { closes = (t, n) ∷ s.closes })
close_fd hangup t n s = elim (s.near_to_handles t n) [
  | some _ ↦ (err reopened, record s { closes = (t, n) ∷ s.closes })
  | none ↦ (
    ok tt,
    record s { closes = (t, n) ∷ s.closes; near_to_handles = put s.near_to_handles t n (some []) },
  )
]
close_fd failed t n s = (err os_error, record s { closes = (t, n) ∷ s.closes })

-- The branch of `invalidate` where the last handle is gone.
unfoldable pub close_last : CloseResult → ℕ → Exec Bool
close_last result h s =
    let t = s.fd_table (s.task h) in
    let n = s.near h in
    then_do (close_fd result t n (record s { near_to_handles = put s.near_to_handles t n none }))
      (λ _ s'. (ok true, s'))

unfoldable pub invalidate : CloseResult → ℕ → Exec Bool
unfolding drop
invalidate result h = do last ← drop h; λ s. if last then close_last result h s else (ok false, s)

unfoldable pub is_only_handle : ℕ → Exec Bool
unfolding validate get_global_handles
is_only_handle h = do
  _ ← validate h
  handles ← get_global_handles h
  λ s. (ok (length handles == 1), s)

unfoldable pub close : CloseResult → ℕ → Exec (Unit {0})
close result h = do
  only ← is_only_handle h
  λ s.
      if only
      then (if s.valid h
          then then_do (invalidate result h s)
              (λ done s'. if done then (ok tt, s') else (err not_closed, s'))
          else (err invalid_handle, s))
      else (err other_handles, s)

abbrev pub or_empty : Option (List ℕ) → List ℕ
or_empty none = []
or_empty (some l) = l

-- `_make_fd_handle_from_near`
unfoldable pub make_from_near : ℕ → ℕ → Exec ℕ
make_from_near k n s = if s.manipulating_fd_table k then (err manipulating, s) else (
  ok s.next,
  record s {
    task = update s.task s.next k;
    near = update s.near s.next n;
    valid = update s.valid s.next true;
    next = s.next + 1;
    fd_handles = update s.fd_handles k (s.next ∷ s.fd_handles k);
    near_to_handles =
        put s.near_to_handles (s.fd_table k) n
          (some (s.next ∷ or_empty (s.near_to_handles (s.fd_table k) n)));
  },
)

unfoldable pub make_fd_handle : ℕ → ℕ → Exec ℕ
make_fd_handle k n s = elim (s.near_to_handles (s.fd_table k) n) [
  | some _ ↦ (err already_known, s)
  | none ↦ make_from_near k n s
]

unfoldable pub for_task : ℕ → ℕ → Exec ℕ
unfolding validate
for_task h k = do
  _ ← validate h
  λ s.
      if s.fd_table (s.task h) == s.fd_table k
      then make_from_near k (s.near h) s
      else (err table_mismatch, s)

unfoldable pub inherit_fd : ℕ → ℕ → Exec ℕ
unfolding validate
inherit_fd k h = do
  _ ← validate h
  λ s.
      if s.fd_table (s.task h) == s.fd_table k
      then make_from_near k (s.near h) s
      else (if has h (s.inherited (s.fd_table k))
          then make_from_near k (s.near h) s
          else (err not_inherited, s))

unfoldable pub move_end : ℕ → List ℕ → Exec ℕ
move_end new handles s = if is_empty handles then (err no_handles_left, s) else (ok new, s)

unfoldable pub move : ℕ → ℕ → Exec ℕ
unfolding for_task
move h k = do
  new ← for_task h k
  λ s. then_do (remove_from_tracking h (record s { valid = update s.valid h false })) (move_end new)

-- `borrow` before its `yield`: the handle made for the other task, if there is one.
unfoldable pub borrow_enter : ℕ → ℕ → Exec (Option ℕ)
borrow_enter h k s =
    if s.task h == k
    then (ok none, s)
    else then_do (for_task h k s) (λ borrowed s'. (ok (some borrowed), s'))

-- The `finally` block of `borrow`.
unfoldable pub borrow_exit : Option ℕ → Exec (Unit {0})
borrow_exit none s = (ok tt, s)
borrow_exit (some b) s =
    if s.valid b
    then then_do (remove_from_tracking b (record s { valid = update s.valid b false }))
        (λ handles s'. if is_empty handles then (err freed_from_under, s') else (ok tt, s'))
    else (ok tt, s)
