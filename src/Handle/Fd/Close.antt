-- ===== src/Handle/Fd/Close.antt =====
-- fd.py: `close` with and without other handles of the file descriptor.
use rsyscall.Base.{
  ℕ, ◌≡◌, ◌≢◌, refl, Bool, true, false, List, [], ◌∷◌, arith, ◌==◌, if◌then◌else◌, length, ◌⊎◌, inl,
  inr, Bool-cases, Option-cases, subst, has,
}
use rsyscall.Handle.Fd.{
  Fds, update, Result, ok, err, os_error, invalid_handle, other_handles, not_closed, without,
  is_empty, or_empty, validate, get_global_handles, CloseResult, closed, hangup, failed, invalidate,
  is_only_handle, close, then_do,
}
use rsyscall.Handle.Fd.Tracking.{Tracked, Distinct, handles_at}
use rsyscall.Handle.Fd.Lifecycle.{SameFd, asked, answer, entry}
use rsyscall.Handle.Fd.Closing.{others-shared, others-last, invalidate-last}

-- The answer of `close` to the last handle's close system call.
abbrev pub close_answer : CloseResult → Result (Unit {0})
close_answer closed = ok tt
close_answer hangup = ok tt
close_answer failed = err os_error

length_one :
    (h : ℕ) (l : List ℕ)
    → has h l ≡ true
    → Distinct l
    → is_empty (without h l) ≡ true
    → length l ≡ 1
length_one h [] e d f = cc
length_one h (a ∷ []) e d f = refl
length_one h (a ∷ b ∷ l) e (na, d) f = ground (arith, na)

length_more :
    (h : ℕ) (l : List ℕ) → has h l ≡ true → is_empty (without h l) ≡ false → (length l == 1) ≡ false
length_more h [] e f = cc
length_more h (a ∷ []) e f = ground arith
length_more h (a ∷ b ∷ l) e f = ground arith

get_global_handles-eq :
    (h : ℕ) (s : Fds)
    → has h (handles_at s (s.fd_table (s.task h)) (s.near h)) ≡ true
    → get_global_handles h s ≡ (ok (handles_at s (s.fd_table (s.task h)) (s.near h)), s)
unfolding get_global_handles
get_global_handles-eq h s e =
    elim (Option-cases (s.near_to_handles (s.fd_table (s.task h)) (s.near h))) [
      | inl f ↦ let x : false ≡ true = subst (λ o. has h (or_empty o) ≡ true) f e in cc
      | inr (l, f) ↦ rw (f, get_global_handles) refl
    ]

is_only_handle-eq :
    (h : ℕ) (s : Fds)
    → Tracked s
    → s.valid h ≡ true
    → is_only_handle h s ≡ (ok (length (handles_at s (s.fd_table (s.task h)) (s.near h)) == 1), s)
unfolding is_only_handle
is_only_handle-eq h s w v = rw (v, get_global_handles-eq h s (w.global h v)) refl

close_invalid :
    (result : CloseResult) (h : ℕ) (s : Fds)
    → s.valid h ≡ false
    → close result h s ≡ (err invalid_handle, s)
unfolding close is_only_handle validate
close_invalid result h s e = rw e refl

close_valid :
    (result : CloseResult) (h : ℕ) (s : Fds) (only : Bool)
    → Tracked s
    → s.valid h ≡ true
    → (length (handles_at s (s.fd_table (s.task h)) (s.near h)) == 1) ≡ only
    → close result h s ≡ (
        if only
        then then_do
            (invalidate result h s)
            (λ done s'. if done then (ok tt, s') else (err not_closed, s'))
        else (err other_handles, s))
unfolding close
close_valid result h s only w v e = rw (is_only_handle-eq h s w v, e) (rw v refl)

close_shared :
    (result : CloseResult) (g h : ℕ) (s : Fds)
    → Tracked s
    → s.valid h ≡ true
    → s.valid g ≡ true
    → SameFd s g h
    → g ≢ h
    → close result h s ≡ (err other_handles, s)
close_shared result g h s w v e same ne = close_valid result h s false w v (
    length_more h (handles_at s (s.fd_table (s.task h)) (s.near h)) (w.global h v)
      (others-shared h s w v g e same ne))

-- `close` of a handle raises and changes nothing, if the handle is not valid, or if another valid
-- handle denotes the same file descriptor and the handles are tracked.
pub close_refuses :
    (result : CloseResult) (g h : ℕ) (s : Fds)
    → Tracked s
    → (s.valid h ≡ false) ⊎ ((s.valid g ≡ true) × SameFd s g h × (g ≢ h))
    → close result h s ≡ (if s.valid h then err other_handles else err invalid_handle, s)
close_refuses result g h s w (inl e) = rw e (close_invalid result h s e)
close_refuses result g h s w (inr (e, same, ne)) = elim (Bool-cases (s.valid h)) [
  | inl v ↦ rw v (close_shared result g h s w v e same ne)
  | inr v ↦ rw v (close_invalid result h s v)
]

then_close :
    (result : CloseResult) (s : Fds)
    → then_do (answer result, s) (λ done s'. if done then (ok tt, s') else (err not_closed, s'))
      ≡ (close_answer result, s)
then_close closed s = refl
then_close hangup s = refl
then_close failed s = refl

-- `close` of the only valid handle of its file descriptor, the handles tracked, makes exactly one
-- close system call, of its number in its table, makes the handle invalid, and returns unless the
-- call raises OSError, which it passes on.
pub close_last_lem :
    (result : CloseResult) (h : ℕ) (s : Fds)
    → Tracked s
    → s.valid h ≡ true
    → ((g : ℕ) → s.valid g ≡ true → SameFd s g h → g ≡ h)
    → ((close result h s).0 ≡ close_answer result)
      × ((close result h s).1.closes ≡ (s.fd_table (s.task h), s.near h) ∷ s.closes)
      × ((close result h s).1.valid ≡ update s.valid h false)
close_last_lem result h s w v only =
    let last = others-last h s w v only in
    rw
      (
        close_valid result h s true w v (
            ground (
              arith,
              length_one h (handles_at s (s.fd_table (s.task h)) (s.near h)) (w.global h v)
                  (w.distinct (s.fd_table (s.task h)) (s.near h)) last,
            )),
        invalidate-last h s w v result last,
        then_close result (asked h s w v (entry result)),
      )
      (refl, refl, refl)
