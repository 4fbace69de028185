-- ===== src/Epoll/Dispatch/Waiters.antt =====
-- python/rsyscall/epoller.py: those who wait for a flag of an event are resumed, each of them once.
use rsyscall.Base.{
  ℕ, ◌+◌, subst, ◌≡◌, refl, sym, ap, ◌∙◌, Bool, true, false, not, ◌&&◌, ◌||◌, List, [], ◌∷◌, ◌++◌,
  if◌then◌else◌, ◌==◌, arith, Bool-cases, inl, inr, fun_ext,
}
use mathlib.Core.List.{append_assoc, append-nil}
use rsyscall.Epoll.{Flag, Mask}
use rsyscall.Epoll.Dispatch.{
  Waiter, Waiters, add_waiters, remove_cb, remove_everywhere, resume_all, resume_flags,
  dispatch_event,
}

-- Those who wait for a flag, and the others.
abbrev pub select : Flag → List Waiter → List Waiter
select flag [] = []
select flag ((val, cb) ∷ l) = if val flag then (val, cb) ∷ select flag l else select flag l

abbrev pub reject : Flag → List Waiter → List Waiter
reject flag [] = []
reject flag ((val, cb) ∷ l) = if val flag then reject flag l else (val, cb) ∷ reject flag l

-- The lists by flag for a list of requests.
abbrev pub by_flag : List Waiter → Waiters
by_flag l flag = select flag l

abbrev pub continuations : List Waiter → List ℕ
continuations [] = []
continuations ((val, cb) ∷ l) = cb ∷ continuations l

abbrev pub holds_cb : ℕ → List Waiter → Bool
holds_cb cb [] = false
holds_cb cb ((val, c) ∷ l) = if c == cb then true else holds_cb cb l

abbrev pub different : List Waiter → Bool
different [] = true
different ((val, cb) ∷ l) = not (holds_cb cb l) && different l

select-append : (f : Flag) (k l : List Waiter) → select f (k ++ l) ≡ select f k ++ select f l
select-append f [] l = refl
select-append f ((val, cb) ∷ k) l = ground (arith, select-append f k l)

remove_cb-append :
    (f : Flag) (cb : ℕ) (k l : List Waiter)
    → holds_cb cb k ≡ false
    → remove_cb cb (select f k ++ l) ≡ select f k ++ remove_cb cb l
remove_cb-append f cb [] l h = refl
remove_cb-append f cb ((val, c) ∷ k) l h = ground (arith, remove_cb-append f cb k l)

remove_at :
    (cb : ℕ) (val : Mask) (k l : List Waiter) (f : Flag)
    → holds_cb cb k ≡ false
    → remove_everywhere (val, cb) (by_flag (k ++ (val, cb) ∷ l)) f ≡ by_flag (k ++ l) f
remove_at cb val k l f h =
    rw (select-append f k ((val, cb) ∷ l), select-append f k l)
      (ground (arith, remove_cb-append f cb k ((val, cb) ∷ select f l)))

remove_everywhere-by_flag :
    (cb : ℕ) (val : Mask) (k l : List Waiter)
    → holds_cb cb k ≡ false
    → remove_everywhere (val, cb) (by_flag (k ++ (val, cb) ∷ l)) ≡ by_flag (k ++ l)
remove_everywhere-by_flag cb val k l h = fun_ext (λ f. remove_at cb val k l f h)

holds_cb-append :
    (cb : ℕ) (k l : List Waiter) → holds_cb cb (k ++ l) ≡ (holds_cb cb k || holds_cb cb l)
holds_cb-append cb [] l = refl
holds_cb-append cb ((val, c) ∷ k) l = ground (arith, holds_cb-append cb k l)

different-append :
    (k : List Waiter) (val : Mask) (cb : ℕ) (l : List Waiter)
    → different (k ++ (val, cb) ∷ l) ≡ true
    → (holds_cb cb k ≡ false) × (different (k ++ l) ≡ true)
different-append [] val cb l d = (refl, ground arith)
different-append ((v, c) ∷ k) val cb l d = (
  ground (arith, different-append k val cb l, holds_cb-append c k ((val, cb) ∷ l)),
  ground (
    arith,
    different-append k val cb l,
    holds_cb-append c k ((val, cb) ∷ l),
    holds_cb-append c k l,
  ),
)

resume_all-select :
    (f : Flag) (kept rest : List Waiter)
    → different (kept ++ rest) ≡ true
    → resume_all (select f rest) (by_flag (kept ++ rest))
      ≡ (continuations (select f rest), by_flag (kept ++ reject f rest))
unfolding resume_all
resume_all-select f kept [] d = refl
resume_all-select f kept ((val, cb) ∷ l) d = elim (Bool-cases (val f)) [
  | inl e ↦
      let (free, rest) = different-append kept val cb l d in
      rw (e, remove_everywhere-by_flag cb val kept l free)
        (ap (λ r. (cb ∷ r.0, r.1)) (resume_all-select f kept l rest))
  | inr e ↦ rw e (
      subst
        (λ x.
          resume_all (select f l) (by_flag x)
          ≡ (continuations (select f l), by_flag (kept ++ (val, cb) ∷ reject f l)))
        (append_assoc kept ((val, cb) ∷ []) l)
        (resume_all-select f (kept ++ (val, cb) ∷ []) l
            (subst (λ x. different x ≡ true) (sym (append_assoc kept ((val, cb) ∷ []) l)) d)
          ∙ ap (λ x. (continuations (select f l), by_flag x))
              (append_assoc kept ((val, cb) ∷ []) (reject f l))))
]

holds_cb-reject :
    (cb : ℕ) (f : Flag) (l : List Waiter) → holds_cb cb l ≡ false → holds_cb cb (reject f l) ≡ false
holds_cb-reject cb f [] h = refl
holds_cb-reject cb f ((val, c) ∷ l) h = ground (arith, holds_cb-reject cb f l)

different-reject : (f : Flag) (l : List Waiter) → different l ≡ true → different (reject f l) ≡ true
different-reject f [] d = refl
different-reject f ((val, cb) ∷ l) d = ground (arith, different-reject f l, holds_cb-reject cb f l)

-- A request with one of the flags.
abbrev pub wants : List Flag → Mask → Bool
wants [] val = false
wants (f ∷ flags) val = val f || wants flags val

abbrev pub left_waiting : List Flag → List Waiter → List Waiter
left_waiting flags [] = []
left_waiting flags ((val, cb) ∷ l) =
    if wants flags val then left_waiting flags l else (val, cb) ∷ left_waiting flags l

left_waiting-none : (l : List Waiter) → left_waiting [] l ≡ l
left_waiting-none [] = refl
left_waiting-none ((val, cb) ∷ l) = ap (λ x. (val, cb) ∷ x) (left_waiting-none l)

left_waiting-reject :
    (f : Flag) (flags : List Flag) (l : List Waiter)
    → left_waiting flags (reject f l) ≡ left_waiting (f ∷ flags) l
left_waiting-reject f flags [] = refl
left_waiting-reject f flags ((val, cb) ∷ l) = ground (arith, left_waiting-reject f flags l)

abbrev pub times : ℕ → List ℕ → ℕ
times n [] = 0
times n (a ∷ l) = if a == n then times n l + 1 else times n l

times-append : (n : ℕ) (k l : List ℕ) → times n (k ++ l) ≡ times n k + times n l
times-append n [] l = omega arith
times-append n (a ∷ k) l = ground (arith, times-append n k l)

times-select :
    (n : ℕ) (f : Flag) (l : List Waiter)
    → times n (continuations (select f l)) + times n (continuations (reject f l))
      ≡ times n (continuations l)
times-select n f [] = refl
times-select n f ((val, cb) ∷ l) = ground (arith, times-select n f l)

resume_flags-once :
    (n : ℕ) (flags : List Flag) (l : List Waiter)
    → different l ≡ true
    → ((resume_flags flags (by_flag l)).1 ≡ by_flag (left_waiting flags l))
      × (times n (resume_flags flags (by_flag l)).0 + times n (continuations (left_waiting flags l))
          ≡ times n (continuations l))
unfolding resume_flags
resume_flags-once n [] l d =
    (ap by_flag (sym (left_waiting-none l)), rw (left_waiting-none l) (omega arith))
resume_flags-once n (f ∷ flags) l d =
    let (r, c) = resume_flags-once n flags (reject f l) (different-reject f l d) in
    rw (resume_all-select f [] l d) (
      r ∙ ap by_flag (left_waiting-reject f flags l),
      omega (
        arith,
        times-append n (continuations (select f l)) (resume_flags flags (by_flag (reject f l))).0,
        times-select n f l,
        c,
        ap (λ x. times n (continuations x)) (left_waiting-reject f flags l),
      ),
    )

add_waiters-by_flag : (l k : List Waiter) → add_waiters l (by_flag k) ≡ by_flag (k ++ l)
unfolding add_waiters
add_waiters-by_flag [] k = ap by_flag (sym (append-nil k))
add_waiters-by_flag ((val, cb) ∷ l) k =
    ap (add_waiters l) (
      fun_ext {g = by_flag (k ++ (val, cb) ∷ [])}
        (λ f. rw (select-append f k ((val, cb) ∷ [])) (ground (arith, append-nil (select f k)))))
    ∙ add_waiters-by_flag l (k ++ (val, cb) ∷ [])
    ∙ ap by_flag (append_assoc k ((val, cb) ∷ []) l)

-- When an event has come, all requests being of different continuations: of the requests that wait and
-- those that are new, exactly the ones without any flag of the event still wait, under all of their
-- flags, and each of the others was resumed once, also one that has several flags of the event.
pub dispatch_event-once :
    (n : ℕ) (old new : List Waiter) (flags : List Flag)
    → different (old ++ new) ≡ true
    → ((dispatch_event new flags (by_flag old)).1 ≡ by_flag (left_waiting flags (old ++ new)))
      × (times n (dispatch_event new flags (by_flag old)).0
            + times n (continuations (left_waiting flags (old ++ new)))
          ≡ times n (continuations (old ++ new)))
unfolding dispatch_event
dispatch_event-once n old new flags d =
    rw (add_waiters-by_flag new old) (resume_flags-once n flags (old ++ new) d)
