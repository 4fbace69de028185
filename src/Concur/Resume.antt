-- ===== src/Concur/Resume.antt =====
-- python/dneio/concur.py: who is resumed by an Event and by a Future.
use rsyscall.Base.{
  ℕ, ◌≡◌, refl, sym, ap, ◌∙◌, Bool, true, false, List, [], ◌∷◌, ◌++◌, Option, none, some,
}
use mathlib.Core.List.{append_assoc, append-nil}
use rsyscall.Concur.{
  Event, new_event, ended, wait, end_all, set_event, close_event, wait_all, Future, new_future,
  Resumed, resumed, get_refused, finish_future, get, get_all,
}

abbrev event_of : List ℕ → Bool → Option ℕ → Event
event_of cbs set exc = record { waiting_cbs = cbs; is_set = set; exc = exc }

wait_all-unset :
    (l k : List ℕ) (exc : Option ℕ)
    → wait_all l (event_of k false exc) ≡ ([], event_of (k ++ l) false exc)
unfolding wait_all wait
wait_all-unset [] k exc = ap (λ x. ([], event_of x false exc)) (sym (append-nil k))
wait_all-unset (cb ∷ l) k exc =
    wait_all-unset l (k ++ cb ∷ []) exc
    ∙ ap (λ x. ([], event_of x false exc)) (append_assoc k (cb ∷ []) l)

wait_all-is_set :
    (l k : List ℕ) (exc : Option ℕ)
    → wait_all l (event_of k true exc) ≡ (end_all l exc, event_of k true exc)
unfolding wait_all wait
wait_all-is_set [] k exc = refl
wait_all-is_set (cb ∷ l) k exc = ap (λ x. (ended cb exc ∷ x.0, x.1)) (wait_all-is_set l k exc)

-- The calls of `wait` before `set` do not return; `set` resumes each of them once, in their order, and
-- they return; the calls after it return at once. With `close` in place of `set` all of them raise its
-- exception. A second `set`, or a `close` after a `set`, resumes the first calls again.
pub event_lem :
    (before after : List ℕ) (exn : ℕ)
    → ((wait_all before new_event).0 ≡ [])
      × ((set_event (wait_all before new_event).1).0 ≡ end_all before none)
      × ((wait_all after (set_event (wait_all before new_event).1).1).0 ≡ end_all after none)
      × ((close_event exn (wait_all before new_event).1).0 ≡ end_all before (some exn))
      × ((wait_all after (close_event exn (wait_all before new_event).1).1).0
          ≡ end_all after (some exn))
      × ((set_event (wait_all after (set_event (wait_all before new_event).1).1).1).0
          ≡ end_all before none)
unfolding set_event close_event
event_lem before after exn = rw (wait_all-unset before [] none) (
  refl,
  refl,
  ap (λ x. x.0) (wait_all-is_set after before none),
  refl,
  ap (λ x. x.0) (wait_all-is_set after before (some exn)),
  ap (λ x. end_all x.1.waiting_cbs x.1.exc) (wait_all-is_set after before none),
)

module _ {R : Type 0} where
  abbrev pub resumed_all : List ℕ → R → List (Resumed R)
  resumed_all [] r = []
  resumed_all (cb ∷ l) r = resumed cb r ∷ resumed_all l r

  abbrev pub refuse_all : List ℕ → List (Resumed R)
  refuse_all [] = []
  refuse_all (cb ∷ l) = get_refused cb ∷ refuse_all l

  abbrev finished : R → Option ℕ → Future R
  finished r cb = record { result = some r; result_cb = cb }

  get_all-finished :
      (l : List ℕ) (cb : Option ℕ) (r : R)
      → get_all l (finished r cb) ≡ (resumed_all l r, finished r cb)
  unfolding get_all get
  get_all-finished [] cb r = refl
  get_all-finished (c ∷ l) cb r = ap (λ x. (resumed c r ∷ x.0, x.1)) (get_all-finished l cb r)

  get_all-taken :
      (l : List ℕ) (first : ℕ)
      → get_all l (record { result = none; result_cb = some first })
        ≡ (refuse_all l, record { result = none; result_cb = some first })
  unfolding get_all get
  get_all-taken [] first = refl
  get_all-taken (cb ∷ l) first = rw (get_all-taken l first) refl

  -- Of the calls of `get` before the function of a Future ends, the first waits and the others fail
  -- the assertion; when it ends, the first alone is resumed, with the outcome; the calls after that
  -- get the outcome at once.
  pub future_lem :
      (first : ℕ) (before after : List ℕ) (r : R)
      → ((get_all (first ∷ before) new_future).0 ≡ refuse_all before)
        × ((finish_future r (get_all (first ∷ before) new_future).1).0 ≡ resumed first r ∷ [])
        × ((get_all after (finish_future r (get_all (first ∷ before) new_future).1).1).0
            ≡ resumed_all after r)
        × ((finish_future r new_future).0 ≡ [])
        × ((get_all after (finish_future r new_future).1).0 ≡ resumed_all after r)
  unfolding get_all get finish_future
  future_lem first before after r = rw (get_all-taken before first) (
    refl,
    refl,
    ap (λ x. x.0) (get_all-finished after (some first) r),
    refl,
    ap (λ x. x.0) (get_all-finished after none r),
  )
