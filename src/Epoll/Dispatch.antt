-- ===== src/Epoll/Dispatch.antt =====
-- python/rsyscall/epoller.py: how events reach the file descriptors, and those who wait for them.
use rsyscall.Base.{
  ℕ, ◌+◌, Bool, true, false, not, ◌&&◌, ◌||◌, List, [], ◌∷◌, ◌++◌, Option, none, some,
  if◌then◌else◌, ◌==◌, has,
}
use rsyscall.Epoll.{Flag, Mask, any}
pub mod Waiters
pub mod Rounds
mod Examples

-- A request of `wait_for`: its flags and its continuation.
abbrev pub Waiter : Type 0
Waiter = Mask × ℕ

abbrev pub Waiters : Type 0
Waiters = Flag → List Waiter

-- `waiters[flag].append((val, coro))` for each flag of `val`.
abbrev pub add_waiter : Waiter → Waiters → Waiters
add_waiter (val, coro) waiters flag =
    if val flag then waiters flag ++ (val, coro) ∷ [] else waiters flag

unfoldable pub add_waiters : List Waiter → Waiters → Waiters
add_waiters [] waiters = waiters
add_waiters (w ∷ l) waiters = add_waiters l (add_waiter w waiters)

-- The continuations of two requests differ, so that `remove` takes out the one that is equal.
abbrev pub remove_cb : ℕ → List Waiter → List Waiter
remove_cb cb [] = []
remove_cb cb ((val, c) ∷ l) = if c == cb then l else (val, c) ∷ remove_cb cb l

-- The loop over `waiting_flag`.
abbrev pub remove_everywhere : Waiter → Waiters → Waiters
remove_everywhere (val, cb) waiters flag =
    if val flag then remove_cb cb (waiters flag) else waiters flag

-- The loop over a copy of the list of one flag: those that are resumed, and the other lists.
unfoldable pub resume_all : List Waiter → Waiters → List ℕ × Waiters
resume_all [] waiters = ([], waiters)
resume_all ((val, cb) ∷ l) waiters =
    let (resumed, waiters') = resume_all l (remove_everywhere (val, cb) waiters) in
    (cb ∷ resumed, waiters')

-- The loop over the flags of the event.
unfoldable pub resume_flags : List Flag → Waiters → List ℕ × Waiters
resume_flags [] waiters = ([], waiters)
resume_flags (flag ∷ flags) waiters =
    let (resumed, waiters') = resume_all (waiters flag) waiters in
    let (more, waiters'') = resume_flags flags waiters' in (resumed ++ more, waiters'')

-- The part of `EpolledFileDescriptor._run` after an event has come: the requests that are in the queue,
-- and the flags of the event.
unfoldable pub dispatch_event : List Waiter → List Flag → Waiters → List ℕ × Waiters
unfolding resume_flags resume_all add_waiters
dispatch_event requests flags waiters = resume_flags flags (add_waiters requests waiters)

-- What `EpollWaiter._run` does to the coroutine of a number.
pub data Delivery : Type 0 where
  sent : ℕ → Mask → Delivery
  removed : ℕ → Delivery

-- `number_to_cb` by the numbers that it has, the numbers that ask in `queue`, and `pending_remove`.
pub record EpollWaiter : Type 0 where
  pub number_to_cb : ℕ → Bool
  pub queue : List ℕ
  pub pending_remove : List ℕ

abbrev pub fetch : List ℕ → (ℕ → Bool) → ℕ → Bool
fetch queue number_to_cb n = has n queue || number_to_cb n

abbrev pub delete : ℕ → (ℕ → Bool) → ℕ → Bool
delete k number_to_cb n = if n == k then false else number_to_cb n

-- The loop over the events. The coroutine of a number that is sent its event asks for the next one at
-- once, through the queue. `none` is a KeyError.
unfoldable pub send_events :
    List (ℕ × Mask) → (ℕ → Bool) → Option (List Delivery × List ℕ × (ℕ → Bool))
send_events [] number_to_cb = some ([], [], number_to_cb)
send_events ((n, ev) ∷ l) number_to_cb =
    let rest = send_events l (delete n number_to_cb) in
    if number_to_cb n
    then elim rest [
      | none ↦ none
      | some (deliveries, queue, left) ↦ some (sent n ev ∷ deliveries, n ∷ queue, left)
    ]
    else none

-- The loop over `pending_remove`; the coroutines of these numbers end.
unfoldable pub remove_pending : List ℕ → (ℕ → Bool) → Option (List Delivery × (ℕ → Bool))
remove_pending [] number_to_cb = some ([], number_to_cb)
remove_pending (n ∷ l) number_to_cb =
    let rest = remove_pending l (delete n number_to_cb) in
    if number_to_cb n
    then elim rest [ none ↦ none | some (deliveries, left) ↦ some (removed n ∷ deliveries, left) ]
    else none

-- A turn of the loop, from the events that were read on.
abbrev pub finish_round :
    List Delivery → Option (List Delivery × (ℕ → Bool)) → Option (List Delivery × EpollWaiter)
finish_round first none = none
finish_round first (some (deliveries, left)) =
    some (first ++ deliveries, record { number_to_cb = left; queue = []; pending_remove = [] })

abbrev pub after_events :
    List ℕ → Option (List Delivery × List ℕ × (ℕ → Bool)) → Option (List Delivery × EpollWaiter)
after_events pending none = none
after_events pending (some (deliveries, queue, left)) =
    finish_round deliveries (remove_pending pending (fetch queue left))

unfoldable pub run_round : List (ℕ × Mask) → EpollWaiter → Option (List Delivery × EpollWaiter)
unfolding send_events remove_pending
run_round events w =
    after_events w.pending_remove (send_events events (fetch w.queue w.number_to_cb))
