-- ===== src/Epoll/Dispatch/Examples.antt =====
-- A round of epoll and the requests of a file descriptor, at concrete values.
use rsyscall.Base.{◌+◌, ◌≡◌, refl, false, ◌||◌, List, [], ◌∷◌, ◌++◌, some, if◌then◌else◌, ◌==◌, has}
use rsyscall.Epoll.{in_flag, hup, read_flags, write_flags}
use rsyscall.Epoll.Dispatch.{Waiter, dispatch_event, EpollWaiter, run_round}
use rsyscall.Epoll.Dispatch.Rounds.{all_sent, all_removed, run_round-delivers}
use rsyscall.Epoll.Dispatch.Waiters.{
  by_flag, left_waiting, continuations, times, dispatch_event-once,
}

abbrev two_numbers : EpollWaiter
two_numbers = record { number_to_cb = λ n. n == 4; queue = 7 ∷ []; pending_remove = 4 ∷ [] }

run_round-delivers_example :
    run_round ((7, read_flags) ∷ (4, write_flags) ∷ []) two_numbers
    ≡ some (
      all_sent ((7, read_flags) ∷ (4, write_flags) ∷ []) ++ all_removed (4 ∷ []),
      record {
        number_to_cb = λ n. if has n (4 ∷ []) then false else has n (7 ∷ []) || (n == 4);
        queue = [];
        pending_remove = [];
      },
    )
run_round-delivers_example =
    run_round-delivers ((7, read_flags) ∷ (4, write_flags) ∷ []) two_numbers refl refl refl refl

abbrev reader : List Waiter
reader = (read_flags, 1) ∷ []

abbrev writer : List Waiter
writer = (write_flags, 2) ∷ []

dispatch_event-once_example :
    ((dispatch_event writer (in_flag ∷ hup ∷ []) (by_flag reader)).1
      ≡ by_flag (left_waiting (in_flag ∷ hup ∷ []) (reader ++ writer)))
    × (times 1 (dispatch_event writer (in_flag ∷ hup ∷ []) (by_flag reader)).0
          + times 1 (continuations (left_waiting (in_flag ∷ hup ∷ []) (reader ++ writer)))
        ≡ 1)
dispatch_event-once_example = dispatch_event-once 1 reader writer (in_flag ∷ hup ∷ []) refl
