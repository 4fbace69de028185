-- ===== src/Process/Examples.antt =====
-- A child that exits with status 3, and a child that stops, at concrete values.
use rsyscall.Base.{
  ℕ, ◌≡◌, refl, true, false, not, ◌&&◌, ◌||◌, List, [], ◌∷◌, none, some, if◌then◌else◌, inl, inr,
  ap,
}
use rsyscall.Process.Wait.{
  Cld, W, Siginfo, ChildState, state, died, Numbers, make_state, make_from_siginfo,
}
use rsyscall.Process.Wait.Category.{only}
use rsyscall.Process.Child.{ChildProcess, new_child, kill, waitid, enter, is_some, no_longer_alive}
use rsyscall.Process.Child.World.{
  World, new_world, Reach, sent, answered, store, start, event, here, next,
}
use rsyscall.Process.Child.Safety.{is_sent, refused, Reach-reaped, tells_at}
use rsyscall.Process.Monitor.{
  Turn, top, returned, new_monitor, waitpid, go, changes, read_signalfd, turn, turns, signal_child,
}
use rsyscall.Process.Monitor.Wakeup.{waitpid-wakes}
use rsyscall.Process.Monitor.Kill.{signal_child_lem}

abbrev exit_numbers : Numbers
exit_numbers = record { cld = λ n. some Cld.exited; is_sig = λ n. true }

abbrev exit_siginfo : Siginfo
exit_siginfo = record { code = 1; pid = 40; uid = 0; status = 3 }

abbrev exit_state : ChildState
exit_state = record { code = Cld.exited; pid = 40; uid = 0; exit_status = some 3; sig = none }

exit_parsed : make_from_siginfo exit_numbers exit_siginfo ≡ some exit_state
unfolding make_from_siginfo make_state
exit_parsed = refl

abbrev memory : ℕ → Siginfo
memory p = exit_siginfo

abbrev entered : World
entered = record (new_world memory) {
  child = record new_child { in_use = true };
  flight = sent (waitid (only W.exited) 7);
}

abbrev waited : World
waited = record entered {
  flight = answered (waitid (only W.exited) 7) true;
  memory = store 7 exit_siginfo memory;
  reaped = false || (died exit_state && not (only W.exited W.nowait));
}

enters : enter new_child ≡ inr (record new_child { in_use = true })
unfolding enter
enters = refl

reaped : waited.reaped ≡ true
unfolding died
reaped = refl

waited-Reach : Reach exit_numbers (new_world memory) waited
waited-Reach =
    next
      (next here (
        start (new_world memory) (waitid (only W.exited) 7) (record new_child { in_use = true })
          enters))
      (event entered (only W.exited) 7 exit_siginfo exit_state refl refl exit_parsed)

Reach-reaped_example : (is_sent waited.flight ≡ false) × (refused (enter waited.child) ≡ true)
Reach-reaped_example = Reach-reaped exit_numbers memory waited waited-Reach reaped

abbrev unread_child : ChildProcess
unread_child = record new_child { unread_siginfo = some 7 }

signal_child_lem_example :
    ((signal_child exit_numbers memory (kill 15) true unread_child).0
      ≡ (if false || tells_at exit_numbers memory (some 7) then inl no_longer_alive else inr true))
    × ((signal_child exit_numbers memory (kill 15) true unread_child).1.unread_siginfo ≡ none)
signal_child_lem_example =
    signal_child_lem exit_numbers memory (kill 15) true unread_child refl refl
      (ap is_some exit_parsed)

abbrev stop_state : ChildState
stop_state = record { code = Cld.stopped; pid = 40; uid = 0; exit_status = none; sig = some 19 }

abbrev sleepy : List Turn
sleepy = waitpid (only W.stopped) ∷ go ∷ go ∷ go ∷ changes stop_state ∷ []

asleep : (turns sleepy new_monitor).place ≡ top (only W.stopped)
unfolding turns turn
asleep = refl

marked : (turns sleepy new_monitor).next_sigchld ≡ some 0
unfolding turns turn
marked = refl

alive : (turns sleepy new_monitor).death_state ≡ none
unfolding turns turn
alive = refl

changed : (turns sleepy new_monitor).change ≡ some stop_state
unfolding turns turn
changed = refl

stop_category : state (only W.stopped) stop_state ≡ true
unfolding state
stop_category = refl

waitpid-wakes_example :
    (turns (read_signalfd ∷ go ∷ go ∷ go ∷ []) (turns sleepy new_monitor)).place
    ≡ returned stop_state
waitpid-wakes_example =
    waitpid-wakes sleepy (only W.stopped) 0 stop_state asleep marked alive changed stop_category
