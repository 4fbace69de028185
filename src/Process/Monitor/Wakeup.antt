-- ===== src/Process/Monitor/Wakeup.antt =====
-- python/rsyscall/monitor.py: no SIGCHLD is missed by waitpid.
use rsyscall.Base.{
  ℕ, ◌≡◌, refl, Bool, true, not, ◌&&◌, ◌||◌, List, [], ◌∷◌, Option, none, some, ltb, leb, arith,
}
use rsyscall.Process.Wait.{Options, ChildState, state}
use rsyscall.Process.Child.{is_some}
use rsyscall.Process.Monitor.{
  Place, top, reading, asking, fetched, returned, Monitor, new_monitor, Turn, waitpid, go, cancel,
  changes, read_signalfd, turn, turns,
}

-- A wait for the event `n` ends: the event is set, or a SIGCHLD is there that will set it, or the
-- child has no state change to report.
abbrev pub woken : ℕ → Monitor → Bool
woken n m = ltb n m.next_signal || m.sigchld || not (is_some m.change)

abbrev pub woken_sigchld : Option ℕ → Monitor → Bool
woken_sigchld none m = true
woken_sigchld (some n) m = leb n m.next_signal && woken n m

-- An event that was saved before the waitid; the waitid has found no change.
abbrev woken_place : Place → Option (Option ChildState) → Monitor → Bool
woken_place (reading options saved) unread m =
    not (is_some m.next_sigchld) && leb saved m.next_signal
woken_place (asking options saved) unread m =
    not (is_some m.next_sigchld) && leb saved m.next_signal
woken_place (fetched options saved) (some none) m =
    not (is_some m.next_sigchld) && leb saved m.next_signal && woken saved m
woken_place (fetched options saved) unread m =
    not (is_some m.next_sigchld) && leb saved m.next_signal && is_some unread
woken_place place unread m = true

record Awake (m : Monitor) : Type 0 where
  event : woken_sigchld m.next_sigchld m ≡ true
  saved : woken_place m.place m.unread m ≡ true
  parsed : (not (is_some m.next_sigchld) || not (is_some m.unread)) ≡ true

waitpid-Awake : (options : Options) (m : Monitor) → Awake m → Awake (turn (waitpid options) m)
unfolding turn
waitpid-Awake options m a = ground arith

cancel-Awake : (m : Monitor) → Awake m → Awake (turn cancel m)
unfolding turn
cancel-Awake m a = ground arith

changes-Awake : (s : ChildState) (m : Monitor) → Awake m → Awake (turn (changes s) m)
unfolding turn
changes-Awake s m a = ground arith

read_signalfd-Awake : (m : Monitor) → Awake m → Awake (turn read_signalfd m)
unfolding turn
read_signalfd-Awake m a = ground arith

go-Awake : (m : Monitor) → Awake m → Awake (turn go m)
unfolding turn
go-Awake m a = ground arith

turn-Awake : (a : Turn) (m : Monitor) → Awake m → Awake (turn a m)
turn-Awake (waitpid options) m k = waitpid-Awake options m k
turn-Awake go m k = go-Awake m k
turn-Awake cancel m k = cancel-Awake m k
turn-Awake (changes s) m k = changes-Awake s m k
turn-Awake read_signalfd m k = read_signalfd-Awake m k

turns-Awake : (l : List Turn) (m : Monitor) → Awake m → Awake (turns l m)
unfolding turns
turns-Awake [] m k = k
turns-Awake (a ∷ l) m k = turns-Awake l (turn a m) (turn-Awake a m k)

-- With the child alive, and the wait's event unset or set.
Awake-turns :
    (m : Monitor) (options : Options) (n : ℕ) (s : ChildState)
    → Awake m
    → m.place ≡ top options
    → m.next_sigchld ≡ some n
    → m.death_state ≡ none
    → m.change ≡ some s
    → state options s ≡ true
    → (turns (read_signalfd ∷ go ∷ go ∷ go ∷ []) m).place ≡ returned s
unfolding turns turn
Awake-turns m options n s k e f g h i = ground arith

-- After any sequence of turns: if a call of `waitpid` waits for a SIGCHLD, the child is not known to
-- be dead, and it has a state change that the options ask for, then the call returns that change once
-- the signalfd is read and the call has gone on. Whatever happened between the waitid before and the
-- wait, it does not sleep on.
pub waitpid-wakes :
    (l : List Turn) (options : Options) (n : ℕ) (s : ChildState)
    → (turns l new_monitor).place ≡ top options
    → (turns l new_monitor).next_sigchld ≡ some n
    → (turns l new_monitor).death_state ≡ none
    → (turns l new_monitor).change ≡ some s
    → state options s ≡ true
    → (turns (read_signalfd ∷ go ∷ go ∷ go ∷ []) (turns l new_monitor)).place ≡ returned s
waitpid-wakes l options n s e f g h i =
    Awake-turns (turns l new_monitor) options n s
      (turns-Awake l new_monitor (record { event = refl; saved = refl; parsed = refl })) e f g h i
